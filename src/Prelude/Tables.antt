-- ===== src/Prelude/Tables.antt =====
-- The queries and updates of a table that is a list of rows: `.first()`, `.update(...)` and deletion.
use mathlib.Core.Path.{◌≡◌, refl, subst, ◌∙◌}
use mathlib.Core.Logic.{inl, inr}
use mathlib.Core.Bool.{Bool, not}
use mathlib.Core.Option.{Option, none, some}
use mathlib.Core.List.{List, [], ◌∷◌}
use native.Mathlib.Omega.{arith}
use net_discover.Prelude.Tests.{if◌then◌else◌, Bool-cases}
use net_discover.Prelude.Lists.{All, keep}

module _ {ℓ} {A : Type ℓ} where
  unfoldable pub find_where : (A → Bool) → List A → Option A
  find_where p [] = none
  find_where p (x ∷ xs) = if p x then some x else find_where p xs

  -- Every row that the condition matches is written.
  unfoldable pub change_where : (A → Bool) → (A → A) → List A → List A
  change_where p f [] = []
  change_where p f (x ∷ xs) = (if p x then f x else x) ∷ change_where p f xs

  unfoldable pub delete_where : (A → Bool) → List A → List A
  unfolding keep
  delete_where p xs = keep (λ x. not (p x)) xs

  abbrev pub map_found : (A → A) → Option A → Option A
  map_found f none = none
  map_found f (some x) = some (f x)

  pub find_where-change_where :
      (p q : A → Bool) (f : A → A) (xs : List A)
      → ((x : A) → p (f x) ≡ p x)
      → find_where p (change_where q f xs)
        ≡ map_found (λ x. if q x then f x else x) (find_where p xs)
  unfolding find_where change_where
  find_where-change_where p q f [] same = refl
  find_where-change_where p q f (x ∷ xs) same =
      ground (arith, same x, find_where-change_where p q f xs same)

  -- What holds of each row and is kept by the write holds after it.
  pub All-change_where {κ} :
      (P : A → Type κ) (q : A → Bool) (f : A → A) (xs : List A)
      → ((x : A) → q x ≡ Bool.true → P x → P (f x))
      → All P xs
      → All P (change_where q f xs)
  unfolding change_where
  All-change_where P q f [] kept h = tt
  All-change_where P q f (x ∷ xs) kept h = elim (Bool-cases (q x)) [
    | inl hit ↦ rw hit (kept x hit h.0, All-change_where P q f xs kept h.1)
    | inr miss ↦ rw miss (h.0, All-change_where P q f xs kept h.1)
  ]

  pub All-keep {κ} : (P : A → Type κ) (q : A → Bool) (xs : List A) → All P xs → All P (keep q xs)
  unfolding keep
  All-keep P q [] h = tt
  All-keep P q (x ∷ xs) h = elim (Bool-cases (q x)) [
    | inl hit ↦ rw hit (h.0, All-keep P q xs h.1)
    | inr miss ↦ rw miss (All-keep P q xs h.1)
  ]

  pub All-find_where {κ} :
      (P : A → Type κ) (p : A → Bool) (xs : List A) {x : A}
      → All P xs
      → find_where p xs ≡ some x
      → P x
  unfolding find_where
  All-find_where P p [] h found = absurd (ground (arith, found))
  All-find_where P p (y ∷ ys) {x} h found = elim (Bool-cases (p y)) [
    | inl hit ↦ subst P (ground (arith, found, hit)) h.0
    | inr miss ↦ All-find_where P p ys h.1 (ground (arith, found, miss))
  ]

  pub found-find_where :
      (p : A → Bool) (xs : List A) {x : A} → find_where p xs ≡ some x → p x ≡ Bool.true
  unfolding find_where
  found-find_where p [] found = absurd (ground (arith, found))
  found-find_where p (y ∷ ys) {x} found = ground (arith, found, found-find_where p ys {x = x})

  -- A unique key of the table: no two rows are the same by it.
  abbrev pub Unique : (A → A → Bool) → List A → Type ℓ
  Unique same [] = Unit
  Unique same (x ∷ xs) = (find_where (same x) xs ≡ none) × Unique same xs

  pub find_where-keep-none :
      (p q : A → Bool) (xs : List A) → find_where p xs ≡ none → find_where p (keep q xs) ≡ none
  unfolding find_where keep
  find_where-keep-none p q [] h = refl
  find_where-keep-none p q (x ∷ xs) h = ground (arith, h, find_where-keep-none p q xs)

  pub Unique-keep :
      (same : A → A → Bool) (q : A → Bool) (xs : List A) → Unique same xs → Unique same (keep q xs)
  unfolding keep
  Unique-keep same q [] u = tt
  Unique-keep same q (x ∷ xs) u = elim (Bool-cases (q x)) [
    | inl hit ↦ rw hit (find_where-keep-none (same x) q xs u.0, Unique-keep same q xs u.1)
    | inr miss ↦ rw miss (Unique-keep same q xs u.1)
  ]

  find_where-change_where-none :
      (p p' q : A → Bool) (f : A → A) (xs : List A)
      → ((x : A) → p' x ≡ p x)
      → ((x : A) → p' (f x) ≡ p x)
      → find_where p xs ≡ none
      → find_where p' (change_where q f xs) ≡ none
  unfolding find_where change_where
  find_where-change_where-none p p' q f [] kept written h = refl
  find_where-change_where-none p p' q f (x ∷ xs) kept written h =
      ground (arith, kept x, written x, h, find_where-change_where-none p p' q f xs kept written)

  -- A write that keeps the key.
  pub Unique-change_where :
      (same : A → A → Bool) (q : A → Bool) (f : A → A) (xs : List A)
      → ((x y : A) → same x (f y) ≡ same x y)
      → ((x y : A) → same (f x) y ≡ same x y)
      → Unique same xs
      → Unique same (change_where q f xs)
  unfolding change_where find_where
  Unique-change_where same q f [] right left u = tt
  Unique-change_where same q f (x ∷ xs) right left u = elim (Bool-cases (q x)) [
    | inl hit ↦ rw hit (
      find_where-change_where-none (same x) (same (f x)) q f xs (λ y. left x y)
          (λ y. left x (f y) ∙ right x y) u.0,
      Unique-change_where same q f xs right left u.1,
    )
    | inr miss ↦ rw miss (
      find_where-change_where-none (same x) (same x) q f xs (λ y. refl) (λ y. right x y) u.0,
      Unique-change_where same q f xs right left u.1,
    )
  ]

  pub find_where-delete_where :
      (p : A → Bool) (xs : List A) → find_where p (delete_where p xs) ≡ none
  unfolding find_where delete_where keep
  find_where-delete_where p [] = refl
  find_where-delete_where p (x ∷ xs) = ground (arith, find_where-delete_where p xs)
