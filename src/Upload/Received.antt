-- ===== src/Upload/Received.antt =====
-- The set of received chunk indices of marlinspike/fleet/gateway/server.py, and the test that
-- pcap_complete makes of it.
use net_discover.Prelude.{
  ℕ, suc, zero, ◌≤◌, ◌<◌, List, [], ◌∷◌, true, false, ◌≡◌, ◌∙◌, refl, sym, ap, arith, length,
  ==_iff, ◌==◌, if◌then◌else◌, Bool-cases, inl, inr,
}
use net_discover.Upload.Transfers.{has_index, add_index, has_all}

-- Indices below a bound, each of them once.
abbrev pub IndexSet : ℕ → List ℕ → Type 0
IndexSet n [] = Unit
IndexSet n (j ∷ js) = ((has_index j js ≡ false) × (j < n)) × IndexSet n js

pub add_index-IndexSet :
    (n i : ℕ) (js : List ℕ) → i < n → IndexSet n js → IndexSet n (add_index i js)
unfolding add_index
add_index-IndexSet n i js below s = elim (Bool-cases (has_index i js)) [
  | inl had ↦ rw had s
  | inr new ↦ rw new ((new, below), s)
]

pub has_index-add_index_self : (i : ℕ) (js : List ℕ) → has_index i (add_index i js) ≡ true
unfolding add_index has_index
has_index-add_index_self i js = ground (arith, ==_iff i i)

pub has_index-add_index :
    (i j : ℕ) (js : List ℕ) → has_index j js ≡ true → has_index j (add_index i js) ≡ true
unfolding add_index has_index
has_index-add_index i j js had = ground (arith, had)

-- The number of indices below the bound that are in the list.
unfoldable count_below : ℕ → List ℕ → ℕ
count_below zero js = 0
count_below (suc n) js = let rest = count_below n js in if has_index n js then suc rest else rest

count_below-outside : (n j : ℕ) (js : List ℕ) → n ≤ j → count_below n (j ∷ js) ≡ count_below n js
unfolding count_below has_index
count_below-outside zero j js out = refl
count_below-outside (suc n) j js out =
    ground (arith, out, count_below-outside n j js (omega (arith, out)), ==_iff j n)

count_below-new :
    (n j : ℕ) (js : List ℕ)
    → j < n
    → has_index j js ≡ false
    → count_below n (j ∷ js) ≡ suc (count_below n js)
unfolding count_below has_index
count_below-new zero j js below new = absurd (omega (arith, below))
count_below-new (suc n) j js below new = elim (Bool-cases (j == n)) [
  | inl same ↦
      let e = (==_iff j n).0 same in
      ground (arith, e, same, new, count_below-outside n j js (omega (arith, e)))
  | inr other ↦
      ground (arith, other, count_below-new n j js (ground (arith, below, other, ==_iff j n)) new)
]

count_below-none : (n : ℕ) → count_below n [] ≡ 0
unfolding count_below has_index
count_below-none zero = refl
count_below-none (suc n) = count_below-none n

length-count_below : (n : ℕ) (js : List ℕ) → IndexSet n js → length js ≡ count_below n js
length-count_below n [] s = sym (count_below-none n)
length-count_below n (j ∷ js) s =
    ground (arith, length-count_below n js s.1, count_below-new n j js s.0.1 s.0.0)

count_below-all : (n : ℕ) (js : List ℕ) → has_all n js ≡ true → count_below n js ≡ n
unfolding count_below has_all
count_below-all zero js a = refl
count_below-all (suc n) js a = ground (arith, a, count_below-all n js)

-- Where every index has arrived, the set has as many elements as there are chunks.
pub length-has_all : (n : ℕ) (js : List ℕ) → IndexSet n js → has_all n js ≡ true → length js ≡ n
length-has_all n js s a = length-count_below n js s ∙ count_below-all n js a

pub all-has_all :
    (n : ℕ) (js : List ℕ) → ((j : ℕ) → j < n → has_index j js ≡ true) → has_all n js ≡ true
unfolding has_all
all-has_all zero js h = refl
all-has_all (suc n) js h =
    ground (arith, h n (omega arith), all-has_all n js (λ j below. h j (omega (arith, below))))

-- A missing index makes the test fail.
pub missing-has_all :
    (n j : ℕ) (js : List ℕ) → j < n → has_index j js ≡ false → has_all n js ≡ false
unfolding has_all
missing-has_all zero j js below missing = absurd (omega (arith, below))
missing-has_all (suc n) j js below missing = elim (Bool-cases (j == n)) [
  | inl same ↦
      let e = (==_iff j n).0 same in ground (arith, sym (ap (λ k. has_index k js) e) ∙ missing)
  | inr other ↦
      ground (arith, missing-has_all n j js (ground (arith, below, other, ==_iff j n)) missing)
]
