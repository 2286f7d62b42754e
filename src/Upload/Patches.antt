-- ===== src/Upload/Patches.antt =====
-- Chunks written into a file in any order, as marlinspike/fleet/gateway/server.py writes them: what
-- the file holds where chunks have arrived.
use native.Mathlib.Nat.{mul-le-mul_right, div-lt_iff_lt-mul, mod-lt, div-add-mod'}
use net_discover.Prelude.{
  ℕ, suc, zero, ◌+◌, ◌*◌, ◌/◌, ◌%◌, ◌≤◌, ◌<◌, List, [], ◌∷◌, none, true, false, ◌≡◌, ◌≢◌, ◌∙◌, ◌⊎◌,
  inl, inr, refl, sym, ap, arith, length, take, drop, length-take, length-drop, get_elem?,
  get_elem?-take, get_elem?-drop, get_elem?-some, get_elem?-ext, ==_iff, ◌==◌, Bool-cases, dec_lt,
}
use net_discover.Upload.Disk.{overlay, write_at}
use net_discover.Upload.Transfers.{has_index, add_index}

get_elem?-overlay :
    (bs xs : List ℕ) (q : ℕ) → q < length bs → get_elem? (overlay bs xs) q ≡ get_elem? bs q
unfolding overlay
get_elem?-overlay [] xs q h = absurd (omega (arith, h))
get_elem?-overlay (b ∷ bs) [] q h = refl
get_elem?-overlay (b ∷ bs) (x ∷ xs) zero h = refl
get_elem?-overlay (b ∷ bs) (x ∷ xs) (suc q) h = get_elem?-overlay bs xs q (omega (arith, h))

overlay-behind :
    (bs xs : List ℕ) (p : ℕ)
    → length bs ≤ p
    → get_elem? xs p ≢ none
    → get_elem? (overlay bs xs) p ≡ get_elem? xs p
unfolding overlay
overlay-behind [] xs p h some_byte = refl
overlay-behind (b ∷ bs) [] p h some_byte = absurd (some_byte refl)
overlay-behind (b ∷ bs) (x ∷ xs) zero h some_byte = absurd (omega (arith, h))
overlay-behind (b ∷ bs) (x ∷ xs) (suc p) h some_byte =
    overlay-behind bs xs p (omega (arith, h)) some_byte

-- The written bytes are read back at their place.
get_elem?-write_at :
    (o : ℕ) (bs xs : List ℕ) (q p : ℕ)
    → q < length bs
    → p ≡ o + q
    → get_elem? (write_at o bs xs) p ≡ get_elem? bs q
unfolding write_at
get_elem?-write_at o [] xs q p h e = absurd (omega (arith, h))
get_elem?-write_at zero (b ∷ bs) xs q p h e =
    ap (λ i. get_elem? (overlay (b ∷ bs) xs) i) (omega (arith, e))
    ∙ get_elem?-overlay (b ∷ bs) xs q h
get_elem?-write_at (suc o) (b ∷ bs) xs q zero h e = absurd (omega (arith, e))
get_elem?-write_at (suc o) (b ∷ bs) [] q (suc p) h e =
    get_elem?-write_at o (b ∷ bs) [] q p h (omega (arith, e))
get_elem?-write_at (suc o) (b ∷ bs) (x ∷ xs) q (suc p) h e =
    get_elem?-write_at o (b ∷ bs) xs q p h (omega (arith, e))

-- The other bytes of the file stay.
write_at-elsewhere :
    (o : ℕ) (bs xs : List ℕ) (p : ℕ)
    → get_elem? xs p ≢ none
    → (p < o) ⊎ (o + length bs ≤ p)
    → get_elem? (write_at o bs xs) p ≡ get_elem? xs p
unfolding write_at
write_at-elsewhere o [] xs p byte out = refl
write_at-elsewhere zero (b ∷ bs) xs p byte out =
    overlay-behind (b ∷ bs) xs p (ground (arith, out)) byte
write_at-elsewhere (suc o) (b ∷ bs) [] p byte out = absurd (byte refl)
write_at-elsewhere (suc o) (b ∷ bs) (x ∷ xs) zero byte out = refl
write_at-elsewhere (suc o) (b ∷ bs) (x ∷ xs) (suc p) byte out =
    write_at-elsewhere o (b ∷ bs) xs p byte (ground (arith, out))

length-overlay :
    (bs xs : List ℕ) (n : ℕ) → length bs ≤ n → length xs ≤ n → length (overlay bs xs) ≤ n
unfolding overlay
length-overlay [] xs n h k = k
length-overlay (b ∷ bs) [] n h k = h
length-overlay (b ∷ bs) (x ∷ xs) zero h k = absurd (omega (arith, h))
length-overlay (b ∷ bs) (x ∷ xs) (suc n) h k =
    omega (arith, length-overlay bs xs n (omega (arith, h)) (omega (arith, k)))

length-write_at :
    (o : ℕ) (bs xs : List ℕ) (n : ℕ)
    → (length bs ≡ 0) ⊎ (o + length bs ≤ n)
    → length xs ≤ n
    → length (write_at o bs xs) ≤ n
unfolding write_at
length-write_at o [] xs n h k = k
length-write_at zero (b ∷ bs) xs n h k = length-overlay (b ∷ bs) xs n (ground (arith, h)) k
length-write_at (suc o) (b ∷ bs) xs zero h k = absurd (ground (arith, h))
length-write_at (suc o) (b ∷ bs) [] (suc n) h k =
    omega (arith, length-write_at o (b ∷ bs) [] n (ground (arith, h)) (omega arith))
length-write_at (suc o) (b ∷ bs) (x ∷ xs) (suc n) h k =
    omega (arith, length-write_at o (b ∷ bs) xs n (ground (arith, h)) (omega (arith, k)))

module _ (size : ℕ) (file : List ℕ) where
  -- The chunk of the file with this index.
  abbrev pub chunk_of : ℕ → List ℕ
  chunk_of i = take size (drop (i * size) file)

  -- The bytes are the file's wherever a chunk was received, and they are no more than the file's.
  pub record Patch (received bytes : List ℕ) : Type 0 where
    pub short : length bytes ≤ length file
    pub same :
        (j q p : ℕ)
        → has_index j received ≡ true
        → q < size
        → p ≡ j * size + q
        → p < length file
        → get_elem? bytes p ≡ get_elem? file p

  chunk_of-fits :
      (i : ℕ) → (length (chunk_of i) ≡ 0) ⊎ (i * size + length (chunk_of i) ≤ length file)
  chunk_of-fits i =
      ground (arith, length-take size (drop (i * size) file), length-drop (i * size) file)

  get_elem?-chunk_of :
      (i q p : ℕ) → q < size → p ≡ i * size + q → get_elem? (chunk_of i) q ≡ get_elem? file p
  get_elem?-chunk_of i q p within e =
      get_elem?-take size q (drop (i * size) file) within ∙ get_elem?-drop (i * size) q p file e

  byte-chunk_of :
      (i q p : ℕ) → q < size → p ≡ i * size + q → p < length file → q < length (chunk_of i)
  byte-chunk_of i q p within e inside =
      ground (arith, length-take size (drop (i * size) file), length-drop (i * size) file)

  -- Chunks with different indices do not overlap.
  chunks_apart :
      (i j q p : ℕ)
      → i ≢ j
      → q < size
      → p ≡ j * size + q
      → (p < i * size) ⊎ (i * size + length (chunk_of i) ≤ p)
  chunks_apart i j q p other within e = elim (dec_lt j i) [
    | yes before ↦
        let m : suc j * size ≤ i * size = mul-le-mul_right size (omega (arith, before)) in
        inl (omega (arith, within, e, m))
    | no after ↦
        let m : suc i * size ≤ j * size = mul-le-mul_right size (ground (arith, after, other)) in
        inr (ground (arith, e, m, length-take size (drop (i * size) file)))
  ]

  pub Patch-empty : Patch [] []
  unfolding has_index
  Patch-empty = record {
    short = omega arith;
    same = λ j q p is within e inside. absurd (ground (arith, is));
  }

  index-added :
      (i j : ℕ) (js : List ℕ)
      → has_index j (add_index i js) ≡ true
      → (i == j) ≡ false
      → has_index j js ≡ true
  unfolding has_index add_index
  index-added i j js is other = ground (arith, is, other)

  pub Patch-write :
      (i : ℕ) {received bytes : List ℕ}
      → Patch received bytes
      → Patch (add_index i received) (write_at (i * size) (chunk_of i) bytes)
  unfolding add_index has_index
  Patch-write i {received} {bytes} k = record {
    short = length-write_at (i * size) (chunk_of i) bytes (length file) (chunk_of-fits i) k.short;
    same = λ j q p is within e inside. elim (Bool-cases (i == j)) [
      | inl this ↦
          let e' : p ≡ i * size + q = e ∙ ap (λ n. n * size + q) (sym ((==_iff i j).0 this)) in
          get_elem?-write_at (i * size) (chunk_of i) bytes q p
            (byte-chunk_of i q p within e' inside) e'
          ∙ get_elem?-chunk_of i q p within e'
      | inr other ↦
          let known = k.same j q p (index-added i j received is other) within e inside in
          let (byte, here) = get_elem?-some file p inside in
          write_at-elsewhere (i * size) (chunk_of i) bytes p
            (λ gone. ground (arith, sym gone ∙ known ∙ here))
            (chunks_apart i j q p (λ same. ground (arith, same, other, ==_iff i j)) within e)
          ∙ known
    ];
  }

  -- Where every chunk was received, the bytes are the file.
  pub Patch-complete :
      (n : ℕ) (received bytes : List ℕ)
      → Patch received bytes
      → 0 < size
      → length file ≤ n * size
      → ((j : ℕ) → j < n → has_index j received ≡ true)
      → bytes ≡ file
  Patch-complete n received bytes k positive enough all =
      get_elem?-ext bytes file k.short (λ p inside.
        k.same (p / size) (p % size) p
          (all (p / size) ((div-lt_iff_lt-mul positive).1 (omega (arith, inside, enough))))
          (mod-lt p positive) (sym (div-add-mod' p size)) inside)
