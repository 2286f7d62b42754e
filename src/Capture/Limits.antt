-- ===== src/Capture/Limits.antt =====
-- What the capture policy of marlinspike/capture/api.py keeps a capture within.
use net_discover.Prelude.{
  Bool-cases, ltb→lt, ℕ, zero, suc, ◌*◌, ◌/◌, ◌≤◌, ◌<◌, String, List, [], ◌∷◌, Option, none, some,
  Bool, true, false, ◌&&◌, ◌≡◌, ◌↔◌, ◌⊎◌, inl, inr, refl, arith, min, max, ltb, contains, keep,
  str_eq_iff,
}
use native.Mathlib.Nat.{mul-div-le, mul-le-mul_left, le-div_iff_mul-le}
use net_discover.Capture.Policy.{
  resolve_interface_allowlist, applied, refused, file_share, shrink, apply_max_total_bytes_cap,
  IsAllowed,
}

contains-keep_iff :
    (p : String → Bool) (i : String) (xs : List String)
    → contains i (keep p xs) ≡ (contains i xs && p i)
unfolding contains keep
contains-keep_iff p i [] = refl
contains-keep_iff p i (x ∷ xs) =
    ground (arith, str_eq_iff i x, str_eq_iff x i, contains-keep_iff p i xs)

-- An interface is allowed by the resolved list exactly if neither the system's list, where it names
-- any interface, nor the project's, where it has one, leaves it out.
pub resolve_interface_allowlist_iff :
    (system : List String) (project : Option (List String)) (i : String)
    → IsAllowed i (resolve_interface_allowlist system project)
      ↔ (((system ≡ []) ⊎ (contains i system ≡ true)) × IsAllowed i project)
unfolding resolve_interface_allowlist IsAllowed
resolve_interface_allowlist_iff [] none i = ground arith
resolve_interface_allowlist_iff [] (some project) i = ground arith
resolve_interface_allowlist_iff (s ∷ ss) none i = ground arith
resolve_interface_allowlist_iff (s ∷ ss) (some project) i =
    ground (arith, contains-keep_iff (λ i. contains i (s ∷ ss)) i project)

-- An even share of the files fits.
file_share-fits : (kb filesize n : ℕ) → 1 ≤ n → n ≤ kb → n * file_share kb filesize n ≤ kb
file_share-fits kb filesize n some_file few =
    let one : 1 ≤ kb / n =
      (le-div_iff_mul-le {k = n} {x = 1} {y = kb} some_file).1 (omega (arith, few)) in
    let share : file_share kb filesize n ≤ kb / n = omega (arith, one) in
    omega (arith, mul-le-mul_left n share, mul-div-le kb n)

ltb-ge : (a b : ℕ) → b ≤ a → ltb a b ≡ false
ltb-ge a b h = ground arith

-- Files that fit stay: the loop has nothing to do.
shrink-fits :
    (kb filesize n size : ℕ) → 1 ≤ n → n * size ≤ kb → shrink kb filesize n size ≡ (n, size)
unfolding shrink
shrink-fits kb filesize zero size some_file fits = absurd (omega (arith, some_file))
shrink-fits kb filesize (suc n) size some_file fits = elim (Bool-cases (ltb 1 (suc n))) [
  | inl more ↦ rw (more, ltb-ge kb (suc n * size) fits)
  | inr one ↦ rw one
]

-- The ring that is applied under a limit.
pub record Limited (filesize_kb files cap : ℕ) : Type 0 where
  pub size : ℕ
  pub count : ℕ
  pub is_applied :
      apply_max_total_bytes_cap filesize_kb files (some cap)
      ≡ applied size count (filesize_kb * 1_024 * files) (count * size * 1_024)
  pub within : count * size * 1_024 ≤ cap
  pub some_file : 1 ≤ count
  pub no_more_files : count ≤ max 1 files
  pub no_larger : size ≤ filesize_kb

-- Under a limit on the bytes that a capture keeps, a request is refused exactly if the limit is
-- below one kibibyte; else the ring has at least one file, stays within the limit, and has no more
-- files than were asked for (one, if none were) and none larger.
pub apply_max_total_bytes_cap-Limited :
    (filesize_kb files cap : ℕ)
    → ((cap < 1_024)
        × (apply_max_total_bytes_cap filesize_kb files (some cap)
            ≡ refused (filesize_kb * 1_024 * files)))
      ⊎ ((1_024 ≤ cap) × Limited filesize_kb files cap)
unfolding apply_max_total_bytes_cap
apply_max_total_bytes_cap-Limited filesize_kb files cap =
    let kb = cap / 1_024 in
    let n = max 1 (min files kb) in
    let size = file_share kb filesize_kb n in
    elim (Bool-cases (ltb cap 1_024)) [
      | inl low ↦ inl (ltb→lt cap 1_024 low, rw low)
      | inr high ↦
          let enough : 1_024 ≤ cap = ground (arith, high) in
          let fits : n * size ≤ kb =
            file_share-fits kb filesize_kb n (omega arith) (omega (arith, enough)) in
          let within : n * size * 1_024 ≤ cap = omega (arith, fits) in
          inr (
            enough,
            record {
              size = size;
              count = n;
              is_applied = rw (
                high,
                shrink-fits kb filesize_kb n size (omega arith) fits,
                ltb-ge cap (n * size * 1_024) within,
              );
              within = within;
              some_file = omega arith;
              no_more_files = omega arith;
              no_larger = omega arith;
            },
          )
    ]
