-- ===== src/Runs/Rows.antt =====
-- Laws of the table of scan runs: reads after the three kinds of writes, and its unique key.
use net_discover.Prelude.{
  ℕ, String, List, [], ◌∷◌, Option, none, some, Bool, ◌&&◌, ◌≡◌, refl, arith, if◌then◌else◌, str_eq,
  str_eq_iff, count_where, Bool-cases, inl, inr,
}
use net_discover.Runs.Row.{ScanHistory, find_run, modify_run, update_where}

-- The unique key of the table: no two rows have one run id.
abbrev pub IsUnique : List ScanHistory → Type 0
IsUnique [] = Unit
IsUnique (r ∷ rs) = (find_run r.run_id rs ≡ none) × IsUnique rs

abbrev pub map_row : (ScanHistory → ScanHistory) → Option ScanHistory → Option ScanHistory
map_row f none = none
map_row f (some r) = some (f r)

-- A write keeps the id of each row.
abbrev pub KeepsId : (ScanHistory → ScanHistory) → Type 0
KeepsId f = (r : ScanHistory) → (f r).run_id ≡ r.run_id

abbrev pub when : (ScanHistory → Bool) → (ScanHistory → ScanHistory) → ScanHistory → ScanHistory
when q f r = if q r then f r else r

-- The conditions of an UPDATE that names one run.
abbrev pub for_run : String → (ScanHistory → Bool) → ScanHistory → Bool
for_run k q r = str_eq r.run_id k && q r

pub run_id-find_run :
    (k : String) (rows : List ScanHistory) {r : ScanHistory}
    → find_run k rows ≡ some r
    → r.run_id ≡ k
unfolding find_run
run_id-find_run k [] h = ground arith
run_id-find_run k (s ∷ rs) {r} h =
    ground (arith, str_eq_iff s.run_id k, run_id-find_run k rs {r = r})

module _ (f : ScanHistory → ScanHistory) (keeps : KeepsId f) where
  pub find_run-modify_run :
      (k j : String) (rows : List ScanHistory)
      → find_run j (modify_run k f rows)
        ≡ (if str_eq k j then map_row f (find_run k rows) else find_run j rows)
  unfolding find_run modify_run
  find_run-modify_run k j [] = ground arith
  find_run-modify_run k j (r ∷ rs) = ground (
    arith,
    keeps r,
    str_eq_iff k j,
    str_eq_iff r.run_id k,
    str_eq_iff r.run_id j,
    find_run-modify_run k j rs,
  )

  pub find_run-update_where :
      (k j : String) (q : ScanHistory → Bool) (rows : List ScanHistory)
      → find_run j (update_where (for_run k q) f rows)
        ≡ (if str_eq k j then map_row (when q f) (find_run k rows) else find_run j rows)
  unfolding find_run update_where
  find_run-update_where k j q [] = ground arith
  find_run-update_where k j q (r ∷ rs) = ground (
    arith,
    keeps r,
    str_eq_iff k j,
    str_eq_iff r.run_id k,
    str_eq_iff r.run_id j,
    find_run-update_where k j q rs,
  )

  find_run-modify_run-none :
      (k j : String) (rows : List ScanHistory)
      → find_run j rows ≡ none
      → find_run j (modify_run k f rows) ≡ none
  find_run-modify_run-none k j rows h = ground (arith, find_run-modify_run k j rows, str_eq_iff k j)

  pub modify_run-IsUnique :
      (k : String) (rows : List ScanHistory) → IsUnique rows → IsUnique (modify_run k f rows)
  unfolding modify_run
  modify_run-IsUnique k [] u = tt
  modify_run-IsUnique k (r ∷ rs) u = elim (Bool-cases (str_eq r.run_id k)) [
    | inl same ↦ rw (same, keeps) u
    | inr other ↦
        rw other (find_run-modify_run-none k r.run_id rs u.0, modify_run-IsUnique k rs u.1)
  ]

  find_run-update_where-none :
      (j : String) (p : ScanHistory → Bool) (rows : List ScanHistory)
      → find_run j rows ≡ none
      → find_run j (update_where p f rows) ≡ none
  unfolding find_run update_where
  find_run-update_where-none j p [] h = refl
  find_run-update_where-none j p (r ∷ rs) h =
      ground (arith, keeps r, find_run-update_where-none j p rs)

  pub update_where-IsUnique :
      (p : ScanHistory → Bool) (rows : List ScanHistory)
      → IsUnique rows
      → IsUnique (update_where p f rows)
  unfolding update_where
  update_where-IsUnique p [] u = tt
  update_where-IsUnique p (r ∷ rs) u =
      let rest = update_where-IsUnique p rs u.1 in
      elim (Bool-cases (p r)) [
        | inl hit ↦ rw (hit, keeps) (find_run-update_where-none r.run_id p rs u.0, rest)
        | inr miss ↦ rw miss (find_run-update_where-none r.run_id p rs u.0, rest)
      ]

-- The rows that an UPDATE for one run matches: one, or none.
abbrev pub matched : (ScanHistory → Bool) → Option ScanHistory → ℕ
matched q none = 0
matched q (some r) = if q r then 1 else 0

count_where-absent :
    (k : String) (q : ScanHistory → Bool) (rows : List ScanHistory)
    → find_run k rows ≡ none
    → count_where (for_run k q) rows ≡ 0
unfolding find_run count_where
count_where-absent k q [] h = refl
count_where-absent k q (r ∷ rs) h = ground (arith, count_where-absent k q rs)

pub count_where-matched :
    (k : String) (q : ScanHistory → Bool) (rows : List ScanHistory)
    → IsUnique rows
    → count_where (for_run k q) rows ≡ matched q (find_run k rows)
unfolding find_run count_where
count_where-matched k q [] u = refl
count_where-matched k q (r ∷ rs) u =
    ground (arith, str_eq_iff r.run_id k, count_where-absent k q rs, count_where-matched k q rs u.1)
