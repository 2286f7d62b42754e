-- ===== src/Recovery/Loop.antt =====
-- The whole of reap_orphan_runs (marlinspike/recovery.py) over a table: each active row becomes
-- what `reap_row` says, and no other row changes.
use net_discover.Prelude.{
  String, List, [], ◌∷◌, none, some, Bool, ◌≡◌, refl, arith, if◌then◌else◌, str_eq_iff, All, keep,
  Bool-cases, inl, inr,
}
use net_discover.Runs.Row.{ScanHistory, Database, find_run}
use net_discover.Runs.Store.{
  is_local_active, is_agent_active, get_active_for_recovery, get_active_agent_scans_for_recovery,
}
use net_discover.Runs.Rows.{IsUnique, map_row, when}
use net_discover.Recovery.Reaper.{World, Boot, reap_one, reap_all, reap_orphan_runs}
use net_discover.Recovery.Refines.{reap_row, find_run-reap_one, reap_one-IsUnique}

-- The records that the query returned are the rows of the table.
abbrev pub IsSynced : List ScanHistory → List ScanHistory → Type 0
IsSynced rows recs = All (λ r. find_run r.run_id rows ≡ some r) recs

pub reap_one-IsSynced :
    (w : World) (r : ScanHistory) (b : Boot) (u : IsUnique b.db.rows)
    (known : find_run r.run_id b.db.rows ≡ some r) (recs : List ScanHistory)
    → find_run r.run_id recs ≡ none
    → IsSynced b.db.rows recs
    → IsSynced (reap_one w r b).db.rows recs
unfolding find_run
reap_one-IsSynced w r b u known [] fresh s = tt
reap_one-IsSynced w r b u known (t ∷ ts) fresh s = (
  ground (
    arith,
    str_eq_iff t.run_id r.run_id,
    str_eq_iff r.run_id t.run_id,
    find_run-reap_one w r b u known t.run_id,
    s.0,
  ),
  reap_one-IsSynced w r b u known ts (ground (arith, str_eq_iff t.run_id r.run_id)) s.1,
)

find_run-reap_all :
    (w : World) (recs : List ScanHistory) (b : Boot)
    → IsUnique b.db.rows
    → IsUnique recs
    → IsSynced b.db.rows recs
    → (j : String)
    → find_run j (reap_all w recs b).db.rows
      ≡ elim (find_run j recs) [ none ↦ find_run j b.db.rows | some r ↦ some (reap_row w r) ]
unfolding reap_all find_run
find_run-reap_all w [] b u d s j = refl
find_run-reap_all w (r ∷ rs) b u d s j = ground (
  arith,
  str_eq_iff r.run_id j,
  find_run-reap_one w r b u s.0 j,
  find_run-reap_all w rs (reap_one w r b) (reap_one-IsUnique w r b u s.0) d.1
      (reap_one-IsSynced w r b u s.0 rs d.0 s.1) j,
)

module _ (p : ScanHistory → Bool) where
  find_run-keep-none :
      (j : String) (rows : List ScanHistory)
      → find_run j rows ≡ none
      → find_run j (keep p rows) ≡ none
  unfolding find_run keep
  find_run-keep-none j [] h = refl
  find_run-keep-none j (r ∷ rs) h = ground (arith, find_run-keep-none j rs)

  pub find_run-keep :
      (j : String) (rows : List ScanHistory)
      → IsUnique rows
      → find_run j (keep p rows)
        ≡ elim (find_run j rows) [ none ↦ none | some r ↦ if p r then some r else none ]
  unfolding find_run keep
  find_run-keep j [] u = refl
  find_run-keep j (r ∷ rs) u =
      ground (arith, str_eq_iff r.run_id j, find_run-keep j rs u.1, find_run-keep-none j rs)

  pub keep-IsUnique : (rows : List ScanHistory) → IsUnique rows → IsUnique (keep p rows)
  unfolding keep
  keep-IsUnique [] u = tt
  keep-IsUnique (r ∷ rs) u = elim (Bool-cases (p r)) [
    | inl hit ↦ rw hit (find_run-keep-none r.run_id rs u.0, keep-IsUnique rs u.1)
    | inr miss ↦ rw miss (keep-IsUnique rs u.1)
  ]

  -- A longer table still holds the records, if its first row is another run's.
  IsSynced-cons :
      (t : ScanHistory) (rows recs : List ScanHistory)
      → find_run t.run_id recs ≡ none
      → IsSynced rows recs
      → IsSynced (t ∷ rows) recs
  unfolding find_run
  IsSynced-cons t rows [] fresh s = tt
  IsSynced-cons t rows (r ∷ rs) fresh s = (
    ground (arith, str_eq_iff t.run_id r.run_id, str_eq_iff r.run_id t.run_id, s.0),
    IsSynced-cons t rows rs (ground (arith, str_eq_iff r.run_id t.run_id)) s.1,
  )

  pub keep-IsSynced : (rows : List ScanHistory) → IsUnique rows → IsSynced rows (keep p rows)
  unfolding keep find_run
  keep-IsSynced [] u = tt
  keep-IsSynced (r ∷ rs) u =
      let rest =
        IsSynced-cons r rs (keep p rs) (find_run-keep-none r.run_id rs u.0)
          (keep-IsSynced rs u.1) in
      elim (Bool-cases (p r)) [
        | inl hit ↦ rw hit (ground (arith, str_eq_iff r.run_id r.run_id), rest)
        | inr miss ↦ rw miss rest
      ]

  find_run-reap_keep :
      (w : World) (b : Boot) (u : IsUnique b.db.rows) (j : String)
      → find_run j (reap_all w (keep p b.db.rows) b).db.rows
        ≡ map_row (when p (reap_row w)) (find_run j b.db.rows)
  find_run-reap_keep w b u j = ground (
    arith,
    find_run-reap_all w (keep p b.db.rows) b u (keep-IsUnique b.db.rows u)
        (keep-IsSynced b.db.rows u) j,
    find_run-keep j b.db.rows u,
  )

-- Reaping a table with unique run ids, whatever transactions fail, turns each row that the query
-- selects into its `reap_row` and leaves every other row as it was; so for the query of the main
-- app and for that of the fleet gateway.
pub find_run-reap_orphan_runs :
    (w : World) (db : Database)
    → IsUnique db.rows
    → (j : String)
    → (find_run j (reap_orphan_runs w get_active_for_recovery db).db.rows
        ≡ map_row (when is_local_active (reap_row w)) (find_run j db.rows))
      × (find_run j (reap_orphan_runs w get_active_agent_scans_for_recovery db).db.rows
          ≡ map_row (when is_agent_active (reap_row w)) (find_run j db.rows))
unfolding reap_orphan_runs get_active_for_recovery get_active_agent_scans_for_recovery
find_run-reap_orphan_runs w db u j =
    (find_run-reap_keep is_local_active w _ u j, find_run-reap_keep is_agent_active w _ u j)
