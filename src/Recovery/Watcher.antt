-- ===== src/Recovery/Watcher.antt =====
-- _watch_loop of marlinspike/recovery.py: the thread that polls a re-attached engine. The rounds
-- are a list: what the operating system answers at each poll.
use net_discover.Prelude.{
  ℕ, String, List, [], ◌∷◌, ◌++◌, Option, none, some, Bool, true, false, ◌≡◌, arith, if◌then◌else◌,
  str_eq_refl, All,
}
use net_discover.Runs.Row.{failed, completed, RecoveryState, ScanHistory, Database, find_run}
use net_discover.Runs.Store.{Finish, finish_row, record_finish}
use net_discover.Runs.Rows.{IsUnique, run_id-find_run}
use net_discover.Runs.Effects.{find_run-finish}
use net_discover.Recovery.Liveness.{Os, pid_alive}
use net_discover.Recovery.Report.{Disk, report_complete, ingest_finish, ingest_completed_report}
use net_discover.Recovery.Reaper.{failure}

abbrev pub exited_tail : String
exited_tail = "re-attached engine exited without writing a complete report"

-- The pid is gone: the run is finished from what is on disk.
unfoldable pub finalize_watch : Bool → ℕ → Disk → String → Option String → Database → Database
unfolding ingest_completed_report record_finish report_complete
finalize_watch commits now disk run_id report_path db =
    if report_complete disk report_path
    then elim (find_run run_id db.rows) [
      | none ↦ db
      | some rec ↦ ingest_completed_report commits now disk rec db
    ]
    else record_finish commits now run_id (failure exited_tail RecoveryState.reattached) db

-- `none`: the engine was alive at every poll, and the thread still waits.
unfoldable pub watch_loop :
    Bool → ℕ → Disk → String → Option ℕ → Option String → List Os → Database → Option Database
unfolding finalize_watch pid_alive
watch_loop commits now disk run_id pid report_path [] db = none
watch_loop commits now disk run_id pid report_path (os ∷ polls) db =
    let rest = watch_loop commits now disk run_id pid report_path polls db in
    if pid_alive os pid then rest else some (finalize_watch commits now disk run_id report_path db)

module _ (now : ℕ) (disk : Disk) (run_id : String) (pid : Option ℕ) (path : Option String)
    (db : Database) where
  watch_loop-first_dead :
      (commits : Bool) (alive : List Os) (dead : Os) (later : List Os)
      → All (λ os. pid_alive os pid ≡ true) alive
      → pid_alive dead pid ≡ false
      → watch_loop commits now disk run_id pid path (alive ++ dead ∷ later) db
        ≡ some (finalize_watch commits now disk run_id path db)
  unfolding watch_loop
  watch_loop-first_dead commits [] dead later a d = ground arith
  watch_loop-first_dead commits (os ∷ alive) dead later a d =
      ground (arith, watch_loop-first_dead commits alive dead later a.1 d)

  -- A re-attached scan is finished at the first poll that finds its engine gone, whatever later
  -- polls would see: completed if the report it watches is complete, failed if not, and its pid is
  -- cleared; for a scan in the table whose run ids are unique and a write that is accepted.
  pub watch_loop-finishes :
      (rec : ScanHistory) (alive : List Os) (dead : Os) (later : List Os)
      → IsUnique db.rows
      → find_run run_id db.rows ≡ some rec
      → All (λ os. pid_alive os pid ≡ true) alive
      → pid_alive dead pid ≡ false
      → (db' : Database) × (watch_loop true now disk run_id pid path (alive ++ dead ∷ later) db
          ≡ some db')
        × (r' : ScanHistory) × (find_run run_id db'.rows ≡ some r')
        × (r'.status ≡ (if report_complete disk path then completed else failed))
        × (r'.engine_pid ≡ none)
  unfolding finalize_watch finish_row ingest_completed_report ingest_finish
  watch_loop-finishes rec alive dead later u found a d =
      let result : Finish =
        if report_complete disk path
        then ingest_finish disk rec
        else failure exited_tail RecoveryState.reattached in
      let same : rec.run_id ≡ run_id = run_id-find_run run_id db.rows found in
      (
        finalize_watch true now disk run_id path db,
        watch_loop-first_dead true alive dead later a d,
        finish_row now result rec,
        ground (
          arith,
          same,
          str_eq_refl run_id,
          find_run-finish run_id db u rec found true now result run_id,
        ),
        ground arith,
        ground arith,
      )
