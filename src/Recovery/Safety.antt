-- ===== src/Recovery/Safety.antt =====
-- What a boot of the main app (reap_orphan_runs in marlinspike/recovery.py) does to a scan that
-- was left running.
use net_discover.Prelude.{String, none, some, true, false, ◌≡◌, ◌≢◌, ◌↔◌, ◌⊎◌, arith}
use net_discover.Runs.Row.{
  failed, completed, running, RecoveryState, ScanHistory, Database, is_running, find_run,
}
use net_discover.Runs.Store.{is_local_active, get_active_for_recovery, finish_row}
use net_discover.Runs.Rows.{IsUnique}
use net_discover.Recovery.Report.{report_complete, graph_size, ingest_finish}
use net_discover.Recovery.Reaper.{
  World, Boot, by_reclaim, elsewhere, is_past_deadline, engine_alive, start_boot, reap_orphan_runs,
}
use net_discover.Recovery.Refines.{owner_of, settle, reap_row}
use net_discover.Recovery.Loop.{
  find_run-reap_orphan_runs, find_run-keep, keep-IsUnique, keep-IsSynced,
}
use net_discover.Recovery.Ingested.{Ingested, complete-Ingested}
use net_discover.Recovery.Counts.{is_watched, is_attached, reap_all-watched}

-- The scan `j` was active when the boot of `w` read the table `db`.
pub record WasActive (db : Database) (j : String) (r : ScanHistory) : Type 0 where
  pub unique : IsUnique db.rows
  pub found : find_run j db.rows ≡ some r
  pub active : is_local_active r ≡ true

abbrev pub boot : World → Database → Boot
boot w db = reap_orphan_runs w get_active_for_recovery db

-- This process owned the run, its engine is not running or was reclaimed, no complete report is on
-- disk, and the last write was accepted.
pub record IsLost (w : World) (r : ScanHistory) : Type 0 where
  pub owned : owner_of w r ≢ elsewhere
  pub dead : (owner_of w r ≡ by_reclaim) ⊎ (engine_alive w r ≡ false)
  pub unfinished : report_complete w.disk r.report_path ≡ false
  pub written : w.finish_commits r.run_id ≡ true

-- The fields of the finish that ingests a report.
ingest-fields :
    (w : World) (r : ScanHistory)
    → let f = ingest_finish w.disk r in
      (f.status ≡ completed)
      × (f.recovery_state ≢ some RecoveryState.reaped_abandoned)
      × (f.node_count ≡ some (graph_size w.disk r.report_path).0)
      × (f.edge_count ≡ some (graph_size w.disk r.report_path).1)
unfolding ingest_finish
ingest-fields w r = ground arith

module _ (w : World) (db : Database) (j : String) (r : ScanHistory) (h : WasActive db j r) where
  row_after : find_run j (boot w db).db.rows ≡ some (reap_row w r)
  row_after = ground (arith, (find_run-reap_orphan_runs w db h.unique j).0, h.found, h.active)

  -- A boot fails an active scan exactly if it owned the run, the engine was dead or the run
  -- reclaimed from a crashed worker, no complete report was on disk and the write was accepted:
  -- past the deadline or not, no complete report is thrown away.
  pub boot-failed_iff :
      (r' : ScanHistory)
      → find_run j (boot w db).db.rows ≡ some r'
      → (r'.status ≡ failed) ↔ IsLost w r
  unfolding reap_row settle finish_row
  boot-failed_iff r' after = (
    λ f. record {
      owned = ground (arith, row_after, ingest-fields w r, h.active);
      dead = ground (arith, row_after, ingest-fields w r, h.active);
      unfinished = ground (arith, row_after, ingest-fields w r, h.active);
      written = ground (arith, row_after, ingest-fields w r, h.active);
    },
    λ lost.
        ground (
          arith,
          row_after,
          ingest-fields w r,
          lost.owned,
          lost.dead,
          lost.unfinished,
          lost.written,
        ),
  )

  -- A scan is only marked abandoned if it is past its deadline, its engine is not running and it
  -- has no complete report.
  pub boot-abandoned :
      (r' : ScanHistory)
      → find_run j (boot w db).db.rows ≡ some r'
      → r.recovery_state ≢ some RecoveryState.reaped_abandoned
      → r'.recovery_state ≡ some RecoveryState.reaped_abandoned
      → (is_past_deadline w r ≡ true)
        × (engine_alive w r ≡ false)
        × (report_complete w.disk r.report_path ≡ false)
  unfolding reap_row settle finish_row
  boot-abandoned r' after other state = ground (arith, row_after, ingest-fields w r)

  -- A complete report of a scan that no process had taken, and whose engine is gone, is ingested
  -- where the claim and the finish are accepted: the scan is completed with its pid cleared, even
  -- past its deadline, and counts the nodes and the edges in the report's topology.
  pub boot-completed :
      w.claim_commits r.run_id ≡ true
      → w.finish_commits r.run_id ≡ true
      → r.recovery_state ≡ none
      → engine_alive w r ≡ false
      → report_complete w.disk r.report_path ≡ true
      → (r' : ScanHistory) × (find_run j (boot w db).db.rows ≡ some r')
        × (r'.status ≡ completed)
        × (r'.engine_pid ≡ none)
        × Ingested w.disk r.report_path r'.node_count r'.edge_count
  unfolding reap_row settle owner_of finish_row
  boot-completed c f s dead complete = (
    reap_row w r,
    row_after,
    ground (arith, h.active, ingest-fields w r),
    ground (arith, h.active, ingest-fields w r),
    complete-Ingested w.disk r.report_path complete (ground (arith, h.active, ingest-fields w r))
        (ground (arith, h.active, ingest-fields w r)),
  )

  watched_after : is_watched j (boot w db).watchers ≡ is_attached w r
  unfolding reap_orphan_runs get_active_for_recovery is_watched
  watched_after = ground (
    arith,
    reap_all-watched w (get_active_for_recovery db) (start_boot db (get_active_for_recovery db))
        h.unique (keep-IsUnique is_local_active db.rows h.unique)
        (keep-IsSynced is_local_active db.rows h.unique) j,
    find_run-keep is_local_active j db.rows h.unique,
    h.found,
    h.active,
  )

  -- No orphan is left: a scan that no process had taken is, after a boot whose writes are accepted,
  -- in a terminal status with its pid cleared, or still running with a live engine and a watcher.
  pub boot-leaves_no_orphan :
      w.claim_commits r.run_id ≡ true
      → w.finish_commits r.run_id ≡ true
      → r.recovery_state ≡ none
      → (r' : ScanHistory) × (find_run j (boot w db).db.rows ≡ some r')
        × (((is_running r'.status ≡ false) × (r'.engine_pid ≡ none))
            ⊎ ((r'.status ≡ running)
                × (engine_alive w r ≡ true)
                × (is_watched j (boot w db).watchers ≡ true)))
  unfolding reap_row settle owner_of finish_row
  boot-leaves_no_orphan c f s =
      (reap_row w r, row_after, ground (arith, h.active, ingest-fields w r, watched_after))
