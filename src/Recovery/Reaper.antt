-- ===== src/Recovery/Reaper.antt =====
-- reap_orphan_runs of marlinspike/recovery.py: the loop over the rows that a previous boot left
-- running. Another process enters through the table only (see Runs/Claims).
use net_discover.Prelude.{
  ℕ, ◌+◌, String, List, [], ◌∷◌, Option, none, some, Bool, true, false, ◌&&◌, not, if◌then◌else◌,
  ltb, length,
}
use net_discover.Runs.Row.{failed, ScanHistory, Database, RecoveryState}
use net_discover.Runs.Store.{
  Finish, record_finish, claim_for_recovery, reclaim_finalizing, load_argv,
}
use net_discover.Recovery.Liveness.{Os, pid_alive, pid_argv_matches}
use net_discover.Recovery.Report.{Disk, report_complete, ingest_completed_report}

-- The world of one boot. The last three say, for each run, whether the database accepts the
-- transaction of the claim, of the reclaim and of the finish.
pub record World : Type 0 where
  pub now : ℕ
  pub os : Os
  pub disk : Disk
  -- The text with the configured timeout in it.
  pub abandoned_tail : String
  pub claim_commits : String → Bool
  pub reclaim_commits : String → Bool
  pub finish_commits : String → Bool

pub record Counters : Type 0 where
  pub checked : ℕ
  pub reattached : ℕ
  pub reaped_completed : ℕ
  pub reaped_failed : ℕ
  pub reaped_abandoned : ℕ
  pub skipped_claimed : ℕ

-- A thread that `_spawn_watcher` starts.
pub record Watcher : Type 0 where
  pub run_id : String
  pub engine_pid : Option ℕ
  pub report_path : Option String

pub record Boot : Type 0 where
  pub db : Database
  pub counters : Counters
  pub watchers : List Watcher

abbrev pub crashed_tail : String
crashed_tail =
    "engine crashed mid-scan (Flask was unable to observe completion). PCAP is preserved; retry from the report viewer or upload page."

unfoldable pub is_past_deadline : World → ScanHistory → Bool
is_past_deadline w rec = elim rec.timeout_at [ none ↦ false | some at ↦ ltb at w.now ]

-- Is the process of the saved pid the engine that was started?
unfoldable pub engine_alive : World → ScanHistory → Bool
unfolding pid_alive pid_argv_matches load_argv
engine_alive w rec = elim rec.engine_pid [
  | none ↦ false
  | some pid ↦ pid_alive w.os (some pid) && pid_argv_matches w.os pid (load_argv rec.engine_argv)
]

abbrev pub failure : String → RecoveryState → Finish
failure tail state = record {
  status = failed;
  error_tail = some tail;
  node_count = none;
  edge_count = none;
  recovery_state = some state;
}

-- The loop's body once the run is owned by this process.
unfoldable pub reconcile : World → Bool → Bool → ScanHistory → Boot → Boot
unfolding engine_alive report_complete ingest_completed_report record_finish
reconcile w past_deadline reclaimed rec b =
    let commits = w.finish_commits rec.run_id in
    if not reclaimed && engine_alive w rec
    then record b {
      counters = record (b.counters) { reattached = b.counters.reattached + 1 };
      watchers =
          record { run_id = rec.run_id; engine_pid = rec.engine_pid; report_path = rec.report_path }
          ∷ b.watchers;
    }
    else if report_complete w.disk rec.report_path
    then record b {
      db = ingest_completed_report commits w.now w.disk rec b.db;
      counters = record (b.counters) { reaped_completed = b.counters.reaped_completed + 1 };
    }
    else if past_deadline && not reclaimed
    then record b {
      db =
          record_finish commits w.now rec.run_id
            (failure w.abandoned_tail RecoveryState.reaped_abandoned) b.db;
      counters = record (b.counters) { reaped_abandoned = b.counters.reaped_abandoned + 1 };
    }
    else record b {
      db =
          record_finish commits w.now rec.run_id (failure crashed_tail RecoveryState.reaped_failed)
            b.db;
      counters = record (b.counters) { reaped_failed = b.counters.reaped_failed + 1 };
    }

-- Which process owns the run: this one by the claim, by a reclaim, or another.
pub data Ownership : Type 0 where
  by_claim by_reclaim elsewhere : Ownership

unfoldable pub acquire : World → Bool → ScanHistory → Database → Ownership × Database
unfolding claim_for_recovery reclaim_finalizing
acquire w past_deadline rec db =
    let (claimed, db1) = claim_for_recovery (w.claim_commits rec.run_id) rec.run_id db in
    let (reclaimed, db2) = reclaim_finalizing (w.reclaim_commits rec.run_id) rec.run_id db1 in
    if claimed
    then (by_claim, db1)
    else if past_deadline
    then (if reclaimed then (by_reclaim, db2) else (elsewhere, db2))
    else (elsewhere, db1)

-- The loop's body after the claim.
unfoldable pub proceed : World → Bool → ScanHistory → Boot → Ownership → Boot
unfolding reconcile
proceed w past_deadline rec b by_claim = reconcile w past_deadline false rec b
proceed w past_deadline rec b by_reclaim = reconcile w past_deadline true rec b
proceed w past_deadline rec b elsewhere = record b {
  counters = record (b.counters) { skipped_claimed = b.counters.skipped_claimed + 1 };
}

-- The loop's body.
unfoldable pub reap_one : World → ScanHistory → Boot → Boot
unfolding is_past_deadline acquire proceed
reap_one w rec b =
    let past_deadline = is_past_deadline w rec in
    let (owner, db) = acquire w past_deadline rec b.db in
    proceed w past_deadline rec (record b { db = db }) owner

unfoldable pub reap_all : World → List ScanHistory → Boot → Boot
unfolding reap_one
reap_all w [] b = b
reap_all w (rec ∷ recs) b = reap_all w recs (reap_one w rec b)

unfoldable pub start_boot : Database → List ScanHistory → Boot
start_boot db active = record {
  db = db;
  counters = record {
    checked = length active;
    reattached = 0;
    reaped_completed = 0;
    reaped_failed = 0;
    reaped_abandoned = 0;
    skipped_claimed = 0;
  };
  watchers = [];
}

-- `get_active` is the query: that of the main app, or that of the fleet gateway.
unfoldable pub reap_orphan_runs : World → (Database → List ScanHistory) → Database → Boot
unfolding reap_all start_boot
reap_orphan_runs w get_active db =
    let active = get_active db in reap_all w active (start_boot db active)
