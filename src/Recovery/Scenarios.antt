-- ===== src/Recovery/Scenarios.antt =====
-- Runs of marlinspike/recovery.py on small tables, and the theorems about it at those inputs.
use net_discover.Prelude.{
  ℕ, String, List, [], ◌∷◌, none, some, true, false, not, ◌≡◌, ◌≢◌, ◌↔◌, ◌⊎◌, refl, length, keep,
  contains, count_where, if◌then◌else◌,
}
use net_discover.Runs.Row.{
  running, completed, failed, RecoveryState, encoded, ScanHistory, Database, find_run, modify_run,
  update_where, is_running,
}
use net_discover.Runs.Store.{
  get_active_for_recovery, get_active_agent_scans_for_recovery, is_local_active, is_agent_active,
}
use net_discover.Runs.Rows.{IsUnique, map_row, when}
use net_discover.Recovery.Liveness.{
  Os, linux, signalled, process_lookup_error, unavailable, pid_alive, path_tokens,
  live_argv_matches, is_empty,
}
use net_discover.Recovery.Report.{missing, parsed, Report, final_stage, report_complete, graph_size}
use net_discover.Recovery.Reaper.{World, is_past_deadline, engine_alive, reap_orphan_runs}
use net_discover.Recovery.Refines.{reap_row}
use net_discover.Recovery.Loop.{find_run-reap_orphan_runs}
use net_discover.Recovery.Counts.{verdicts, reap_orphan_runs-accounts, is_watched}
use net_discover.Recovery.Ingested.{Ingested}
use net_discover.Recovery.Safety.{
  WasActive, boot, IsLost, boot-failed_iff, boot-abandoned, boot-completed, boot-leaves_no_orphan,
}
use net_discover.Recovery.Argv.{SharesPath, live_argv_matches_iff, engine_alive-reused_pid}
use net_discover.Recovery.Watcher.{watch_loop, watch_loop-finishes}

-- A scan of the main app, launched with a deadline at 100.
abbrev scan : String → ℕ → ScanHistory
scan run_id pid = record {
  run_id = run_id;
  user_id = 7;
  project_id = some 3;
  command = "chain";
  scan_profile = "full";
  pcap_source = none;
  pcap_hash = none;
  status = running;
  started_at = 10;
  completed_at = none;
  report_path = some run_id;
  node_count = some 0;
  edge_count = some 0;
  error_tail = none;
  pcap_path = some "/data/a.pcap";
  engine_pid = some pid;
  engine_argv = some (encoded ("python" ∷ "-m" ∷ "marlinspike" ∷ "/data/a.pcap" ∷ []));
  timeout_at = some 100;
  recovery_state = none;
  agent_id = none;
}

abbrev report : Report
report = record {
  completed_stages = "Capture" ∷ final_stage ∷ [];
  topology = some (record { nodes = "a" ∷ "b" ∷ []; edges = "ab" ∷ [] });
  results_completed_stages = [];
  results_topology = none;
}

-- Process 1 is the engine, process 2 reuses an engine's pid, and there is no other.
abbrev os : Os
os = record {
  platform = linux;
  kill = elim [
    | Prim.Native.Nat.zero ↦ process_lookup_error
    | Prim.Native.Nat.suc n ↦ elim n [
      | Prim.Native.Nat.zero ↦ signalled
      | Prim.Native.Nat.suc m ↦ elim m [
        | Prim.Native.Nat.zero ↦ signalled
        | _ ↦ process_lookup_error
      ]
    ]
  ];
  proc_cmdline = elim [
    | Prim.Native.Nat.zero ↦ none
    | Prim.Native.Nat.suc n ↦ elim n [
      | Prim.Native.Nat.zero ↦ some ("python" ∷ "-m" ∷ "marlinspike" ∷ "/data/a.pcap" ∷ "" ∷ [])
      | Prim.Native.Nat.suc m ↦ some ("/opt/marlinspike-tools/daemon" ∷ [])
    ]
  ];
  ps = λ _. unavailable;
}

-- At the time 500; only the run "done" has a report.
abbrev world : World
world = record {
  now = 500;
  os = os;
  disk = record {
    report_file = λ path. if contains path ("done" ∷ []) then parsed report else missing;
    enrich = λ _. none;
  };
  abandoned_tail = "abandoned";
  claim_commits = λ _. true;
  reclaim_commits = λ _. true;
  finish_commits = λ _. true;
}

-- A live engine, a finished one, a dead one whose pid was reused, and a scan of an agent.
abbrev db : Database
db = record {
  rows =
      scan "live" 1
      ∷ scan "done" 9
      ∷ scan "dead" 2
      ∷ record (scan "agent" 9) { agent_id = some 4 }
      ∷ [];
  deliveries = [];
}

program : Unit {0}
unfolding reap_orphan_runs get_active_for_recovery keep find_run modify_run update_where count_where
    contains report_complete graph_size engine_alive is_past_deadline reap_row path_tokens
    watch_loop live_argv_matches
program = tt

db-IsUnique : IsUnique db.rows
unfolding program
db-IsUnique = (refl, (refl, (refl, (refl, tt))))

boot_counts : (boot world db).counters ≡ record {
  checked = 3;
  reattached = 1;
  reaped_completed = 1;
  reaped_failed = 0;
  reaped_abandoned = 1;
  skipped_claimed = 0;
}
unfolding program
boot_counts = refl

live : WasActive db "live" (scan "live" 1)
unfolding program
live = record { unique = db-IsUnique; found = refl; active = refl }

done : WasActive db "done" (scan "done" 9)
unfolding program
done = record { unique = db-IsUnique; found = refl; active = refl }

dead : WasActive db "dead" (scan "dead" 2)
unfolding program
dead = record { unique = db-IsUnique; found = refl; active = refl }

find_run-reap_orphan_runs_example :
    (find_run "dead" (reap_orphan_runs world get_active_for_recovery db).db.rows
      ≡ map_row (when is_local_active (reap_row world)) (find_run "dead" db.rows))
    × (find_run "dead" (reap_orphan_runs world get_active_agent_scans_for_recovery db).db.rows
        ≡ map_row (when is_agent_active (reap_row world)) (find_run "dead" db.rows))
find_run-reap_orphan_runs_example = find_run-reap_orphan_runs world db db-IsUnique "dead"

dead_after : find_run "dead" (boot world db).db.rows ≡ some (reap_row world (scan "dead" 2))
unfolding program
dead_after = refl

boot-failed_iff_example :
    ((reap_row world (scan "dead" 2)).status ≡ failed) ↔ IsLost world (scan "dead" 2)
boot-failed_iff_example =
    boot-failed_iff world db "dead" (scan "dead" 2) dead (reap_row world (scan "dead" 2)) dead_after

dead_state : (reap_row world (scan "dead" 2)).recovery_state ≡ some RecoveryState.reaped_abandoned
unfolding program
dead_state = refl

boot-abandoned_example :
    (is_past_deadline world (scan "dead" 2) ≡ true)
    × (engine_alive world (scan "dead" 2) ≡ false)
    × (report_complete world.disk (some "dead") ≡ false)
boot-abandoned_example =
    boot-abandoned world db "dead" (scan "dead" 2) dead (reap_row world (scan "dead" 2)) dead_after
      (λ e. cc) dead_state

done_dead : engine_alive world (scan "done" 9) ≡ false
unfolding program
done_dead = refl

done_complete : report_complete world.disk (some "done") ≡ true
unfolding program
done_complete = refl

boot-completed_example :
    (r' : ScanHistory) × (find_run "done" (boot world db).db.rows ≡ some r')
    × (r'.status ≡ completed)
    × (r'.engine_pid ≡ none)
    × Ingested world.disk (some "done") r'.node_count r'.edge_count
boot-completed_example =
    boot-completed world db "done" (scan "done" 9) done refl refl refl done_dead done_complete

-- Two nodes and one edge.
done_size : graph_size world.disk (some "done") ≡ (2, 1)
unfolding program graph_size
done_size = refl

boot-leaves_no_orphan_example :
    (r' : ScanHistory) × (find_run "live" (boot world db).db.rows ≡ some r')
    × (((is_running r'.status ≡ false) × (r'.engine_pid ≡ none))
        ⊎ ((r'.status ≡ running)
            × (engine_alive world (scan "live" 1) ≡ true)
            × (is_watched "live" (boot world db).watchers ≡ true)))
boot-leaves_no_orphan_example =
    boot-leaves_no_orphan world db "live" (scan "live" 1) live refl refl refl

reap_orphan_runs-accounts_example :
    let b = reap_orphan_runs world get_active_for_recovery db in
    (b.counters.checked ≡ length (get_active_for_recovery db))
    × (verdicts b.counters ≡ b.counters.checked)
    × (length b.watchers ≡ b.counters.reattached)
reap_orphan_runs-accounts_example = reap_orphan_runs-accounts world get_active_for_recovery db

abbrev saved : List String
saved = "python" ∷ "-m" ∷ "marlinspike" ∷ "/data/a.pcap" ∷ []

saved_path : path_tokens saved ≢ []
unfolding program
saved_path e = cc

live_argv_matches_iff_example :
    (live_argv_matches ("/opt/marlinspike-tools/daemon" ∷ []) saved ≡ true)
    ↔ SharesPath ("/opt/marlinspike-tools/daemon" ∷ []) saved
live_argv_matches_iff_example =
    live_argv_matches_iff ("/opt/marlinspike-tools/daemon" ∷ []) saved saved_path

apart : ¬ SharesPath ("/opt/marlinspike-tools/daemon" ∷ []) saved
unfolding program
apart shares =
    let matches : live_argv_matches ("/opt/marlinspike-tools/daemon" ∷ []) saved ≡ true =
      (live_argv_matches_iff ("/opt/marlinspike-tools/daemon" ∷ []) saved saved_path).1 shares in
    cc

daemon_cmdline :
    keep (λ a. not (is_empty a)) ("/opt/marlinspike-tools/daemon" ∷ [])
    ≡ "/opt/marlinspike-tools/daemon" ∷ []
unfolding program
daemon_cmdline = refl

engine_alive-reused_pid_example : engine_alive world (scan "dead" 2) ≡ false
engine_alive-reused_pid_example =
    engine_alive-reused_pid world (scan "dead" 2) 2 "python"
      ("-m" ∷ "marlinspike" ∷ "/data/a.pcap" ∷ []) ("/opt/marlinspike-tools/daemon" ∷ []) refl refl
      refl saved_path refl (rw daemon_cmdline apart)

-- An operating system with no process.
abbrev os_empty : Os
os_empty = record os { kill = λ _. process_lookup_error }

alive_then_dead : (pid_alive os (some 1) ≡ true) × (pid_alive os_empty (some 1) ≡ false)
unfolding program
alive_then_dead = (refl, refl)

live_found : find_run "live" db.rows ≡ some (scan "live" 1)
unfolding program
live_found = refl

watch_loop-finishes_example :
    (db' : Database) × (watch_loop true 500 world.disk "live"
        (some 1)
        (some "live")
        (os ∷ os_empty ∷ os ∷ [])
        db
      ≡ some db')
    × (r' : ScanHistory) × (find_run "live" db'.rows ≡ some r')
    × (r'.status ≡ (if report_complete world.disk (some "live") then completed else failed))
    × (r'.engine_pid ≡ none)
watch_loop-finishes_example =
    watch_loop-finishes 500 world.disk "live" (some 1) (some "live") db (scan "live" 1) (os ∷ [])
      os_empty (os ∷ []) db-IsUnique live_found (alive_then_dead.0, tt) alive_then_dead.1
