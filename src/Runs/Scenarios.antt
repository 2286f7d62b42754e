-- ===== src/Runs/Scenarios.antt =====
-- Races for one run of marlinspike/run_store.py, and the theorem about them at such a race.
use net_discover.Prelude.{some, ◌+◌, ◌≤◌, String, List, [], ◌∷◌, none, true, ◌≡◌, refl, count_where}
use net_discover.Runs.Row.{
  running, completed, ScanHistory, Database, find_run, modify_run, update_where,
}
use net_discover.Runs.Store.{
  Launch, record_start, deadline, Finish, claim_for_recovery, reclaim_finalizing, mark_finalizing,
  record_finish,
}
use net_discover.Runs.View.{RunView, get_run}
use net_discover.Runs.Launches.{record_start-get_run}
use net_discover.Runs.Rows.{IsUnique}
use net_discover.Runs.Claims.{
  Op, claim, reclaim, mark, finish, Call, run_call, wins, marks, wins-le-marks,
}

abbrev row : String → ScanHistory
row run_id = record {
  run_id = run_id;
  user_id = 1;
  project_id = none;
  command = "chain";
  scan_profile = "full";
  pcap_source = none;
  pcap_hash = none;
  status = running;
  started_at = 0;
  completed_at = none;
  report_path = none;
  node_count = none;
  edge_count = none;
  error_tail = none;
  pcap_path = none;
  engine_pid = none;
  engine_argv = none;
  timeout_at = none;
  recovery_state = none;
  agent_id = none;
}

abbrev db : Database
db = record { rows = row "a" ∷ row "b" ∷ []; deliveries = [] }

abbrev call : String → Op → Call
call target op = record { target = target; op = op }

abbrev done : Finish
done = record {
  status = completed;
  error_tail = none;
  node_count = none;
  edge_count = none;
  recovery_state = none;
}

-- Three workers claim the run "a", a fourth claims "b", and the run is finished in between.
abbrev race : List Call
race =
    call "a" (claim true)
    ∷ call "b" (claim true)
    ∷ call "a" (claim true)
    ∷ call "a" (finish true 9 done)
    ∷ call "a" (claim true)
    ∷ []

-- A worker marks the run after a reaper has claimed it, and a second reaper takes it from both.
abbrev late_mark : List Call
late_mark = call "a" (claim true) ∷ call "a" (mark true) ∷ call "a" (reclaim true) ∷ []

program : Unit {0}
unfolding wins marks run_call claim_for_recovery reclaim_finalizing mark_finalizing record_finish
    find_run modify_run update_where count_where
program = tt

race-wins : (wins "a" race db ≡ 1) × (marks "a" race ≡ 0)
unfolding program
race-wins = (refl, refl)

-- The bound is met: one mark, two owners.
late_mark-wins : (wins "a" late_mark db ≡ 2) × (marks "a" late_mark ≡ 1)
unfolding program
late_mark-wins = (refl, refl)

db-IsUnique : IsUnique db.rows
unfolding program
db-IsUnique = (refl, (refl, tt))

wins-le-marks_example : wins "a" race db ≤ 1 + marks "a" race
wins-le-marks_example = wins-le-marks "a" race db db-IsUnique (tt, (tt, (tt, (refl, (tt, tt)))))

abbrev launch : Launch
launch = record {
  user_id = 1;
  project_id = none;
  command = "chain";
  scan_profile = "full";
  pcap_source = none;
  pcap_hash = none;
  pcap_path = "/c.pcap";
  report_path = "/r.json";
  engine_pid = some 7;
  engine_argv = some ("engine" ∷ "/c.pcap" ∷ []);
  timeout_s = none;
  agent_id = none;
}

record_start-get_run_example :
    (after : Database) × (record_start true 10 60 "b" launch db ≡ some after)
    × (v : RunView) × (get_run "b" after ≡ some v)
    × (v.status ≡ running)
    × (v.engine_pid ≡ some 7)
    × (v.engine_argv ≡ some ("engine" ∷ "/c.pcap" ∷ []))
    × (v.timeout_at ≡ deadline 10 60 none)
    × (v.pcap_path ≡ some "/c.pcap")
    × (v.report_path ≡ some "/r.json")
    × (v.recovery_state ≡ none)
record_start-get_run_example = record_start-get_run 10 60 "b" launch db
