-- ===== src/Capd/Supervisor/Scenarios.antt =====
-- Polls of a small ring of capture files (marlinspike-capd/capd/supervisor.py), and the theorems
-- about the supervisor at those inputs.
use net_discover.Prelude.{
  ℕ, ◌+◌, String, List, [], ◌∷◌, none, some, true, false, ◌≡◌, refl, arith, contains, count_where,
}
use net_discover.Capd.FileNames.{seq_of, sorted, last}
use net_discover.Capd.Supervisor.Snapshot.{Sight, Tracker, new_tracker, snapshot}
use net_discover.Capd.Supervisor.Closing.{
  IsDistinct, Poll, CloseSpec, run_polls, snapshot-closes, run_polls-IsDistinct,
}
use net_discover.Capd.Supervisor.Losses.{SeesWindows, seen_by, run_polls-accounts}
use net_discover.Capd.Supervisor.Process.{
  CaptureConfig, alive, exited, Supervisor, ok, new_supervisor, is_valid_session_id, Summary,
  outlives, raise, timeout_expired, stop, poll,
}
use net_discover.Capd.Supervisor.Lifecycle.{poll-eq-stop}

abbrev cap1 : String
cap1 = "/cap/cap_00001_20260101.pcapng"

abbrev cap2 : String
cap2 = "/cap/cap_00002_20260101.pcapng"

abbrev cap4 : String
cap4 = "/cap/cap_00004_20260101.pcapng"

abbrev cap5 : String
cap5 = "/cap/cap_00005_20260101.pcapng"

abbrev sight : ℕ → List String → Sight
sight now names = record { names = names; chmod_ok = λ _. true; size = λ _. some 10; now = now }

-- The third file is evicted between the second poll and the third; then the capture ends.
abbrev polls : List Poll
polls =
    record { running = true; finalize = false; sight = sight 1 (cap1 ∷ []) }
    ∷ record { running = true; finalize = false; sight = sight 2 (cap2 ∷ cap1 ∷ []) }
    ∷ record { running = true; finalize = false; sight = sight 3 (cap5 ∷ cap4 ∷ []) }
    ∷ record { running = false; finalize = true; sight = sight 4 (cap4 ∷ cap5 ∷ []) }
    ∷ []

program : Unit {0}
unfolding run_polls snapshot seq_of sorted last contains count_where
program = tt

seq_of_names :
    (seq_of cap2 ≡ some 2)
    × (seq_of "/cap/cap_177_x.pcapng" ≡ some 177)
    × (seq_of "/cap_1_/cap_.pcapng" ≡ none)
unfolding program
seq_of_names = (refl, refl, refl)

-- Six digits sort before five, so a ring that is past file 99999 takes an old file for the active one.
active_past_99999 :
    last (sorted ("cap_99999_x.pcapng" ∷ "cap_100000_x.pcapng" ∷ [])) ≡ some "cap_99999_x.pcapng"
unfolding program
active_past_99999 = refl

polls_closed :
    ((run_polls polls new_tracker).0 ≡ cap1 ∷ cap2 ∷ cap4 ∷ cap5 ∷ [])
    × ((run_polls polls new_tracker).1.files_lost_count ≡ 1)
unfolding program
polls_closed = (refl, refl)

run_polls-IsDistinct_example : IsDistinct (run_polls polls new_tracker).0
run_polls-IsDistinct_example = run_polls-IsDistinct polls

abbrev second : Tracker
second = record new_tracker { closed_emitted = cap1 ∷ []; previous_active = some cap2 }

snapshot-closes_example :
    let (stats, after) = snapshot true false (sight 3 (cap5 ∷ cap4 ∷ [])) second in
    CloseSpec false (sight 3 (cap5 ∷ cap4 ∷ [])) second stats after
unfolding program
snapshot-closes_example = snapshot-closes true false (sight 3 (cap5 ∷ cap4 ∷ [])) second (refl, tt)

polls-SeesWindows : SeesWindows polls new_tracker
unfolding program
polls-SeesWindows = (
  record { lo = 1; more = 0; consecutive = refl; forward = omega arith },
  (
    record { lo = 1; more = 1; consecutive = refl; forward = omega arith },
    (
      record { lo = 4; more = 1; consecutive = refl; forward = omega arith },
      (record { lo = 4; more = 1; consecutive = refl; forward = omega arith }, tt),
    ),
  ),
)

run_polls-accounts_example :
    (run_polls polls new_tracker).1.highest_seq_accounted_for
    ≡ seen_by polls new_tracker + (run_polls polls new_tracker).1.files_lost_count
run_polls-accounts_example = run_polls-accounts polls polls-SeesWindows

abbrev cfg : CaptureConfig
cfg = record {
  session_id = "run-1_a";
  interface = "eth1";
  bpf_filter = "";
  output_dir = "/cap";
  filesize_kb = 200_000;
  files = 10;
  max_duration_s = 60;
}

abbrev fresh : Supervisor
fresh = record {
  cfg = cfg;
  dumpcap = "/usr/bin/dumpcap";
  proc = none;
  stderr_buf = [];
  tracker = new_tracker;
  final_packets = none;
  final_drops = none;
}

fresh_made : new_supervisor (λ _. false) cfg (some "/usr/bin/dumpcap") ≡ ok fresh
unfolding new_supervisor
fresh_made = refl

traversal_refused : is_valid_session_id (λ _. true) "../etc" ≡ false
unfolding is_valid_session_id
traversal_refused = refl

abbrev summary : Summary
summary = record { packets = λ _. some 12; drops = λ _. none }

abbrev running : Supervisor
running = record fresh { proc = some alive; tracker = second }

cap5_on_disk : contains cap5 (cap5 ∷ cap4 ∷ []) ≡ true
unfolding program
cap5_on_disk = refl

-- A process that outlives the kill: the capture stays open.
stuck : (stop outlives summary [] (sight 3 (cap5 ∷ cap4 ∷ [])) running).0 ≡ raise timeout_expired
unfolding stop
stuck = refl

abbrev ended : Supervisor
ended = record running { proc = some (exited 0) }

poll-eq-stop_example :
    let (polled, s₁) = poll summary [] (sight 3 (cap5 ∷ cap4 ∷ [])) ended in
    let (stopped, s₂) = stop outlives summary [] (sight 3 (cap5 ∷ cap4 ∷ [])) ended in
    (ok polled ≡ stopped)
    × (s₁.tracker ≡ s₂.tracker)
    × (s₁.final_packets ≡ s₂.final_packets)
    × (s₁.final_drops ≡ s₂.final_drops)
poll-eq-stop_example =
    poll-eq-stop outlives summary [] (sight 3 (cap5 ∷ cap4 ∷ [])) ended 0 refl refl
