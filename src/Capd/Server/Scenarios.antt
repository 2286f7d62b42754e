-- ===== src/Capd/Server/Scenarios.antt =====
-- Requests to the capture daemon (marlinspike-capd/capd/server.py) in some orders, and the theorem
-- about the interface lock at such an order.
use net_discover.Prelude.{
  String, List, [], ◌∷◌, none, some, true, false, ◌≡◌, ◌≢◌, refl, arith, str_eq_iff,
}
use net_discover.Capd.Supervisor.Snapshot.{new_tracker, snapshot}
use net_discover.Capd.Supervisor.Process.{
  alive, Ending, Supervisor, lstrip, rstrip, new_supervisor, start, stop, is_running,
}
use net_discover.Capd.Server.Sessions.{
  int, missing, StartParams, StartEnv, PollEnv, launch, find_session, conflict,
}
use net_discover.Capd.Server.Events.{Event, start_request, stop_request, resume, run_events}
use net_discover.Capd.Server.Exclusive.{served, run_events-exclusive}

abbrev params : String → String → StartParams
params session_id interface = record {
  session_id = session_id;
  interface = interface;
  bpf = "";
  ring_filesize_kb = missing;
  filesize_kb = missing;
  ring_files = int 4;
  files = missing;
  max_duration_s = missing;
}

abbrev env : StartEnv
env = record {
  bpf_error = λ _ _. none;
  interface_exists = λ _. true;
  other_alnum = λ _. false;
  dumpcap_path = some "/usr/bin/dumpcap";
  lines = [];
  after_grace = alive;
}

abbrev poll_env : PollEnv
poll_env = record {
  ending = Ending.exits;
  summary = record { packets = λ _. none; drops = λ _. none };
  lines = [];
  sight = record { names = []; chmod_ok = λ _. true; size = λ _. none; now = 1 };
}

abbrev unused : Supervisor
unused = record {
  cfg = record {
    session_id = "";
    interface = "";
    bpf_filter = "";
    output_dir = "";
    filesize_kb = 0;
    files = 0;
    max_duration_s = 0;
  };
  dumpcap = "";
  proc = none;
  stderr_buf = [];
  tracker = new_tracker;
  final_packets = none;
  final_drops = none;
}

program : Unit {0}
unfolding run_events lstrip rstrip launch new_supervisor start stop snapshot find_session is_running
program = tt

-- A second capture on eth1 and one on every interface are refused; one on eth2 is not.
abbrev four_starts : List Event
four_starts =
    start_request env (params "a" "eth1")
    ∷ start_request env (params "b" "eth1")
    ∷ start_request env (params "c" "any")
    ∷ start_request env (params "d" "eth2")
    ∷ []

four_starts_sessions : (served "/cap" four_starts unused).sessions ≡ ("a", 0) ∷ ("d", 1) ∷ []
unfolding program
four_starts_sessions = refl

found :
    (find_session "a" (served "/cap" four_starts unused).sessions ≡ some 0)
    × (find_session "d" (served "/cap" four_starts unused).sessions ≡ some 1)
    × (is_running ((served "/cap" four_starts unused).heap 0) ≡ true)
    × (is_running ((served "/cap" four_starts unused).heap 1) ≡ true)
unfolding program
found = (refl, refl, refl, refl)

a_not_d : ◌≢◌ {A = String} "a" "d"
a_not_d = ground (arith, str_eq_iff "a" "d")

run_events-exclusive_example :
    conflict
      ((served "/cap" four_starts unused).heap 0).cfg.interface
      ((served "/cap" four_starts unused).heap 1).cfg.interface
    ≡ false
run_events-exclusive_example =
    run_events-exclusive "/cap" four_starts unused "a" "d" 0 1 found.0 found.1 a_not_d found.2
      found.3

-- A session id that is used again while its stop still waits: the stop drops the new capture from
-- the table, and the next start on the same interface is let in beside it.
abbrev reused_id : List Event
reused_id =
    start_request env (params "a" "eth1")
    ∷ stop_request "a"
    ∷ resume 0 poll_env
    ∷ start_request env (params "a" "eth1")
    ∷ resume 0 poll_env
    ∷ start_request env (params "b" "eth1")
    ∷ []

reused_id_two_captures :
    ((served "/cap" reused_id unused).sessions ≡ ("b", 2) ∷ [])
    × (is_running ((served "/cap" reused_id unused).heap 1) ≡ true)
    × (is_running ((served "/cap" reused_id unused).heap 2) ≡ true)
unfolding program
reused_id_two_captures = (refl, refl, refl)
