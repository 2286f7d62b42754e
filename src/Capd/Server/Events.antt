-- ===== src/Capd/Server/Events.antt =====
-- The event loop of marlinspike-capd/capd/server.py: requests, waiting handlers that go on and exits
-- of dumpcap, in any order.
use net_discover.Prelude.{ℕ, String, List, [], ◌∷◌, some, if◌then◌else◌}
use net_discover.Capd.Supervisor.Process.{Dumpcap, Supervisor, is_running}
use net_discover.Capd.Server.Sessions.{
  StartParams, StartEnv, PollEnv, State, set_heap, start_session, stop_session, poll_session,
  take_task, resume_task,
}

-- What happens next: a request, a waiting handler that goes on, or a dumpcap that exits.
pub data Event : Type 0 where
  start_request : StartEnv → StartParams → Event
  stop_request poll_request : String → Event
  resume : ℕ → PollEnv → Event
  dumpcap_exits : ℕ → ℕ → Event

-- A live process ends.
unfoldable pub exit_proc : ℕ → Supervisor → Supervisor
unfolding is_running
exit_proc code s = if is_running s then record s { proc = some (Dumpcap.exited code) } else s

unfoldable pub step : String → Event → State → State
unfolding start_session stop_session poll_session resume_task take_task exit_proc set_heap
step root (start_request env p) s = (start_session root env p s).1
step root (stop_request k) s = (stop_session k s).1
step root (poll_request k) s = (poll_session k s).1
step root (resume i env) s = resume_task env (take_task i s.tasks) s
step root (dumpcap_exits h code) s = record s {
  heap = set_heap s.heap h (exit_proc code (s.heap h));
}

unfoldable pub run_events : String → List Event → State → State
unfolding step
run_events root [] s = s
run_events root (e ∷ es) s = run_events root es (step root e s)

-- The daemon when it starts; `unused` stands at the places of the heap that hold no supervisor.
abbrev pub new_server : Supervisor → State
new_server unused = record { sessions = []; heap = λ _. unused; next = 0; tasks = [] }
