-- ===== src/Capd/Server/Sessions.antt =====
-- CapdServer of marlinspike-capd/capd/server.py: _start_session, _stop_session, _session_status, a
-- round of _stream_stats and _reap_if_finished. The event loop runs one piece of a handler at a
-- time; a piece ends where the handler waits for the executor. A supervisor is an object that the
-- table of sessions and the waiting handlers share, so it stands on a heap.
use Prim.Native.String
use net_discover.Prelude.{
  ℕ, zero, suc, String, List, [], ◌∷◌, Option, none, some, Bool, true, false, ◌&&◌, ◌||◌, not, ◌==◌,
  if◌then◌else◌, str_eq, ◌⊎◌, inl, inr,
}
use net_discover.Capd.Supervisor.Snapshot.{Sight}
use net_discover.Capd.Supervisor.Process.{
  CaptureConfig, Dumpcap, Supervisor, Result, ok, raise, Error, lstrip, rstrip, new_supervisor,
  start, Ending, Summary, stop, poll, is_running,
}

-- A JSON value where the code wants an integer: missing or null, an integer, or neither.
pub data Value : Type 0 where
  missing : Value
  int : ℕ → Value
  no_int : Value

pub record StartParams : Type 0 where
  pub session_id : String
  pub interface : String
  pub bpf : String
  pub ring_filesize_kb : Value
  pub filesize_kb : Value
  pub ring_files : Value
  pub files : Value
  pub max_duration_s : Value

-- `int(a or b or default)`: `none` is the ValueError or TypeError.
unfoldable pub int_or : Value → Value → ℕ → Option ℕ
int_or no_int b d = none
int_or (int (suc n)) b d = some (suc n)
int_or _ no_int d = none
int_or _ (int (suc n)) d = some (suc n)
int_or _ _ d = some d

-- What the handler asks of libpcap, of the interface list and of dumpcap.
pub record StartEnv : Type 0 where
  pub bpf_error : String → Bool → Option String
  pub interface_exists : String → Bool
  pub other_alnum : ℕ → Bool
  pub dumpcap_path : Option String
  pub lines : List String
  pub after_grace : Dumpcap

pub record PollEnv : Type 0 where
  pub ending : Ending
  pub summary : Summary
  pub lines : List String
  pub sight : Sight

-- What a handler waits for, or was resumed with: the session's id, and the supervisor it read.
pub data Task : Type 0 where
  stopping stopped polling : String → ℕ → Task
  polled : String → ℕ → Bool → Task

pub record State : Type 0 where
  pub sessions : List (String × ℕ)
  pub heap : ℕ → Supervisor
  pub next : ℕ
  pub tasks : List Task

pub data Response : Type 0 where
  started : String → String → Response
  not_integers session_id_required interface_required unknown_session : Response
  bpf_invalid interface_not_found : String → Response
  already_running : String → Response
  -- The interface asked for, and the session and the interface that it conflicts with.
  conflicts : String → String → String → Response
  start_failed : Error → Response

-- `self._sessions.get(session_id)`
unfoldable pub find_session : String → List (String × ℕ) → Option ℕ
find_session k [] = none
find_session k ((sid, h) ∷ rest) = if str_eq sid k then some h else find_session k rest

-- `self._sessions[session_id] = sup`
unfoldable pub set_session : String → ℕ → List (String × ℕ) → List (String × ℕ)
set_session k h [] = (k, h) ∷ []
set_session k h ((sid, g) ∷ rest) =
    if str_eq sid k then (sid, h) ∷ rest else (sid, g) ∷ set_session k h rest

-- `self._sessions.pop(session_id, None)`
unfoldable pub pop_session : String → List (String × ℕ) → List (String × ℕ)
pop_session k [] = []
pop_session k ((sid, h) ∷ rest) = if str_eq sid k then rest else (sid, h) ∷ pop_session k rest

unfoldable pub set_heap : (ℕ → Supervisor) → ℕ → Supervisor → ℕ → Supervisor
set_heap heap h s g = if g == h then s else heap g

abbrev pub is_any : String → Bool
is_any interface = str_eq interface "any"

-- The interface lock: two captures cannot run side by side.
abbrev pub conflict : String → String → Bool
conflict a b = is_any a || (is_any b || str_eq b a)

-- The first running capture of another session that the new one conflicts with.
unfoldable pub first_conflict :
    String → String → (ℕ → Supervisor) → List (String × ℕ) → Option (String × String)
first_conflict k interface heap [] = none
first_conflict k interface heap ((sid, h) ∷ rest) =
    let later = first_conflict k interface heap rest in
    if (not (str_eq sid k) && is_running (heap h)) && conflict interface (heap h).cfg.interface
    then some (sid, (heap h).cfg.interface)
    else later

unfoldable pub is_session_running : String → State → Bool
unfolding find_session
is_session_running k s = elim (find_session k s.sessions) [
  | none ↦ false
  | some h ↦ is_running (s.heap h)
]

-- `CaptureSupervisor(cfg)` and `sup.start()`
unfoldable pub launch : StartEnv → CaptureConfig → Result Supervisor
launch env cfg = elim (new_supervisor env.other_alnum cfg env.dumpcap_path) [
  | raise e ↦ raise e
  | ok sup ↦ start env.lines env.after_grace sup
]

-- `self._sessions[session_id] = sup`, or the error that the start raised.
unfoldable pub admit : CaptureConfig → Result Supervisor → State → Response × State
unfolding set_session set_heap
admit cfg (raise e) s = (start_failed e, s)
admit cfg (ok sup) s = (
  started cfg.session_id cfg.output_dir,
  record s {
    sessions = set_session cfg.session_id s.next s.sessions;
    heap = set_heap s.heap s.next sup;
    next = suc s.next;
  },
)

-- The part of `_start_session` under the lock.
unfoldable pub start_locked : StartEnv → CaptureConfig → State → Response × State
unfolding is_session_running first_conflict admit
start_locked env cfg s =
    if is_session_running cfg.session_id s
    then (already_running cfg.session_id, s)
    else elim (first_conflict cfg.session_id cfg.interface s.heap s.sessions) [
      | some (other_id, other_interface) ↦ (conflicts cfg.interface other_id other_interface, s)
      | none ↦ admit cfg (launch env cfg) s
    ]

abbrev pub strip : String → String
strip t = lstrip (rstrip t)

abbrev is_blank : String → Bool
is_blank String.[] = true
is_blank _ = false

-- The checks of `_start_session` on the parameters; `capture_root` is where captures are kept.
unfoldable pub check_params : String → StartEnv → StartParams → Response ⊎ CaptureConfig
unfolding int_or
check_params capture_root env p =
    let k = strip p.session_id in
    let interface = strip p.interface in
    elim (int_or p.ring_filesize_kb p.filesize_kb 200_000) [
      | none ↦ inl not_integers
      | some filesize_kb ↦ elim (int_or p.ring_files p.files 10) [
        | none ↦ inl not_integers
        | some files ↦ elim (int_or p.max_duration_s missing 0) [
          | none ↦ inl not_integers
          | some max_duration_s ↦
              if is_blank k
              then inl session_id_required
              else if is_blank interface
              then inl interface_required
              else elim (env.bpf_error p.bpf (is_any interface)) [
                | some e ↦ inl (bpf_invalid e)
                | none ↦
                    if not (is_any interface) && not (env.interface_exists interface)
                    then inl (interface_not_found interface)
                    else inr (record {
                      session_id = k;
                      interface = interface;
                      bpf_filter = p.bpf;
                      output_dir = String.◌++◌ (String.◌++◌ capture_root "/") k;
                      filesize_kb = filesize_kb;
                      files = files;
                      max_duration_s = max_duration_s;
                    })
              ]
        ]
      ]
    ]

unfoldable pub start_session : String → StartEnv → StartParams → State → Response × State
unfolding check_params start_locked
start_session capture_root env p s = elim (check_params capture_root env p) [
  | inl refusal ↦ (refusal, s)
  | inr cfg ↦ start_locked env cfg s
]

-- A handler that found its supervisor waits; one that did not answers.
unfoldable pub wait_for : (ℕ → Task) → Option ℕ → State → Option Response × State
wait_for task none s = (some unknown_session, s)
wait_for task (some h) s = (none, record s { tasks = task h ∷ s.tasks })

-- `_stop_session` up to its wait.
unfoldable pub stop_session : String → State → Option Response × State
unfolding find_session wait_for
stop_session k s = wait_for (stopping k) (find_session k s.sessions) s

-- `_session_status`, or a round of `_stream_stats`, up to its wait.
unfoldable pub poll_session : String → State → Option Response × State
unfolding find_session wait_for
poll_session k s = wait_for (polling k) (find_session k s.sessions) s

unfoldable pub reap_if_finished : String → Bool → List (String × ℕ) → List (String × ℕ)
unfolding pop_session
reap_if_finished k running sessions = if running then sessions else pop_session k sessions

-- What is left of `_stop_session` after its wait: nothing, where `stop` raised.
unfoldable pub after_stop : {A : Type 0} → String → ℕ → Result A → List Task → List Task
after_stop k h (ok _) tasks = stopped k h ∷ tasks
after_stop k h (raise e) tasks = tasks

-- One piece of a waiting handler: the executor's call, or what follows it.
unfoldable pub run_task : PollEnv → Task → State → State
unfolding reap_if_finished set_heap after_stop
run_task env (stopping k h) s =
    let (result, sup) = stop env.ending env.summary env.lines env.sight (s.heap h) in
    record s { heap = set_heap s.heap h sup; tasks = after_stop k h result s.tasks }
run_task env (stopped k h) s = record s { sessions = pop_session k s.sessions }
run_task env (polling k h) s =
    let (stats, sup) = poll env.summary env.lines env.sight (s.heap h) in
    record s { heap = set_heap s.heap h sup; tasks = polled k h stats.is_running ∷ s.tasks }
run_task env (polled k h running) s = record s { sessions = reap_if_finished k running s.sessions }

unfoldable pub take_task : ℕ → List Task → Option (Task × List Task)
take_task i [] = none
take_task zero (t ∷ ts) = some (t, ts)
take_task (suc i) (t ∷ ts) = elim (take_task i ts) [
  | none ↦ none
  | some (found, rest) ↦ some (found, t ∷ rest)
]

unfoldable pub resume_task : PollEnv → Option (Task × List Task) → State → State
unfolding run_task
resume_task env none s = s
resume_task env (some (t, rest)) s = run_task env t (record s { tasks = rest })
