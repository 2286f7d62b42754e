-- ===== src/Capd/Server/Exclusive.antt =====
-- The interface lock of marlinspike-capd/capd/server.py, over every order in which requests,
-- handlers and exits of dumpcap can follow one another.
use net_discover.Prelude.{
  ℕ, String, List, [], ◌∷◌, Option, none, some, true, false, ◌∙◌, ◌≡◌, ◌≢◌, refl, arith, str_eq,
  str_eq_iff, Bool-cases, Option-cases, inl, inr, ◌⊎◌,
}
use net_discover.Capd.Supervisor.Process.{
  CaptureConfig, Supervisor, Result, ok, raise, stop, poll, is_running,
}
use net_discover.Capd.Server.Sessions.{
  StartEnv, PollEnv, StartParams, Task, stopping, stopped, polling, polled, State, Response,
  find_session, pop_session, conflict, first_conflict, is_session_running, launch, admit,
  start_locked, check_params, start_session, stop_session, poll_session, reap_if_finished, run_task,
  take_task, resume_task, wait_for,
}
use net_discover.Capd.Server.Events.{
  new_server, Event, start_request, stop_request, poll_request, resume, dumpcap_exits, exit_proc,
  step, run_events,
}
use net_discover.Capd.Server.Clashes.{
  clash, Apart, Exclusive, Keyed, Below, Exclusive-set_heap, stop-Quieter, poll-Quieter,
  exit_proc-Quieter, Exclusive-pop, Below-pop, Keyed-pop, Keyed-set, Below-set,
}
use net_discover.Capd.Server.Admission.{Exclusive-set, launch-interface}

-- The table has one entry for a session id, names supervisors that exist, and holds no two running
-- captures that conflict.
pub record IsValid (s : State) : Type 0 where
  pub keyed : Keyed s.sessions
  pub allocated : Below s.next s.sessions
  pub exclusive : Exclusive s.heap s.sessions

admit-IsValid :
    (cfg : CaptureConfig) (r : Result Supervisor) (s : State)
    → ((sup : Supervisor) → r ≡ ok sup → sup.cfg ≡ cfg)
    → first_conflict cfg.session_id cfg.interface s.heap s.sessions ≡ none
    → IsValid s
    → IsValid (admit cfg r s).1
unfolding admit
admit-IsValid cfg (raise e) s made free v = v
admit-IsValid cfg (ok sup) s made free v = record {
  keyed = Keyed-set cfg.session_id s.next s.sessions v.keyed;
  allocated = Below-set cfg.session_id s.next s.sessions v.allocated;
  exclusive =
      Exclusive-set cfg.session_id s.next sup s.heap s.sessions v.allocated v.keyed
        (rw (made sup refl) free) v.exclusive;
}

start_locked-IsValid :
    (env : StartEnv) (cfg : CaptureConfig) (s : State)
    → IsValid s
    → IsValid (start_locked env cfg s).1
unfolding start_locked
start_locked-IsValid env cfg s v = elim (Bool-cases (is_session_running cfg.session_id s)) [
  | inl busy ↦ rw busy v
  | inr idle ↦
      rw idle (elim (Option-cases (first_conflict cfg.session_id cfg.interface s.heap s.sessions)) [
        | inl free ↦
            rw free (admit-IsValid cfg (launch env cfg) s (launch-interface env cfg) free v)
        | inr (found, taken) ↦ rw taken v
      ])
]

start_session-IsValid :
    (root : String) (env : StartEnv) (p : StartParams) (s : State)
    → IsValid s
    → IsValid (start_session root env p s).1
unfolding start_session
start_session-IsValid root env p s v = go (check_params root env p)
  where
    go :
        (c : Response ⊎ CaptureConfig)
        → IsValid
            (elim c as (λ _. Response × State) [
              | inl refusal ↦ (refusal, s)
              | inr cfg ↦ start_locked env cfg s
            ]).1
    go (inl refusal) = v
    go (inr cfg) = start_locked-IsValid env cfg s v

run_task-IsValid : (env : PollEnv) (t : Task) (s : State) → IsValid s → IsValid (run_task env t s)
unfolding run_task reap_if_finished
run_task-IsValid env (stopping k h) s v = record {
  keyed = v.keyed;
  allocated = v.allocated;
  exclusive =
      Exclusive-set_heap s.heap h (stop env.ending env.summary env.lines env.sight (s.heap h)).1
        (stop-Quieter env (s.heap h)) s.sessions v.exclusive;
}
run_task-IsValid env (stopped k h) s v = record {
  keyed = Keyed-pop k s.sessions v.keyed;
  allocated = Below-pop k s.next s.sessions v.allocated;
  exclusive = Exclusive-pop k s.heap s.sessions v.exclusive;
}
run_task-IsValid env (polling k h) s v = record {
  keyed = v.keyed;
  allocated = v.allocated;
  exclusive =
      Exclusive-set_heap s.heap h (poll env.summary env.lines env.sight (s.heap h)).1
        (poll-Quieter env (s.heap h)) s.sessions v.exclusive;
}
run_task-IsValid env (polled k h true) s v = v
run_task-IsValid env (polled k h false) s v = run_task-IsValid_pop
  where
    run_task-IsValid_pop : IsValid (record s { sessions = pop_session k s.sessions })
    run_task-IsValid_pop = record {
      keyed = Keyed-pop k s.sessions v.keyed;
      allocated = Below-pop k s.next s.sessions v.allocated;
      exclusive = Exclusive-pop k s.heap s.sessions v.exclusive;
    }

-- `tasks` is no part of the invariant.
with_tasks-IsValid : (s : State) (ts : List Task) → IsValid s → IsValid (record s { tasks = ts })
with_tasks-IsValid s ts v = record {
  keyed = v.keyed;
  allocated = v.allocated;
  exclusive = v.exclusive;
}

wait_for-IsValid :
    (task : ℕ → Task) (found : Option ℕ) (s : State) → IsValid s → IsValid (wait_for task found s).1
unfolding wait_for
wait_for-IsValid task none s v = v
wait_for-IsValid task (some h) s v = with_tasks-IsValid s (task h ∷ s.tasks) v

resume_task-IsValid :
    (env : PollEnv) (found : Option (Task × List Task)) (s : State)
    → IsValid s
    → IsValid (resume_task env found s)
unfolding resume_task
resume_task-IsValid env none s v = v
resume_task-IsValid env (some (t, rest)) s v =
    run_task-IsValid env t (record s { tasks = rest }) (with_tasks-IsValid s rest v)

step-IsValid : (root : String) (e : Event) (s : State) → IsValid s → IsValid (step root e s)
unfolding step stop_session poll_session
step-IsValid root (start_request env p) s v = start_session-IsValid root env p s v
step-IsValid root (stop_request k) s v =
    wait_for-IsValid (stopping k) (find_session k s.sessions) s v
step-IsValid root (poll_request k) s v =
    wait_for-IsValid (polling k) (find_session k s.sessions) s v
step-IsValid root (resume i env) s v = resume_task-IsValid env (take_task i s.tasks) s v
step-IsValid root (dumpcap_exits h code) s v = record {
  keyed = v.keyed;
  allocated = v.allocated;
  exclusive =
      Exclusive-set_heap s.heap h (exit_proc code (s.heap h)) (exit_proc-Quieter code (s.heap h))
        s.sessions v.exclusive;
}

run_events-IsValid :
    (root : String) (es : List Event) (s : State) → IsValid s → IsValid (run_events root es s)
unfolding run_events
run_events-IsValid root [] s v = v
run_events-IsValid root (e ∷ es) s v =
    run_events-IsValid root es (step root e s) (step-IsValid root e s v)

new_server-IsValid : (unused : Supervisor) → IsValid (new_server unused)
new_server-IsValid unused = record { keyed = tt; allocated = tt; exclusive = tt }

Apart-find :
    (heap : ℕ → Supervisor) (s : Supervisor) (k : String) (g : ℕ) (l : List (String × ℕ))
    → Apart heap s l
    → find_session k l ≡ some g
    → clash s (heap g) ≡ false
unfolding find_session
Apart-find heap s k g [] a f = cc
Apart-find heap s k g ((sid, h) ∷ rest) a f = elim (Bool-cases (str_eq sid k)) [
  | inl same ↦ let e : h ≡ g = ground arith in rw e at (a.0)
  | inr other ↦ Apart-find heap s k g rest a.1 (ground arith)
]

clash_comm : (s t : Supervisor) → clash s t ≡ clash t s
clash_comm s t =
    ground (
      arith,
      str_eq_iff s.cfg.interface t.cfg.interface,
      str_eq_iff t.cfg.interface s.cfg.interface,
    )

Exclusive-find :
    (heap : ℕ → Supervisor) (j k : String) (h g : ℕ) (l : List (String × ℕ))
    → Exclusive heap l
    → find_session j l ≡ some h
    → find_session k l ≡ some g
    → j ≢ k
    → clash (heap h) (heap g) ≡ false
unfolding find_session
Exclusive-find heap j k h g [] x fj fk d = cc
Exclusive-find heap j k h g ((sid, i) ∷ rest) x fj fk d = elim (Bool-cases (str_eq sid j)) [
  | inl first ↦
      let e : i ≡ h = ground arith in
      rw e at
        (Apart-find heap (heap i) k g rest x.0 (ground (arith, str_eq_iff sid j, str_eq_iff sid k)))
  | inr other ↦ elim (Bool-cases (str_eq sid k)) [
    | inl second ↦
        let e : i ≡ g = ground arith in
        clash_comm (heap h) (heap g)
        ∙ (rw e at (Apart-find heap (heap i) j h rest x.0 (ground arith)))
    | inr neither ↦ Exclusive-find heap j k h g rest x.1 (ground arith) (ground arith) d
  ]
]

-- The daemon after the events `es`.
abbrev pub served : String → List Event → Supervisor → State
served root es unused = run_events root es (new_server unused)

-- However requests, waiting handlers and exits of dumpcap interleave from the start of the daemon,
-- two sessions of its table are never capturing at once on one interface, nor one of them on all
-- interfaces (`any`) while the other captures.
pub run_events-exclusive :
    (root : String) (es : List Event) (unused : Supervisor) (j k : String) (h g : ℕ)
    → find_session j (served root es unused).sessions ≡ some h
    → find_session k (served root es unused).sessions ≡ some g
    → j ≢ k
    → is_running ((served root es unused).heap h) ≡ true
    → is_running ((served root es unused).heap g) ≡ true
    → conflict
        ((served root es unused).heap h).cfg.interface
        ((served root es unused).heap g).cfg.interface
      ≡ false
run_events-exclusive root es unused j k h g fj fk d rh rg =
    let s = served root es unused in
    let v = run_events-IsValid root es (new_server unused) (new_server-IsValid unused) in
    ground (arith, Exclusive-find s.heap j k h g s.sessions v.exclusive fj fk d)
