-- ===== src/Scheduler/Ticks.antt =====
-- _run_due_schedules of marlinspike/scheduler.py, one round over the projects, and the rounds of
-- _loop. `raises` says for which requests _start_capture_session raises.
use net_discover.Prelude.{
  ℕ, String, List, [], ◌∷◌, ◌++◌, Option, none, some, Bool, true, false, map, if◌then◌else◌,
}
use net_discover.Capd.Server.Sessions.{Value, missing, int_or}
use net_discover.Scheduler.Slots.{Entry, due_slot_today}

-- A `capture_schedule` that parses to an object; `interface` is stripped.
pub record Schedule : Type 0 where
  pub enabled : Bool
  pub times_utc : List Entry
  pub interface : String
  pub duration_s : Value
  pub bpf_filter : String

-- A project, and its agents that are online. `schedule` is none where the text does not parse.
pub record Project : Type 0 where
  pub id : ℕ
  pub schedule : Option Schedule
  pub last_triggered_at : Option ℕ
  pub online_agents : List ℕ

-- The arguments of `_start_capture_session` that differ between calls.
pub record Request : Type 0 where
  pub project_id : ℕ
  pub agent : ℕ
  pub interface : String
  pub bpf_filter : String
  pub max_duration_s : ℕ

-- The requests of a project's agents.
unfoldable pub requests_of : Project → Schedule → ℕ → List Request
requests_of p s duration_s =
    map
      (λ agent. record {
        project_id = p.id;
        agent = agent;
        interface = s.interface;
        bpf_filter = s.bpf_filter;
        max_duration_s = duration_s;
      })
      p.online_agents

-- The requests up to the one that raises, and whether one does.
unfoldable pub start_all : (Request → Bool) → List Request → List Request × Bool
start_all raises [] = ([], false)
start_all raises (r ∷ rs) =
    let (made, raised) = start_all raises rs in
    if raises r then (r ∷ [], true) else (r ∷ made, raised)

-- What a project comes to: the requests made, whether an exception left the loop, and the project
-- as it is stored.
pub record Turn : Type 0 where
  pub requests : List Request
  pub raised : Bool
  pub project : Project

abbrev pub idle : Project → Turn
idle p = record { requests = []; raised = false; project = p }

abbrev pub aborted : List Request → Project → Turn
aborted requests p = record { requests = requests; raised = true; project = p }

-- A project whose slot is due.
unfoldable pub trigger : (Request → Bool) → ℕ → Schedule → Project → Turn
unfolding int_or requests_of start_all
trigger raises now s p = elim (int_or s.duration_s missing 300) [
  | none ↦ aborted [] p
  | some duration_s ↦
      let (made, raised) = start_all raises (requests_of p s duration_s) in
      if raised then aborted made p else record {
        requests = made;
        raised = false;
        project = record p { last_triggered_at = some now };
      }
]

-- The loop's body.
unfoldable pub run_project : (Request → Bool) → ℕ → Project → Turn
unfolding due_slot_today trigger
run_project raises now p = elim p.schedule [
  | none ↦ idle p
  | some s ↦
      if s.enabled
      then elim (due_slot_today s.times_utc now p.last_triggered_at) [
        | none ↦ aborted [] p
        | some true ↦ trigger raises now s p
        | some false ↦ idle p
      ]
      else idle p
]

-- A round: the requests, and the projects after it. An exception ends the round.
unfoldable pub run_due_schedules : (Request → Bool) → ℕ → List Project → List Request × List Project
unfolding run_project
run_due_schedules raises now [] = ([], [])
run_due_schedules raises now (p ∷ ps) =
    let turn = run_project raises now p in
    let (later, stored) = run_due_schedules raises now ps in
    if turn.raised
    then (turn.requests, turn.project ∷ ps)
    else (turn.requests ++ later, turn.project ∷ stored)
