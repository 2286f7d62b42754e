-- ===== src/Scheduler/Scenarios.antt =====
-- Rounds of marlinspike/scheduler.py over a few projects, and the theorems about them there.
use net_discover.Prelude.{
  ◌≤◌, Option, String, ◌≢◌, Bool, ℕ, ◌+◌, ◌*◌, List, [], ◌∷◌, ◌++◌, none, some, true, false, ◌≡◌,
  ◌↔◌, refl, arith,
}
use net_discover.Capd.Server.Sessions.{Value}
use net_discover.Scheduler.Slots.{Entry, time, malformed, day, due_slot_today}
use net_discover.Scheduler.Ticks.{Project, Request, run_project, run_due_schedules}
use net_discover.Scheduler.Once.{DueSlot, due_slot_today_iff}
use net_discover.Scheduler.Validation.{
  Item, text, Datum, Body, validate_schedule_body, invalid_time, schedule_of,
}
use net_discover.Scheduler.Accepted.{accepted-never_raises}
use net_discover.Scheduler.Rounds.{Fired, run_project-Fired, run_due_schedules-raises}

-- Six o'clock and a minute, on the third day.
abbrev six_one : ℕ
six_one = 2 * day + 21_660_000_000

abbrev twice_a_day : List Entry
twice_a_day = malformed ∷ time 6 0 ∷ time 18 0 ∷ []

abbrev project : ℕ → List Entry → Project
project id times = record {
  id = id;
  schedule = some (record {
    enabled = true;
    times_utc = times;
    interface = "eth0";
    duration_s = Value.missing;
    bpf_filter = "";
  });
  last_triggered_at = none;
  online_agents = 4 ∷ 5 ∷ [];
}

fires_once :
    (due_slot_today twice_a_day six_one none ≡ some true)
    × (due_slot_today twice_a_day (six_one + 60_000_000) (some six_one) ≡ some false)
unfolding due_slot_today
fires_once = (refl, refl)

due_slot_today_iff_example :
    (due_slot_today twice_a_day six_one none ≡ some true) ↔ DueSlot twice_a_day six_one none
due_slot_today_iff_example = due_slot_today_iff twice_a_day six_one none (tt, (refl, (refl, tt)))

two_requests : (run_project (λ _. false) six_one (project 1 twice_a_day)).requests ≢ []
unfolding run_project
two_requests h = ground (arith, h)

run_project-Fired_example : Fired (λ _. false) six_one (project 1 twice_a_day)
run_project-Fired_example =
    run_project-Fired (λ _. false) six_one (project 1 twice_a_day) two_requests

abbrev never : Request → Bool
never _ = false

first_served : (run_project never six_one (project 1 twice_a_day)).raised ≡ false
unfolding run_project
first_served = refl

second_raises : (run_project never six_one (project 2 (time 24 0 ∷ []))).raised ≡ true
unfolding run_project
second_raises = refl

run_due_schedules-raises_example :
    let ps = project 1 twice_a_day ∷ [] in
    let bad = project 2 (time 24 0 ∷ []) in
    let rest = project 3 twice_a_day ∷ [] in
    let (made, stored) = run_due_schedules never six_one ps in
    let turn = run_project never six_one bad in
    run_due_schedules never six_one (ps ++ bad ∷ rest)
    ≡ (made ++ turn.requests, stored ++ turn.project ∷ rest)
run_due_schedules-raises_example =
    run_due_schedules-raises never six_one (project 1 twice_a_day ∷ []) (project 2 (time 24 0 ∷ []))
      (project 3 twice_a_day ∷ []) (first_served, tt) second_raises

abbrev ascii : ℕ → Option ℕ
ascii _ = none

ascii-decimal : (c v : ℕ) → ascii c ≡ some v → v ≤ 9
ascii-decimal c v h = absurd (ground (arith, h))

abbrev body : String → Body
body at = record {
  has_unknown_keys = false;
  enabled = some (Datum.boolean true);
  times_utc = some (Datum.list (text "06:00" ∷ text at ∷ []));
  duration_s = some (Datum.integer 600);
  interface = some (Datum.string "eth0");
  bpf_filter = none;
}

six_and_half_past : validate_schedule_body ascii (body "18:30") ≡ none
unfolding validate_schedule_body
six_and_half_past = refl

no_24 : validate_schedule_body ascii (body "24:00") ≡ some invalid_time
unfolding validate_schedule_body
no_24 = refl

abbrev ignored : Item → Entry
ignored _ = malformed

abbrev saved : Project
saved = record {
  id = 1;
  schedule = some (schedule_of ascii ignored (body "18:30"));
  last_triggered_at = none;
  online_agents = 4 ∷ [];
}

accepted-never_raises_example : (run_project (λ _. false) six_one saved).raised ≡ false
accepted-never_raises_example =
    accepted-never_raises ascii ascii-decimal ignored (body "18:30") six_one saved six_and_half_past
      refl
