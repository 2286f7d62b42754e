-- ===== src/Scheduler/Rounds.antt =====
-- A round of marlinspike/scheduler.py over the projects.
use net_discover.Prelude.{
  ℕ, List, [], ◌∷◌, ◌++◌, some, Bool, true, false, ◌≡◌, ◌≢◌, ◌⊎◌, arith, ◌∙◌, ap, Bool-cases,
  Option-cases, inl, inr, All,
}
use mathlib.Core.List.{append_assoc}
use net_discover.Scheduler.Slots.{due_slot_today}
use net_discover.Scheduler.Ticks.{
  Schedule, Project, Request, trigger, run_project, run_due_schedules,
}
use net_discover.Scheduler.Once.{DueSlot, due_slot_today-DueSlot}

-- A project that is asked to capture has an enabled schedule with a slot that is due, and is
-- recorded as triggered in that round, unless an exception ended the round.
pub record Fired (raises : Request → Bool) (now : ℕ) (p : Project) : Type 0 where
  pub schedule : Schedule
  pub scheduled : p.schedule ≡ some schedule
  pub enabled : schedule.enabled ≡ true
  pub due : DueSlot schedule.times_utc now p.last_triggered_at
  pub recorded :
      ((run_project raises now p).raised ≡ true)
      ⊎ ((run_project raises now p).project.last_triggered_at ≡ some now)

trigger-recorded :
    (raises : Request → Bool) (now : ℕ) (s : Schedule) (p : Project)
    → ((trigger raises now s p).raised ≡ true)
      ⊎ ((trigger raises now s p).project.last_triggered_at ≡ some now)
unfolding trigger
trigger-recorded raises now s p = ground arith

-- A round only asks a project's agents to capture if its schedule is enabled and a slot of it is
-- due, and the project is then recorded as triggered now, unless an exception ended the round.
pub run_project-Fired :
    (raises : Request → Bool) (now : ℕ) (p : Project)
    → (run_project raises now p).requests ≢ []
    → Fired raises now p
unfolding run_project
run_project-Fired raises now p asked = elim (Option-cases p.schedule) [
  | inl unset ↦ absurd (ground (arith, unset, asked))
  | inr (s, set) ↦ elim (Bool-cases s.enabled) [
    | inr off ↦ absurd (ground (arith, set, off, asked))
    | inl on ↦ elim (Option-cases (due_slot_today s.times_utc now p.last_triggered_at)) [
      | inl bad ↦ absurd (ground (arith, set, on, bad, asked))
      | inr (due, found) ↦ elim (Bool-cases due) [
        | inr not_due ↦ absurd (ground (arith, set, on, found, not_due, asked))
        | inl is_due ↦ record {
          schedule = s;
          scheduled = set;
          enabled = on;
          due = due_slot_today-DueSlot s.times_utc now p.last_triggered_at (found ∙ ap some is_due);
          recorded = ground (arith, set, on, found, is_due, trigger-recorded raises now s p);
        }
      ]
    ]
  ]
]

-- A project that raises, by a time that is no time of the day, a duration that is no number or a
-- start that fails so, ends the round: the projects before it are served as if it were not there,
-- and every project behind it is left as it was, with no request made for it.
pub run_due_schedules-raises :
    (raises : Request → Bool) (now : ℕ) (ps : List Project) (bad : Project) (rest : List Project)
    → All (λ p. (run_project raises now p).raised ≡ false) ps
    → (run_project raises now bad).raised ≡ true
    → let (made, stored) = run_due_schedules raises now ps in
      let turn = run_project raises now bad in
      run_due_schedules raises now (ps ++ bad ∷ rest)
      ≡ (made ++ turn.requests, stored ++ turn.project ∷ rest)
unfolding run_due_schedules
run_due_schedules-raises raises now [] bad rest a r = ground (arith, r)
run_due_schedules-raises raises now (p ∷ ps) bad rest a r =
    let (made, stored) = run_due_schedules raises now ps in
    let turn = run_project raises now bad in
    rw (
      a.0,
      run_due_schedules-raises raises now ps bad rest a.1 r,
      append_assoc (run_project raises now p).requests made turn.requests,
    )
