-- ===== src/Scheduler/Accepted.antt =====
-- A schedule that marlinspike/fleet/api.py accepts is one that marlinspike/scheduler.py can run.
use net_discover.Prelude.{
  if◌then◌else◌, ◌<◌, ◌-◌, ◌*◌, ℕ, zero, suc, ◌+◌, ◌≤◌, List, [], ◌∷◌, Option, none, some, Bool,
  true, false, ◌&&◌, not, ◌≡◌, ◌≢◌, refl, arith, map, any, All, inl, inr, Bool-cases, Option-cases,
  ltb, ◌==◌,
}
use net_discover.Capd.FileNames.{codes}
use net_discover.Capd.Server.Sessions.{missing, int_or}
use net_discover.Runs.Row.{is_none}
use net_discover.Scheduler.Slots.{Entry, time, slot_today, due_slot_today}
use net_discover.Scheduler.Ticks.{
  Schedule, Project, Request, requests_of, start_all, trigger, run_project,
}
use net_discover.Scheduler.Once.{IsTime}
use net_discover.Scheduler.Validation.{
  unknown_keys, enabled_no_boolean, times_no_list, invalid_time, duration_not_positive,
  interface_no_string, bpf_no_string, interface_required, times_required, is_boolean, is_list,
  is_string, is_set, is_on, is_end, is_hour, is_minute, two_digits, Item, text, no_text, Datum,
  Body, digit_value, matches_time, is_valid_item, validate_schedule_body, read_time, read_entry,
  schedule_of, items_of, value_of, is_positive,
}

due_slot_today-returns :
    (entries : List Entry) (now : ℕ) (last : Option ℕ)
    → All IsTime entries
    → due_slot_today entries now last ≢ none
unfolding due_slot_today slot_today
due_slot_today-returns [] now last a = λ h. ground (arith, h)
due_slot_today-returns (Entry.malformed ∷ rest) now last a =
    due_slot_today-returns rest now last a.1
due_slot_today-returns (Entry.below_zero ∷ rest) now last a = absurd a.0
due_slot_today-returns (time hh mm ∷ rest) now last a =
    ground (arith, a.0, due_slot_today-returns rest now last a.1)

ends_hold : (x y z w : Bool) → ((x && y) && (z && w)) ≡ true → (x ≡ true) × (z ≡ true)
ends_hold x y z w h = ground (arith, h)

in_day : (hh mm : ℕ) → hh < 24 → mm < 60 → (ltb hh 24 && ltb mm 60) ≡ true
in_day hh mm h m = ground arith

start_all-never : (rs : List Request) → (start_all (λ _. false) rs).1 ≡ false
unfolding start_all
start_all-never [] = refl
start_all-never (r ∷ rs) = ground (arith, start_all-never rs)

trigger-never :
    (now : ℕ) (s : Schedule) (p : Project)
    → int_or s.duration_s missing 300 ≢ none
    → (trigger (λ _. false) now s p).raised ≡ false
unfolding trigger
trigger-never now s p number = elim (Option-cases (int_or s.duration_s missing 300)) [
  | inl none_read ↦ absurd (number none_read)
  | inr (d, read) ↦ ground (arith, read, start_all-never (requests_of p s d))
]

run_project-never :
    (now : ℕ) (p : Project) (s : Schedule)
    → p.schedule ≡ some s
    → due_slot_today s.times_utc now p.last_triggered_at ≢ none
    → int_or s.duration_s missing 300 ≢ none
    → (run_project (λ _. false) now p).raised ≡ false
unfolding run_project
run_project-never now p s saved due number = elim (Bool-cases s.enabled) [
  | inr off ↦ ground (arith, saved, off)
  | inl on ↦ elim (Option-cases (due_slot_today s.times_utc now p.last_triggered_at)) [
    | inl bad ↦ absurd (due bad)
    | inr (true, is_due) ↦ ground (arith, saved, on, is_due, trigger-never now s p number)
    | inr (false, not_due) ↦ ground (arith, saved, on, not_due)
  ]
]

int_or-returns : (d : Option Datum) → is_positive d ≡ true → int_or (value_of d) missing 300 ≢ none
unfolding int_or
int_or-returns none h = λ e. ground (arith, e)
int_or-returns (some (Datum.integer (suc n))) h = λ e. ground (arith, e)
int_or-returns (some (Datum.integer zero)) h = absurd (ground (arith, h))
int_or-returns (some (Datum.boolean b)) h = absurd (ground (arith, h))
int_or-returns (some (Datum.string t)) h = absurd (ground (arith, h))
int_or-returns (some (Datum.list l)) h = absurd (ground (arith, h))
int_or-returns (some Datum.other) h = absurd (ground (arith, h))

-- The checks of a body that passes them all.
all_pass :
    (a b c d e f g h i : Bool)
    → (if a
        then some unknown_keys
        else if not b
        then some enabled_no_boolean
        else if not c
        then some times_no_list
        else if d
        then some invalid_time
        else if not e
        then some duration_not_positive
        else if not f
        then some interface_no_string
        else if not g
        then some bpf_no_string
        else if h
        then some interface_required
        else if i
        then some times_required
        else none)
      ≡ none
    → (d ≡ false) × (e ≡ true)
all_pass a b c d e f g h i passed = ground (arith, passed)

validated :
    (digit : ℕ → Option ℕ) (body : Body)
    → validate_schedule_body digit body ≡ none
    → (any (λ i. not (is_valid_item digit i)) (items_of body.times_utc) ≡ false)
      × (is_positive body.duration_s ≡ true)
unfolding validate_schedule_body
validated digit body accepted =
    all_pass body.has_unknown_keys (is_boolean body.enabled) (is_list body.times_utc)
      (any (λ i. not (is_valid_item digit i)) (items_of body.times_utc))
      (is_positive body.duration_s) (is_string body.interface) (is_string body.bpf_filter)
      (is_on body.enabled && not (is_set body.interface))
      (is_on body.enabled && is_none body.times_utc) accepted

module _ (digit : ℕ → Option ℕ) (decimal : (c v : ℕ) → digit c ≡ some v → v ≤ 9) where
  digit_value-le : (c v : ℕ) → digit_value digit c ≡ some v → v ≤ 9
  unfolding digit_value
  digit_value-le c v h = ground (arith, decimal c v, h)

  digit_value-ascii : (c : ℕ) → 48 ≤ c → c ≤ 57 → digit_value digit c ≡ some (c - 48)
  unfolding digit_value
  digit_value-ascii c low high = ground arith

  hour-read :
      (a b : ℕ)
      → is_hour digit a b ≡ true
      → (hh : ℕ) × (two_digits (digit_value digit a) (digit_value digit b) ≡ some hh) × (hh < 24)
  hour-read a b h = elim (Option-cases (digit_value digit b)) [
    | inl no_digit ↦ absurd (ground (arith, h, no_digit, digit_value-ascii b))
    | inr (v, found) ↦ (
      10 * (a - 48) + v,
      ground (arith, h, found, digit_value-ascii a),
      ground (arith, h, found, digit_value-le b v found, digit_value-ascii b),
    )
  ]

  minute-read :
      (c d : ℕ)
      → is_minute digit c d ≡ true
      → (mm : ℕ) × (two_digits (digit_value digit c) (digit_value digit d) ≡ some mm) × (mm < 60)
  minute-read c d h = elim (Option-cases (digit_value digit d)) [
    | inl no_digit ↦ absurd (ground (arith, h, no_digit))
    | inr (v, found) ↦ (
      10 * (c - 48) + v,
      ground (arith, h, found, digit_value-ascii c),
      ground (arith, h, found, digit_value-le d v found),
    )
  ]

  read_time-IsTime :
      (e : Entry) (cs : List ℕ) → matches_time digit cs ≡ true → IsTime (read_time digit e cs)
  unfolding matches_time read_time
  read_time-IsTime e (a ∷ b ∷ colon ∷ c ∷ d ∷ rest) h =
      let (at_hour, at_minute) =
        ends_hold (is_hour digit a b) (colon == 58) (is_minute digit c d) (is_end rest) h in
      let (hh, hour, early) = hour-read a b at_hour in
      let (mm, minute, within) = minute-read c d at_minute in
      rw (hour, minute) (in_day hh mm early within)
  read_time-IsTime e [] h = absurd (ground (arith, h))
  read_time-IsTime e (a ∷ []) h = absurd (ground (arith, h))
  read_time-IsTime e (a ∷ b ∷ []) h = absurd (ground (arith, h))
  read_time-IsTime e (a ∷ b ∷ c ∷ []) h = absurd (ground (arith, h))
  read_time-IsTime e (a ∷ b ∷ c ∷ d ∷ []) h = absurd (ground (arith, h))

  read_entry-IsTime :
      (parse : Item → Entry) (i : Item)
      → is_valid_item digit i ≡ true
      → IsTime (read_entry digit parse i)
  unfolding is_valid_item read_entry
  read_entry-IsTime parse no_text h = absurd (ground (arith, h))
  read_entry-IsTime parse (text t) h = rw h (read_time-IsTime (parse (text t)) (codes t) h)

  read_entries-IsTime :
      (parse : Item → Entry) (items : List Item)
      → any (λ i. not (is_valid_item digit i)) items ≡ false
      → All IsTime (map (read_entry digit parse) items)
  unfolding any
  read_entries-IsTime parse [] h = tt
  read_entries-IsTime parse (i ∷ items) h = (
    read_entry-IsTime parse i (ground (arith, h)),
    read_entries-IsTime parse items (ground (arith, h)),
  )

  -- A schedule that was accepted when it was saved never ends a round of the scheduler by an
  -- exception of its own, at any moment and whenever it fired last: only a start of a capture that
  -- raises does; for a project whose schedule was not changed since.
  pub accepted-never_raises :
      (parse : Item → Entry) (body : Body) (now : ℕ) (p : Project)
      → validate_schedule_body digit body ≡ none
      → p.schedule ≡ some (schedule_of digit parse body)
      → (run_project (λ _. false) now p).raised ≡ false
  unfolding schedule_of
  accepted-never_raises parse body now p accepted saved =
      let s = schedule_of digit parse body in
      let entries =
        read_entries-IsTime parse (items_of body.times_utc) (validated digit body accepted).0 in
      run_project-never now p s saved
        (due_slot_today-returns s.times_utc now p.last_triggered_at entries)
        (int_or-returns body.duration_s (validated digit body accepted).1)
