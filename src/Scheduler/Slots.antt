-- ===== src/Scheduler/Slots.antt =====
-- _due_slot_today of marlinspike/scheduler.py. A moment is a number of microseconds, in UTC, since a
-- midnight.
use net_discover.Prelude.{
  ℕ, ◌+◌, ◌-◌, ◌*◌, ◌/◌, List, [], ◌∷◌, Option, none, some, Bool, true, false, ◌&&◌, not, ltb, leb,
  if◌then◌else◌,
}

-- An entry of `times_utc` after the `try`: two integers, one of them below zero, or neither.
pub data Entry : Type 0 where
  malformed below_zero : Entry
  time : ℕ → ℕ → Entry

abbrev pub day : ℕ
day = 86_400_000_000

abbrev pub slot_grace : ℕ
slot_grace = 180_000_000

-- Midnight before a moment.
abbrev pub midnight : ℕ → ℕ
midnight now = now / day * day

-- `now.replace(hour=hh, minute=mm, second=0, microsecond=0)`: `none` is its ValueError.
unfoldable pub slot_today : ℕ → ℕ → ℕ → Option ℕ
slot_today now hh mm =
    if ltb hh 24 && ltb mm 60
    then some (midnight now + (hh * 3_600_000_000 + mm * 60_000_000))
    else none

-- Is a slot due: it has come, not too long ago, and has not fired?
unfoldable pub is_slot_due : ℕ → Option ℕ → ℕ → Bool
is_slot_due now last_triggered_at slot =
    not (ltb now slot)
    && (not (ltb slot_grace (now - slot))
        && (elim last_triggered_at [ none ↦ true | some lt ↦ not (leb slot lt) ]))

-- `none` is a ValueError, which no `try` of the function catches.
unfoldable pub due_slot_today : List Entry → ℕ → Option ℕ → Option Bool
unfolding slot_today is_slot_due
due_slot_today [] now last = some false
due_slot_today (malformed ∷ rest) now last = due_slot_today rest now last
due_slot_today (below_zero ∷ rest) now last = none
due_slot_today (time hh mm ∷ rest) now last =
    let later = due_slot_today rest now last in
    elim (slot_today now hh mm) [
      | none ↦ none
      | some slot ↦ if is_slot_due now last slot then some true else later
    ]
