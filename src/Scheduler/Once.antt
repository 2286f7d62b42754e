-- ===== src/Scheduler/Once.antt =====
-- How often a slot of marlinspike/scheduler.py fires.
use net_discover.Prelude.{
  ℕ, ◌*◌, ◌%◌, ◌+◌, ◌≤◌, ◌<◌, List, [], ◌∷◌, Option, none, some, true, ◌≡◌, ◌↔◌, ◌⊎◌, arith,
  Bool-cases, Option-cases, inl, inr, All, ltb, ◌&&◌,
}
use net_discover.Scheduler.Slots.{
  Entry, malformed, below_zero, time, day, slot_grace, slot_today, is_slot_due, due_slot_today,
}

-- `slot` is the time hh:mm of the day of `now`: it is as far from `now` as hh:mm, in minutes of
-- sixty million microseconds, is from the time of the day.
abbrev pub IsSlot : ℕ → ℕ → ℕ → ℕ → Type 0
IsSlot now hh mm slot =
    (hh < 24) × (mm < 60) × (slot + now % day ≡ now + (hh * 60 + mm) * 60_000_000)

slot_today_iff : (now hh mm slot : ℕ) → (slot_today now hh mm ≡ some slot) ↔ IsSlot now hh mm slot
unfolding slot_today
slot_today_iff now hh mm slot = (λ at. ground (arith, at), λ is. ground (arith, is.0, is.1, is.2))

-- The schedule has a slot at the moment `slot` of the day of `now`.
unfoldable pub HasSlot : List Entry → ℕ → ℕ → Type 0
HasSlot [] now slot = ⊥
HasSlot (time hh mm ∷ rest) now slot = IsSlot now hh mm slot ⊎ HasSlot rest now slot
HasSlot (malformed ∷ rest) now slot = HasSlot rest now slot
HasSlot (below_zero ∷ rest) now slot = HasSlot rest now slot

-- Nothing has fired at or after the slot.
abbrev pub IsUnfired : Option ℕ → ℕ → Type 0
IsUnfired none slot = Unit
IsUnfired (some lt) slot = lt < slot

-- A slot of the schedule has come, not longer ago than the grace, and has not fired.
pub record DueSlot (entries : List Entry) (now : ℕ) (last : Option ℕ) : Type 0 where
  pub slot : ℕ
  pub on_schedule : HasSlot entries now slot
  pub come : slot ≤ now
  pub in_grace : now ≤ slot + slot_grace
  pub unfired : IsUnfired last slot

-- An entry that is malformed, and so ignored, or a time of the day.
abbrev pub IsTime : Entry → Type 0
IsTime malformed = Unit
IsTime below_zero = ⊥
IsTime (time hh mm) = (ltb hh 24 && ltb mm 60) ≡ true

is_slot_due-bounds :
    (now : ℕ) (last : Option ℕ) (slot : ℕ)
    → (is_slot_due now last slot ≡ true)
      ↔ ((slot ≤ now) × (now ≤ slot + slot_grace) × IsUnfired last slot)
unfolding is_slot_due
is_slot_due-bounds now none slot = ground arith
is_slot_due-bounds now (some lt) slot = ground arith

-- Whatever entries a schedule has, it is only found due when some slot of it is.
pub due_slot_today-DueSlot :
    (entries : List Entry) (now : ℕ) (last : Option ℕ)
    → due_slot_today entries now last ≡ some true
    → DueSlot entries now last
unfolding due_slot_today HasSlot
due_slot_today-DueSlot [] now last h = absurd (ground (arith, h))
due_slot_today-DueSlot (malformed ∷ rest) now last h =
    let d = due_slot_today-DueSlot rest now last h in
    record {
      slot = d.slot;
      on_schedule = d.on_schedule;
      come = d.come;
      in_grace = d.in_grace;
      unfired = d.unfired;
    }
due_slot_today-DueSlot (below_zero ∷ rest) now last h = absurd (ground (arith, h))
due_slot_today-DueSlot (time hh mm ∷ rest) now last h = elim (Option-cases (slot_today now hh mm)) [
  | inl bad ↦ absurd (ground (arith, bad, h))
  | inr (slot, at) ↦ elim (Bool-cases (is_slot_due now last slot)) [
    | inl due ↦
        let (come, in_grace, unfired) = (is_slot_due-bounds now last slot).0 due in
        record {
          slot = slot;
          on_schedule = inl ((slot_today_iff now hh mm slot).0 at);
          come = come;
          in_grace = in_grace;
          unfired = unfired;
        }
    | inr not_due ↦
        let d = due_slot_today-DueSlot rest now last (ground (arith, at, not_due, h)) in
        record {
          slot = d.slot;
          on_schedule = inr d.on_schedule;
          come = d.come;
          in_grace = d.in_grace;
          unfired = d.unfired;
        }
  ]
]

DueSlot-due :
    (entries : List Entry) (now : ℕ) (last : Option ℕ) (slot : ℕ)
    → All IsTime entries
    → HasSlot entries now slot
    → is_slot_due now last slot ≡ true
    → due_slot_today entries now last ≡ some true
unfolding due_slot_today HasSlot slot_today
DueSlot-due [] now last slot a has d = absurd has
DueSlot-due (malformed ∷ rest) now last slot a has d = DueSlot-due rest now last slot a.1 has d
DueSlot-due (below_zero ∷ rest) now last slot a has d = absurd a.0
DueSlot-due (time hh mm ∷ rest) now last slot a (inl is) d =
    let at = (slot_today_iff now hh mm slot).1 is in ground (arith, a.0, at, d)
DueSlot-due (time hh mm ∷ rest) now last slot a (inr has) d =
    ground (arith, a.0, DueSlot-due rest now last slot a.1 has d)

-- A schedule whose entries are times of the day, or ignored, is found due exactly if one of its
-- slots of the day has come within the grace and nothing has fired at or after that slot.
pub due_slot_today_iff :
    (entries : List Entry) (now : ℕ) (last : Option ℕ)
    → All IsTime entries
    → (due_slot_today entries now last ≡ some true) ↔ DueSlot entries now last
due_slot_today_iff entries now last a = (
  due_slot_today-DueSlot entries now last,
  λ d.
      DueSlot-due entries now last d.slot a d.on_schedule
        ((is_slot_due-bounds now last d.slot).1 (d.come, d.in_grace, d.unfired)),
)
