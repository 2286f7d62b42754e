-- ===== src/Scheduler.antt =====
-- marlinspike/scheduler.py: captures that start at set times of the day. `Slots` decides what is
-- due, `Ticks` is a round over the projects, `Validation` the check of marlinspike/fleet/api.py on a
-- schedule that is saved; the others prove.
pub mod Slots
pub mod Ticks
pub mod Once
pub mod Rounds
pub mod Validation
pub mod Accepted
mod Scenarios
