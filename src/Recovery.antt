-- ===== src/Recovery.antt =====
-- marlinspike/recovery.py: scans left running by a process that died are reconciled at boot.
-- `Liveness` is the check of the engine process, `Report` that of the report file, `Reaper` the
-- loop over the rows and `Watcher` the thread for an engine that still runs; the others prove.
pub mod Liveness
pub mod Report
pub mod Reaper
pub mod Refines
pub mod Loop
pub mod Counts
pub mod Ingested
pub mod Safety
pub mod Argv
pub mod Watcher
mod Scenarios
