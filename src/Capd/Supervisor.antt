-- ===== src/Capd/Supervisor.antt =====
-- CaptureSupervisor of marlinspike-capd/capd/supervisor.py: `Snapshot` is the accounting of
-- rotated files, `Process` the life of the dumpcap process.
pub mod Snapshot
pub mod Closing
pub mod Losses
pub mod Process
pub mod Lifecycle
mod Scenarios
