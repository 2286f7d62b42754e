-- ===== src/Capture.antt =====
-- marlinspike/capture: `Manager` is the registry of captures of sessions.py and `Policy` the limits
-- of api.py; the others prove.
pub mod Manager
pub mod Locks
pub mod Policy
pub mod Limits
mod Scenarios
