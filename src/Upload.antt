-- ===== src/Upload.antt =====
-- The upload of captures from an agent to the gateway: marlinspike/fleet/gateway/server.py and the
-- sender in marlinspike-agent/agent/client.py.
pub mod Disk
pub mod Paths
mod Transfers
mod Sender
mod Events
mod Patches
mod Received
mod Progress
mod Arrivals
mod Publishing
mod Reassembly
mod Scenarios
