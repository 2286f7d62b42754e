-- ===== src/Fleet.antt =====
-- The fleet: the tables of agents, tokens and credentials, the gateway's operations on them and
-- the routes of marlinspike/fleet/api.py that administer them.
pub mod Agents
pub mod Gateway
pub mod Presence
mod Admin
mod Captures
mod Badge
mod Operations
mod Steps
mod Enrolls
mod Steered
mod Refines
mod Redeemed
mod Tokens
mod Revoked
mod Admitted
mod Retired
mod Tenants
mod Scenarios
