-- ===== src/Gateway.antt =====
-- The connections of agents: marlinspike/fleet/gateway/server.py.
mod Limiter
mod Window
mod AdminSocket
mod FirstFrame
mod Admission
mod Tries
mod Frames
mod CutOff
mod Connections
mod Current
mod Heard
mod FirstScenarios
mod Scenarios
