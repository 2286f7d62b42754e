-- ===== src/Capd/Server.antt =====
-- marlinspike-capd/capd/server.py. `Sessions` are the handlers that start, stop and watch a
-- capture, cut where they wait, `Events` runs their pieces in any order, and `Wire` is the framing of
-- messages; the others prove.
pub mod Sessions
pub mod Events
pub mod Clashes
pub mod Admission
pub mod Exclusive
pub mod Wire
pub mod Framing
mod Messages
mod Scenarios
