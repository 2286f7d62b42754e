-- ===== src/Capd.antt =====
-- marlinspike-capd/capd: the privileged capture daemon. `FileNames` and `Supervisor` follow
-- supervisor.py, which owns one dumpcap process; `Server` follows the sessions of server.py.
pub mod FileNames
pub mod Supervisor
pub mod Server
