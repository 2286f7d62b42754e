-- ===== src/Lib.antt =====
-- net-discover watches industrial networks: a web application (marlinspike) runs an analysis
-- engine over packet captures as subprocesses, and a privileged daemon (marlinspike-capd) runs
-- dumpcap to take the captures. This library follows the parts that must not lose work or
-- evidence when a process dies.
--
-- The scan runs. `Runs/Row` is the table ScanHistory of marlinspike/models.py and `Runs/Store`
-- the functions of marlinspike/run_store.py, one by one: record_start, update_pid, record_finish,
-- the two queries for recovery, claim_for_recovery, mark_finalizing, reclaim_finalizing,
-- get_active_count and get (here `get_run`, in `Runs/View`). The database is a list of rows and
-- the webhook deliveries asked for; each function takes `commits`, whether the database accepts
-- the transaction, since most of them catch the error and roll back. `Runs/Rows` and
-- `Runs/Effects` are the laws of the table that the proofs use, `Runs/Launches` reads back what
-- record_start writes, and `Runs/Claims` runs the statements of any processes in any order.
--
-- The recovery. marlinspike/recovery.py reconciles the runs that a dead process left running:
-- `Recovery/Liveness` is pid_alive, pid_argv_matches and _live_argv_matches, `Recovery/Report`
-- report_complete and _ingest_completed_report, `Recovery/Reaper` reap_orphan_runs, cut into its
-- loop, the claim (`acquire`) and what follows it (`reconcile`), and `Recovery/Watcher` the
-- thread of _watch_loop. `Recovery/Refines` describes the fate of one row with no table, and
-- `Recovery/Loop` shows that the loop implements it; `Safety`, `Counts` and `Argv` build on that.
--
-- The captures. `Capd/FileNames` is _seq_of of marlinspike-capd/capd/supervisor.py and the order
-- of file names, `Capd/Supervisor/Snapshot` is _snapshot, statement by statement, and
-- `Capd/Supervisor/Process` the class CaptureSupervisor around it: the constructor, start, stop,
-- poll, is_running, _parse_final_stats and _consume_stderr. `Capd/Server/Sessions` is the table
-- of sessions of marlinspike-capd/capd/server.py with _start_session, _stop_session,
-- _session_status and _reap_if_finished. A handler waits for the executor, so each is cut where
-- it waits, and `Capd/Server/Events` runs the pieces of all handlers in any order; supervisors
-- are shared, so they stand on a heap. `Capd/Server/Wire` is the framing of the daemon's
-- messages.
--
-- The capture files and the web application's captures. `Pcap` follows
-- marlinspike/_pcap_header.py: `Pcap/Classic` is _read_pcap, `Pcap/Blocks` _read_pcapng and
-- `Pcap/Reader` read_capture_summary; a file is the list of bytes that are left, which `f.read`
-- and `f.seek` shorten. `Pcap/Files` and `Pcap/Layout` write such files. `Scheduler` follows
-- marlinspike/scheduler.py: `Scheduler/Slots` is _due_slot_today and `Scheduler/Ticks`
-- _run_due_schedules, and `Scheduler/Validation` is _validate_schedule_body of
-- marlinspike/fleet/api.py, which a schedule passes before it is saved. `Capture/Manager` is
-- CaptureSessionManager of marlinspike/capture/sessions.py, and `Capture/Policy` the two
-- functions of marlinspike/capture/api.py that apply a project's policy to a capture.
--
-- The fleet. `Fleet/Agents` is the tables of marlinspike/models.py that concern remote agents.
-- `Fleet/Gateway` is enroll_agent of marlinspike/fleet/gateway/db.py, `Fleet/Presence` its
-- functions for a connected agent (authenticate_agent, record_heartbeat, mark_offline,
-- record_session_stats), `Fleet/Admin` the routes of marlinspike/fleet/api.py that issue tokens
-- and revoke, delete or rotate an agent, and `Fleet/Badge` _compute_health. `Fleet/Captures` is
-- the writes of session rows in marlinspike/capture/api.py: start_session, stop_session and the
-- finalizer of a local capture, each cut where it waits. A call that raises commits nothing; a
-- row whose unique key is taken is refused. `Fleet/Operations` runs these calls one after the
-- other, `Fleet/Steps` is the relation of their transactions and `Fleet/Refines`, with
-- `Fleet/Enrolls` and `Fleet/Steered`, shows that each call is one; the results about sequences
-- of calls go by cases on that relation. SHA-256, openssl, the clock and random draws are
-- arguments.
--
-- The uploads. `Upload/Disk` is the files, with open handles that outlive their names,
-- `Upload/Paths` begin_pcap_upload and finish_pcap_upload of marlinspike/fleet/gateway/db.py,
-- `Upload/Transfers` and `Upload/Events` _handle_event of marlinspike/fleet/gateway/server.py for
-- the frames of one connection, cut where the handler waits, and `Upload/Sender` _send_pcap of
-- marlinspike-agent/agent/client.py. The chunk size is an argument. `Upload/Patches` and
-- `Upload/Received` are what chunks in any order leave in the file and in the set of indices.
--
-- The gateway's connections. `Gateway/Limiter` is _auth_rate_limited of
-- marlinspike/fleet/gateway/server.py, `Gateway/Frames` the read loop _serve_authenticated, and
-- `Gateway/Connections` the rest of a connection's life in _handle_connection, with
-- disconnect_agent and the two ends of push_command. A handler waits at several points, so it is
-- cut into phases, and `Gateway/Current` runs the pieces of all handlers in any order;
-- `Gateway/Heard`, `Gateway/CutOff` and `Gateway/Window` build on these. `Gateway/FirstFrame` is
-- the start of _handle_connection with _authenticate: the limiter, then enroll_agent or
-- authenticate_agent, then the place in the table, as one step. `Gateway/Admission` and
-- `Gateway/Tries` build on it. `Gateway/AdminSocket` is _handle_admin_connection up to the wait
-- for an agent's reply.
--
-- The indicators. `Iocs/Reports` is what the search of marlinspike/iocs.py reads and how it
-- compares, `Iocs/Scan` _scan_report and scan_ioc_list_against_reports, `Iocs/Summary` its last
-- part. Matches are listed first and recorded after, since no loop but that over the entries
-- looks at their number. `Iocs/Capped` and `Iocs/Totals` are about the two caps. Python's `lower`
-- and `strip` and the module ipaddress are arguments.
--
-- How things are written. Times are whole seconds (microseconds in the scheduler, ticks in the
-- supervisor, where a rate is a fraction); a column's NULL and Python's None are `none`. What the
-- operating system answers (os.kill, /proc, ps, the names and sizes of files, dumpcap's exit) is
-- data that a function takes, so every answer is covered. enrich.run_all, libpcap's check of a
-- filter and the regular expressions for dumpcap's summary are arguments. Loops run over lists
-- where they can: the rounds of _watch_loop are the list of what each poll finds. The readers of
-- capture files run on fuel, one more than the length of the file: each round takes bytes off it,
-- so the fuel is enough. A time in a capture is an exact fraction where the code rounds to a
-- float.
--
-- Not modelled: the removal of a project or of a user, which takes their rows along, the
-- exceptions that report_complete lets through on a report that is no object or not UTF-8, a
-- failure of the second openssl call in _sign_csr, a write of a chunk that only fails when the
-- file is closed, log messages, the wait before a watcher's first poll, the routes and pages of
-- the web application, the engine and its plugins, the emitters, the gateway's TLS, framing and
-- Redis registry, the agent apart from its sender, the daemon's dispatcher, its check of the peer
-- and its command line, the stats hub of marlinspike/capture/sessions.py, and the printing of a
-- capture's summary.
pub mod Prelude
pub mod Runs
pub mod Recovery
pub mod Capd
pub mod Pcap
pub mod Scheduler
pub mod Capture
pub mod Fleet
pub mod Upload
pub mod Gateway
pub mod Iocs
