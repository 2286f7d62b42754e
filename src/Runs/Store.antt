-- ===== src/Runs/Store.antt =====
-- The functions of marlinspike/run_store.py. Each takes `commits`: whether the database accepts
-- the transaction. Where it does not, the functions that catch the error roll back.
use net_discover.Prelude.{
  ℕ, ◌+◌, String, List, [], ◌∷◌, Option, none, some, Bool, true, false, ◌&&◌, ◌==◌, not,
  if◌then◌else◌, str_eq, ltb, keep, count_where,
}
use net_discover.Runs.Row.{
  Status, running, completed, RecoveryState, claimed, finalizing, ArgvText, encoded, malformed,
  ScanHistory, Database, is_running, is_none, is_finalizing, find_run, modify_run, update_where,
}

-- The keyword arguments of `record_start`.
pub record Launch : Type 0 where
  pub user_id : ℕ
  pub project_id : Option ℕ
  pub command : String
  pub scan_profile : String
  pub pcap_source : Option String
  pub pcap_hash : Option String
  pub pcap_path : String
  pub report_path : String
  pub engine_pid : Option ℕ
  pub engine_argv : Option (List String)
  pub timeout_s : Option ℕ
  pub agent_id : Option ℕ

-- `json.dumps(engine_argv) if engine_argv else None`
unfoldable pub dump_argv : Option (List String) → Option ArgvText
dump_argv none = none
dump_argv (some []) = none
dump_argv (some (arg ∷ args)) = some (encoded (arg ∷ args))

-- `json.loads(rec.engine_argv) if rec.engine_argv else None`, with its `except`.
unfoldable pub load_argv : Option ArgvText → Option (List String)
load_argv none = none
load_argv (some (encoded args)) = some args
load_argv (some (malformed _)) = none

-- The deadline of a run: none where the timeout is not positive.
unfoldable pub deadline : ℕ → ℕ → Option ℕ → Option ℕ
deadline now default_s timeout_s =
    let s : ℕ = elim timeout_s [ none ↦ default_s | some t ↦ t ] in
    if ltb 0 s then some (now + s) else none

-- A row that `record_start` inserts, before its assignments.
unfoldable pub fresh_row : ℕ → String → ℕ → ScanHistory
fresh_row now run_id user_id = record {
  run_id = run_id;
  user_id = user_id;
  project_id = none;
  command = "";
  scan_profile = "full";
  pcap_source = none;
  pcap_hash = none;
  status = running;
  started_at = now;
  completed_at = none;
  report_path = none;
  node_count = some 0;
  edge_count = some 0;
  error_tail = none;
  pcap_path = none;
  engine_pid = none;
  engine_argv = none;
  timeout_at = none;
  recovery_state = none;
  agent_id = none;
}

-- The assignments of `record_start`.
unfoldable pub start_row : Launch → Option ℕ → ScanHistory → ScanHistory
start_row l timeout_at r = record r {
  user_id = l.user_id;
  project_id = l.project_id;
  command = l.command;
  scan_profile = l.scan_profile;
  pcap_source = l.pcap_source;
  pcap_hash = l.pcap_hash;
  status = running;
  report_path = some l.report_path;
  pcap_path = some l.pcap_path;
  engine_pid = l.engine_pid;
  engine_argv = dump_argv l.engine_argv;
  timeout_at = timeout_at;
  recovery_state = none;
  agent_id = l.agent_id;
}

-- An update or an insert, by the run's id.
unfoldable pub upsert :
    String → ScanHistory → (ScanHistory → ScanHistory) → List ScanHistory → List ScanHistory
upsert k new f rows = elim (find_run k rows) [ none ↦ f new ∷ rows | some _ ↦ modify_run k f rows ]

-- `record_start` does not catch a failed commit: `none` is the exception that it raises.
unfoldable pub record_start : Bool → ℕ → ℕ → String → Launch → Database → Option Database
unfolding fresh_row start_row deadline upsert dump_argv
record_start false now default_s run_id l db = none
record_start true now default_s run_id l db = some (record db {
  rows =
      upsert run_id (fresh_row now run_id l.user_id)
        (start_row l (deadline now default_s l.timeout_s)) db.rows;
})

unfoldable pub pid_row : Option ℕ → Option (List String) → ScanHistory → ScanHistory
pid_row pid argv r = record r { engine_pid = pid; engine_argv = dump_argv argv }

unfoldable pub update_pid : Bool → String → Option ℕ → Option (List String) → Database → Database
unfolding pid_row
update_pid commits run_id pid argv db =
    if commits then record db { rows = modify_run run_id (pid_row pid argv) db.rows } else db

-- The keyword arguments of `record_finish`.
pub record Finish : Type 0 where
  pub status : Status
  pub error_tail : Option String
  pub node_count : Option ℕ
  pub edge_count : Option ℕ
  pub recovery_state : Option RecoveryState

-- `if new is not None: rec.field = new`
abbrev pub or_keep {ℓ} : {A : Type ℓ} → Option A → Option A → Option A
or_keep none old = old
or_keep (some a) old = some a

unfoldable pub finish_row : ℕ → Finish → ScanHistory → ScanHistory
finish_row now f r = record r {
  status = f.status;
  completed_at = some now;
  error_tail = or_keep f.error_tail r.error_tail;
  node_count = or_keep f.node_count r.node_count;
  edge_count = or_keep f.edge_count r.edge_count;
  recovery_state = or_keep f.recovery_state r.recovery_state;
  engine_pid = none;
}

abbrev pub is_completed : Status → Bool
is_completed completed = true
is_completed _ = false

-- The webhook is asked for after the commit; what it raises is caught and changes no row.
unfoldable pub record_finish : Bool → ℕ → String → Finish → Database → Database
unfolding finish_row
record_finish commits now run_id f db = elim (find_run run_id db.rows) [
  | none ↦ db
  | some r ↦
      if commits
      then record {
        rows = modify_run run_id (finish_row now f) db.rows;
        deliveries =
            if is_completed f.status
            then record { project_id = r.project_id; report_path = r.report_path; run_id = run_id }
              ∷ db.deliveries
            else db.deliveries;
      }
      else db
]

-- `filter_by(status="running", agent_id=None)`
abbrev pub is_local_active : ScanHistory → Bool
is_local_active r = is_running r.status && is_none r.agent_id

-- `status == "running"` and `agent_id.isnot(None)`
abbrev pub is_agent_active : ScanHistory → Bool
is_agent_active r = is_running r.status && not (is_none r.agent_id)

unfoldable pub get_active_for_recovery : Database → List ScanHistory
get_active_for_recovery db = keep is_local_active db.rows

unfoldable pub get_active_agent_scans_for_recovery : Database → List ScanHistory
get_active_agent_scans_for_recovery db = keep is_agent_active db.rows

abbrev pub set_state : RecoveryState → ScanHistory → ScanHistory
set_state s r = record r { recovery_state = some s }

abbrev pub claimable : String → ScanHistory → Bool
claimable k r = str_eq r.run_id k && (is_running r.status && is_none r.recovery_state)

abbrev pub reclaimable : String → ScanHistory → Bool
reclaimable k r = str_eq r.run_id k && (is_running r.status && is_finalizing r.recovery_state)

abbrev pub markable : String → ScanHistory → Bool
markable k r = str_eq r.run_id k && is_running r.status

-- A conditional UPDATE: whether one row was matched, and the rows after it.
unfoldable pub update_one : Bool → (ScanHistory → Bool) → RecoveryState → Database → Bool × Database
update_one true p s db =
    (count_where p db.rows == 1, record db { rows = update_where p (set_state s) db.rows })
update_one false p s db = (false, db)

unfoldable pub claim_for_recovery : Bool → String → Database → Bool × Database
unfolding update_one
claim_for_recovery commits k db = update_one commits (claimable k) claimed db

unfoldable pub reclaim_finalizing : Bool → String → Database → Bool × Database
unfolding update_one
reclaim_finalizing commits k db = update_one commits (reclaimable k) claimed db

unfoldable pub mark_finalizing : Bool → String → Database → Database
mark_finalizing true k db = record db {
  rows = update_where (markable k) (set_state finalizing) db.rows;
}
mark_finalizing false k db = db

-- `get_active_count(user_id)`: all users where it is None.
unfoldable pub get_active_count : Option ℕ → Database → ℕ
get_active_count none db = count_where (λ r. is_running r.status) db.rows
get_active_count (some u) db = count_where (λ r. is_running r.status && (r.user_id == u)) db.rows
