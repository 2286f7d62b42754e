-- ===== src/Runs/View.antt =====
-- `get` of marlinspike/run_store.py: a run as the web application reads it.
use net_discover.Prelude.{ℕ, String, List, Option, none, some}
use net_discover.Runs.Row.{Status, RecoveryState, ScanHistory, Database, find_run}
use net_discover.Runs.Store.{load_argv}

-- The dictionary that `get` returns.
pub record RunView : Type 0 where
  pub run_id : String
  pub user_id : ℕ
  pub project_id : Option ℕ
  pub command : String
  pub scan_profile : String
  pub status : Status
  pub started_at : ℕ
  pub finished_at : Option ℕ
  pub report_path : Option String
  pub pcap_path : Option String
  pub engine_pid : Option ℕ
  pub engine_argv : Option (List String)
  pub timeout_at : Option ℕ
  pub recovery_state : Option RecoveryState
  pub node_count : ℕ
  pub edge_count : ℕ
  pub error_tail : Option String

abbrev or_zero : Option ℕ → ℕ
or_zero none = 0
or_zero (some n) = n

unfoldable pub view : ScanHistory → RunView
unfolding load_argv
view r = record {
  run_id = r.run_id;
  user_id = r.user_id;
  project_id = r.project_id;
  command = r.command;
  scan_profile = r.scan_profile;
  status = r.status;
  started_at = r.started_at;
  finished_at = r.completed_at;
  report_path = r.report_path;
  pcap_path = r.pcap_path;
  engine_pid = r.engine_pid;
  engine_argv = load_argv r.engine_argv;
  timeout_at = r.timeout_at;
  recovery_state = r.recovery_state;
  node_count = or_zero r.node_count;
  edge_count = or_zero r.edge_count;
  error_tail = r.error_tail;
}

unfoldable pub get_run : String → Database → Option RunView
unfolding view
get_run k db = elim (find_run k db.rows) [ none ↦ none | some r ↦ some (view r) ]
