-- ===== src/Runs/Row.antt =====
-- ScanHistory of marlinspike/models.py, and the database that holds it. A timestamp is a number
-- of seconds; `none` is the column's NULL.
use net_discover.Prelude.{
  ℕ, String, List, [], ◌∷◌, Option, none, some, Bool, true, false, if◌then◌else◌, str_eq,
}

pub data Status : Type 0 where
  running completed failed stopped : Status

pub data RecoveryState : Type 0 where
  claimed finalizing reattached : RecoveryState
  reaped_completed reaped_completed_degraded reaped_failed reaped_abandoned : RecoveryState

-- The text column `engine_argv`: what `json.dumps` wrote, or text that `json.loads` refuses.
pub data ArgvText : Type 0 where
  encoded : List String → ArgvText
  malformed : String → ArgvText

pub record ScanHistory : Type 0 where
  pub run_id : String
  pub user_id : ℕ
  pub project_id : Option ℕ
  pub command : String
  pub scan_profile : String
  pub pcap_source : Option String
  pub pcap_hash : Option String
  pub status : Status
  pub started_at : ℕ
  pub completed_at : Option ℕ
  pub report_path : Option String
  pub node_count : Option ℕ
  pub edge_count : Option ℕ
  pub error_tail : Option String
  pub pcap_path : Option String
  pub engine_pid : Option ℕ
  pub engine_argv : Option ArgvText
  pub timeout_at : Option ℕ
  pub recovery_state : Option RecoveryState
  pub agent_id : Option ℕ

-- A call of `webhook.deliver_for_scan`.
pub record Delivery : Type 0 where
  pub project_id : Option ℕ
  pub report_path : Option String
  pub run_id : String

-- The table, and the webhook deliveries that were asked for, newest first.
pub record Database : Type 0 where
  pub rows : List ScanHistory
  pub deliveries : List Delivery

abbrev pub is_running : Status → Bool
is_running running = true
is_running _ = false

abbrev pub is_none {ℓ} : {A : Type ℓ} → Option A → Bool
is_none none = true
is_none (some _) = false

abbrev pub is_finalizing : Option RecoveryState → Bool
is_finalizing (some finalizing) = true
is_finalizing _ = false

-- `ScanHistory.query.filter_by(run_id=run_id).first()`
unfoldable pub find_run : String → List ScanHistory → Option ScanHistory
find_run k [] = none
find_run k (r ∷ rs) = if str_eq r.run_id k then some r else find_run k rs

-- The assignments to the row that `find_run` returns, at commit.
unfoldable pub modify_run :
    String → (ScanHistory → ScanHistory) → List ScanHistory → List ScanHistory
modify_run k f [] = []
modify_run k f (r ∷ rs) = if str_eq r.run_id k then f r ∷ rs else r ∷ modify_run k f rs

-- `filter_by(...).update(...)`: every row that the conditions match.
unfoldable pub update_where :
    (ScanHistory → Bool) → (ScanHistory → ScanHistory) → List ScanHistory → List ScanHistory
update_where p f [] = []
update_where p f (r ∷ rs) = (if p r then f r else r) ∷ update_where p f rs
