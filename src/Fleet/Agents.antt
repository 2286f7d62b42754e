-- ===== src/Fleet/Agents.antt =====
-- Agent, AgentEnrollmentToken, AgentCredential and the other tables of marlinspike/models.py that
-- the fleet gateway reads. A timestamp is a number of seconds; `none` is the column's NULL.
use net_discover.Prelude.{ℕ, String, List, Option, Bool, ◌==◌, str_eq, false, true}

pub data AgentStatus : Type 0 where
  pending enrolled online offline revoked : AgentStatus

-- A number of a heartbeat as JSON carries it: `float` and `int` read the first, which fits a float
-- and its column, `float` alone the second, and neither the third. A percentage keeps its whole
-- part, which the thresholds see.
pub data Reading : Type 0 where
  number : ℕ → Reading
  infinity unreadable : Reading

pub record Health : Type 0 where
  pub cpu_percent : Option Reading
  pub memory_percent : Option Reading
  pub disk_percent : Option Reading
  pub uptime_s : Option ℕ
  pub capd_reachable : Option Bool
  pub capture_active : Option Bool
  pub last_error : Option String

pub record Agent : Type 0 where
  pub id : ℕ
  pub agent_uuid : String
  pub project_id : ℕ
  pub name : String
  pub status : AgentStatus
  pub agent_version : Option String
  pub os_info : Option String
  pub last_seen_at : Option ℕ
  pub revoked_at : Option ℕ
  pub health : Health

pub record AgentEnrollmentToken : Type 0 where
  pub project_id : ℕ
  pub agent_id : Option ℕ
  pub token_hash : String
  pub expires_at : Option ℕ
  pub used_at : Option ℕ
  pub is_standing : Bool
  pub revoked_at : Option ℕ
  pub created_by : Option ℕ

pub record AgentCredential : Type 0 where
  pub agent_id : ℕ
  pub key_hash : String
  pub issued_at : ℕ
  pub revoked_at : Option ℕ
  pub cert_fingerprint_sha256 : Option String

pub data SessionStatus : Type 0 where
  pending running stopping stopped failed : SessionStatus

pub record CaptureSession : Type 0 where
  pub id : ℕ
  pub session_uuid : String
  pub user_id : ℕ
  pub project_id : Option ℕ
  pub status : SessionStatus
  pub stopped_at : Option ℕ
  pub bytes_captured : ℕ
  pub packets_captured : ℕ
  pub drop_count : ℕ
  pub rotation_count : ℕ
  pub agent_id : Option ℕ

pub record ProjectRow : Type 0 where
  pub id : ℕ
  pub user_id : ℕ

pub record ProjectMember : Type 0 where
  pub project_id : ℕ
  pub user_id : ℕ
  pub role : String

-- The tables. The next id is one that no agent has had.
pub record Tables : Type 0 where
  pub agents : List Agent
  pub tokens : List AgentEnrollmentToken
  pub credentials : List AgentCredential
  pub sessions : List CaptureSession
  pub projects : List ProjectRow
  pub members : List ProjectMember
  pub next_agent_id : ℕ

abbrev pub has_id : ℕ → Agent → Bool
has_id k a = a.id == k

abbrev pub has_uuid : String → Agent → Bool
has_uuid u a = str_eq a.agent_uuid u

abbrev pub has_hash : String → AgentEnrollmentToken → Bool
has_hash h t = str_eq t.token_hash h

abbrev pub has_key : String → AgentCredential → Bool
has_key h c = str_eq c.key_hash h

abbrev pub has_session : String → CaptureSession → Bool
has_session u s = str_eq s.session_uuid u

abbrev pub is_revoked : AgentStatus → Bool
is_revoked AgentStatus.revoked = true
is_revoked _ = false
