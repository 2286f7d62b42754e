-- ===== src/Fleet/Presence.antt =====
-- What a connected agent does to the tables: authentication, heartbeats and session statistics, in
-- marlinspike/fleet/gateway/db.py.
use net_discover.Prelude.{
  ℕ, max, String, Option, none, some, Bool, true, false, ◌&&◌, ◌==◌, ◌⊎◌, inl, inr, if◌then◌else◌,
  str_eq, find_where, change_where,
}
use net_discover.Fleet.Agents.{
  AgentStatus, online, offline, Reading, number, infinity, unreadable, Health, Agent,
  AgentCredential, SessionStatus, CaptureSession, Tables, has_id, has_uuid, has_session, is_revoked,
}
use net_discover.Fleet.Gateway.{GatewayAuthError, unauthorized, prefix, given_text}

pub record AuthRequest : Type 0 where
  pub agent_uuid : String
  pub raw_credential : String
  pub peer_cert_fingerprint : Option String

-- `filter_by(agent_id=..., key_hash=..., revoked_at=None)`
unfoldable pub is_live_key : ℕ → String → AgentCredential → Bool
is_live_key id h c =
    (c.agent_id == id && str_eq c.key_hash h) && elim c.revoked_at [ none ↦ true | some _ ↦ false ]

unfoldable pub cert_matches : Option String → Option String → Bool
unfolding given_text
cert_matches on_file peer = elim (given_text on_file) [
  | none ↦ true
  | some f ↦ elim peer [ none ↦ false | some g ↦ str_eq f g ]
]

unfoldable pub seen : AgentStatus → ℕ → Agent → Agent
seen s now a = record a { status = s; last_seen_at = some now }

-- The row that the credential proves, if any.
unfoldable pub proved_agent : (String → String) → AuthRequest → Tables → Option Agent
unfolding find_where is_live_key cert_matches
proved_agent hash r t = elim (find_where (has_uuid r.agent_uuid) t.agents) [
  | none ↦ none
  | some a ↦
      if is_revoked a.status
      then none
      else elim (find_where (is_live_key a.id (hash r.raw_credential)) t.credentials) [
        | none ↦ none
        | some c ↦
            if cert_matches c.cert_fingerprint_sha256 r.peer_cert_fingerprint then some a else none
      ]
]

unfoldable pub authenticate_agent :
    (String → String) → ℕ → AuthRequest → Tables → (GatewayAuthError ⊎ ℕ) × Tables
unfolding proved_agent seen change_where
authenticate_agent hash now r t = elim (proved_agent hash r t) [
  | none ↦ (inl unauthorized, t)
  | some a ↦ (inr a.id, record t { agents = change_where (has_id a.id) (seen online now) t.agents })
]

unfoldable pub safe_float : Option Reading → Option Reading
safe_float none = none
safe_float (some unreadable) = none
safe_float (some (number n)) = some (number n)
safe_float (some infinity) = some infinity

-- `none` is the OverflowError of `int(inf)`, which is not caught.
unfoldable pub safe_int : Option Reading → Option (Option ℕ)
safe_int none = some none
safe_int (some unreadable) = some none
safe_int (some (number n)) = some (some n)
safe_int (some infinity) = none

-- The params of a heartbeat; of the two flags and the error, what `bool` and `str` make of them.
pub record Heartbeat : Type 0 where
  pub cpu_percent : Option Reading
  pub memory_percent : Option Reading
  pub disk_percent : Option Reading
  pub uptime_s : Option Reading
  pub capd_reachable : Option Bool
  pub capture_active : Option Bool
  pub last_error : Option String

unfoldable pub health_snapshot : Heartbeat → Option ℕ → Health
unfolding safe_float given_text prefix
health_snapshot b uptime_s = record {
  cpu_percent = safe_float b.cpu_percent;
  memory_percent = safe_float b.memory_percent;
  disk_percent = safe_float b.disk_percent;
  uptime_s = uptime_s;
  capd_reachable = b.capd_reachable;
  capture_active = b.capture_active;
  last_error = elim (given_text b.last_error) [ none ↦ none | some e ↦ some (prefix 2000 e) ];
}

unfoldable pub beat : ℕ → Health → Agent → Agent
unfolding seen
beat now h a = record (seen online now a) { health = h }

-- The agent that a connection stands for: the row, unless it is gone or revoked.
unfoldable pub present_agent : String → Tables → Option Agent
unfolding find_where
present_agent u t = elim (find_where (has_uuid u) t.agents) [
  | none ↦ none
  | some a ↦ if is_revoked a.status then none else some a
]

-- `none` where the call raises, and nothing is committed.
unfoldable pub record_heartbeat : ℕ → String → Heartbeat → Tables → Option Tables
unfolding present_agent beat health_snapshot safe_int change_where
record_heartbeat now u b t = elim (present_agent u t) [
  | none ↦ some t
  | some a ↦ elim (safe_int b.uptime_s) [
    | none ↦ none
    | some up ↦ some (record t {
      agents = change_where (has_id a.id) (beat now (health_snapshot b up)) t.agents;
    })
  ]
]

abbrev pub with_status : AgentStatus → Agent → Agent
with_status s a = record a { status = s }

unfoldable pub mark_offline : String → Tables → Tables
unfolding present_agent change_where
mark_offline u t = elim (present_agent u t) [
  | none ↦ t
  | some a ↦ record t { agents = change_where (has_id a.id) (with_status offline) t.agents }
]

unfoldable pub is_agent_revoked : String → Tables → Bool
unfolding present_agent
is_agent_revoked u t = elim (present_agent u t) [ none ↦ true | some _ ↦ false ]

unfoldable pub session_owned_by_agent : CaptureSession → String → Tables → Bool
unfolding find_where
session_owned_by_agent cs u t = elim cs.agent_id [
  | none ↦ false
  | some id ↦ elim (find_where (has_uuid u) t.agents) [ none ↦ false | some a ↦ a.id == id ]
]

pub record SessionStats : Type 0 where
  pub session_uuid : String
  pub bytes_captured : ℕ
  pub rotation_count : ℕ
  pub running : Bool
  pub packets_captured : Option ℕ
  pub drop_count : Option ℕ

abbrev pub is_reporting : SessionStatus → Bool
is_reporting SessionStatus.pending = true
is_reporting SessionStatus.running = true
is_reporting _ = false

unfoldable pub stats_row : ℕ → SessionStats → CaptureSession → CaptureSession
stats_row now p cs = record cs {
  bytes_captured = p.bytes_captured;
  rotation_count = max cs.rotation_count p.rotation_count;
  packets_captured = elim p.packets_captured [ none ↦ cs.packets_captured | some n ↦ n ];
  drop_count = elim p.drop_count [ none ↦ cs.drop_count | some n ↦ n ];
  status = if p.running then cs.status else SessionStatus.stopped;
  stopped_at = if p.running then cs.stopped_at else some now;
}

unfoldable pub record_session_stats : ℕ → String → SessionStats → Tables → Tables
unfolding find_where session_owned_by_agent stats_row change_where
record_session_stats now u p t = elim (find_where (has_session p.session_uuid) t.sessions) [
  | none ↦ t
  | some cs ↦
      if is_reporting cs.status && session_owned_by_agent cs u t
      then record t {
        sessions = change_where (has_session p.session_uuid) (stats_row now p) t.sessions;
      }
      else t
]
