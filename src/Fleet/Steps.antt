-- ===== src/Fleet/Steps.antt =====
-- The fleet's operations as a relation between tables: each is one of these transactions, with the
-- conditions under which marlinspike/fleet/gateway/db.py and api.py commit it, or changes nothing.
use net_discover.Prelude.{
  ℕ, suc, String, ◌∷◌, Option, none, some, true, false, ◌≡◌, find_where, change_where,
}
use net_discover.Fleet.Agents.{
  Agent, AgentEnrollmentToken, CaptureSession, Tables, has_id, has_uuid, has_hash, has_key,
  has_session, is_revoked,
}
use net_discover.Fleet.Gateway.{
  Draws, EnrollRequest, token_refusal, spend, returning_agent, new_agent, new_credential,
}
use net_discover.Fleet.Presence.{SessionStats, session_owned_by_agent, stats_row}
use net_discover.Fleet.Admin.{
  key_of, end_key, end_agent, without_agent, rotation_token, standing_token, is_standing_of,
  end_token,
}
use net_discover.Fleet.Captures.{NewSession, pending_row, has_sid}
use net_discover.Fleet.Operations.{
  FleetCall, enroll, session_stats, revoke, delete, rotate, issue_token, start_capture,
  start_answered, stop_capture, stop_answered, finalize,
}

-- The session that a user's call writes by its key.
abbrev pub session_of : FleetCall → Option ℕ
session_of (start_answered now id answered) = some id
session_of (stop_capture user id) = some id
session_of (stop_answered now id reply) = some id
session_of (finalize now id frame) = some id
session_of _ = none

-- A write of a row that leaves its keys.
pub record KeepsKeys (f : Agent → Agent) : Type 0 where
  pub same_id : (a : Agent) → (f a).id ≡ a.id
  pub same_uuid : (a : Agent) → (f a).agent_uuid ≡ a.agent_uuid

module _ (hash : String → String) where
  -- The token of the request, not spent.
  pub record Redeems (d : Draws) (r : EnrollRequest) (tok : AgentEnrollmentToken) (t : Tables)
      : Type 0 where
    pub known : find_where (has_hash (hash r.raw_token)) t.tokens ≡ some tok
    pub admitted : token_refusal d.now tok ≡ none
    pub new_key : find_where (has_key (hash d.credential)) t.credentials ≡ none

  abbrev pub joined_tables : Draws → EnrollRequest → AgentEnrollmentToken → Tables → Tables
  joined_tables d r tok t = record t {
    agents = new_agent d r t.next_agent_id tok.project_id ∷ t.agents;
    next_agent_id = suc t.next_agent_id;
    tokens = change_where (has_hash (hash r.raw_token)) (spend d.now) t.tokens;
    credentials =
        new_credential hash d r (new_agent d r t.next_agent_id tok.project_id) ∷ t.credentials;
  }

  abbrev pub returned_tables : Draws → EnrollRequest → Agent → ℕ → Tables → Tables
  returned_tables d r a id t = record t {
    agents = change_where (has_id id) (returning_agent d r) t.agents;
    tokens = change_where (has_hash (hash r.raw_token)) (spend d.now) t.tokens;
    credentials = new_credential hash d r (returning_agent d r a) ∷ t.credentials;
  }

  pub data Step (t : Tables) : FleetCall → Tables → Type 0 where
    idle : (op : FleetCall) → Step t op t
    joined :
        (d : Draws) (r : EnrollRequest) (tok : AgentEnrollmentToken)
        → Redeems d r tok t
        → tok.agent_id ≡ none
        → find_where (has_uuid d.agent_uuid) t.agents ≡ none
        → Step t (enroll d r) (joined_tables d r tok t)
    returned :
        (d : Draws) (r : EnrollRequest) (tok : AgentEnrollmentToken) (a : Agent) (id : ℕ)
        → Redeems d r tok t
        → tok.agent_id ≡ some id
        → find_where (has_id id) t.agents ≡ some a
        → Step t (enroll d r) (returned_tables d r a id t)
    written :
        (op : FleetCall) (u : String) (a : Agent) (f : Agent → Agent)
        → find_where (has_uuid u) t.agents ≡ some a
        → is_revoked a.status ≡ false
        → KeepsKeys f
        → Step t op (record t { agents = change_where (has_id a.id) f t.agents })
    reported :
        (now : ℕ) (u : String) (p : SessionStats) (cs : CaptureSession)
        → find_where (has_session p.session_uuid) t.sessions ≡ some cs
        → session_owned_by_agent cs u t ≡ true
        → Step t (session_stats now u p) (record t {
          sessions = change_where (has_session p.session_uuid) (stats_row now p) t.sessions;
        })
    opened :
        (r : NewSession)
        → find_where (has_session r.session_uuid) t.sessions ≡ none
        → Step t (start_capture r) (record t { sessions = pending_row r ∷ t.sessions })
    steered :
        (op : FleetCall) (id : ℕ) (f : CaptureSession → CaptureSession)
        → session_of op ≡ some id
        → ((s : CaptureSession) → (f s).session_uuid ≡ s.session_uuid)
        → Step t op (record t { sessions = change_where (has_sid id) f t.sessions })
    ended :
        (now : ℕ) (uid : Option ℕ) (id : ℕ)
        → Step t (revoke now uid id) (record t {
          agents = change_where (has_id id) (end_agent now) t.agents;
          credentials = change_where (key_of id) (end_key now) t.credentials;
        })
    removed : (uid : Option ℕ) (id : ℕ) → Step t (delete uid id) (without_agent id t)
    rotated :
        (now : ℕ) (uid : Option ℕ) (id : ℕ) (raw : String) (a : Agent)
        → find_where (has_id id) t.agents ≡ some a
        → is_revoked a.status ≡ false
        → find_where (has_hash (hash raw)) t.tokens ≡ none
        → Step t (rotate now uid id raw) (record t {
          credentials = change_where (key_of id) (end_key now) t.credentials;
          tokens = rotation_token now uid (hash raw) a ∷ t.tokens;
        })
    standing :
        (now : ℕ) (uid : Option ℕ) (pid : ℕ) (raw : String)
        → find_where
            (has_hash (hash raw))
            (change_where (is_standing_of pid) (end_token now) t.tokens)
          ≡ none
        → Step t (issue_token now uid pid raw) (record t {
          tokens =
              standing_token uid (hash raw) pid
              ∷ change_where (is_standing_of pid) (end_token now) t.tokens;
        })
