-- ===== src/Fleet/Admin.antt =====
-- The routes of marlinspike/fleet/api.py that administer agents and tokens. `uid` is the user of
-- the session. The call that drops a live connection follows the commit and is not part of it.
use net_discover.Prelude.{
  ℕ, ◌+◌, ◌*◌, String, ◌∷◌, Option, none, some, Bool, true, false, ◌&&◌, ◌==◌, if◌then◌else◌,
  str_eq, leb, find_where, change_where, delete_where,
}
use net_discover.Fleet.Agents.{
  AgentStatus, Agent, AgentEnrollmentToken, AgentCredential, CaptureSession, ProjectRow,
  ProjectMember, Tables, has_id, has_hash, is_revoked,
}

unfoldable pub role_rank : String → ℕ
role_rank role =
    if str_eq role "viewer"
    then 1
    else if str_eq role "editor"
    then 2
    else if str_eq role "owner"
    then 3
    else 0

abbrev pub is_member : ℕ → ℕ → ProjectMember → Bool
is_member pid uid m = m.project_id == pid && m.user_id == uid

-- A user id of 0 counts as none. The second argument is the rank of the role that is asked for.
unfoldable pub get_project_for_user : ℕ → ℕ → Option ℕ → Tables → Option ProjectRow
unfolding find_where role_rank
get_project_for_user pid min_rank none t = none
get_project_for_user pid min_rank (some uid) t =
    if uid == 0 then none else elim (find_where (λ p. p.id == pid) t.projects) [
      | none ↦ none
      | some p ↦
          if p.user_id == uid then some p else elim (find_where (is_member pid uid) t.members) [
            | none ↦ none
            | some m ↦ if leb min_rank (role_rank m.role) then some p else none
          ]
    ]

-- The answers by their status: 200 or 201 with the raw token if one was minted, 404, 409, and the
-- error of a commit that breaks a unique key.
pub data Answer : Type 0 where
  done not_found refused crashed : Answer
  token : String → Answer

-- The agent that the user may edit.
unfoldable pub editable_agent : Option ℕ → ℕ → Tables → Option Agent
unfolding find_where get_project_for_user
editable_agent uid id t = elim (find_where (has_id id) t.agents) [
  | none ↦ none
  | some a ↦ elim (get_project_for_user a.project_id 2 uid t) [ none ↦ none | some _ ↦ some a ]
]

abbrev pub is_live {ℓ} : {A : Type ℓ} → Option A → Bool
is_live none = true
is_live (some _) = false

abbrev pub key_of : ℕ → AgentCredential → Bool
key_of id c = c.agent_id == id && is_live c.revoked_at

abbrev pub end_key : ℕ → AgentCredential → AgentCredential
end_key now c = record c { revoked_at = some now }

abbrev pub end_agent : ℕ → Agent → Agent
end_agent now a = record a { status = AgentStatus.revoked; revoked_at = some now }

unfoldable pub revoke_agent : ℕ → Option ℕ → ℕ → Tables → Answer × Tables
unfolding editable_agent change_where
revoke_agent now uid id t = elim (editable_agent uid id t) [
  | none ↦ (not_found, t)
  | some a ↦ (
    done,
    record t {
      agents = change_where (has_id id) (end_agent now) t.agents;
      credentials = change_where (key_of id) (end_key now) t.credentials;
    },
  )
]

abbrev pub is_agent : ℕ → Option ℕ → Bool
is_agent id none = false
is_agent id (some k) = k == id

abbrev pub forget : CaptureSession → CaptureSession
forget s = record s { agent_id = none }

-- The row, what the foreign keys delete with it, and the sessions that they detach. They detach
-- the rows of scans likewise, which are no part of these tables.
unfoldable pub without_agent : ℕ → Tables → Tables
unfolding change_where delete_where
without_agent id t = record t {
  agents = delete_where (has_id id) t.agents;
  credentials = delete_where (λ c. c.agent_id == id) t.credentials;
  tokens = delete_where (λ k. is_agent id k.agent_id) t.tokens;
  sessions = change_where (λ s. is_agent id s.agent_id) forget t.sessions;
}

unfoldable pub delete_agent : Option ℕ → ℕ → Tables → Answer × Tables
unfolding editable_agent without_agent
delete_agent uid id t = elim (editable_agent uid id t) [
  | none ↦ (not_found, t)
  | some a ↦ if is_revoked a.status then (done, without_agent id t) else (refused, t)
]

-- A row with a new token, unless its hash is taken, and what is committed with it.
unfoldable pub add_token : String → AgentEnrollmentToken → Tables → Tables → Answer × Tables
unfolding find_where
add_token raw k t u = elim (find_where (has_hash k.token_hash) u.tokens) [
  | some _ ↦ (crashed, t)
  | none ↦ (token raw, record u { tokens = k ∷ u.tokens })
]

-- ENROLLMENT_TOKEN_TTL_MINUTES, in seconds.
abbrev pub enrollment_token_ttl : ℕ
enrollment_token_ttl = 60 * 60

unfoldable pub rotation_token : ℕ → Option ℕ → String → Agent → AgentEnrollmentToken
rotation_token now uid h a = record {
  project_id = a.project_id;
  agent_id = some a.id;
  token_hash = h;
  expires_at = some (now + enrollment_token_ttl);
  used_at = none;
  is_standing = false;
  revoked_at = none;
  created_by = uid;
}

unfoldable pub standing_token : Option ℕ → String → ℕ → AgentEnrollmentToken
standing_token uid h pid = record {
  project_id = pid;
  agent_id = none;
  token_hash = h;
  expires_at = none;
  used_at = none;
  is_standing = true;
  revoked_at = none;
  created_by = uid;
}

abbrev pub is_standing_of : ℕ → AgentEnrollmentToken → Bool
is_standing_of pid k = k.project_id == pid && (k.is_standing && is_live k.revoked_at)

abbrev pub end_token : ℕ → AgentEnrollmentToken → AgentEnrollmentToken
end_token now k = record k { revoked_at = some now }

module _ (hash : String → String) where
  unfoldable pub rotate_agent_credential : ℕ → Option ℕ → ℕ → String → Tables → Answer × Tables
  unfolding editable_agent add_token rotation_token change_where
  rotate_agent_credential now uid id raw t = elim (editable_agent uid id t) [
    | none ↦ (not_found, t)
    | some a ↦
        if is_revoked a.status
        then (refused, t)
        else add_token raw (rotation_token now uid (hash raw) a) t
            (record t { credentials = change_where (key_of id) (end_key now) t.credentials })
  ]

  unfoldable pub mint_standing_token : ℕ → Option ℕ → ℕ → String → Tables → Answer × Tables
  unfolding add_token standing_token change_where
  mint_standing_token now uid pid raw t =
      add_token raw (standing_token uid (hash raw) pid) t
        (record t { tokens = change_where (is_standing_of pid) (end_token now) t.tokens })

  unfoldable pub issue_enrollment_token : ℕ → Option ℕ → ℕ → String → Tables → Answer × Tables
  unfolding get_project_for_user mint_standing_token
  issue_enrollment_token now uid pid raw t = elim (get_project_for_user pid 2 uid t) [
    | none ↦ (not_found, t)
    | some _ ↦ mint_standing_token now uid pid raw t
  ]
