-- ===== src/Fleet/Gateway.antt =====
-- The gateway's functions on the tables: marlinspike/fleet/gateway/db.py. `hash` is SHA-256, what a
-- call draws at random or reads from the clock is in `Draws`, and `sign` is openssl on a CSR.
use net_discover.Prelude.{
  ℕ, suc, zero, String, ◌∷◌, Option, none, some, ◌⊎◌, inl, inr, ltb, if◌then◌else◌, str_eq,
  find_where, change_where,
}
use net_discover.Fleet.Agents.{
  AgentStatus, enrolled, Health, Agent, AgentEnrollmentToken, AgentCredential, Tables, has_id,
  has_uuid, has_hash, has_key, is_revoked,
}

-- GatewayAuthError by its message, and the database's refusal of a row whose unique key is taken.
pub data GatewayAuthError : Type 0 where
  invalid_token token_revoked token_used token_expired agent_missing unauthorized : GatewayAuthError
  key_taken : GatewayAuthError

-- A text cut to its first characters: `text[:n]`.
unfoldable pub prefix : ℕ → String → String
prefix zero s = ""
prefix (suc n) String.[] = ""
prefix (suc n) (String.◌∷◌ c s) = String.◌∷◌ c (prefix n s)

-- A text of a request that is neither absent nor empty.
unfoldable pub given_text : Option String → Option String
given_text none = none
given_text (some s) = if str_eq s "" then none else some s

pub record Draws : Type 0 where
  pub now : ℕ
  pub agent_uuid : String
  pub agent_name : String
  pub credential : String
  pub sign : String → String → Option (String × String)

pub record EnrollRequest : Type 0 where
  pub raw_token : String
  pub name : Option String
  pub agent_version : Option String
  pub os_info : Option String
  pub csr_pem : Option String

pub record Enrolled : Type 0 where
  pub agent_uuid : String
  pub credential : String
  pub client_cert_pem : Option String

-- What stands against a token.
unfoldable pub token_refusal : ℕ → AgentEnrollmentToken → Option GatewayAuthError
token_refusal now tok =
    if tok.is_standing
    then elim tok.revoked_at [ none ↦ none | some _ ↦ some token_revoked ]
    else elim tok.used_at [
      | some _ ↦ some token_used
      | none ↦ elim tok.expires_at [
        | none ↦ none
        | some e ↦ if ltb e now then some token_expired else none
      ]
    ]

unfoldable pub spend : ℕ → AgentEnrollmentToken → AgentEnrollmentToken
spend now tok = if tok.is_standing then tok else record tok { used_at = some now }

unfoldable pub returning_status : AgentStatus → AgentStatus
returning_status s = if is_revoked s then enrolled else s

-- An agent whose credential is replaced.
unfoldable pub returning_agent : Draws → EnrollRequest → Agent → Agent
unfolding given_text prefix returning_status
returning_agent d r a = record a {
  name = elim (given_text r.name) [ none ↦ a.name | some n ↦ prefix 200 n ];
  agent_version = r.agent_version;
  os_info = r.os_info;
  last_seen_at = some d.now;
  status = returning_status a.status;
}

abbrev pub no_health : Health
no_health = record {
  cpu_percent = none;
  memory_percent = none;
  disk_percent = none;
  uptime_s = none;
  capd_reachable = none;
  capture_active = none;
  last_error = none;
}

unfoldable pub new_agent : Draws → EnrollRequest → ℕ → ℕ → Agent
unfolding given_text prefix
new_agent d r id project_id = record {
  id = id;
  agent_uuid = d.agent_uuid;
  project_id = project_id;
  name = prefix 200 (elim (given_text r.name) [ none ↦ d.agent_name | some n ↦ n ]);
  status = enrolled;
  agent_version = r.agent_version;
  os_info = r.os_info;
  last_seen_at = some d.now;
  revoked_at = none;
  health = no_health;
}

unfoldable pub add_agent : Draws → EnrollRequest → ℕ → Tables → GatewayAuthError ⊎ (Agent × Tables)
unfolding new_agent find_where
add_agent d r project_id t = elim (find_where (has_uuid d.agent_uuid) t.agents) [
  | some _ ↦ inl key_taken
  | none ↦ inr (
    new_agent d r t.next_agent_id project_id,
    record t {
      agents = new_agent d r t.next_agent_id project_id ∷ t.agents;
      next_agent_id = suc t.next_agent_id;
    },
  )
]

unfoldable pub return_agent :
    Draws → EnrollRequest → ℕ → Tables → GatewayAuthError ⊎ (Agent × Tables)
unfolding returning_agent find_where change_where
return_agent d r id t = elim (find_where (has_id id) t.agents) [
  | none ↦ inl agent_missing
  | some a ↦ inr (
    returning_agent d r a,
    record t { agents = change_where (has_id id) (returning_agent d r) t.agents },
  )
]

-- The agent that the token enrols.
unfoldable pub enrolled_agent :
    Draws → EnrollRequest → AgentEnrollmentToken → Tables → GatewayAuthError ⊎ (Agent × Tables)
unfolding add_agent return_agent
enrolled_agent d r tok t = elim tok.agent_id [
  | some id ↦ return_agent d r id t
  | none ↦ add_agent d r tok.project_id t
]

-- `_sign_csr`, where the request holds a CSR.
unfoldable pub signed_cert : Draws → EnrollRequest → Agent → Option (String × String)
unfolding given_text
signed_cert d r a = elim (given_text r.csr_pem) [ none ↦ none | some csr ↦ d.sign csr a.agent_uuid ]

module _ (hash : String → String) where
  unfoldable pub new_credential : Draws → EnrollRequest → Agent → AgentCredential
  unfolding signed_cert
  new_credential d r a = record {
    agent_id = a.id;
    key_hash = hash d.credential;
    issued_at = d.now;
    revoked_at = none;
    cert_fingerprint_sha256 = elim (signed_cert d r a) [
      | none ↦ none
      | some (pem, fingerprint) ↦ some fingerprint
    ];
  }

  unfoldable pub issued : Draws → EnrollRequest → Agent → Enrolled
  unfolding signed_cert
  issued d r a = record {
    agent_uuid = a.agent_uuid;
    credential = d.credential;
    client_cert_pem = elim (signed_cert d r a) [ none ↦ none | some (pem, fingerprint) ↦ some pem ];
  }

  -- The credential of the agent, and the commit.
  unfoldable pub issue_credential :
      Draws
      → EnrollRequest
      → Tables
      → GatewayAuthError ⊎ (Agent × Tables)
      → (GatewayAuthError ⊎ Enrolled) × Tables
  unfolding new_credential issued find_where
  issue_credential d r t (inl e) = (inl e, t)
  issue_credential d r t (inr (a, u)) =
      elim (find_where (has_key (hash d.credential)) u.credentials) [
        | some _ ↦ (inl key_taken, t)
        | none ↦
            (inr (issued d r a), record u { credentials = new_credential d r a ∷ u.credentials })
      ]

  abbrev pub spend_token : ℕ → String → Tables → Tables
  spend_token now h t = record t { tokens = change_where (has_hash h) (spend now) t.tokens }

  -- Where the call raises, nothing is committed.
  unfoldable pub enroll_agent :
      Draws → EnrollRequest → Tables → (GatewayAuthError ⊎ Enrolled) × Tables
  unfolding token_refusal spend enrolled_agent issue_credential find_where change_where
  enroll_agent d r t = elim (find_where (has_hash (hash r.raw_token)) t.tokens) [
    | none ↦ (inl invalid_token, t)
    | some tok ↦ elim (token_refusal d.now tok) [
      | some e ↦ (inl e, t)
      | none ↦
          issue_credential d r t (enrolled_agent d r tok (spend_token d.now (hash r.raw_token) t))
    ]
  ]
