-- ===== src/Fleet/Redeemed.antt =====
-- What a successful enrolment of marlinspike/fleet/gateway/db.py found and did.
use net_discover.Prelude.{
  ℕ, String, ◌∷◌, none, some, Bool, true, false, ◌≡◌, ◌≢◌, refl, arith, ap, subst, ◌∙◌, ◌&&◌, not,
  ◌⊎◌, inl, inr, find_where, change_where, Option-cases,
}
use net_discover.Fleet.Agents.{Agent, AgentEnrollmentToken, Tables, has_hash, has_key}
use net_discover.Fleet.Gateway.{
  GatewayAuthError, Draws, EnrollRequest, token_refusal, spend, enrolled_agent, add_agent,
  return_agent, new_credential, issued, issue_credential, spend_token, enroll_agent,
}

abbrev pub is_ok {ℓ} : {A B : Type ℓ} → A ⊎ B → Bool
is_ok (inl _) = false
is_ok (inr _) = true

abbrev pub is_one_time : AgentEnrollmentToken → Bool
is_one_time k = not k.is_standing

abbrev pub is_used : AgentEnrollmentToken → Bool
is_used k = elim k.used_at [ none ↦ false | some _ ↦ true ]

pub refused_used :
    (now : ℕ) (k : AgentEnrollmentToken)
    → (is_one_time k && is_used k) ≡ true
    → token_refusal now k ≢ none
unfolding token_refusal
refused_used now k s ok = ground (arith, s, ok)

module _ (hash : String → String) where
  -- The tables once the credential is added.
  abbrev pub with_credential : Draws → EnrollRequest → Agent → Tables → Tables
  with_credential d r a u = record u { credentials = new_credential hash d r a ∷ u.credentials }

  pub record Redemption (d : Draws) (r : EnrollRequest) (t : Tables) : Type 0 where
    pub tok : AgentEnrollmentToken
    pub agent : Agent
    pub tables : Tables
    pub known : find_where (has_hash (hash r.raw_token)) t.tokens ≡ some tok
    pub admitted : token_refusal d.now tok ≡ none
    pub made :
        enrolled_agent d r tok (spend_token hash d.now (hash r.raw_token) t) ≡ inr (agent, tables)
    pub new_key : find_where (has_key (hash d.credential)) tables.credentials ≡ none
    pub outcome :
        enroll_agent hash d r t ≡ (inr (issued hash d r agent), with_credential d r agent tables)

  enroll_agent-issue_credential :
      (d : Draws) (r : EnrollRequest) (t : Tables) (tok : AgentEnrollmentToken)
      → find_where (has_hash (hash r.raw_token)) t.tokens ≡ some tok
      → token_refusal d.now tok ≡ none
      → enroll_agent hash d r t
        ≡ issue_credential hash d r t
            (enrolled_agent d r tok (spend_token hash d.now (hash r.raw_token) t))
  unfolding enroll_agent
  enroll_agent-issue_credential d r t tok known admitted = rw (enroll_agent, known, admitted) refl

  -- The agent that was given a credential.
  record IsIssued (d : Draws) (r : EnrollRequest) (t : Tables)
      (o : GatewayAuthError ⊎ (Agent × Tables)) : Type 0 where
    agent : Agent
    tables : Tables
    made : o ≡ inr (agent, tables)
    new_key : find_where (has_key (hash d.credential)) tables.credentials ≡ none
    outcome :
        issue_credential hash d r t o
        ≡ (inr (issued hash d r agent), with_credential d r agent tables)

  issue_credential-IsIssued :
      (d : Draws) (r : EnrollRequest) (t : Tables) (o : GatewayAuthError ⊎ (Agent × Tables))
      → is_ok (issue_credential hash d r t o).0 ≡ true
      → IsIssued d r t o
  unfolding issue_credential
  issue_credential-IsIssued d r t (inl e) = λ ok. absurd (ground (arith, ok))
  issue_credential-IsIssued d r t (inr (a, u)) =
      elim (Option-cases (find_where (has_key (hash d.credential)) u.credentials)) [
        | inr (c, taken) ↦ rw (issue_credential, taken) (λ ok. absurd (ground (arith, ok)))
        | inl free ↦ λ ok. record {
          agent = a;
          tables = u;
          made = refl;
          new_key = free;
          outcome = rw (issue_credential, free) refl;
        }
      ]

  pub enroll_agent-Redemption :
      (d : Draws) (r : EnrollRequest) (t : Tables)
      → is_ok (enroll_agent hash d r t).0 ≡ true
      → Redemption d r t
  unfolding enroll_agent
  enroll_agent-Redemption d r t =
      elim (Option-cases (find_where (has_hash (hash r.raw_token)) t.tokens)) [
        | inl unknown ↦ rw (enroll_agent, unknown) (λ ok. absurd (ground (arith, ok)))
        | inr (tok, known) ↦ elim (Option-cases (token_refusal d.now tok)) [
          | inr (e, refused) ↦ rw (enroll_agent, known, refused) (λ ok. absurd (ground (arith, ok)))
          | inl admitted ↦ λ ok.
              let e = enroll_agent-issue_credential d r t tok known admitted in
              let i = issue_credential-IsIssued d r t _ (subst (λ x. is_ok x.0 ≡ true) e ok) in
              record {
                tok = tok;
                agent = i.agent;
                tables = i.tables;
                known = known;
                admitted = admitted;
                made = i.made;
                new_key = i.new_key;
                outcome = e ∙ i.outcome;
              }
        ]
      ]

  enrolled_agent-tokens :
      (d : Draws) (r : EnrollRequest) (k : AgentEnrollmentToken) (t : Tables) {b : Agent}
      {u : Tables}
      → enrolled_agent d r k t ≡ inr (b, u)
      → u.tokens ≡ t.tokens
  unfolding enrolled_agent add_agent return_agent
  enrolled_agent-tokens d r k t h = ground (arith, h)

  pub spent-tokens :
      {d : Draws} {r : EnrollRequest} {t : Tables}
      → Redemption d r t
      → (enroll_agent hash d r t).1.tokens
        ≡ change_where (has_hash (hash r.raw_token)) (spend d.now) t.tokens
  spent-tokens {d} {r} {t} m =
      ap (λ x. x.1.tokens) m.outcome ∙ enrolled_agent-tokens d r m.tok _ m.made
