-- ===== src/Fleet/Enrolls.antt =====
-- An enrolment is one of the steps of the relation.
use net_discover.Prelude.{String, none, some, ◌≡◌, inl, inr, find_where, Option-cases}
use net_discover.Fleet.Agents.{AgentEnrollmentToken, Tables, has_id, has_uuid, has_hash, has_key}
use net_discover.Fleet.Gateway.{
  Draws, EnrollRequest, token_refusal, add_agent, return_agent, enrolled_agent, issue_credential,
  spend_token, enroll_agent,
}
use net_discover.Fleet.Operations.{enroll}
use net_discover.Fleet.Steps.{Redeems, Step, idle, joined, returned}

module _ (hash : String → String) (t : Tables) (d : Draws) (r : EnrollRequest) where
  issue_credential-Step :
      (tok : AgentEnrollmentToken)
      → find_where (has_hash (hash r.raw_token)) t.tokens ≡ some tok
      → token_refusal d.now tok ≡ none
      → Step hash t
          (enroll d r)
          (issue_credential hash d r t
            (enrolled_agent d r tok (spend_token hash d.now (hash r.raw_token) t))).1
  unfolding issue_credential enrolled_agent add_agent return_agent
  issue_credential-Step tok known admitted =
      elim (Option-cases (find_where (has_key (hash d.credential)) t.credentials)) [
        | inr (c, taken) ↦ elim (Option-cases tok.agent_id) [
          | inl new ↦ elim (Option-cases (find_where (has_uuid d.agent_uuid) t.agents)) [
            | inl free ↦ rw (issue_credential, new, free, taken) (idle (enroll d r))
            | inr (b, busy) ↦ rw (issue_credential, new, busy) (idle (enroll d r))
          ]
          | inr (id, old) ↦ elim (Option-cases (find_where (has_id id) t.agents)) [
            | inl gone ↦ rw (issue_credential, old, gone) (idle (enroll d r))
            | inr (a, is) ↦ rw (issue_credential, old, is, taken) (idle (enroll d r))
          ]
        ]
        | inl new_key ↦
            let ok : Redeems hash d r tok t = record {
              known = known;
              admitted = admitted;
              new_key = new_key;
            } in
            elim (Option-cases tok.agent_id) [
              | inl new ↦ elim (Option-cases (find_where (has_uuid d.agent_uuid) t.agents)) [
                | inl free ↦ rw (issue_credential, new, free, new_key) (joined d r tok ok new free)
                | inr (b, busy) ↦ rw (issue_credential, new, busy) (idle (enroll d r))
              ]
              | inr (id, old) ↦ elim (Option-cases (find_where (has_id id) t.agents)) [
                | inl gone ↦ rw (issue_credential, old, gone) (idle (enroll d r))
                | inr (a, is) ↦
                    rw (issue_credential, old, is, new_key) (returned d r tok a id ok old is)
              ]
            ]
      ]

  pub enroll_agent-Step : Step hash t (enroll d r) (enroll_agent hash d r t).1
  unfolding enroll_agent
  enroll_agent-Step = elim (Option-cases (find_where (has_hash (hash r.raw_token)) t.tokens)) [
    | inl unknown ↦ rw (enroll_agent, unknown) (idle (enroll d r))
    | inr (tok, known) ↦
        rw (enroll_agent, known)
          (elim (Option-cases (token_refusal d.now tok)) [
            | inr (e, refused) ↦ rw refused (idle (enroll d r))
            | inl admitted ↦ rw admitted (issue_credential-Step tok known admitted)
          ])
  ]
