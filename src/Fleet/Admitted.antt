-- ===== src/Fleet/Admitted.antt =====
-- Enrolment and authentication together, in marlinspike/fleet/gateway/db.py: the credential that
-- an enrolment gives out is the one that the agent is known by.
use net_discover.Prelude.{
  ℕ, ==_iff, String, List, [], ◌∷◌, Option, none, some, Bool, false, ◌≡◌, refl, sym, arith, ap,
  subst, ◌∙◌, if◌then◌else◌, ◌⊎◌, ◌↔◌, true, inl, inr, str_eq, str_eq_refl, str_eq_iff, find_where,
  change_where, delete_where, found-find_where, find_where-change_where, map_found, Unique,
  Unique-keep, Unique-change_where, Bool-cases, Option-cases,
}
use net_discover.Fleet.Agents.{
  AgentCredential, AgentEnrollmentToken, Agent, Tables, has_id, has_uuid, is_revoked,
}
use net_discover.Fleet.Gateway.{
  GatewayAuthError, Draws, EnrollRequest, Enrolled, given_text, returning_agent, returning_status,
  new_agent, enrolled_agent, add_agent, return_agent, new_credential, issued, signed_cert,
  enroll_agent,
}
use net_discover.Fleet.Presence.{authenticate_agent, proved_agent, cert_matches, is_live_key}
use net_discover.Fleet.Admin.{end_agent, without_agent}
use net_discover.Fleet.Operations.{FleetCall, perform, perform_all}
use net_discover.Fleet.Steps.{
  Step, idle, joined, returned, written, reported, opened, steered, ended, removed, rotated,
  standing,
}
use net_discover.Fleet.Refines.{perform-Step}
use net_discover.Fleet.Redeemed.{is_ok, with_credential, Redemption, enroll_agent-Redemption}

abbrev same_uuid : Agent → Agent → Bool
same_uuid a b = has_uuid a.agent_uuid b

-- The unique key of the agents.
abbrev pub UniqueUuid : Tables → Type 0
UniqueUuid t = Unique same_uuid t.agents

written-UniqueUuid :
    (q : Agent → Bool) (f : Agent → Agent) (rows : List Agent)
    → ((a : Agent) → (f a).agent_uuid ≡ a.agent_uuid)
    → Unique same_uuid rows
    → Unique same_uuid (change_where q f rows)
written-UniqueUuid q f rows kept u =
    Unique-change_where same_uuid q f rows (λ x y. ap (λ k. str_eq k x.agent_uuid) (kept y))
      (λ x y. ap (λ k. str_eq y.agent_uuid k) (kept x)) u

module _ (hash : String → String) where
  Step-UniqueUuid : {op : FleetCall} {t u : Tables} → Step hash t op u → UniqueUuid t → UniqueUuid u
  unfolding new_agent returning_agent without_agent delete_where
  Step-UniqueUuid (idle op) v = v
  Step-UniqueUuid (joined d r tok rd new free) v = (free, v)
  Step-UniqueUuid {t = t} (returned d r tok a id rd old is) v =
      written-UniqueUuid _ (returning_agent d r) t.agents (λ x. refl) v
  Step-UniqueUuid {t = t} (written op w a f is live keys) v =
      written-UniqueUuid _ f t.agents keys.same_uuid v
  Step-UniqueUuid (reported now w p cs known owned) v = v
  Step-UniqueUuid (opened r free) v = v
  Step-UniqueUuid (steered op k f is same) v = v
  Step-UniqueUuid {t = t} (ended now uid id) v =
      written-UniqueUuid _ (end_agent now) t.agents (λ x. refl) v
  Step-UniqueUuid {t = t} (removed uid id) v = Unique-keep same_uuid _ t.agents v
  Step-UniqueUuid (rotated now uid id raw a is live free) v = v
  Step-UniqueUuid (standing now uid pid raw free) v = v

  perform_all-UniqueUuid :
      (ops : List FleetCall) (t : Tables) → UniqueUuid t → UniqueUuid (perform_all hash ops t)
  unfolding perform_all
  perform_all-UniqueUuid [] t v = v
  perform_all-UniqueUuid (op ∷ ops) t v =
      perform_all-UniqueUuid ops (perform hash op t) (Step-UniqueUuid (perform-Step hash op t) v)

-- A row that is found by any key is the one that its uuid finds.
find_where-uuid :
    (p : Agent → Bool) (rows : List Agent) {a : Agent}
    → Unique same_uuid rows
    → find_where p rows ≡ some a
    → find_where (has_uuid a.agent_uuid) rows ≡ some a
unfolding find_where
find_where-uuid p [] u h = absurd (ground (arith, h))
find_where-uuid p (x ∷ xs) {a} u h = elim (Bool-cases (p x)) [
  | inl hit ↦
      let same : x ≡ a = ground (arith, h, hit) in
      subst (λ b. find_where (has_uuid b.agent_uuid) (x ∷ xs) ≡ some b) same
        (rw (str_eq_refl x.agent_uuid) refl)
  | inr miss ↦
      let rest = find_where-uuid p xs {a = a} u.1 (ground (arith, h, miss)) in
      elim (Bool-cases (str_eq x.agent_uuid a.agent_uuid)) [
        | inl same ↦
            let e = (str_eq_iff x.agent_uuid a.agent_uuid).0 same in
            absurd (ground (arith, sym u.0 ∙ ap (λ k. find_where (has_uuid k) xs) e ∙ rest))
        | inr other ↦ rw other rest
      ]
]

-- The agent that an enrolment made is found by its uuid, and is not revoked.
abbrev Present : GatewayAuthError ⊎ (Agent × Tables) → Type 0
Present (inl _) = Unit
Present (inr (a, u)) =
    (find_where (has_uuid a.agent_uuid) u.agents ≡ some a) × (is_revoked a.status ≡ false)

module _ (d : Draws) (r : EnrollRequest) (t : Tables) where
  add_agent-Present : (pid : ℕ) → Present (add_agent d r pid t)
  unfolding add_agent new_agent find_where
  add_agent-Present pid = elim (Option-cases (find_where (has_uuid d.agent_uuid) t.agents)) [
    | inl free ↦ rw (add_agent, free) (rw (str_eq_refl d.agent_uuid) refl, refl)
    | inr (b, taken) ↦ rw (add_agent, taken) tt
  ]

  return_agent-Present : (id : ℕ) → UniqueUuid t → Present (return_agent d r id t)
  unfolding return_agent returning_agent returning_status
  return_agent-Present id v = elim (Option-cases (find_where (has_id id) t.agents)) [
    | inl gone ↦ rw (return_agent, gone) tt
    | inr (a, is) ↦
        rw (return_agent, is)
          (
            find_where-change_where (has_uuid a.agent_uuid) (has_id id) (returning_agent d r)
                  t.agents (λ x. refl)
                ∙ ap (map_found (λ x. if has_id id x then returning_agent d r x else x))
                    (find_where-uuid (has_id id) t.agents v is)
                ∙ rw (found-find_where (has_id id) t.agents is) refl,
            ground (arith),
          )
  ]

-- The fingerprint of the certificate that came with the credential, if one did.
unfoldable pub issued_fingerprint : Draws → EnrollRequest → String → Option String
unfolding given_text
issued_fingerprint d r uuid = elim (given_text r.csr_pem) [
  | none ↦ none
  | some csr ↦ elim (d.sign csr uuid) [ none ↦ none | some (pem, fingerprint) ↦ some fingerprint ]
]

-- The peer shows the certificate with the fingerprint on file; where none is on file, or an empty
-- text, it needs none.
abbrev pub Shows : Option String → Option String → Type 0
Shows none peer = Unit
Shows (some f) peer = (f ≡ "") ⊎ (peer ≡ some f)

cert_matches_iff :
    (on_file peer : Option String) → (cert_matches on_file peer ≡ true) ↔ Shows on_file peer
unfolding cert_matches given_text
cert_matches_iff none peer = (λ m. tt, λ s. refl)
cert_matches_iff (some f) none = ground (arith, str_eq_iff f "")
cert_matches_iff (some f) (some g) = ground (arith, str_eq_iff f "", str_eq_iff f g)

module _ (hash : String → String) where
  enrolled_agent-Present :
      (d : Draws) (r : EnrollRequest) (tok : AgentEnrollmentToken) (t : Tables)
      → UniqueUuid t
      → Present (enrolled_agent d r tok t)
  unfolding enrolled_agent
  enrolled_agent-Present d r tok t v = elim (Option-cases tok.agent_id) [
    | inl new ↦ rw (enrolled_agent, new) (add_agent-Present d r t tok.project_id)
    | inr (id, old) ↦ rw (enrolled_agent, old) (return_agent-Present d r t id v)
  ]

  fingerprint-new_credential :
      (d : Draws) (r : EnrollRequest) (a : Agent)
      → (new_credential hash d r a).cert_fingerprint_sha256 ≡ issued_fingerprint d r a.agent_uuid
  unfolding new_credential signed_cert issued_fingerprint
  fingerprint-new_credential d r a = ground arith

  live_key-new_credential :
      (d : Draws) (r : EnrollRequest) (a : Agent) (cs : List AgentCredential)
      → find_where (is_live_key a.id (hash d.credential)) (new_credential hash d r a ∷ cs)
        ≡ some (new_credential hash d r a)
  unfolding find_where is_live_key new_credential
  live_key-new_credential d r a cs =
      ground (arith, ==_iff a.id a.id, str_eq_refl (hash d.credential))

  authenticates :
      (now : ℕ) (d : Draws) (r : EnrollRequest) (t : Tables) (peer : Option String)
      → UniqueUuid t
      → (m : Redemption hash d r t)
      → is_ok
          (authenticate_agent hash now
            (record {
              agent_uuid = m.agent.agent_uuid;
              raw_credential = d.credential;
              peer_cert_fingerprint = peer;
            })
            (with_credential hash d r m.agent m.tables)).0
        ≡ cert_matches (issued_fingerprint d r m.agent.agent_uuid) peer
  unfolding authenticate_agent proved_agent
  authenticates now d r t peer v m =
      let p = subst Present m.made (enrolled_agent-Present d r m.tok _ v) in
      rw
        (
          authenticate_agent,
          proved_agent,
          p.0,
          p.1,
          live_key-new_credential d r m.agent m.tables.credentials,
          fingerprint-new_credential d r m.agent,
        )
        (elim (Bool-cases (cert_matches (issued_fingerprint d r m.agent.agent_uuid) peer)) [
          | inl good ↦ rw good refl
          | inr bad ↦ rw bad refl
        ])

  accepts :
      (ops : List FleetCall) (t : Tables)
      → UniqueUuid t
      → (d : Draws) (r : EnrollRequest) (e : Enrolled)
      → (enroll_agent hash d r (perform_all hash ops t)).0 ≡ inr e
      → (now : ℕ) (peer : Option String)
      → is_ok
          (authenticate_agent hash now
            (record {
              agent_uuid = e.agent_uuid;
              raw_credential = e.credential;
              peer_cert_fingerprint = peer;
            })
            (enroll_agent hash d r (perform_all hash ops t)).1).0
        ≡ cert_matches (issued_fingerprint d r e.agent_uuid) peer
  unfolding issued
  accepts ops t v d r e ok now peer =
      let w = perform_all hash ops t in
      let m = enroll_agent-Redemption hash d r w (ap is_ok ok) in
      let same : inr (issued hash d r m.agent) ≡ inr e = sym (ap (λ x. x.0) m.outcome) ∙ ok in
      let got : issued hash d r m.agent ≡ e = ground (arith, same) in
      subst
        (λ g.
          is_ok
            (authenticate_agent hash now
              (record {
                agent_uuid = g.agent_uuid;
                raw_credential = g.credential;
                peer_cert_fingerprint = peer;
              })
              (enroll_agent hash d r w).1).0
          ≡ cert_matches (issued_fingerprint d r g.agent_uuid) peer)
        got (rw m.outcome (authenticates now d r w peer (perform_all-UniqueUuid hash ops t v) m))

  -- After any calls, the agent that an enrolment names in its answer authenticates with the
  -- credential of the answer exactly if it shows the certificate that was signed with it; it needs
  -- none where no CSR was sent or signed, or the fingerprint is empty.
  pub enroll_agent-authenticates :
      (ops : List FleetCall) (t : Tables)
      → UniqueUuid t
      → (d : Draws) (r : EnrollRequest) (e : Enrolled)
      → (enroll_agent hash d r (perform_all hash ops t)).0 ≡ inr e
      → (now : ℕ) (peer : Option String)
      → (is_ok
            (authenticate_agent hash now
              (record {
                agent_uuid = e.agent_uuid;
                raw_credential = e.credential;
                peer_cert_fingerprint = peer;
              })
              (enroll_agent hash d r (perform_all hash ops t)).1).0
          ≡ true)
        ↔ Shows (issued_fingerprint d r e.agent_uuid) peer
  enroll_agent-authenticates ops t v d r e ok now peer =
      let same = accepts ops t v d r e ok now peer in
      let shows = cert_matches_iff (issued_fingerprint d r e.agent_uuid) peer in
      (λ in_. shows.0 (sym same ∙ in_), λ s. same ∙ shows.1 s)
