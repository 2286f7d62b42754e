-- ===== src/Fleet/Retired.antt =====
-- Credentials that a rotation or a revocation of marlinspike/fleet/api.py ended, whatever agents and
-- users do afterwards.
use net_discover.Prelude.{
  ℕ, ==_iff, String, List, [], ◌∷◌, Option, none, Bool, true, false, ◌≡◌, ◌≢◌, refl, arith, inl,
  inr, str_eq_iff, All, find_where, change_where, delete_where, All-change_where, All-keep,
  Bool-cases, Option-cases,
}
use net_discover.Fleet.Agents.{AgentCredential, Tables, has_uuid, has_key, is_revoked}
use net_discover.Fleet.Gateway.{unauthorized, new_credential}
use net_discover.Fleet.Presence.{AuthRequest, authenticate_agent, proved_agent, is_live_key}
use net_discover.Fleet.Admin.{
  done, token, is_live, key_of, end_key, without_agent, revoke_agent, rotate_agent_credential,
  add_token,
}
use net_discover.Fleet.Operations.{FleetCall, enroll, perform, perform_all}
use net_discover.Fleet.Steps.{
  Step, idle, joined, returned, written, reported, opened, steered, ended, removed, rotated,
  standing,
}
use net_discover.Fleet.Refines.{perform-Step}

-- The credential with this hash is ended.
abbrev DeadRow : String → AgentCredential → Type 0
DeadRow h c = has_key h c ≡ true → is_live c.revoked_at ≡ false

-- The credential with this hash is one of the agent.
abbrev pub KeyRow : ℕ → String → AgentCredential → Type 0
KeyRow id h c = has_key h c ≡ true → c.agent_id ≡ id

end_keys-DeadRow :
    (id : ℕ) (h : String) (now : ℕ) (cs : List AgentCredential)
    → All (KeyRow id h) cs
    → All (DeadRow h) (change_where (key_of id) (end_key now) cs)
unfolding change_where
end_keys-DeadRow id h now [] k = tt
end_keys-DeadRow id h now (c ∷ cs) k =
    ((λ is. ground (arith, k.0, is, ==_iff c.agent_id id)), end_keys-DeadRow id h now cs k.1)

module _ (hash : String → String) where
  -- The operation draws no credential with this hash.
  abbrev pub IssuesOther : String → FleetCall → Type 0
  IssuesOther h (enroll d r) = hash d.credential ≢ h
  IssuesOther h _ = Unit

  -- The tables after a user has revoked the agent, or has rotated its credential.
  pub data Retired (id : ℕ) (t : Tables) : Tables → Type 0 where
    by_revocation :
        (now : ℕ) (uid : Option ℕ)
        → (revoke_agent now uid id t).0 ≡ done
        → Retired id t (revoke_agent now uid id t).1
    by_rotation :
        (now : ℕ) (uid : Option ℕ) (raw : String)
        → (rotate_agent_credential hash now uid id raw t).0 ≡ token raw
        → Retired id t (rotate_agent_credential hash now uid id raw t).1

  module _ (h : String) where
    ended-others :
        (now : ℕ) (q : AgentCredential → Bool) (cs : List AgentCredential)
        → All (DeadRow h) cs
        → All (DeadRow h) (change_where q (end_key now) cs)
    ended-others now q cs d =
        All-change_where (DeadRow h) q (end_key now) cs (λ c hit row is. refl) d

    Step-DeadRow :
        {op : FleetCall} {t u : Tables}
        → IssuesOther h op
        → Step hash t op u
        → All (DeadRow h) t.credentials
        → All (DeadRow h) u.credentials
    unfolding new_credential without_agent delete_where
    Step-DeadRow i (idle op) k = k
    Step-DeadRow i (joined d r tok rd new free) k =
        ((λ is. absurd (i ((str_eq_iff (hash d.credential) h).0 is))), k)
    Step-DeadRow i (returned d r tok a id rd old is) k =
        ((λ is. absurd (i ((str_eq_iff (hash d.credential) h).0 is))), k)
    Step-DeadRow i (written op w a f is live keys) k = k
    Step-DeadRow i (reported now w p cs known owned) k = k
    Step-DeadRow i (opened r free) k = k
    Step-DeadRow i (steered op j f is same) k = k
    Step-DeadRow {t = t} i (ended now uid id) k = ended-others now _ t.credentials k
    Step-DeadRow {t = t} i (removed uid id) k = All-keep (DeadRow h) _ t.credentials k
    Step-DeadRow {t = t} i (rotated now uid id raw a is live free) k =
        ended-others now _ t.credentials k
    Step-DeadRow i (standing now uid pid raw free) k = k

    perform_all-DeadRow :
        (ops : List FleetCall) (t : Tables)
        → All (IssuesOther h) ops
        → All (DeadRow h) t.credentials
        → All (DeadRow h) (perform_all hash ops t).credentials
    unfolding perform_all
    perform_all-DeadRow [] t i k = k
    perform_all-DeadRow (op ∷ ops) t i k =
        perform_all-DeadRow ops (perform hash op t) i.1
          (Step-DeadRow i.0 (perform-Step hash op t) k)

  live_key-none :
      (id : ℕ) (h : String) (cs : List AgentCredential)
      → All (DeadRow h) cs
      → find_where (is_live_key id h) cs ≡ none
  unfolding find_where is_live_key
  live_key-none id h [] k = refl
  live_key-none id h (c ∷ cs) k = ground (arith, k.0, live_key-none id h cs k.1)

  dead-unauthorized :
      (now : ℕ) (r : AuthRequest) (t : Tables)
      → All (DeadRow (hash r.raw_credential)) t.credentials
      → (authenticate_agent hash now r t).0 ≡ inl unauthorized
  unfolding authenticate_agent proved_agent
  dead-unauthorized now r t k = elim (Option-cases (find_where (has_uuid r.agent_uuid) t.agents)) [
    | inl unknown ↦ rw (authenticate_agent, proved_agent, unknown) refl
    | inr (a, is) ↦ elim (Bool-cases (is_revoked a.status)) [
      | inl out ↦ rw (authenticate_agent, proved_agent, is, out) refl
      | inr live ↦
          rw
            (
              authenticate_agent,
              proved_agent,
              is,
              live,
              live_key-none a.id (hash r.raw_credential) t.credentials k,
            )
            refl
    ]
  ]

  revoked-credentials :
      (id now : ℕ) (uid : Option ℕ) (t : Tables)
      → (revoke_agent now uid id t).0 ≡ done
      → (revoke_agent now uid id t).1.credentials
        ≡ change_where (key_of id) (end_key now) t.credentials
  unfolding revoke_agent
  revoked-credentials id now uid t is = ground (arith, is)

  rotated-credentials :
      (id now : ℕ) (uid : Option ℕ) (raw : String) (t : Tables)
      → (rotate_agent_credential hash now uid id raw t).0 ≡ token raw
      → (rotate_agent_credential hash now uid id raw t).1.credentials
        ≡ change_where (key_of id) (end_key now) t.credentials
  unfolding rotate_agent_credential add_token
  rotated-credentials id now uid raw t is = ground (arith, is)

  Retired-DeadRow :
      {id : ℕ} (h : String) {t u : Tables}
      → Retired id t u
      → All (KeyRow id h) t.credentials
      → All (DeadRow h) u.credentials
  Retired-DeadRow {id} h {t} (by_revocation now uid is) own =
      rw (revoked-credentials id now uid t is) (end_keys-DeadRow id h now t.credentials own)
  Retired-DeadRow {id} h {t} (by_rotation now uid raw is) own =
      rw (rotated-credentials id now uid raw t is) (end_keys-DeadRow id h now t.credentials own)

  -- A credential of an agent never authenticates again once a user has revoked the agent or rotated
  -- its credential, whatever follows, as long as no enrolment draws a credential of the same hash.
  pub Retired-final :
      (id : ℕ) (t u : Tables)
      → Retired id t u
      → (r : AuthRequest) → All (KeyRow id (hash r.raw_credential)) t.credentials
      → (ops : List FleetCall) → All (IssuesOther (hash r.raw_credential)) ops
      → (now : ℕ) → (authenticate_agent hash now r (perform_all hash ops u)).0 ≡ inl unauthorized
  Retired-final id t u re r own ops i now = dead-unauthorized now r (perform_all hash ops u) (
      perform_all-DeadRow (hash r.raw_credential) ops u i
        (Retired-DeadRow (hash r.raw_credential) re own))
