-- ===== src/Fleet/Revoked.antt =====
-- What becomes of an agent that was revoked through marlinspike/fleet/api.py, whatever agents and
-- users do afterwards.
use net_discover.Prelude.{
  ℕ, ◌<◌, ==_iff, String, List, [], ◌∷◌, Option, some, Bool, true, false, ◌≡◌, ◌≢◌, refl, arith,
  ◌&&◌, inl, inr, All, find_where, change_where, delete_where, All-change_where, All-keep,
  All-find_where, Option-cases,
}
use net_discover.Fleet.Agents.{Agent, AgentEnrollmentToken, Tables, has_id, has_uuid, is_revoked}
use net_discover.Fleet.Gateway.{Draws, EnrollRequest, spend, returning_agent, new_agent}
use net_discover.Fleet.Presence.{AuthRequest, authenticate_agent, proved_agent}
use net_discover.Fleet.Admin.{
  done, rotation_token, standing_token, end_token, without_agent, is_agent, revoke_agent,
  editable_agent, end_agent,
}
use net_discover.Fleet.Operations.{FleetCall, perform, perform_all}
use net_discover.Fleet.Steps.{
  Redeems, Step, idle, joined, returned, written, reported, opened, steered, ended, removed,
  rotated, standing,
}
use net_discover.Fleet.Redeemed.{is_one_time, is_used, refused_used}
use net_discover.Fleet.Refines.{perform-Step}

abbrev pub RevokedRow : ℕ → Agent → Type 0
RevokedRow id a = has_id id a ≡ true → is_revoked a.status ≡ true

-- A token that names the agent was redeemed already.
abbrev pub UsedRow : ℕ → AgentEnrollmentToken → Type 0
UsedRow id k = is_agent id k.agent_id ≡ true → (is_one_time k && is_used k) ≡ true

-- The agent is revoked or gone, no token is left that lets it back, and its id is not given again.
record IsBarred (id : ℕ) (t : Tables) : Type 0 where
  rows : All (RevokedRow id) t.agents
  used : All (UsedRow id) t.tokens
  below : id < t.next_agent_id

module _ (id : ℕ) where
  spend-UsedRow : (now : ℕ) (k : AgentEnrollmentToken) → UsedRow id k → UsedRow id (spend now k)
  unfolding spend
  spend-UsedRow now k o is = ground (arith, o, is)

  -- A write of another agent's row.
  elsewhere :
      (j : ℕ) (f : Agent → Agent)
      → ((a : Agent) → (f a).id ≡ a.id)
      → j ≢ id
      → (a : Agent) → has_id j a ≡ true
      → RevokedRow id a
      → RevokedRow id (f a)
  elsewhere j f same other a hit row is = ground (arith, same a, other, hit, row, is)

  present-other :
      (t : Tables) (p : Agent → Bool) {a : Agent}
      → IsBarred id t
      → find_where p t.agents ≡ some a
      → is_revoked a.status ≡ false
      → a.id ≢ id
  present-other t p {a} b found live same =
      let out : is_revoked a.status ≡ true =
        All-find_where (RevokedRow id) p t.agents b.rows found ((==_iff a.id id).1 same) in
      ground (arith, out, live)

  ended-rows :
      (now : ℕ) (rows : List Agent)
      → All (RevokedRow id) (change_where (has_id id) (end_agent now) rows)
  unfolding change_where
  ended-rows now [] = tt
  ended-rows now (a ∷ rest) = ((λ is. ground (arith, is)), ended-rows now rest)

  module _ (hash : String → String) where
    redeemed-other :
        (t : Tables) {d : Draws} {r : EnrollRequest} {tok : AgentEnrollmentToken} {j : ℕ}
        → IsBarred id t
        → Redeems hash d r tok t
        → tok.agent_id ≡ some j
        → j ≢ id
    redeemed-other t {d} {tok = tok} {j} b rd old same =
        let named : is_agent id tok.agent_id ≡ true = rw old ((==_iff j id).1 same) in
        refused_used d.now tok (All-find_where (UsedRow id) _ t.tokens b.used rd.known named)
          rd.admitted

    Step-IsBarred :
        {op : FleetCall} {t u : Tables} → Step hash t op u → IsBarred id t → IsBarred id u
    unfolding new_agent returning_agent rotation_token standing_token without_agent delete_where
    Step-IsBarred (idle op) b = b
    Step-IsBarred {t = t} (joined d r tok rd new free) b = record {
      rows = ((λ is. ground (arith, is, b.below)), b.rows);
      used =
          All-change_where (UsedRow id) _ (spend d.now) t.tokens (λ k hit. spend-UsedRow d.now k)
            b.used;
      below = omega (arith, b.below);
    }
    Step-IsBarred {t = t} (returned d r tok a j rd old is) b = record {
      rows =
          All-change_where (RevokedRow id) _ (returning_agent d r) t.agents
            (elsewhere j (returning_agent d r) (λ x. refl) (redeemed-other t b rd old)) b.rows;
      used =
          All-change_where (UsedRow id) _ (spend d.now) t.tokens (λ k hit. spend-UsedRow d.now k)
            b.used;
      below = b.below;
    }
    Step-IsBarred {t = t} (written op w a f is live keys) b = record {
      rows =
          All-change_where (RevokedRow id) _ f t.agents
            (elsewhere a.id f keys.same_id (present-other t (has_uuid w) b is live)) b.rows;
      used = b.used;
      below = b.below;
    }
    Step-IsBarred (reported now w p cs known owned) b = record {
      rows = b.rows;
      used = b.used;
      below = b.below;
    }
    Step-IsBarred (opened r free) b = record { rows = b.rows; used = b.used; below = b.below }
    Step-IsBarred (steered op j f is same) b = record {
      rows = b.rows;
      used = b.used;
      below = b.below;
    }
    Step-IsBarred {t = t} (ended now uid j) b = record {
      rows =
          All-change_where (RevokedRow id) _ (end_agent now) t.agents (λ a hit row is. refl) b.rows;
      used = b.used;
      below = b.below;
    }
    Step-IsBarred {t = t} (removed uid j) b = record {
      rows = All-keep (RevokedRow id) _ t.agents b.rows;
      used = All-keep (UsedRow id) _ t.tokens b.used;
      below = b.below;
    }
    Step-IsBarred {t = t} (rotated now uid j raw a is live free) b = record {
      rows = b.rows;
      used = (
        (λ named. absurd (present-other t (has_id j) b is live ((==_iff a.id id).0 named))),
        b.used,
      );
      below = b.below;
    }
    Step-IsBarred {t = t} (standing now uid pid raw free) b = record {
      rows = b.rows;
      used = (
        (λ is. ground (arith, is)),
        All-change_where (UsedRow id) _ (end_token now) t.tokens (λ k hit row is. row is) b.used,
      );
      below = b.below;
    }

    perform_all-IsBarred :
        (ops : List FleetCall) (t : Tables) → IsBarred id t → IsBarred id (perform_all hash ops t)
    unfolding perform_all
    perform_all-IsBarred [] t b = b
    perform_all-IsBarred (op ∷ ops) t b =
        perform_all-IsBarred ops (perform hash op t) (Step-IsBarred (perform-Step hash op t) b)

    proved-present :
        (r : AuthRequest) (t : Tables) {a : Agent}
        → proved_agent hash r t ≡ some a
        → (find_where (has_uuid r.agent_uuid) t.agents ≡ some a) × (is_revoked a.status ≡ false)
    unfolding proved_agent
    proved-present r t h = ground (arith, h)

    barred-out :
        (now : ℕ) (r : AuthRequest) (t : Tables)
        → IsBarred id t
        → (authenticate_agent hash now r t).0 ≢ inr id
    unfolding authenticate_agent
    barred-out now r t b = elim (Option-cases (proved_agent hash r t)) [
      | inl no_row ↦ rw (authenticate_agent, no_row) (λ h. ground (arith, h))
      | inr (a, proved) ↦
          rw (authenticate_agent, proved)
            (λ h.
              present-other t (has_uuid r.agent_uuid) b (proved-present r t proved).0
                (proved-present r t proved).1 (ground (arith, h)))
    ]

    revoked-IsBarred :
        (now : ℕ) (uid : Option ℕ) (t : Tables)
        → (revoke_agent now uid id t).0 ≡ done
        → All (UsedRow id) t.tokens
        → id < t.next_agent_id
        → IsBarred id (revoke_agent now uid id t).1
    unfolding revoke_agent
    revoked-IsBarred now uid t = elim (Option-cases (editable_agent uid id t)) [
      | inl denied ↦ rw (revoke_agent, denied) (λ is. absurd (ground (arith, is)))
      | inr (a, granted) ↦
          rw (revoke_agent, granted)
            (λ is used below. record { rows = ended-rows now t.agents; used = used; below = below })
    ]

    -- Once a user has revoked an agent that no unredeemed token names, its id never authenticates
    -- again and its row, while it exists, stays revoked, whatever the agents and the users do.
    pub revoke_agent-final :
        (now : ℕ) (uid : Option ℕ) (t : Tables)
        → (revoke_agent now uid id t).0 ≡ done
        → All (UsedRow id) t.tokens
        → id < t.next_agent_id
        → (ops : List FleetCall) (later : ℕ) (r : AuthRequest)
        → ((authenticate_agent hash later r (perform_all hash ops (revoke_agent now uid id t).1)).0
            ≢ inr id)
          × All (RevokedRow id) (perform_all hash ops (revoke_agent now uid id t).1).agents
    revoke_agent-final now uid t is used below ops later r =
        let b = perform_all-IsBarred ops _ (revoked-IsBarred now uid t is used below) in
        (barred-out later r _ b, b.rows)
