-- ===== src/Fleet/Tenants.antt =====
-- The isolation of tenants in marlinspike/fleet/gateway/db.py: the sessions of one agent under the
-- calls of the others.
use net_discover.Prelude.{
  ℕ, ◌<◌, ◌==◌, ==_iff, String, List, [], ◌∷◌, none, some, Bool, true, false, ◌≡◌, ◌≢◌, refl, sym,
  arith, ap, ◌∙◌, if◌then◌else◌, str_eq, str_eq_iff, All, find_where, change_where, delete_where,
  All-change_where, All-keep, All-find_where, found-find_where, find_where-change_where, map_found,
  Bool-cases, Option-cases, inl, inr,
}
use net_discover.Fleet.Agents.{Agent, CaptureSession, Tables, has_id, has_uuid, has_session}
use net_discover.Fleet.Gateway.{new_agent, returning_agent}
use net_discover.Fleet.Presence.{session_owned_by_agent, stats_row}
use net_discover.Fleet.Admin.{end_agent, without_agent, is_agent, forget}
use net_discover.Fleet.Captures.{NewSession, has_sid, pending_row}
use net_discover.Fleet.Operations.{
  FleetCall, session_stats, delete, start_answered, stop_capture, stop_answered, finalize, perform,
  perform_all,
}
use net_discover.Fleet.Steps.{
  Step, KeepsKeys, session_of, idle, joined, returned, written, reported, opened, steered, ended,
  removed, rotated, standing,
}
use net_discover.Fleet.Refines.{perform-Step}

-- The agent with this id has this uuid.
abbrev pub UuidRow : ℕ → String → Agent → Type 0
UuidRow id w a = has_id id a ≡ true → a.agent_uuid ≡ w

-- The operation is no report of that agent, no removal of it, and no user's call on the session.
abbrev pub IsElsewhere : ℕ → ℕ → String → FleetCall → Type 0
IsElsewhere sid id w (session_stats now u p) = u ≢ w
IsElsewhere sid id w (delete uid k) = k ≢ id
IsElsewhere sid id w (start_answered now k answered) = k ≢ sid
IsElsewhere sid id w (stop_capture user k) = k ≢ sid
IsElsewhere sid id w (stop_answered now k reply) = k ≢ sid
IsElsewhere sid id w (finalize now k frame) = k ≢ sid
IsElsewhere sid id w _ = Unit

other_session :
    (sid id : ℕ) (w : String) (op : FleetCall) {k : ℕ}
    → IsElsewhere sid id w op
    → session_of op ≡ some k
    → k ≢ sid
other_session sid id w (start_answered now j answered) e is same = e (ground (arith, is, same))
other_session sid id w (stop_capture user j) e is same = e (ground (arith, is, same))
other_session sid id w (stop_answered now j reply) e is same = e (ground (arith, is, same))
other_session sid id w (finalize now j frame) e is same = e (ground (arith, is, same))
other_session sid id w (session_stats _ _ _) e is same = ground (arith, is)
other_session sid id w _ e is same = ground (arith, is)

module _ (id : ℕ) (w s : String) (cs : CaptureSession) where
  -- The session is the agent's.
  record IsOwned (t : Tables) : Type 0 where
    session : find_where (has_session s) t.sessions ≡ some cs
    owner : cs.agent_id ≡ some id
    rows : All (UuidRow id w) t.agents
    below : id < t.next_agent_id

  written-UuidRow :
      (q : Agent → Bool) (f : Agent → Agent) (rows : List Agent)
      → KeepsKeys f
      → All (UuidRow id w) rows
      → All (UuidRow id w) (change_where q f rows)
  written-UuidRow q f rows k =
      All-change_where (UuidRow id w) q f rows
        (λ a hit row is. k.same_uuid a ∙ row (ap (λ n. n == id) (sym (k.same_id a)) ∙ is))

  -- Nobody else owns the session.
  owned-uuid : (t : Tables) (u : String) → IsOwned t → session_owned_by_agent cs u t ≡ true → u ≡ w
  unfolding session_owned_by_agent
  owned-uuid t u o = elim (Option-cases (find_where (has_uuid u) t.agents)) [
    | inl unknown ↦
        rw (session_owned_by_agent, o.owner, unknown) (λ is. absurd (ground (arith, is)))
    | inr (a, known) ↦
        rw (session_owned_by_agent, o.owner, known)
          (λ is.
            sym ((str_eq_iff a.agent_uuid u).0 (found-find_where (has_uuid u) t.agents known))
            ∙ All-find_where (UuidRow id w) (has_uuid u) t.agents o.rows known is)
  ]

  -- What another agent may report on is not the session.
  reported-other :
      (t : Tables) (u k : String) {c : CaptureSession}
      → IsOwned t
      → find_where (has_session k) t.sessions ≡ some c
      → session_owned_by_agent c u t ≡ true
      → u ≢ w
      → has_session k cs ≡ false
  reported-other t u k {c} o known owned other = elim (Bool-cases (has_session k cs)) [
    | inr miss ↦ miss
    | inl hit ↦
        let is_s =
          (str_eq_iff cs.session_uuid s).0
            (found-find_where (has_session s) t.sessions o.session) in
        let is_k = (str_eq_iff cs.session_uuid k).0 hit in
        let both : some c ≡ some cs =
          sym known
          ∙ ap (λ j. find_where (has_session j) t.sessions) (sym is_k ∙ is_s)
          ∙ o.session in
        let same : c ≡ cs = ground (arith, both) in
        absurd
          (other (owned-uuid t u o (ap (λ x. session_owned_by_agent x u t) (sym same) ∙ owned)))
  ]

  unchanged :
      (q : CaptureSession → Bool) (f : CaptureSession → CaptureSession) (t : Tables)
      → IsOwned t
      → ((x : CaptureSession) → (f x).session_uuid ≡ x.session_uuid)
      → q cs ≡ false
      → find_where (has_session s) (change_where q f t.sessions) ≡ some cs
  unchanged q f t o same miss =
      find_where-change_where (has_session s) q f t.sessions (λ x. ap (λ k. str_eq k s) (same x))
      ∙ ap (map_found (λ x. if q x then f x else x)) o.session
      ∙ rw miss refl

  -- A new session has another uuid.
  other_uuid :
      (t : Tables) (r : NewSession)
      → IsOwned t
      → find_where (has_session r.session_uuid) t.sessions ≡ none
      → str_eq r.session_uuid s ≡ false
  other_uuid t r o free = elim (Bool-cases (str_eq r.session_uuid s)) [
    | inr other ↦ other
    | inl same ↦
        let e = (str_eq_iff r.session_uuid s).0 same in
        absurd
          (ground (arith, sym free ∙ ap (λ u. find_where (has_session u) t.sessions) e ∙ o.session))
  ]

  module _ (hash : String → String) where
    Step-IsOwned :
        {op : FleetCall} {t u : Tables}
        → IsElsewhere cs.id id w op
        → Step hash t op u
        → IsOwned t
        → IsOwned u
    unfolding new_agent returning_agent without_agent delete_where stats_row pending_row find_where
    Step-IsOwned e (idle op) o = o
    Step-IsOwned e (joined d r tok rd new free) o = record {
      session = o.session;
      owner = o.owner;
      rows = ((λ is. ground (arith, is, o.below)), o.rows);
      below = omega (arith, o.below);
    }
    Step-IsOwned {t = t} e (returned d r tok a k rd old is) o = record {
      session = o.session;
      owner = o.owner;
      rows =
          written-UuidRow _ (returning_agent d r) t.agents
            (record { same_id = λ x. refl; same_uuid = λ x. refl }) o.rows;
      below = o.below;
    }
    Step-IsOwned {t = t} e (written op v a f is live keys) o = record {
      session = o.session;
      owner = o.owner;
      rows = written-UuidRow _ f t.agents keys o.rows;
      below = o.below;
    }
    Step-IsOwned {t = t} e (reported now v p c known owned) o = record {
      session =
          unchanged (has_session p.session_uuid) (stats_row now p) t o (λ x. refl)
            (reported-other t v p.session_uuid o known owned e);
      owner = o.owner;
      rows = o.rows;
      below = o.below;
    }
    Step-IsOwned {t = t} e (opened r free) o = record {
      session = rw (other_uuid t r o free) o.session;
      owner = o.owner;
      rows = o.rows;
      below = o.below;
    }
    Step-IsOwned {t = t} e (steered op k f is same) o = record {
      session =
          unchanged (has_sid k) f t o same
            (ground (arith, other_session cs.id id w op e is, ==_iff cs.id k));
      owner = o.owner;
      rows = o.rows;
      below = o.below;
    }
    Step-IsOwned {t = t} e (ended now uid k) o = record {
      session = o.session;
      owner = o.owner;
      rows =
          written-UuidRow _ (end_agent now) t.agents
            (record { same_id = λ x. refl; same_uuid = λ x. refl }) o.rows;
      below = o.below;
    }
    Step-IsOwned {t = t} e (removed uid k) o = record {
      session =
          unchanged (λ x. is_agent k x.agent_id) forget t o (λ x. refl)
            (rw o.owner (ground (arith, e, ==_iff id k)));
      owner = o.owner;
      rows = All-keep (UuidRow id w) _ t.agents o.rows;
      below = o.below;
    }
    Step-IsOwned e (rotated now uid k raw a is live free) o = record {
      session = o.session;
      owner = o.owner;
      rows = o.rows;
      below = o.below;
    }
    Step-IsOwned e (standing now uid pid raw free) o = record {
      session = o.session;
      owner = o.owner;
      rows = o.rows;
      below = o.below;
    }

    perform_all-IsOwned :
        (ops : List FleetCall) (t : Tables)
        → All (IsElsewhere cs.id id w) ops
        → IsOwned t
        → IsOwned (perform_all hash ops t)
    unfolding perform_all
    perform_all-IsOwned [] t e o = o
    perform_all-IsOwned (op ∷ ops) t e o =
        perform_all-IsOwned ops (perform hash op t) e.1
          (Step-IsOwned e.0 (perform-Step hash op t) o)

    -- The session of an agent is as it was after any enrolments, connections, heartbeats and
    -- reports of agents and any users' calls that issue tokens, revoke, remove and rotate agents,
    -- and start and stop captures, other than that agent's reports, its removal and the calls on
    -- that session.
    pub perform_all-isolates :
        (t : Tables)
        → find_where (has_session s) t.sessions ≡ some cs
        → cs.agent_id ≡ some id
        → All (UuidRow id w) t.agents
        → id < t.next_agent_id
        → (ops : List FleetCall) → All (IsElsewhere cs.id id w) ops
        → find_where (has_session s) (perform_all hash ops t).sessions ≡ some cs
    perform_all-isolates t session owner rows below ops e =
        (perform_all-IsOwned ops t e
          (record { session = session; owner = owner; rows = rows; below = below })).session
