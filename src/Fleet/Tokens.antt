-- ===== src/Fleet/Tokens.antt =====
-- One-time tokens of marlinspike/fleet/gateway/db.py: how often one can be redeemed, whatever else
-- happens to the tables in between.
use net_discover.Prelude.{
  ℕ, suc, ◌≤◌, String, List, [], ◌∷◌, Bool, true, false, ◌≡◌, ◌≢◌, refl, arith, if◌then◌else◌, ◌&&◌,
  inl, inr, str_eq, str_eq_iff, All, change_where, delete_where, All-change_where, All-keep,
  All-find_where, found-find_where, Bool-cases,
}
use net_discover.Fleet.Agents.{AgentEnrollmentToken, Tables, has_hash}
use net_discover.Fleet.Gateway.{Draws, EnrollRequest, spend, enroll_agent}
use net_discover.Fleet.Admin.{rotation_token, standing_token, end_token, without_agent}
use net_discover.Fleet.Operations.{
  FleetCall, enroll, authenticate, heartbeat, disconnect, session_stats, start_capture,
  start_answered, stop_capture, stop_answered, finalize, revoke, delete, rotate, issue_token,
  perform,
}
use net_discover.Fleet.Steps.{
  Step, idle, joined, returned, written, reported, opened, steered, ended, removed, rotated,
  standing,
}
use net_discover.Fleet.Refines.{perform-Step}
use net_discover.Fleet.Redeemed.{
  is_ok, is_one_time, is_used, refused_used, Redemption, enroll_agent-Redemption, spent-tokens,
}

-- The token with this hash, if there is one, is a one-time token.
abbrev pub OneTime : String → AgentEnrollmentToken → Type 0
OneTime h k = has_hash h k ≡ true → is_one_time k ≡ true

abbrev Spent : String → AgentEnrollmentToken → Type 0
Spent h k = has_hash h k ≡ true → (is_one_time k && is_used k) ≡ true

module _ (hash : String → String) (h : String) where
  -- The operation mints no token with this hash.
  abbrev pub MintsOther : FleetCall → Type 0
  MintsOther (rotate now uid id raw) = hash raw ≢ h
  MintsOther (issue_token now uid pid raw) = hash raw ≢ h
  MintsOther _ = Unit

  -- What the operations do to each token, for a property of the token with this hash.
  record Kept (P : AgentEnrollmentToken → Type 0) : Type 0 where
    spending : (now : ℕ) (k : AgentEnrollmentToken) → P k → P (spend now k)
    ending : (now : ℕ) (k : AgentEnrollmentToken) → P k → P (end_token now k)
    others : (k : AgentEnrollmentToken) → k.token_hash ≢ h → P k

  Step-All :
      {P : AgentEnrollmentToken → Type 0} {op : FleetCall} {t u : Tables}
      → Kept P
      → MintsOther op
      → Step hash t op u
      → All P t.tokens
      → All P u.tokens
  unfolding rotation_token standing_token without_agent delete_where
  Step-All c m (idle op) a = a
  Step-All {P} {t = t} c m (joined d r tok rd new free) a =
      All-change_where P _ (spend d.now) t.tokens (λ k hit. c.spending d.now k) a
  Step-All {P} {t = t} c m (returned d r tok b id rd old is) a =
      All-change_where P _ (spend d.now) t.tokens (λ k hit. c.spending d.now k) a
  Step-All c m (written op w b f is live keys) a = a
  Step-All c m (reported now w p cs known owned) a = a
  Step-All c m (opened r free) a = a
  Step-All c m (steered op j f is same) a = a
  Step-All c m (ended now uid id) a = a
  Step-All {P} {t = t} c m (removed uid id) a = All-keep P _ t.tokens a
  Step-All c m (rotated now uid id raw b is live free) a =
      (c.others (rotation_token now uid (hash raw) b) m, a)
  Step-All {P} {t = t} c m (standing now uid pid raw free) a = (
    c.others (standing_token uid (hash raw) pid) m,
    All-change_where P _ (end_token now) t.tokens (λ k hit. c.ending now k) a,
  )

  Kept-OneTime : Kept (OneTime h)
  unfolding spend
  Kept-OneTime = record {
    spending = λ now k o is. ground (arith, o, is);
    ending = λ now k o is. ground (arith, o, is);
    others = λ k other is. absurd (other ((str_eq_iff k.token_hash h).0 is));
  }

  Kept-Spent : Kept (Spent h)
  unfolding spend
  Kept-Spent = record {
    spending = λ now k o is. ground (arith, o, is);
    ending = λ now k o is. ground (arith, o, is);
    others = λ k other is. absurd (other ((str_eq_iff k.token_hash h).0 is));
  }

  -- The operation redeems the token with this hash.
  unfoldable pub redeems : FleetCall → Tables → Bool
  unfolding enroll_agent
  redeems (enroll d r) t = str_eq (hash r.raw_token) h && is_ok (enroll_agent hash d r t).0
  redeems _ t = false

  unfoldable pub redemptions : List FleetCall → Tables → ℕ
  unfolding redeems perform
  redemptions [] t = 0
  redemptions (op ∷ ops) t =
      let rest = redemptions ops (perform hash op t) in if redeems op t then suc rest else rest

  -- An operation that redeems the token is an enrolment with it that succeeds.
  record Redeeming (op : FleetCall) (t : Tables) : Type 0 where
    d : Draws
    r : EnrollRequest
    is_enroll : op ≡ enroll d r
    same : hash r.raw_token ≡ h
    redemption : Redemption hash d r t

  redeems-Redeeming : (op : FleetCall) (t : Tables) → redeems op t ≡ true → Redeeming op t
  unfolding redeems
  redeems-Redeeming (enroll d r) t is = record {
    d = d;
    r = r;
    is_enroll = refl;
    same = (str_eq_iff (hash r.raw_token) h).0 (ground (arith, is));
    redemption = enroll_agent-Redemption hash d r t (ground (arith, is));
  }
  redeems-Redeeming (authenticate _ _) t is = absurd (ground (arith, is))
  redeems-Redeeming (heartbeat _ _ _) t is = absurd (ground (arith, is))
  redeems-Redeeming (disconnect _) t is = absurd (ground (arith, is))
  redeems-Redeeming (session_stats _ _ _) t is = absurd (ground (arith, is))
  redeems-Redeeming (revoke _ _ _) t is = absurd (ground (arith, is))
  redeems-Redeeming (delete _ _) t is = absurd (ground (arith, is))
  redeems-Redeeming (rotate _ _ _ _) t is = absurd (ground (arith, is))
  redeems-Redeeming (issue_token _ _ _ _) t is = absurd (ground (arith, is))
  redeems-Redeeming (start_capture _) t is = absurd (ground (arith, is))
  redeems-Redeeming (start_answered _ _ _) t is = absurd (ground (arith, is))
  redeems-Redeeming (stop_capture _ _) t is = absurd (ground (arith, is))
  redeems-Redeeming (stop_answered _ _ _) t is = absurd (ground (arith, is))
  redeems-Redeeming (finalize _ _ _) t is = absurd (ground (arith, is))

  Spent-never_redeemed :
      (op : FleetCall) (t : Tables) → All (Spent h) t.tokens → redeems op t ≢ true
  Spent-never_redeemed op t s is =
      let m = redeems-Redeeming op t is in
      let n = m.redemption in
      let hit : has_hash h n.tok ≡ true =
        rw (← m.same) (found-find_where (has_hash (hash m.r.raw_token)) t.tokens n.known) in
      refused_used m.d.now n.tok (All-find_where (Spent h) _ t.tokens s n.known hit) n.admitted

  spend-Spent :
      (now : ℕ) (ks : List AgentEnrollmentToken)
      → All (OneTime h) ks
      → All (Spent h) (change_where (has_hash h) (spend now) ks)
  unfolding change_where spend
  spend-Spent now [] o = tt
  spend-Spent now (k ∷ ks) o = (λ is. ground (arith, o.0, is), spend-Spent now ks o.1)

  redeemed-Spent :
      (op : FleetCall) (t : Tables)
      → All (OneTime h) t.tokens
      → redeems op t ≡ true
      → All (Spent h) (perform hash op t).tokens
  unfolding redeems perform
  redeemed-Spent op t o is =
      let m = redeems-Redeeming op t is in
      rw (m.is_enroll, spent-tokens hash m.redemption, m.same) (spend-Spent m.d.now t.tokens o)

  Spent-no_redemptions :
      (ops : List FleetCall) (t : Tables)
      → All MintsOther ops
      → All (Spent h) t.tokens
      → redemptions ops t ≡ 0
  unfolding redemptions
  Spent-no_redemptions [] t m s = refl
  Spent-no_redemptions (op ∷ ops) t m s = ground (
    arith,
    Spent-never_redeemed op t s,
    Spent-no_redemptions ops (perform hash op t) m.1
        (Step-All Kept-Spent m.0 (perform-Step hash op t) s),
  )

  -- A one-time token is redeemed at most once, whatever the agents and the users do in between,
  -- as long as no new token is drawn with its hash.
  pub redemptions-once :
      (ops : List FleetCall) (t : Tables)
      → All (OneTime h) t.tokens
      → All MintsOther ops
      → redemptions ops t ≤ 1
  unfolding redemptions
  redemptions-once [] t o m = ground arith
  redemptions-once (op ∷ ops) t o m = elim (Bool-cases (redeems op t)) [
    | inl is ↦
        ground
          (arith, is, Spent-no_redemptions ops (perform hash op t) m.1 (redeemed-Spent op t o is))
    | inr other ↦ ground (
      arith,
      other,
      redemptions-once ops (perform hash op t)
          (Step-All Kept-OneTime m.0 (perform-Step hash op t) o) m.1,
    )
  ]
