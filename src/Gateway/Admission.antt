-- ===== src/Gateway/Admission.antt =====
-- What the answer to a first frame says of the gateway of marlinspike/fleet/gateway/server.py
-- behind it.
use net_discover.Prelude.{
  ℕ, String, Option, none, some, Bool, true, false, ◌≡◌, refl, arith, Bool-cases, inl, inr,
}
use net_discover.Fleet.Gateway.{GatewayAuthError, key_taken, EnrollRequest}
use net_discover.Gateway.Limiter.{auth_rate_limited}
use net_discover.Gateway.Connections.{GatewayServer}
use net_discover.Gateway.FirstFrame.{
  FirstFrame, enroll, auth, broken, other, Visit, Answer, nothing, not_first, rate_limited,
  enrolled, authenticated, Door, peer_ip, refusal, enroll_first, auth_first, authenticate, attempt,
  turn,
}

-- An answer that was given after the limit let the attempt through.
unfoldable pub tried : Answer → Bool
tried nothing = false
tried (not_first id) = false
tried (rate_limited id) = false
tried _ = true

-- An answer that gave out a credential or took one.
unfoldable pub admits : Answer → Bool
admits (enrolled id x) = true
admits (authenticated id u) = true
admits _ = false

refusal-admits : (id : Option ℕ) (e : GatewayAuthError) → admits (refusal id e) ≡ false
unfolding admits refusal
refusal-admits id key_taken = refl
refusal-admits id e = refl

module _ (hash : String → String) where
  enroll_first-keeps :
      (v : Visit) (id : Option ℕ) (r : EnrollRequest) (s : GatewayServer)
      → admits (enroll_first hash v id r s).0 ≡ false
      → (enroll_first hash v id r s).1 ≡ s
  unfolding enroll_first admits
  enroll_first-keeps v id r s refused' = ground (arith, refused')

  auth_first-keeps :
      (v : Visit) (id : Option ℕ) (u c : String) (s : GatewayServer)
      → admits (auth_first hash v id u c s).0 ≡ false
      → (auth_first hash v id u c s).1 ≡ s
  unfolding auth_first admits
  auth_first-keeps v id u c s refused' = ground (arith, refused')

  authenticate-keeps :
      (v : Visit) (f : FirstFrame) (s : GatewayServer)
      → admits (authenticate hash v f s).0 ≡ false
      → (authenticate hash v f s).1 ≡ s
  unfolding authenticate
  authenticate-keeps v (enroll id r) s refused' = enroll_first-keeps v id r s refused'
  authenticate-keeps v (auth id u c) s refused' = auth_first-keeps v id u c s refused'
  authenticate-keeps v (broken id) s refused' = refl
  authenticate-keeps v (other id) s refused' = refl

module _ (hash : String → String) (window : ℕ) where
  attempt-keeps :
      (v : Visit) (f : FirstFrame) (d : Door)
      → admits (attempt hash window v f d).0 ≡ false
      → (attempt hash window v f d).1.server ≡ d.server
  unfolding attempt
  attempt-keeps v f d =
      elim (Bool-cases (auth_rate_limited window (peer_ip v.peer) v.clock d.attempts).0) [
        | inl limited ↦ rw limited (λ refused'. refl)
        | inr free ↦ rw free (λ refused'. authenticate-keeps hash v f d.server refused')
      ]

  pub turn-keeps :
      (v : Visit) (o : Option FirstFrame) (d : Door)
      → admits (turn hash window v o d).0 ≡ false
      → (turn hash window v o d).1.server ≡ d.server
  unfolding turn
  turn-keeps v none d refused' = refl
  turn-keeps v (some (other id)) d refused' = refl
  turn-keeps v (some f) d refused' = attempt-keeps v f d refused'
