-- ===== src/Gateway/Tries.antt =====
-- How many tokens and credentials the gateway of marlinspike/fleet/gateway/server.py tries for one
-- address: the first frames of all connections against the limiter.
use net_discover.Prelude.{
  ℕ, suc, ◌≤◌, String, List, [], ◌∷◌, Option, none, some, true, false, ◌&&◌, ◌≡◌, ◌∙◌, refl, sym,
  ap, arith, str_eq_iff, if◌then◌else◌, leb, count_where, Bool-cases, inl, inr,
}
use net_discover.Gateway.Limiter.{
  attempts_per_window, auth_rate_limited, run_attempts, in_window, IsOrdered,
}
use net_discover.Gateway.Window.{IsOrdered-later, auth_rate_limited_iff}
use net_discover.Gateway.Connections.{GatewayServer}
use net_discover.Gateway.Admission.{tried, admits, turn-keeps}
use net_discover.Gateway.FirstFrame.{
  FirstFrame, other, Visit, Answer, Door, peer_ip, attempt, turn, first_frame,
}

abbrev pub origin : Visit → String × ℕ
origin v = (peer_ip v.peer, v.clock)

abbrev add_attempt : Visit → Option FirstFrame → List (String × ℕ) → List (String × ℕ)
add_attempt v none us = us
add_attempt v (some (other id)) us = us
add_attempt v (some _) us = origin v ∷ us

-- The attempts among the visits, the last first.
unfoldable pub attempts_by : List Visit → List (String × ℕ)
attempts_by [] = []
attempts_by (v ∷ before) = add_attempt v v.frame (attempts_by before)

module _ (hash : String → String) (window : ℕ) where
  unfoldable pub run_visits : List Visit → GatewayServer → Door
  unfolding first_frame
  run_visits [] s = record { attempts = []; server = s }
  run_visits (v ∷ before) s = (first_frame hash window v (run_visits before s)).1

  -- What a visit adds to a number of tries.
  unfoldable count_try : String → ℕ → Visit → Answer → ℕ → ℕ
  unfolding tried
  count_try ip now v answer rest =
      if in_window window ip now (origin v) && tried answer then suc rest else rest

  -- How many visits of the address in the window before `now` were tried.
  unfoldable pub tries : String → ℕ → List Visit → GatewayServer → ℕ
  unfolding run_visits first_frame count_try
  tries ip now [] s = 0
  tries ip now (v ∷ before) s =
      count_try ip now v (first_frame hash window v (run_visits before s)).0 (tries ip now before s)

  attempt-attempts :
      (v : Visit) (f : FirstFrame) (d : Door)
      → (attempt hash window v f d).1.attempts
        ≡ (auth_rate_limited window (peer_ip v.peer) v.clock d.attempts).1
  unfolding attempt
  attempt-attempts v f d = ground arith

  attempt-refused :
      (v : Visit) (f : FirstFrame) (d : Door)
      → (auth_rate_limited window (peer_ip v.peer) v.clock d.attempts).0 ≡ true
      → tried (attempt hash window v f d).0 ≡ false
  unfolding attempt tried
  attempt-refused v f d limited = rw limited refl

  turn-attempts :
      (v : Visit) (o : Option FirstFrame) (us : List (String × ℕ)) (d : Door)
      → d.attempts ≡ run_attempts window us
      → (turn hash window v o d).1.attempts ≡ run_attempts window (add_attempt v o us)
  unfolding turn run_attempts
  turn-attempts v none us d same = same
  turn-attempts v (some (other id)) us d same = same
  turn-attempts v (some f) us d same =
      attempt-attempts v f d
      ∙ ap (λ a. (auth_rate_limited window (peer_ip v.peer) v.clock a).1) same

  run_visits-attempts :
      (vs : List Visit) (s : GatewayServer)
      → (run_visits vs s).attempts ≡ run_attempts window (attempts_by vs)
  unfolding run_visits first_frame attempts_by run_attempts
  run_visits-attempts [] s = refl
  run_visits-attempts (v ∷ before) s =
      turn-attempts v v.frame (attempts_by before) (run_visits before s)
        (run_visits-attempts before s)

  tried-few :
      (v : Visit) (f : FirstFrame) (us : List (String × ℕ)) (d : Door)
      → d.attempts ≡ run_attempts window us
      → IsOrdered v.clock us
      → tried (attempt hash window v f d).0 ≡ true
      → leb attempts_per_window (count_where (in_window window (peer_ip v.peer) v.clock) us) ≡ false
  tried-few v f us d same o passed =
      elim (Bool-cases (auth_rate_limited window (peer_ip v.peer) v.clock d.attempts).0) [
        | inl limited ↦ absurd (cc (passed, attempt-refused v f d limited))
        | inr open_still ↦
            sym (auth_rate_limited_iff window us (peer_ip v.peer) v.clock o)
            ∙ ap (λ a. (auth_rate_limited window (peer_ip v.peer) v.clock a).0) (sym same)
            ∙ open_still
      ]

  count-narrows :
      (ip : String) (t now : ℕ) (us : List (String × ℕ))
      → t ≤ now
      → count_where (in_window window ip now) us ≤ count_where (in_window window ip t) us
  unfolding count_where
  count-narrows ip t now [] le = omega arith
  count-narrows ip t now ((k, u) ∷ us) le = ground (arith, le, count-narrows ip t now us le)

  count_try-le_next :
      (ip : String) (now : ℕ) (v : Visit) (answer : Answer) (us : List (String × ℕ)) (rest : ℕ)
      → rest ≤ count_where (in_window window ip now) us
      → count_try ip now v answer rest ≤ count_where (in_window window ip now) (origin v ∷ us)
  unfolding count_try count_where
  count_try-le_next ip now v answer us rest le =
      elim (Bool-cases (in_window window ip now (origin v))) [
        | inl inside ↦ elim (Bool-cases (tried answer)) [
          | inl t ↦ rw (inside, t) (omega (arith, le))
          | inr t ↦ rw (inside, t) (omega (arith, le))
        ]
        | inr outside ↦ rw outside (omega (arith, le))
      ]

  count_try-le_attempts :
      (ip : String) (now : ℕ) (v : Visit) (o : Option FirstFrame) (us : List (String × ℕ))
      (d : Door) (rest : ℕ)
      → rest ≤ count_where (in_window window ip now) us
      → count_try ip now v (turn hash window v o d).0 rest
        ≤ count_where (in_window window ip now) (add_attempt v o us)
  unfolding count_try turn tried count_where
  count_try-le_attempts ip now v none us d rest le = ground (arith, le)
  count_try-le_attempts ip now v (some (other id)) us d rest le = ground (arith, le)
  count_try-le_attempts ip now v (some f) us d rest le =
      count_try-le_next ip now v (attempt hash window v f d).0 us rest le

  in_window-ip :
      (ip : String) (now : ℕ) (v : Visit)
      → in_window window ip now (origin v) ≡ true
      → peer_ip v.peer ≡ ip
  in_window-ip ip now v inside = (str_eq_iff (peer_ip v.peer) ip).0 (ground (arith, inside))

  count_try-le :
      (ip : String) (now : ℕ) (v : Visit) (f : FirstFrame) (us : List (String × ℕ)) (d : Door)
      (rest : ℕ)
      → d.attempts ≡ run_attempts window us
      → IsOrdered now (origin v ∷ us)
      → rest ≤ count_where (in_window window ip now) us
      → rest ≤ attempts_per_window
      → count_try ip now v (attempt hash window v f d).0 rest ≤ attempts_per_window
  unfolding count_try
  count_try-le ip now v f us d rest same o le few =
      elim (Bool-cases (in_window window ip now (origin v))) [
        | inl inside ↦ elim (Bool-cases (tried (attempt hash window v f d).0)) [
          | inl t ↦
              let few' = tried-few v f us d same o.1 t in
              let more = count-narrows ip v.clock now us o.0 in
              let here =
                ap (λ k. count_where (in_window window k v.clock) us)
                  (in_window-ip ip now v inside) in
              rw (inside, t) (ground (arith, le, few', more, here))
          | inr t ↦ rw (inside, t) few
        ]
        | inr outside ↦ rw outside few
      ]

  tries-le_attempts :
      (ip : String) (now : ℕ) (vs : List Visit) (s : GatewayServer)
      → tries ip now vs s ≤ count_where (in_window window ip now) (attempts_by vs)
  unfolding tries attempts_by first_frame
  tries-le_attempts ip now [] s = omega arith
  tries-le_attempts ip now (v ∷ before) s =
      count_try-le_attempts ip now v v.frame (attempts_by before) (run_visits before s)
        (tries ip now before s) (tries-le_attempts ip now before s)

  turn-le :
      (ip : String) (now : ℕ) (v : Visit) (o : Option FirstFrame) (us : List (String × ℕ))
      (d : Door) (rest : ℕ)
      → d.attempts ≡ run_attempts window us
      → IsOrdered now (add_attempt v o us)
      → rest ≤ count_where (in_window window ip now) us
      → (IsOrdered now us → rest ≤ attempts_per_window)
      → count_try ip now v (turn hash window v o d).0 rest ≤ attempts_per_window
  unfolding count_try turn tried
  turn-le ip now v none us d rest same o le few = ground (arith, few o)
  turn-le ip now v (some (other id)) us d rest same o le few = ground (arith, few o)
  turn-le ip now v (some f) us d rest same o le few =
      count_try-le ip now v f us d rest same o le
        (few (IsOrdered-later window v.clock now us o.0 o.1))

  tries-few :
      (ip : String) (now : ℕ) (vs : List Visit) (s : GatewayServer)
      → IsOrdered now (attempts_by vs)
      → tries ip now vs s ≤ attempts_per_window
  unfolding tries attempts_by first_frame
  tries-few ip now [] s o = omega arith
  tries-few ip now (v ∷ before) s o =
      turn-le ip now v v.frame (attempts_by before) (run_visits before s) (tries ip now before s)
        (run_visits-attempts before s) o (tries-le_attempts ip now before s)
        (λ later. tries-few ip now before s later)

  -- Whatever first frames came so far, if the clock did not go back between the attempts among
  -- them, at most twenty of one address in the window before `now` were tried; and a next one that
  -- is not admitted leaves the tables, the connections and their handlers as they were.
  pub tries-le :
      (ip : String) (now : ℕ) (vs : List Visit) (s : GatewayServer)
      → IsOrdered now (attempts_by vs)
      → (tries ip now vs s ≤ attempts_per_window)
        × ((v : Visit)
            → admits (first_frame hash window v (run_visits vs s)).0 ≡ false
            → (first_frame hash window v (run_visits vs s)).1.server ≡ (run_visits vs s).server)
  unfolding first_frame
  tries-le ip now vs s o = (
    tries-few ip now vs s o,
    λ v refused'. turn-keeps hash window v v.frame (run_visits vs s) refused',
  )
