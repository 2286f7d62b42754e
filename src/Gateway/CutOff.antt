-- ===== src/Gateway/CutOff.antt =====
-- How long a revoked agent is heard, in marlinspike/fleet/gateway/server.py.
use net_discover.Prelude.{
  ℕ, ◌+◌, ◌≤◌, ◌<◌, String, List, [], ◌∷◌, Option, none, some, Bool, true, false, ◌≡◌, refl, arith,
  All, Bool-cases, inl, inr, dec_lt,
}
use net_discover.Gateway.Frames.{
  Frame, res, event, heartbeat, request, other, AgentConnection, new_agent_connection,
  is_interval_over, beat_actions, handle_frame, went_on, FrameTurn, stop, go_on, checked,
  serve_frame, serve,
}

module _ (interval since : ℕ) (revoked : ℕ → Bool)
    (is_revoked : (t : ℕ) → since ≤ t → revoked t ≡ true) where
  -- The last check found the agent not revoked.
  abbrev LastBefore : Option ℕ → Type 0
  LastBefore none = Unit
  LastBefore (some t) = t < since

  handle_frame-last :
      (now : ℕ) (f : Frame) (c : AgentConnection)
      → (handle_frame interval now f c).1.last_revocation_check ≡ c.last_revocation_check
  unfolding handle_frame beat_actions
  handle_frame-last now (res k r) c = refl
  handle_frame-last now event c = refl
  handle_frame-last now (heartbeat k) c = ground arith
  handle_frame-last now (request k) c = refl
  handle_frame-last now other c = refl

  passed : (now : ℕ) → revoked now ≡ false → now < since
  passed now free = elim (dec_lt now since) [
    | yes early ↦ early
    | no late ↦ absurd (ground (arith, late, free, is_revoked now))
  ]

  not_due :
      (now : ℕ) (last : Option ℕ)
      → LastBefore last
      → is_interval_over interval now last ≡ false
      → now < since + interval
  not_due now none l due = absurd (ground (arith, due))
  not_due now (some t) l due = ground (arith, l, due)

  -- The turn of a frame that was handled.
  abbrev IsInTime : ℕ → FrameTurn → Type 0
  IsInTime now (stop actions) = Unit
  IsInTime now (go_on actions d) = (now < since + interval) × LastBefore d.last_revocation_check

  serve_frame-IsInTime :
      (now : ℕ) (f : Frame) (c : AgentConnection)
      → LastBefore c.last_revocation_check
      → IsInTime now (serve_frame interval now (revoked now) f c)
  unfolding serve_frame went_on
  serve_frame-IsInTime now f c l =
      elim (Bool-cases (is_interval_over interval now c.last_revocation_check)) [
        | inr early ↦
            rw (serve_frame, early)
              (not_due now c.last_revocation_check l early, rw (handle_frame-last now f c) l)
        | inl due ↦ elim (Bool-cases (revoked now)) [
          | inl out ↦ rw (serve_frame, due, out) tt
          | inr free ↦
              rw (serve_frame, due, free)
                (
                  omega (arith, passed now free),
                  rw (handle_frame-last now f (checked interval now c)) (passed now free),
                )
        ]
      ]

  serve-All :
      (frames : List (ℕ × Frame)) (c : AgentConnection)
      → LastBefore c.last_revocation_check
      → All (λ t. t < since + interval) (serve interval revoked frames c)
  unfolding serve
  serve-All [] c l = tt
  serve-All ((now, f) ∷ rest) c l =
      go (serve_frame interval now (revoked now) f c) (serve_frame-IsInTime now f c l)
        (λ d k. serve-All rest d k)
    where
      go :
          (turn : FrameTurn)
          → IsInTime now turn
          → ((d : AgentConnection)
              → LastBefore d.last_revocation_check
              → All (λ t. t < since + interval) (serve interval revoked rest d))
          → All
              (λ t. t < since + interval)
              (elim turn as (λ _. List ℕ) [
                | stop actions ↦ []
                | go_on actions d ↦ now ∷ serve interval revoked rest d
              ])
      go (stop actions) i later = tt
      go (go_on actions d) i later = (i.0, later d i.1)

  -- Whatever frames an agent sends, and however fast, none that is read an interval or more after it
  -- was revoked is handled.
  pub serve-cut_off :
      (u : String) (frames : List (ℕ × Frame))
      → All (λ t. t < since + interval) (serve interval revoked frames (new_agent_connection u))
  unfolding new_agent_connection
  serve-cut_off u frames = serve-All frames (new_agent_connection u) tt
