-- ===== src/Gateway/Limiter.antt =====
-- The limit on attempts to enrol or authenticate: _auth_rate_limited of
-- marlinspike/fleet/gateway/server.py, against the list of all attempts. A time is a number of the
-- clock's ticks, `window` of which are _AUTH_WINDOW_S.
use net_discover.Prelude.{
  ℕ, ◌+◌, ◌≤◌, String, List, [], ◌∷◌, ◌++◌, Bool, ◌&&◌, ltb, if◌then◌else◌, str_eq, length, any,
  keep,
}

-- _AUTH_ATTEMPTS_PER_WINDOW
abbrev pub attempts_per_window : ℕ
attempts_per_window = 20

abbrev pub Attempts : Type 0
Attempts = List (String × List ℕ)

unfoldable pub attempts_of : String → Attempts → List ℕ
attempts_of ip [] = []
attempts_of ip ((k, ts) ∷ rest) = if str_eq k ip then ts else attempts_of ip rest

unfoldable pub set_attempts : String → List ℕ → Attempts → Attempts
set_attempts ip ts [] = (ip, ts) ∷ []
set_attempts ip ts ((k, us) ∷ rest) =
    if str_eq k ip then (k, ts) ∷ rest else (k, us) ∷ set_attempts ip ts rest

-- The clock does not go back.
abbrev pub IsOrdered : ℕ → List (String × ℕ) → Type 0
IsOrdered now [] = Unit
IsOrdered now ((ip, t) ∷ before) = (t ≤ now) × IsOrdered t before

module _ (window : ℕ) where
  -- `now - t < _AUTH_WINDOW_S`
  abbrev pub is_fresh : ℕ → ℕ → Bool
  is_fresh now t = ltb now (t + window)

  -- The windows of the other addresses go once there are many and all their attempts are old.
  unfoldable pub prune : ℕ → Attempts → Attempts
  unfolding keep any
  prune now a = if ltb 10_000 (length a) then keep (λ e. any (is_fresh now) e.1) a else a

  unfoldable pub auth_rate_limited : String → ℕ → Attempts → Bool × Attempts
  unfolding keep set_attempts attempts_of prune
  auth_rate_limited ip now a =
      let attempts = keep (is_fresh now) (attempts_of ip a) ++ now ∷ [] in
      (ltb attempts_per_window (length attempts), prune now (set_attempts ip attempts a))

  -- The attempts so far, the last first: who made them, and when.
  unfoldable pub run_attempts : List (String × ℕ) → Attempts
  unfolding auth_rate_limited
  run_attempts [] = []
  run_attempts ((ip, now) ∷ before) = (auth_rate_limited ip now (run_attempts before)).1

  -- The attempts of one address that are in the window.
  abbrev pub in_window : String → ℕ → String × ℕ → Bool
  in_window ip now e = str_eq e.0 ip && is_fresh now e.1
