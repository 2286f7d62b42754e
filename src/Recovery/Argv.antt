-- ===== src/Recovery/Argv.antt =====
-- The defence against reused pids in marlinspike/recovery.py: when a live process is taken for the
-- engine that was started.
use net_discover.Prelude.{
  ℕ, String, List, [], ◌∷◌, some, Bool, true, false, ◌&&◌, not, ◌≡◌, ◌≢◌, ◌↔◌, refl, arith,
  str_eq_iff, keep, any, contains, Bool-cases, inl, inr,
}
use net_discover.Runs.Row.{ScanHistory, encoded}
use net_discover.Runs.Store.{load_argv}
use net_discover.Recovery.Liveness.{
  linux, is_empty, tail, is_path_token, path_tokens, live_argv_matches, pid_argv_matches,
}
use net_discover.Recovery.Reaper.{World, engine_alive}

contains-keep :
    (p : String → Bool) (t : String) (xs : List String)
    → contains t (keep p xs) ≡ (contains t xs && p t)
unfolding contains keep
contains-keep p t [] = refl
contains-keep p t (x ∷ xs) = ground (arith, str_eq_iff t x, contains-keep p t xs)

any-true :
    (p : String → Bool) (xs : List String)
    → any p xs ≡ true
    → (t : String) × (contains t xs ≡ true) × (p t ≡ true)
unfolding any contains
any-true p [] h = absurd (ground arith)
any-true p (x ∷ xs) h = elim (Bool-cases (p x)) [
  | inl here ↦ (x, ground (arith, str_eq_iff x x), here)
  | inr miss ↦ let (t, found, ok) = any-true p xs (ground arith) in (t, ground arith, ok)
]

any-of-contains :
    (p : String → Bool) (t : String) (xs : List String)
    → contains t xs ≡ true
    → p t ≡ true
    → any p xs ≡ true
unfolding any contains
any-of-contains p t [] h ok = absurd (ground arith)
any-of-contains p t (x ∷ xs) h ok = ground (arith, str_eq_iff t x, any-of-contains p t xs)

-- The two command lines share a path argument of the saved one, as a whole element.
abbrev pub SharesPath : List String → List String → Type 0
SharesPath actual expected =
    (t : String) × (contains t actual ≡ true)
    × (contains t (tail expected) ≡ true)
    × (is_path_token t ≡ true)

-- If the saved command line has a path argument, the live process is taken for the engine exactly
-- if one of those path arguments is a whole element of its own command line.
pub live_argv_matches_iff :
    (actual expected : List String)
    → path_tokens expected ≢ []
    → (live_argv_matches actual expected ≡ true) ↔ SharesPath actual expected
unfolding live_argv_matches path_tokens contains
live_argv_matches_iff [] expected some_path =
    (λ h. absurd (ground arith), λ (t, here, _, _). absurd (ground arith))
live_argv_matches_iff (a ∷ as') [] some_path = absurd (some_path refl)
live_argv_matches_iff (a ∷ as') (e ∷ es) some_path = (there, back)
  where
    there : live_argv_matches (a ∷ as') (e ∷ es) ≡ true → SharesPath (a ∷ as') (e ∷ es)
    there h =
        let (t, kept, here) =
          any-true (λ t. contains t (a ∷ as')) (keep is_path_token es) (ground arith) in
        (
          t,
          here,
          ground (arith, contains-keep is_path_token t es),
          ground (arith, contains-keep is_path_token t es),
        )

    back : SharesPath (a ∷ as') (e ∷ es) → live_argv_matches (a ∷ as') (e ∷ es) ≡ true
    back (t, here, saved, path) = ground (
      arith,
      contains-keep is_path_token t es,
      any-of-contains (λ t. contains t (a ∷ as')) t (keep is_path_token es),
    )

-- A process that reuses the pid of an engine, and has none of the engine's path arguments as an
-- element of its command line, is not taken for the engine (on Linux, for a saved command line with
-- a path argument, as that of every scan has).
pub engine_alive-reused_pid :
    (w : World) (r : ScanHistory) (pid : ℕ) (e : String) (es raw : List String)
    → w.os.platform ≡ linux
    → r.engine_pid ≡ some pid
    → r.engine_argv ≡ some (encoded (e ∷ es))
    → path_tokens (e ∷ es) ≢ []
    → w.os.proc_cmdline pid ≡ some raw
    → ¬ SharesPath (keep (λ a. not (is_empty a)) raw) (e ∷ es)
    → engine_alive w r ≡ false
unfolding engine_alive pid_argv_matches load_argv
engine_alive-reused_pid w r pid e es raw on_linux pid_is argv some_path cmdline apart =
    elim (Bool-cases (live_argv_matches (keep (λ a. not (is_empty a)) raw) (e ∷ es))) [
      | inl match ↦ absurd (
          apart
            ((live_argv_matches_iff (keep (λ a. not (is_empty a)) raw) (e ∷ es) some_path).0 match))
      | inr miss ↦ ground arith
    ]
