-- ===== src/Recovery/Liveness.antt =====
-- pid_alive, pid_argv_matches and _live_argv_matches of marlinspike/recovery.py. What the
-- operating system answers is data: the outcome of `os.kill`, of reading /proc and of `ps`.
use Prim.Native.Char.{code}
use net_discover.Prelude.{
  ℕ, String, List, [], ◌∷◌, Option, none, some, Bool, true, false, ◌&&◌, ◌==◌, not, if◌then◌else◌,
  keep, any, contains,
}

-- What `os.kill(pid, 0)` does: it returns, or raises.
pub data KillOutcome : Type 0 where
  signalled process_lookup_error permission_error os_error : KillOutcome

pub data Platform : Type 0 where
  linux darwin other : Platform

-- `ps -p <pid> -o command=`: it could not run, or ended with a code and the words of its output.
pub data PsOutcome : Type 0 where
  unavailable : PsOutcome
  exited : ℕ → List String → PsOutcome

pub record Os : Type 0 where
  pub platform : Platform
  pub kill : ℕ → KillOutcome
  -- The elements of /proc/<pid>/cmdline between its NULs; `none` where it cannot be read.
  pub proc_cmdline : ℕ → Option (List String)
  pub ps : ℕ → PsOutcome

unfoldable pub pid_alive : Os → Option ℕ → Bool
pid_alive os none = false
pid_alive os (some pid) =
    if pid == 0
    then false
    else elim (os.kill pid) [ signalled ↦ true | permission_error ↦ true | _ ↦ false ]

abbrev pub is_empty : String → Bool
is_empty String.[] = true
is_empty _ = false

unfoldable pub has_slash : String → Bool
has_slash String.[] = false
has_slash (String.◌∷◌ c s) = let rest = has_slash s in if code c == b'/' then true else rest

-- `token.startswith("-")`
unfoldable pub is_flag : String → Bool
is_flag String.[] = false
is_flag (String.◌∷◌ c s) = code c == b'-'

abbrev pub tail : List String → List String
tail [] = []
tail (x ∷ xs) = xs

unfoldable pub is_plain : String → Bool
unfolding is_flag
is_plain t = not (is_empty t) && not (is_flag t)

unfoldable pub is_path_token : String → Bool
unfolding is_plain has_slash
is_path_token t = is_plain t && has_slash t

unfoldable pub path_tokens : List String → List String
unfolding is_path_token keep
path_tokens expected = keep is_path_token (tail expected)

-- The loop for an `expected` that has no path token.
unfoldable pub some_plain_token : List String → List String → Bool
unfolding is_plain contains any
some_plain_token actual expected = any (λ t. is_plain t && contains t actual) (tail expected)

unfoldable pub live_argv_matches : List String → List String → Bool
unfolding path_tokens some_plain_token
live_argv_matches [] expected = false
live_argv_matches (a ∷ as') [] = false
live_argv_matches (a ∷ as') (e ∷ es) = elim (path_tokens (e ∷ es)) [
  | [] ↦ some_plain_token (a ∷ as') (e ∷ es)
  | p ∷ ps ↦ any (λ t. contains t (a ∷ as')) (p ∷ ps)
]

unfoldable pub pid_argv_matches : Os → ℕ → Option (List String) → Bool
unfolding live_argv_matches
pid_argv_matches os pid none = true
pid_argv_matches os pid (some []) = true
pid_argv_matches os pid (some (e ∷ es)) = elim os.platform [
  | linux ↦ elim (os.proc_cmdline pid) [
    | none ↦ false
    | some raw ↦ live_argv_matches (keep (λ a. not (is_empty a)) raw) (e ∷ es)
  ]
  | darwin ↦ elim (os.ps pid) [
    | unavailable ↦ false
    | exited rc words ↦
        if rc == 0
        then elim words [ [] ↦ false | w ∷ ws ↦ live_argv_matches (w ∷ ws) (e ∷ es) ]
        else false
  ]
  | other ↦ true
]
