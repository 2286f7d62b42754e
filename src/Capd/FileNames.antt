-- ===== src/Capd/FileNames.antt =====
-- The names of capture files in marlinspike-capd/capd/supervisor.py: _seq_of, and `sorted`.
use Prim.Native.Char.{code}
use Prim.Native.Nat.{Ordering}
use Prim.Native.String.{compare}
use net_discover.Prelude.{
  ℕ, ◌+◌, ◌-◌, ◌*◌, String, List, [], ◌∷◌, Option, none, some, Bool, true, false, ◌&&◌, ◌||◌, ◌==◌,
  leb, if◌then◌else◌,
}

-- The code points of a text.
abbrev pub codes : String → List ℕ
codes String.[] = []
codes (String.◌∷◌ c s) = code c ∷ codes s

unfoldable pub has_code : ℕ → List ℕ → Bool
has_code c [] = false
has_code c (x ∷ xs) = x == c || has_code c xs

-- `os.path.basename`: what follows the last slash.
unfoldable pub basename : List ℕ → List ℕ
unfolding has_code
basename [] = []
basename (c ∷ cs) = let rest = basename cs in if has_code b'/' (c ∷ cs) then rest else c ∷ cs

abbrev pub is_digit : ℕ → Bool
is_digit c = leb b'0' c && leb c b'9'

-- `\d+_` behind digits that were read already, at least one of them if `some_digit`.
unfoldable pub digits_then_underscore : Bool → ℕ → List ℕ → Option ℕ
digits_then_underscore some_digit acc [] = none
digits_then_underscore some_digit acc (c ∷ cs) =
    let more = digits_then_underscore true (acc * 10 + (c - b'0')) cs in
    if is_digit c then more else if some_digit && c == b'_' then some acc else none

-- `cap_(\d+)_` at the start of the text.
unfoldable pub match_seq : List ℕ → Option ℕ
unfolding digits_then_underscore
match_seq (c ∷ a ∷ p ∷ u ∷ rest) =
    if (c == b'c' && a == b'a') && (p == b'p' && u == b'_')
    then digits_then_underscore false 0 rest
    else none
match_seq _ = none

-- `_SEQ_RE.search`: the first place where the pattern matches.
unfoldable pub search_seq : List ℕ → Option ℕ
unfolding match_seq
search_seq [] = none
search_seq (c ∷ cs) =
    let rest = search_seq cs in elim (match_seq (c ∷ cs)) [ some n ↦ some n | none ↦ rest ]

unfoldable pub seq_of : String → Option ℕ
unfolding search_seq basename
seq_of path = search_seq (basename (codes path))

-- Python's order of texts.
abbrev pub text_leb : String → String → Bool
text_leb s t = elim (compare s t) [ Ordering.gt ↦ false | _ ↦ true ]

unfoldable pub insert_sorted : String → List String → List String
insert_sorted x [] = x ∷ []
insert_sorted x (y ∷ ys) = if text_leb x y then x ∷ y ∷ ys else y ∷ insert_sorted x ys

-- `sorted(names)`
unfoldable pub sorted : List String → List String
unfolding insert_sorted
sorted [] = []
sorted (x ∷ xs) = insert_sorted x (sorted xs)

-- `files[-1] if files else None`
unfoldable pub last : List String → Option String
last [] = none
last (x ∷ []) = some x
last (x ∷ y ∷ ys) = last (y ∷ ys)
