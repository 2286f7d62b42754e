-- ===== src/Upload/Disk.antt =====
-- The files that marlinspike/fleet/gateway/server.py writes: names, and the files they stand for, so
-- that an open handle keeps its file when the name is moved or removed. A byte is a number.
use net_discover.Prelude.{
  ℕ, suc, zero, List, [], ◌∷◌, Option, none, some, Bool, true, false, ◌&&◌, ◌==◌, if◌then◌else◌,
  find_where, delete_where,
}

abbrev pub FilePath : Type 0
FilePath = List ℕ

unfoldable pub path_eq : FilePath → FilePath → Bool
path_eq [] [] = true
path_eq [] (d ∷ ds) = false
path_eq (c ∷ cs) [] = false
path_eq (c ∷ cs) (d ∷ ds) = c == d && path_eq cs ds

pub record FileStore : Type 0 where
  pub names : List (FilePath × ℕ)
  pub contents : ℕ → List ℕ
  pub next : ℕ

abbrev pub is_named : FilePath → FilePath × ℕ → Bool
is_named p e = path_eq e.0 p

unfoldable pub file_of : FilePath → FileStore → Option ℕ
unfolding find_where path_eq
file_of p d = elim (find_where (is_named p) d.names) [ none ↦ none | some (q, n) ↦ some n ]

-- What a reader of the path finds.
unfoldable pub read_file : FilePath → FileStore → Option (List ℕ)
unfolding file_of
read_file p d = elim (file_of p d) [ none ↦ none | some n ↦ some (d.contents n) ]

unfoldable pub set_contents : ℕ → List ℕ → FileStore → FileStore
set_contents n bytes d = record d { contents = λ k. if k == n then bytes else d.contents k }

-- `open(path, "r+b" if os.path.exists(path) else "w+b")`: a file that exists keeps its bytes.
unfoldable pub open_file : FilePath → FileStore → ℕ × FileStore
unfolding file_of set_contents
open_file p d = elim (file_of p d) [
  | some n ↦ (n, d)
  | none ↦ (
    d.next,
    set_contents d.next [] (record d { names = (p, d.next) ∷ d.names; next = suc d.next }),
  )
]

-- `os.remove`, whose error where there is no such name is caught.
unfoldable pub remove_file : FilePath → FileStore → FileStore
unfolding delete_where path_eq
remove_file p d = record d { names = delete_where (is_named p) d.names }

-- `os.replace`; `none` is its error where there is no such name.
unfoldable pub replace_file : FilePath → FilePath → FileStore → Option FileStore
unfolding file_of remove_file
replace_file p q d = elim (file_of p d) [
  | none ↦ none
  | some n ↦ some (record d { names = (q, n) ∷ (remove_file q (remove_file p d)).names })
]

unfoldable pub overlay : List ℕ → List ℕ → List ℕ
overlay [] xs = xs
overlay (b ∷ bs) [] = b ∷ bs
overlay (b ∷ bs) (x ∷ xs) = b ∷ overlay bs xs

-- `seek` and `write`: a gap is filled with zeros, and nothing is written where there are no bytes.
unfoldable pub write_at : ℕ → List ℕ → List ℕ → List ℕ
unfolding overlay
write_at n [] xs = xs
write_at zero (b ∷ bs) xs = overlay (b ∷ bs) xs
write_at (suc n) (b ∷ bs) [] = 0 ∷ write_at n (b ∷ bs) []
write_at (suc n) (b ∷ bs) (x ∷ xs) = x ∷ write_at n (b ∷ bs) xs

unfoldable pub write_file : ℕ → ℕ → List ℕ → FileStore → FileStore
unfolding set_contents write_at
write_file n offset bytes d = set_contents n (write_at offset bytes (d.contents n)) d
