-- ===== src/Capd/Supervisor/Losses.antt =====
-- The count of capture files that dumpcap's ring evicted before a poll saw them, in _snapshot of
-- marlinspike-capd/capd/supervisor.py.
use net_discover.Prelude.{
  ℕ, zero, suc, ◌+◌, ◌-◌, ◌≤◌, List, [], ◌∷◌, Bool, ◌≡◌, refl, arith, ltb, min, max, count_where,
}
use net_discover.Capd.FileNames.{sorted}
use net_discover.Capd.Supervisor.Snapshot.{
  Sight, Tracker, new_tracker, seqs_of, min_of, max_of, account, snapshot,
}
use net_discover.Capd.Supervisor.Closing.{Poll, run_polls}

-- The sequence numbers lo, lo + 1, …, `n` of them: what a ring holds on disk.
abbrev pub window : ℕ → ℕ → List ℕ
window lo zero = []
window lo (suc n) = lo ∷ window (suc lo) n

min_of-window : (m lo n : ℕ) → m ≤ lo → min_of m (window lo n) ≡ m
unfolding min_of
min_of-window m lo zero h = refl
min_of-window m lo (suc n) h = ground (arith, min_of-window (min m lo) (suc lo) n)

max_of-window : (m n : ℕ) → max_of m (window (suc m) n) ≡ m + n
unfolding max_of
max_of-window m zero = omega arith
max_of-window m (suc n) =
    let e : max m (suc m) ≡ suc m = omega arith in
    rw (e, max_of) (omega (arith, max_of-window (suc m) n))

-- The numbers of a window above `h`.
count-window :
    (h lo n : ℕ) → count_where (ltb h) (window lo n) ≡ lo + n - max lo (min (h + 1) (lo + n))
unfolding count_where
count-window h lo zero = omega arith
count-window h lo (suc n) = ground (arith, count-window h (suc lo) n)

-- The numbers on disk that no earlier poll had reached.
abbrev pub newly_seen : Sight → Tracker → ℕ
newly_seen s t = count_where (ltb t.highest_seq_accounted_for) (seqs_of (sorted s.names))

-- The files on disk are a window of the ring: in the text order of the names their sequence numbers
-- are consecutive, at least one of them, and the last is no lower than an earlier poll had reached.
pub record IsWindow (s : Sight) (t : Tracker) : Type 0 where
  pub lo : ℕ
  pub more : ℕ
  pub consecutive : seqs_of (sorted s.names) ≡ window lo (suc more)
  pub forward : t.highest_seq_accounted_for ≤ lo + more

-- A poll moves the highest number accounted for by exactly the files it sees for the first time and
-- those it counts as lost, where the disk holds a window of the ring.
pub snapshot-accounts :
    (running finalize : Bool) (s : Sight) (t : Tracker)
    → IsWindow s t
    → let after = (snapshot running finalize s t).1 in
      after.highest_seq_accounted_for + t.files_lost_count
      ≡ t.highest_seq_accounted_for + newly_seen s t + after.files_lost_count
unfolding snapshot account
snapshot-accounts running finalize s t w = ground (
  arith,
  w.consecutive,
  w.forward,
  min_of-window w.lo (suc w.lo) w.more,
  max_of-window w.lo w.more,
  count-window t.highest_seq_accounted_for w.lo (suc w.more),
)

-- Each poll of a series sees a window of the ring.
abbrev pub SeesWindows : List Poll → Tracker → Type 0
SeesWindows [] t = Unit
SeesWindows (p ∷ ps) t =
    IsWindow p.sight t × SeesWindows ps (snapshot p.running p.finalize p.sight t).1

-- How many files the polls saw, each counted at the first poll that reached it.
abbrev pub seen_by : List Poll → Tracker → ℕ
seen_by [] t = 0
seen_by (p ∷ ps) t = newly_seen p.sight t + seen_by ps (snapshot p.running p.finalize p.sight t).1

run_polls-accounts_from :
    (ps : List Poll) (t : Tracker)
    → SeesWindows ps t
    → (run_polls ps t).1.highest_seq_accounted_for + t.files_lost_count
      ≡ t.highest_seq_accounted_for + seen_by ps t + (run_polls ps t).1.files_lost_count
unfolding run_polls
run_polls-accounts_from [] t w = omega arith
run_polls-accounts_from (p ∷ ps) t w = omega (
  arith,
  snapshot-accounts p.running p.finalize p.sight t w.0,
  run_polls-accounts_from ps (snapshot p.running p.finalize p.sight t).1 w.1,
)

-- If every poll of a series lists files whose sequence numbers, in the text order of the names, are
-- a nonempty run of consecutive numbers that ends no lower than the highest before it, then the
-- highest number in the end is the number of files seen plus that of those counted as lost. A gap
-- within one listing, a listing of no file and the change to six digits are outside of this.
pub run_polls-accounts :
    (ps : List Poll)
    → SeesWindows ps new_tracker
    → (run_polls ps new_tracker).1.highest_seq_accounted_for
      ≡ seen_by ps new_tracker + (run_polls ps new_tracker).1.files_lost_count
run_polls-accounts ps w = omega (arith, run_polls-accounts_from ps new_tracker w)
