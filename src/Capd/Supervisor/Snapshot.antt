-- ===== src/Capd/Supervisor/Snapshot.antt =====
-- _snapshot of marlinspike-capd/capd/supervisor.py. Times are ticks of a clock, and a rate is a
-- fraction of bytes by ticks.
use net_discover.Prelude.{
  ℕ, ◌+◌, ◌-◌, String, List, [], ◌∷◌, ◌++◌, Option, none, some, Bool, true, false, ◌&&◌, not, min,
  max, if◌then◌else◌, str_eq, ltb, contains, length,
}
use net_discover.Capd.FileNames.{seq_of, sorted, last}

-- What one poll sees: the matches of `glob`, which of them chmod accepts, their sizes (`none`: the
-- file is gone), and the clock.
pub record Sight : Type 0 where
  pub names : List String
  pub chmod_ok : String → Bool
  pub size : String → Option ℕ
  pub now : ℕ

-- The fields that `_snapshot` reads and writes.
pub record Tracker : Type 0 where
  pub previous_active : Option String
  pub closed_emitted : List String
  pub chmod_done : List String
  pub highest_seq_accounted_for : ℕ
  pub files_lost_count : ℕ
  pub last_poll_ts : ℕ
  pub last_poll_bytes : ℕ

abbrev pub new_tracker : Tracker
new_tracker = record {
  previous_active = none;
  closed_emitted = [];
  chmod_done = [];
  highest_seq_accounted_for = 0;
  files_lost_count = 0;
  last_poll_ts = 0;
  last_poll_bytes = 0;
}

pub record Rate : Type 0 where
  pub bytes : ℕ
  pub ticks : ℕ

pub record CaptureStats : Type 0 where
  pub ts : ℕ
  pub bytes_total : ℕ
  pub bytes_per_sec : Rate
  pub current_file : Option String
  pub file_index : ℕ
  pub files_closed : List String
  pub is_running : Bool
  pub files_lost_count : ℕ

-- The files made readable; one that chmod refuses is tried again at the next poll.
unfoldable pub chmod_all : (String → Bool) → List String → List String → List String
chmod_all ok [] done = done
chmod_all ok (f ∷ fs) done =
    chmod_all ok fs (if not (contains f done) && ok f then f ∷ done else done)

unfoldable pub seqs_of : List String → List ℕ
seqs_of [] = []
seqs_of (f ∷ fs) = let rest = seqs_of fs in elim (seq_of f) [ none ↦ rest | some n ↦ n ∷ rest ]

unfoldable pub min_of : ℕ → List ℕ → ℕ
min_of m [] = m
min_of m (n ∷ ns) = min_of (min m n) ns

unfoldable pub max_of : ℕ → List ℕ → ℕ
max_of m [] = m
max_of m (n ∷ ns) = max_of (max m n) ns

-- The files that the ring evicted unseen, and the highest sequence number accounted for.
unfoldable pub account : List ℕ → ℕ → ℕ × ℕ
unfolding min_of max_of
account [] highest = (0, highest)
account (n ∷ ns) highest =
    let lowest = min_of n ns in
    (if ltb (highest + 1) lowest then lowest - highest - 1 else 0, max highest (max_of n ns))

-- The list `newly_closed`, and `_closed_emitted`.
pub record Emission : Type 0 where
  pub newly_closed : List String
  pub closed_emitted : List String

-- `if f not in self._closed_emitted: …append(f)` to both lists.
unfoldable pub emit : String → Emission → Emission
emit f e = if contains f e.closed_emitted then e else record {
  newly_closed = e.newly_closed ++ f ∷ [];
  closed_emitted = e.closed_emitted ++ f ∷ [];
}

abbrev pub same_file : Option String → Option String → Bool
same_file none none = true
same_file (some f) (some g) = str_eq f g
same_file _ _ = false

-- `if self._previous_active and self._previous_active != active`
unfoldable pub emit_previous : Option String → Option String → Emission → Emission
unfolding emit
emit_previous none active e = e
emit_previous (some f) active e = if same_file (some f) active then e else emit f e

-- The loop over the files on disk.
unfoldable pub emit_rotated : Option String → List String → Emission → Emission
unfolding emit
emit_rotated active [] e = e
emit_rotated active (f ∷ fs) e =
    emit_rotated active fs (if same_file (some f) active then e else emit f e)

-- `if finalize and active`
unfoldable pub emit_final : Bool → Option String → Emission → Emission
unfolding emit
emit_final true (some f) e = emit f e
emit_final true none e = e
emit_final false active e = e

unfoldable pub emissions : Bool → Option String → List String → Tracker → Emission
unfolding emit_previous emit_rotated emit_final
emissions finalize active files t = emit_final finalize active (
    emit_rotated active files (
      emit_previous t.previous_active active
        (record { newly_closed = []; closed_emitted = t.closed_emitted })))

unfoldable pub total_size : (String → Option ℕ) → List String → ℕ
total_size size [] = 0
total_size size (f ∷ fs) =
    (elim (size f) as (λ _. ℕ) [ none ↦ 0 | some n ↦ n ]) + total_size size fs

unfoldable pub byte_rate : ℕ → ℕ → Tracker → Rate
byte_rate now bytes_total t =
    if ltb 0 t.last_poll_ts && ltb t.last_poll_ts now
    then record { bytes = bytes_total - t.last_poll_bytes; ticks = now - t.last_poll_ts }
    else record { bytes = 0; ticks = 1 }

unfoldable pub snapshot : Bool → Bool → Sight → Tracker → CaptureStats × Tracker
unfolding chmod_all seqs_of account emissions total_size byte_rate sorted last
snapshot running finalize s t =
    let files = sorted s.names in
    let active = last files in
    let (gap, highest) = account (seqs_of files) t.highest_seq_accounted_for in
    let e = emissions finalize active files t in
    let bytes_total = total_size s.size files in
    let lost = t.files_lost_count + gap in
    (
      record {
        ts = s.now;
        bytes_total = bytes_total;
        bytes_per_sec = byte_rate s.now bytes_total t;
        current_file = active;
        file_index = length files;
        files_closed = e.newly_closed;
        is_running = running;
        files_lost_count = lost;
      },
      record {
        previous_active = active;
        closed_emitted = e.closed_emitted;
        chmod_done = chmod_all s.chmod_ok files t.chmod_done;
        highest_seq_accounted_for = highest;
        files_lost_count = lost;
        last_poll_ts = s.now;
        last_poll_bytes = bytes_total;
      },
    )
