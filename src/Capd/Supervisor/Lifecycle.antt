-- ===== src/Capd/Supervisor/Lifecycle.antt =====
-- What start, stop and poll of CaptureSupervisor (marlinspike-capd/capd/supervisor.py) keep to.
use net_discover.Prelude.{
  ℕ, ◌≤◌, String, List, [], ◌∷◌, ◌++◌, Option, none, some, Bool, true, false, ◌≡◌, ◌≢◌, refl, arith,
  length, length-append, length-drop, contains, Bool-cases, inl, inr,
}
use net_discover.Capd.FileNames.{codes, has_code}
use net_discover.Capd.Supervisor.Snapshot.{Sight, CaptureStats}
use net_discover.Capd.Supervisor.Process.{
  CaptureConfig, exited, Supervisor, Result, ok, Ending, is_alnum, drop_dashes, all_alnum,
  is_valid_session_id, new_supervisor, consume_line, consume_stderr, Summary, stop, poll,
}

drop_dashes-keeps :
    (c : ℕ) (cs : List ℕ)
    → c ≢ b'-'
    → c ≢ b'_'
    → has_code c cs ≡ true
    → has_code c (drop_dashes cs) ≡ true
unfolding drop_dashes has_code
drop_dashes-keeps c [] d u h = cc
drop_dashes-keeps c (x ∷ xs) d u h = ground (arith, drop_dashes-keeps c xs d u)

all_alnum-of :
    (other : ℕ → Bool) (c : ℕ) (cs : List ℕ)
    → has_code c cs ≡ true
    → all_alnum other cs ≡ true
    → is_alnum other c ≡ true
unfolding all_alnum has_code
all_alnum-of other c [] h a = cc
all_alnum-of other c (x ∷ xs) h a = ground (arith, all_alnum-of other c xs)

valid-excludes :
    (other : ℕ → Bool) (s : String) (c : ℕ)
    → is_valid_session_id other s ≡ true
    → c ≢ b'-'
    → c ≢ b'_'
    → is_alnum other c ≡ false
    → has_code c (codes s) ≡ false
unfolding is_valid_session_id has_code
valid-excludes other s c v d u bad = elim (Bool-cases (has_code c (codes s))) [
  | inr absent ↦ absent
  | inl present ↦ absurd (
      ground (
        arith,
        drop_dashes-keeps c (codes s) d u present,
        all_alnum-of other c (drop_dashes (codes s)),
      ))
]

valid-nonempty : (other : ℕ → Bool) (s : String) → is_valid_session_id other s ≡ true → codes s ≢ []
unfolding is_valid_session_id
valid-nonempty other s v e = ground arith

-- A supervisor is only made for a session id that is not empty and has no slash, no dot and no NUL
-- in it, so the capture directory named after it cannot leave the capture root.
new_supervisor-safe_id :
    (other : ℕ → Bool) (cfg : CaptureConfig) (found : Option String) {s : Supervisor}
    → new_supervisor other cfg found ≡ ok s
    → (codes cfg.session_id ≢ [])
      × (has_code b'/' (codes cfg.session_id) ≡ false)
      × (has_code b'.' (codes cfg.session_id) ≡ false)
      × (has_code 0 (codes cfg.session_id) ≡ false)
unfolding new_supervisor
new_supervisor-safe_id other cfg found made = (
  valid-nonempty other cfg.session_id valid,
  valid-excludes other cfg.session_id b'/' valid (omega arith) (omega arith) slash,
  valid-excludes other cfg.session_id b'.' valid (omega arith) (omega arith) dot,
  valid-excludes other cfg.session_id 0 valid (omega arith) (omega arith) nul,
)
  where
    valid : is_valid_session_id other cfg.session_id ≡ true
    valid = ground arith

    slash : is_alnum other b'/' ≡ false
    slash = refl

    dot : is_alnum other b'.' ≡ false
    dot = refl

    nul : is_alnum other 0 ≡ false
    nul = refl

consume_line-le :
    (line : String) (buf : List String) → length buf ≤ 500 → length (consume_line line buf) ≤ 500
unfolding consume_line
consume_line-le line buf h =
    ground (arith, length-append buf (line ∷ []), length-drop 250 (buf ++ line ∷ []))

-- However much dumpcap writes, at most 500 of its lines are held.
pub consume_stderr-le :
    (lines buf : List String) → length buf ≤ 500 → length (consume_stderr lines buf) ≤ 500
unfolding consume_stderr
consume_stderr-le [] buf h = h
consume_stderr-le (line ∷ lines) buf h =
    consume_stderr-le lines (consume_line line buf) (consume_line-le line buf h)

-- What `finish_stop` leaves: no process, and every file reported.
abbrev Closes : Sight → Supervisor → Result CaptureStats × Supervisor → Type 0
Closes sight s (result, s') =
    (s'.proc ≡ none)
    × (stats : CaptureStats) × (result ≡ ok stats)
    × (stats.is_running ≡ false)
    × ((g : String)
        → contains g sight.names ≡ true
        → contains g (s.tracker.closed_emitted ++ stats.files_closed) ≡ true)

-- A capture that ended by itself is finished by a poll as by a stop: the same statistics, closed
-- files and packet counts, if no summary was read before.
pub poll-eq-stop :
    (ending : Ending) (m : Summary) (lines : List String) (sight : Sight) (s : Supervisor)
    (code : ℕ)
    → s.proc ≡ some (exited code)
    → s.final_packets ≡ none
    → let (polled, s₁) = poll m lines sight s in
      let (stopped, s₂) = stop ending m lines sight s in
      (ok polled ≡ stopped)
      × (s₁.tracker ≡ s₂.tracker)
      × (s₁.final_packets ≡ s₂.final_packets)
      × (s₁.final_drops ≡ s₂.final_drops)
unfolding stop poll
poll-eq-stop ending m lines sight s code ended unread = ground arith
