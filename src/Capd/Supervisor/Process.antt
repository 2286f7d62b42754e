-- ===== src/Capd/Supervisor/Process.antt =====
-- The life of the dumpcap process in marlinspike-capd/capd/supervisor.py: the constructor, start,
-- stop, poll, is_running and the reader of dumpcap's messages.
use Prim.Native.String
use net_discover.Prelude.{
  ℕ, String, List, [], ◌∷◌, ◌++◌, drop, Option, none, some, Bool, true, false, ◌&&◌, ◌||◌, not,
  ◌==◌, if◌then◌else◌, leb, ltb, length,
}
use net_discover.Capd.FileNames.{codes, is_digit}
use net_discover.Capd.Supervisor.Snapshot.{Sight, Tracker, new_tracker, CaptureStats, snapshot}

pub record CaptureConfig : Type 0 where
  pub session_id : String
  pub interface : String
  pub bpf_filter : String
  pub output_dir : String
  pub filesize_kb : ℕ
  pub files : ℕ
  pub max_duration_s : ℕ

-- `subprocess.Popen`: what its `poll()` returns.
pub data Dumpcap : Type 0 where
  alive : Dumpcap
  exited : ℕ → Dumpcap

pub record Supervisor : Type 0 where
  pub cfg : CaptureConfig
  pub dumpcap : String
  pub proc : Option Dumpcap
  pub stderr_buf : List String
  pub tracker : Tracker
  pub final_packets : Option ℕ
  pub final_drops : Option ℕ

pub data Error : Type 0 where
  bad_session_id no_dumpcap already_started : Error
  -- `subprocess.TimeoutExpired`
  timeout_expired : Error
  -- dumpcap's messages, and its exit code.
  exited_immediately : List String → ℕ → Error

pub data Result (A : Type 0) : Type 0 where
  ok : A → Result A
  raise : Error → Result A

-- `str.isalnum` on one code point: `other` says which of those above ASCII are letters or digits.
unfoldable pub is_alnum : (ℕ → Bool) → ℕ → Bool
is_alnum other c =
    if ltb c 128
    then is_digit c || ((leb b'a' c && leb c b'z') || (leb b'A' c && leb c b'Z'))
    else other c

-- `replace("-", "").replace("_", "")`
unfoldable pub drop_dashes : List ℕ → List ℕ
drop_dashes [] = []
drop_dashes (c ∷ cs) =
    let rest = drop_dashes cs in if c == b'-' || c == b'_' then rest else c ∷ rest

unfoldable pub all_alnum : (ℕ → Bool) → List ℕ → Bool
unfolding is_alnum
all_alnum other [] = true
all_alnum other (c ∷ cs) = is_alnum other c && all_alnum other cs

-- `isalnum` of a text is false where it is empty.
unfoldable pub is_valid_session_id : (ℕ → Bool) → String → Bool
unfolding drop_dashes all_alnum
is_valid_session_id other s = elim (drop_dashes (codes s)) [
  | [] ↦ false
  | c ∷ cs ↦ all_alnum other (c ∷ cs)
]

-- The constructor; `found` is the given path of dumpcap, or what `which` finds.
unfoldable pub new_supervisor : (ℕ → Bool) → CaptureConfig → Option String → Result Supervisor
unfolding is_valid_session_id
new_supervisor other cfg found =
    if not (is_valid_session_id other cfg.session_id) then raise bad_session_id else elim found [
      | none ↦ raise no_dumpcap
      | some path ↦ ok (record {
        cfg = cfg;
        dumpcap = path;
        proc = none;
        stderr_buf = [];
        tracker = new_tracker;
        final_packets = none;
        final_drops = none;
      })
    ]

-- An element of dumpcap's command line; the last three are formatted from a number.
pub data Arg : Type 0 where
  text : String → Arg
  filesize files duration : ℕ → Arg

is_space : ℕ → Bool
is_space c = c == 32 || (leb 9 c && leb c 13)

unfoldable pub lstrip : String → String
unfolding is_space
lstrip String.[] = String.[]
lstrip (String.◌∷◌ c s) =
    let rest = lstrip s in if is_space (Prim.Native.Char.code c) then rest else String.◌∷◌ c s

unfoldable pub rstrip : String → String
unfolding is_space
rstrip String.[] = String.[]
rstrip (String.◌∷◌ c s) = elim (rstrip s) [
  | String.[] ↦ if is_space (Prim.Native.Char.code c) then String.[] else String.◌∷◌ c String.[]
  | String.◌∷◌ d t ↦ String.◌∷◌ c (String.◌∷◌ d t)
]

unfoldable pub command_line : Supervisor → List Arg
unfolding lstrip rstrip
command_line s =
    let filter = elim (lstrip (rstrip s.cfg.bpf_filter)) as (λ _. List Arg) [
      | String.[] ↦ []
      | String.◌∷◌ c t ↦ text "-f" ∷ text (String.◌∷◌ c t) ∷ []
    ] in
    let limit : List Arg =
      if ltb 0 s.cfg.max_duration_s then text "-a" ∷ duration s.cfg.max_duration_s ∷ [] else [] in
    (text s.dumpcap
      ∷ text "-i"
      ∷ text s.cfg.interface
      ∷ text "-q"
      ∷ text "-n"
      ∷ text "-b"
      ∷ filesize s.cfg.filesize_kb
      ∷ text "-b"
      ∷ files s.cfg.files
      ∷ text "-w"
      ∷ text (String.◌++◌ s.cfg.output_dir "/cap.pcapng")
      ∷ [])
    ++ (filter ++ limit)

-- One line of dumpcap's stderr: past 500 lines the oldest 250 go.
unfoldable pub consume_line : String → List String → List String
consume_line line buf =
    let grown = buf ++ line ∷ [] in if ltb 500 (length grown) then drop 250 grown else grown

unfoldable pub consume_stderr : List String → List String → List String
unfolding consume_line
consume_stderr [] buf = buf
consume_stderr (line ∷ lines) buf = consume_stderr lines (consume_line line buf)

-- What follows the exec of dumpcap: the lines it writes, and whether it lives after the grace.
unfoldable pub start : List String → Dumpcap → Supervisor → Result Supervisor
unfolding consume_stderr
start lines after_grace s = elim s.proc [
  | some _ ↦ raise already_started
  | none ↦
      let buf = consume_stderr lines s.stderr_buf in
      elim after_grace [
        | alive ↦ ok (record s { proc = some alive; stderr_buf = buf })
        | exited code ↦ raise (exited_immediately buf code)
      ]
]

unfoldable pub is_running : Supervisor → Bool
is_running s = elim s.proc [ some alive ↦ true | _ ↦ false ]

-- The two searches in dumpcap's summary: what "Packets captured" and "Packets dropped" say in a
-- buffer.
pub record Summary : Type 0 where
  pub packets : List String → Option ℕ
  pub drops : List String → Option ℕ

abbrev or_keep : Option ℕ → Option ℕ → Option ℕ
or_keep none old = old
or_keep (some n) old = some n

unfoldable pub parse_final_stats : Summary → Supervisor → Supervisor
parse_final_stats m s = record s {
  final_packets = or_keep (m.packets s.stderr_buf) s.final_packets;
  final_drops = or_keep (m.drops s.stderr_buf) s.final_drops;
}

unfoldable pub take_snapshot : Bool → Bool → Sight → Supervisor → CaptureStats × Supervisor
take_snapshot running finalize sight s =
    let (stats, tracker) = snapshot running finalize sight s.tracker in
    (stats, record s { tracker = tracker })

-- What becomes of a living dumpcap in `stop`: it exits on SIGINT in time, or when it is killed, or
-- outlives the second wait too.
pub data Ending : Type 0 where
  exits is_killed outlives : Ending

unfoldable pub has_timed_out : Dumpcap → Ending → Bool
has_timed_out (exited code) ending = false
has_timed_out alive outlives = true
has_timed_out alive _ = false

-- The end of `stop`, once the process is gone.
unfoldable pub finish_stop : Summary → Sight → Supervisor → Result CaptureStats × Supervisor
unfolding parse_final_stats take_snapshot
finish_stop m sight s =
    let (stats, s') = take_snapshot false true sight (parse_final_stats m s) in
    (ok stats, record s' { proc = none })

-- `lines` are dumpcap's last messages, read before the thread is joined.
unfoldable pub stop :
    Ending → Summary → List String → Sight → Supervisor → Result CaptureStats × Supervisor
unfolding consume_stderr take_snapshot has_timed_out finish_stop
stop ending m lines sight s =
    let drained : Supervisor = record s { stderr_buf = consume_stderr lines s.stderr_buf } in
    elim s.proc [
      | none ↦ let (stats, s') = take_snapshot false false sight s in (ok stats, s')
      | some p ↦
          if has_timed_out p ending
          then (raise timeout_expired, drained)
          else finish_stop m sight drained
    ]

abbrev is_none : Option ℕ → Bool
is_none none = true
is_none (some _) = false

unfoldable pub poll : Summary → List String → Sight → Supervisor → CaptureStats × Supervisor
unfolding is_running consume_stderr parse_final_stats take_snapshot
poll m lines sight s =
    let running = is_running s in
    let drained : Supervisor = record s { stderr_buf = consume_stderr lines s.stderr_buf } in
    let parsed =
      if not running && is_none s.final_packets then parse_final_stats m drained else drained in
    take_snapshot running (not running) sight parsed
