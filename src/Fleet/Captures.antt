-- ===== src/Fleet/Captures.antt =====
-- The writes of capture sessions by users: the routes of marlinspike/capture/api.py that start and
-- stop a capture, each cut where it waits for the daemon or the agent, and the finalizer of a local
-- capture. The error's text is left out.
use net_discover.Prelude.{
  ℕ, max, String, ◌∷◌, Option, none, some, Bool, true, false, ◌==◌, if◌then◌else◌, find_where,
  change_where,
}
use net_discover.Fleet.Agents.{CaptureSession, SessionStatus, Tables, has_session}
use net_discover.Fleet.Presence.{is_reporting}

-- The new row: its key is the database's, and its uuid drawn at random.
pub record NewSession : Type 0 where
  pub id : ℕ
  pub session_uuid : String
  pub user_id : ℕ
  pub project_id : ℕ
  pub agent_id : Option ℕ

-- What `client.stop` gives: an exception, or bytes, packets, drops and the number of closed files.
pub data StopReply : Type 0 where
  failure : StopReply
  totals : ℕ → Option ℕ → Option ℕ → ℕ → StopReply

-- The last frame of a local capture's statistics.
pub record FinalFrame : Type 0 where
  pub bytes_total : ℕ
  pub file_index : Option ℕ
  pub packets : Option ℕ
  pub drops : Option ℕ

abbrev pub has_sid : ℕ → CaptureSession → Bool
has_sid k s = s.id == k

unfoldable pub pending_row : NewSession → CaptureSession
pending_row r = record {
  id = r.id;
  session_uuid = r.session_uuid;
  user_id = r.user_id;
  project_id = some r.project_id;
  status = SessionStatus.pending;
  stopped_at = none;
  bytes_captured = 0;
  packets_captured = 0;
  drop_count = 0;
  rotation_count = 0;
  agent_id = r.agent_id;
}

-- A uuid that is taken breaks the unique key, and nothing is committed.
unfoldable pub open_session : NewSession → Tables → Tables
unfolding find_where pending_row
open_session r t = elim (find_where (has_session r.session_uuid) t.sessions) [
  | some _ ↦ t
  | none ↦ record t { sessions = pending_row r ∷ t.sessions }
]

-- The row after the answer of `client.start`: whether it was one, or an exception.
unfoldable pub started_row : ℕ → Bool → CaptureSession → CaptureSession
started_row now answered s =
    if answered
    then record s { status = SessionStatus.running }
    else record s { status = SessionStatus.failed; stopped_at = some now }

unfoldable pub capture_started : ℕ → ℕ → Bool → Tables → Tables
unfolding change_where started_row
capture_started now id answered t = record t {
  sessions = change_where (has_sid id) (started_row now answered) t.sessions;
}

abbrev pub may_stop : Option ℕ → CaptureSession → Bool
may_stop none s = true
may_stop (some user_id) s = s.user_id == user_id

abbrev pub stopping_row : CaptureSession → CaptureSession
stopping_row s = record s { status = SessionStatus.stopping }

-- `stop_session` up to its wait; the user is `none` for an admin.
unfoldable pub request_stop : Option ℕ → ℕ → Tables → Tables
unfolding find_where change_where
request_stop user id t = elim (find_where (has_sid id) t.sessions) [
  | none ↦ t
  | some s ↦
      if may_stop user s
      then if is_reporting s.status
        then record t { sessions = change_where (has_sid id) stopping_row t.sessions }
        else t
      else t
]

unfoldable pub stopped_row : ℕ → StopReply → CaptureSession → CaptureSession
stopped_row now failure s = record s { status = SessionStatus.failed; stopped_at = some now }
stopped_row now (totals bytes packets drops closed) s = record s {
  status = SessionStatus.stopped;
  stopped_at = some now;
  bytes_captured = bytes;
  packets_captured = elim packets [ none ↦ s.packets_captured | some n ↦ n ];
  drop_count = elim drops [ none ↦ s.drop_count | some n ↦ n ];
  rotation_count = max s.rotation_count closed;
}

-- The rest of `stop_session`, once the answer is there.
unfoldable pub capture_stopped : ℕ → ℕ → StopReply → Tables → Tables
unfolding change_where stopped_row
capture_stopped now id reply t = record t {
  sessions = change_where (has_sid id) (stopped_row now reply) t.sessions;
}

abbrev is_running : SessionStatus → Bool
is_running SessionStatus.running = true
is_running _ = false

-- The row after a local capture ended by itself: `none` is no clean last frame.
unfoldable pub ended_row : ℕ → Option FinalFrame → CaptureSession → CaptureSession
ended_row now none s = record s { status = SessionStatus.failed; stopped_at = some now }
ended_row now (some f) s = record s {
  status = SessionStatus.stopped;
  stopped_at = some now;
  bytes_captured = f.bytes_total;
  rotation_count = elim f.file_index [ none ↦ s.rotation_count | some n ↦ max s.rotation_count n ];
  packets_captured = elim f.packets [ none ↦ s.packets_captured | some n ↦ n ];
  drop_count = elim f.drops [ none ↦ s.drop_count | some n ↦ n ];
}

unfoldable pub finalized_row : ℕ → Option FinalFrame → CaptureSession → CaptureSession
unfolding ended_row
finalized_row now frame s = if is_running s.status then ended_row now frame s else s

-- `_on_finished` of `_make_session_finalizer`
unfoldable pub finalize_session : ℕ → ℕ → Option FinalFrame → Tables → Tables
unfolding change_where finalized_row
finalize_session now id frame t = record t {
  sessions = change_where (has_sid id) (finalized_row now frame) t.sessions;
}
