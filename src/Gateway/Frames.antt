-- ===== src/Gateway/Frames.antt =====
-- The read loop of an authenticated connection: _serve_authenticated of
-- marlinspike/fleet/gateway/server.py. A time is a number of the clock's ticks, `interval` of which
-- are _MIN_HEARTBEAT_DB_WRITE_INTERVAL_S.
use net_discover.Prelude.{
  ℕ, ◌+◌, String, List, [], ◌∷◌, Option, none, some, Bool, true, if◌then◌else◌, leb, ◌==◌,
  change_where,
}

-- A reply of the agent to a command: the future of its id holds it.
pub record Reply : Type 0 where
  pub ok : Bool
  pub text : String

pub data Future : Type 0 where
  waiting cancelled : Future
  answered : Reply → Future

-- The frames by their type and method. An id that names no request is `none`.
pub data Frame : Type 0 where
  res : Option ℕ → Reply → Frame
  event : Frame
  heartbeat request : Option ℕ → Frame
  other : Frame

-- _AgentConnection, without the uploads; of the writer, whether it is open.
pub record AgentConnection : Type 0 where
  pub agent_uuid : String
  pub is_open : Bool
  pub pending : List (ℕ × Future)
  pub last_id : ℕ
  pub last_heartbeat_write : Option ℕ
  pub last_revocation_check : Option ℕ

unfoldable pub new_agent_connection : String → AgentConnection
new_agent_connection u = record {
  agent_uuid = u;
  is_open = true;
  pending = [];
  last_id = 1;
  last_heartbeat_write = none;
  last_revocation_check = none;
}

-- What a frame makes the gateway do.
pub data Action : Type 0 where
  handle_event write_heartbeat : Action
  answer : Option ℕ → Action
  refuse : Option ℕ → String → Action

abbrev is_id : ℕ → ℕ × Future → Bool
is_id k e = e.0 == k

abbrev settle_future : Reply → ℕ × Future → ℕ × Future
settle_future r (k, waiting) = (k, answered r)
settle_future r (k, f) = (k, f)

-- `fut.set_result`, unless the future is done.
unfoldable pub resolve : Option ℕ → Reply → List (ℕ × Future) → List (ℕ × Future)
unfolding change_where
resolve none r ps = ps
resolve (some k) r ps = change_where (is_id k) (settle_future r) ps

abbrev pub is_interval_over : ℕ → ℕ → Option ℕ → Bool
is_interval_over interval now none = true
is_interval_over interval now (some t) = leb (t + interval) now

-- A request that a revoked agent sent is answered before the connection ends.
unfoldable pub revoked_actions : Frame → List Action
revoked_actions (heartbeat k) = refuse k "revoked" ∷ []
revoked_actions (request k) = refuse k "revoked" ∷ []
revoked_actions _ = []

-- Whether the connection goes on, what the frame made the gateway do, and the connection.
pub data FrameTurn : Type 0 where
  stop : List Action → FrameTurn
  go_on : List Action → AgentConnection → FrameTurn

unfoldable pub went_on : List Action × AgentConnection → FrameTurn
went_on (actions, c) = go_on actions c

module _ (interval now : ℕ) where
  unfoldable pub beat_actions : Option ℕ → AgentConnection → List Action × AgentConnection
  beat_actions k c =
      if is_interval_over interval now c.last_heartbeat_write
      then (write_heartbeat ∷ answer k ∷ [], record c { last_heartbeat_write = some now })
      else (answer k ∷ [], c)

  unfoldable pub handle_frame : Frame → AgentConnection → List Action × AgentConnection
  unfolding resolve beat_actions
  handle_frame (res k r) c = ([], record c { pending = resolve k r c.pending })
  handle_frame event c = (handle_event ∷ [], c)
  handle_frame (heartbeat k) c = beat_actions k c
  handle_frame (request k) c = (refuse k "unknown method" ∷ [], c)
  handle_frame other c = ([], c)

  abbrev pub checked : AgentConnection → AgentConnection
  checked c = record c { last_revocation_check = some now }

  -- `revoked` is what is_agent_revoked answers if it is asked.
  unfoldable pub serve_frame : Bool → Frame → AgentConnection → FrameTurn
  unfolding handle_frame revoked_actions went_on
  serve_frame revoked f c =
      if is_interval_over interval now c.last_revocation_check
      then if revoked then stop (revoked_actions f) else went_on (handle_frame f (checked c))
      else went_on (handle_frame f c)

-- The frames of a connection with the times at which they are read, up to the one that ends it: the
-- times of those that were handled, in order.
unfoldable pub serve : ℕ → (ℕ → Bool) → List (ℕ × Frame) → AgentConnection → List ℕ
unfolding serve_frame
serve interval revoked [] c = []
serve interval revoked ((now, f) ∷ rest) c = elim (serve_frame interval now (revoked now) f c) [
  | stop actions ↦ []
  | go_on actions d ↦ now ∷ serve interval revoked rest d
]
