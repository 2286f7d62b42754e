-- ===== src/Gateway/Connections.antt =====
-- The table of connections and the life of each: _handle_connection, disconnect_agent and push_command
-- of marlinspike/fleet/gateway/server.py, cut where they wait. The handlers' connections stand on a
-- heap, since the table and the handler share them.
use net_discover.Prelude.{
  ℕ, suc, String, List, ◌∷◌, Option, none, some, Bool, true, false, map, if◌then◌else◌, ◌==◌,
  str_eq, find_where, delete_where,
}
use net_discover.Fleet.Agents.{Tables}
use net_discover.Fleet.Presence.{mark_offline}
use net_discover.Gateway.Frames.{
  Reply, Future, waiting, cancelled, answered, Frame, AgentConnection, new_agent_connection, stop,
  go_on, serve_frame,
}

-- Where a handler stands: in its read loop, before its `finally`, before the call of mark_offline
-- in it, or behind it.
pub data Phase : Type 0 where
  serving leaving marking gone : Phase

pub record Handler : Type 0 where
  pub conn : AgentConnection
  pub phase : Phase

pub record GatewayServer : Type 0 where
  pub connections : List (String × ℕ)
  pub handlers : ℕ → Handler
  pub next : ℕ
  pub tables : Tables

abbrev pub is_of : String → String × ℕ → Bool
is_of u e = str_eq e.0 u

-- `self._connections.get(agent_uuid)`
unfoldable pub find_connection : String → List (String × ℕ) → Option ℕ
unfolding find_where
find_connection u cs = elim (find_where (is_of u) cs) [ none ↦ none | some (k, n) ↦ some n ]

unfoldable pub del_connection : String → List (String × ℕ) → List (String × ℕ)
unfolding delete_where
del_connection u cs = delete_where (is_of u) cs

unfoldable pub set_handler : ℕ → Handler → (ℕ → Handler) → ℕ → Handler
set_handler n h hs k = if k == n then h else hs k

abbrev pub close_conn : Handler → Handler
close_conn h = record h { conn = record (h.conn) { is_open = false } }

unfoldable pub close_writer : Option ℕ → (ℕ → Handler) → ℕ → Handler
unfolding set_handler
close_writer none hs = hs
close_writer (some n) hs = set_handler n (close_conn (hs n)) hs

-- An authenticated connection takes its agent's place in the table and closes the one before it.
unfoldable pub register_connection : String → GatewayServer → GatewayServer
unfolding find_connection del_connection close_writer set_handler new_agent_connection
register_connection u s = record s {
  connections = (u, s.next) ∷ del_connection u s.connections;
  handlers =
      set_handler s.next (record { conn = new_agent_connection u; phase = serving })
        (close_writer (find_connection u s.connections) s.handlers);
  next = suc s.next;
}

abbrev pub with_phase : Phase → Handler → Handler
with_phase p h = record h { phase = p }

abbrev pub update : ℕ → Handler → GatewayServer → GatewayServer
update n h s = record s { handlers = set_handler n h s.handlers }

-- A frame is read; where the turn stops, the handler leaves its loop.
unfoldable pub read_frame : ℕ → ℕ → Bool → Frame → ℕ → GatewayServer → GatewayServer
unfolding serve_frame set_handler
read_frame interval now revoked f n s =
    let h = s.handlers n in
    elim h.phase [
      | serving ↦ elim (serve_frame interval now revoked f h.conn) [
        | stop actions ↦ update n (with_phase leaving h) s
        | go_on actions c ↦ update n (record h { conn = c }) s
      ]
      | _ ↦ s
    ]

-- The end of the stream, a timeout or an exception.
unfoldable pub hang_up : ℕ → GatewayServer → GatewayServer
unfolding set_handler
hang_up n s =
    let h = s.handlers n in elim h.phase [ serving ↦ update n (with_phase leaving h) s | _ ↦ s ]

abbrev pub cancel : ℕ × Future → ℕ × Future
cancel (k, waiting) = (k, cancelled)
cancel (k, f) = (k, f)

unfoldable pub is_current : ℕ → GatewayServer → Bool
unfolding find_connection
is_current n s = elim (find_connection (s.handlers n).conn.agent_uuid s.connections) [
  | none ↦ false
  | some k ↦ k == n
]

-- The first part of the `finally`: only the current connection takes its entry out, and goes on
-- to mark its agent offline.
unfoldable pub finish_handler : ℕ → Handler → GatewayServer → GatewayServer
unfolding is_current del_connection set_handler
finish_handler n h s =
    if is_current n s
    then record s {
      connections = del_connection h.conn.agent_uuid s.connections;
      handlers =
          set_handler n
            (record {
              conn = record (h.conn) { pending = map cancel h.conn.pending };
              phase = marking;
            })
            s.handlers;
    }
    else update n
        (record {
          conn = record (h.conn) { pending = map cancel h.conn.pending; is_open = false };
          phase = gone;
        })
        s

unfoldable pub clean_up : ℕ → GatewayServer → GatewayServer
unfolding finish_handler
clean_up n s = let h = s.handlers n in elim h.phase [ leaving ↦ finish_handler n h s | _ ↦ s ]

-- The executor runs mark_offline, and the writer is closed.
unfoldable pub mark : ℕ → GatewayServer → GatewayServer
unfolding mark_offline set_handler
mark n s =
    let h = s.handlers n in
    elim h.phase [
      | marking ↦ record s {
        handlers = set_handler n (with_phase gone (close_conn h)) s.handlers;
        tables = mark_offline h.conn.agent_uuid s.tables;
      }
      | _ ↦ s
    ]

unfoldable pub disconnect_agent : String → GatewayServer → Bool × GatewayServer
unfolding find_connection set_handler
disconnect_agent u s = elim (find_connection u s.connections) [
  | none ↦ (false, s)
  | some n ↦ (true, update n (close_conn (s.handlers n)) s)
]

-- The first part of push_command: the connection, and the id that the command goes out with.
unfoldable pub push_command : String → GatewayServer → Option (ℕ × ℕ) × GatewayServer
unfolding find_connection set_handler
push_command u s = elim (find_connection u s.connections) [
  | none ↦ (none, s)
  | some n ↦
      let h = s.handlers n in
      let id = suc h.conn.last_id in
      (
        some (n, id),
        update n
            (record h {
              conn = record (h.conn) { last_id = id; pending = (id, waiting) ∷ h.conn.pending };
            })
            s,
      )
]

-- The end of the wait: the reply, if the future has one that is ok, and the future is dropped.
unfoldable pub take_reply : ℕ → ℕ → GatewayServer → Option Reply × GatewayServer
unfolding find_where delete_where set_handler
take_reply n id s =
    let h = s.handlers n in
    let rest = delete_where (λ e. e.0 == id) h.conn.pending in
    (
      elim (find_where (λ e. e.0 == id) h.conn.pending) [
        | none ↦ none
        | some (k, f) ↦ elim f [ answered r ↦ if r.ok then some r else none | _ ↦ none ]
      ],
      update n (record h { conn = record (h.conn) { pending = rest } }) s,
    )
