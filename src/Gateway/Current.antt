-- ===== src/Gateway/Current.antt =====
-- Which connection of an agent is heard, over every order in which connections, frames, commands and
-- cleanups of marlinspike/fleet/gateway/server.py can follow one another.
use net_discover.Prelude.{
  ℕ, ◌<◌, String, List, [], ◌∷◌, some, Bool, true, false, ◌&&◌, ◌≡◌, ◌≢◌, ◌∙◌, refl, sym, ap, subst,
  arith, ◌==◌, ==_iff, str_eq_iff, find_where, delete_where, keep, Bool-cases, Option-cases, inl,
  inr,
}
use net_discover.Fleet.Presence.{mark_offline}
use net_discover.Gateway.Frames.{
  Action, Frame, res, event, heartbeat, request, other, AgentConnection, beat_actions, handle_frame,
  went_on, go_on, checked, serve_frame,
}
use net_discover.Gateway.Connections.{
  Phase, serving, leaving, marking, gone, Handler, GatewayServer, find_connection, del_connection,
  set_handler, close_conn, register_connection, with_phase, update, read_frame, hang_up, clean_up,
  mark, disconnect_agent, push_command, take_reply,
}

pub data ServerEvent : Type 0 where
  connected : String → ServerEvent
  frame : ℕ → Bool → Frame → ℕ → ServerEvent
  hung_up cleaned marked : ℕ → ServerEvent
  disconnect : String → ServerEvent
  push : String → ServerEvent
  reply_taken : ℕ → ℕ → ServerEvent

module _ (interval : ℕ) where
  unfoldable pub server_step : ServerEvent → GatewayServer → GatewayServer
  unfolding register_connection read_frame hang_up clean_up mark disconnect_agent push_command
      take_reply
  server_step (connected u) s = register_connection u s
  server_step (frame now revoked f n) s = read_frame interval now revoked f n s
  server_step (hung_up n) s = hang_up n s
  server_step (cleaned n) s = clean_up n s
  server_step (marked n) s = mark n s
  server_step (disconnect u) s = (disconnect_agent u s).1
  server_step (push u) s = (push_command u s).1
  server_step (reply_taken n id) s = (take_reply n id s).1

  unfoldable pub run_server : List ServerEvent → GatewayServer → GatewayServer
  unfolding server_step
  run_server [] s = s
  run_server (e ∷ es) s = run_server es (server_step e s)

abbrev pub is_serving : Phase → Bool
is_serving serving = true
is_serving _ = false

-- The handler reads frames, and its socket is open.
abbrev pub is_heard : Handler → Bool
is_heard h = is_serving h.phase && h.conn.is_open

abbrev pub uuid_of : Handler → String
uuid_of h = h.conn.agent_uuid

-- A connection that is heard is the one of the table.
abbrev pub IsCurrent : GatewayServer → Type 0
IsCurrent s =
    (n : ℕ)
    → n < s.next
    → is_heard (s.handlers n) ≡ true
    → find_connection (uuid_of (s.handlers n)) s.connections ≡ some n

-- A handler that is put in another's place is of the same agent and is heard only if that was.
pub record Quieter (h k : Handler) : Type 0 where
  pub same : uuid_of k ≡ uuid_of h
  pub heard : is_heard k ≡ true → is_heard h ≡ true

pub update-IsCurrent :
    (n : ℕ) (k : Handler) (s : GatewayServer)
    → Quieter (s.handlers n) k
    → IsCurrent s
    → IsCurrent (update n k s)
unfolding set_handler
update-IsCurrent n k s q c m below = elim (Bool-cases (m == n)) [
  | inl this ↦
      let e = (==_iff m n).0 this in
      rw this (λ h.
        ap (λ u. find_connection u s.connections)
          (q.same ∙ ap (λ i. uuid_of (s.handlers i)) (sym e))
        ∙ c m below (subst (λ i. is_heard (s.handlers i) ≡ true) (sym e) (q.heard h)))
  | inr that ↦ rw that (c m below)
]

handle_frame-keeps :
    (interval now : ℕ) (f : Frame) (c : AgentConnection)
    → ((handle_frame interval now f c).1.agent_uuid ≡ c.agent_uuid)
      × ((handle_frame interval now f c).1.is_open ≡ c.is_open)
unfolding handle_frame beat_actions
handle_frame-keeps interval now (res k r) c = (refl, refl)
handle_frame-keeps interval now event c = (refl, refl)
handle_frame-keeps interval now (heartbeat k) c = (ground arith, ground arith)
handle_frame-keeps interval now (request k) c = (refl, refl)
handle_frame-keeps interval now other c = (refl, refl)

pub find_connection-del :
    (u v : String) (cs : List (String × ℕ))
    → u ≢ v
    → find_connection v (del_connection u cs) ≡ find_connection v cs
unfolding find_connection del_connection find_where delete_where keep
find_connection-del u v [] apart = refl
find_connection-del u v ((k, n) ∷ cs) apart =
    ground (arith, apart, str_eq_iff k u, str_eq_iff k v, find_connection-del u v cs apart)

pub serve_frame-keeps :
    (interval now : ℕ) (revoked : Bool) (f : Frame) (c : AgentConnection) {actions : List Action}
    {d : AgentConnection}
    → serve_frame interval now revoked f c ≡ go_on actions d
    → (d.agent_uuid ≡ c.agent_uuid) × (d.is_open ≡ c.is_open)
unfolding serve_frame went_on
serve_frame-keeps interval now revoked f c h = ground (
  arith,
  h,
  handle_frame-keeps interval now f c,
  handle_frame-keeps interval now f (checked interval now c),
)

module _ (s : GatewayServer) (c : IsCurrent s) where
  -- A handler that is no longer serving.
  pub stopped :
      (n : ℕ) (k : Handler)
      → uuid_of k ≡ uuid_of (s.handlers n)
      → is_serving k.phase ≡ false
      → IsCurrent (update n k s)
  stopped n k same over =
      update-IsCurrent n k s (record { same = same; heard = λ h. absurd (ground (arith, h, over)) })
        c

  pub hang_up-IsCurrent : (n : ℕ) → IsCurrent (hang_up n s)
  unfolding hang_up
  hang_up-IsCurrent n = go (s.handlers n).phase
    where
      go :
          (p : Phase)
          → IsCurrent (elim p as (λ _. GatewayServer) [
            | serving ↦ update n (with_phase leaving (s.handlers n)) s
            | _ ↦ s
          ])
      go serving = stopped n (with_phase leaving (s.handlers n)) refl refl
      go leaving = c
      go marking = c
      go gone = c

  pub mark-IsCurrent : (n : ℕ) → IsCurrent (mark n s)
  unfolding mark
  mark-IsCurrent n = go (s.handlers n).phase
    where
      go :
          (p : Phase)
          → IsCurrent (elim p as (λ _. GatewayServer) [
            | marking ↦ record s {
              handlers = set_handler n (with_phase gone (close_conn (s.handlers n))) s.handlers;
              tables = mark_offline (s.handlers n).conn.agent_uuid s.tables;
            }
            | _ ↦ s
          ])
      go marking = stopped n (with_phase gone (close_conn (s.handlers n))) refl refl
      go serving = c
      go leaving = c
      go gone = c

  pub disconnect_agent-IsCurrent : (u : String) → IsCurrent (disconnect_agent u s).1
  unfolding disconnect_agent
  disconnect_agent-IsCurrent u = elim (Option-cases (find_connection u s.connections)) [
    | inl unknown ↦ rw (disconnect_agent, unknown) c
    | inr (n, known) ↦
        rw (disconnect_agent, known)
          (update-IsCurrent n (close_conn (s.handlers n)) s
            (record { same = refl; heard = λ h. absurd (ground (arith, h)) }) c)
  ]

  pub push_command-IsCurrent : (u : String) → IsCurrent (push_command u s).1
  unfolding push_command
  push_command-IsCurrent u = elim (Option-cases (find_connection u s.connections)) [
    | inl unknown ↦ rw (push_command, unknown) c
    | inr (n, known) ↦
        rw (push_command, known) (update-IsCurrent n _ s (record { same = refl; heard = λ h. h }) c)
  ]

  pub take_reply-IsCurrent : (n id : ℕ) → IsCurrent (take_reply n id s).1
  unfolding take_reply
  take_reply-IsCurrent n id = update-IsCurrent n _ s (record { same = refl; heard = λ h. h }) c
