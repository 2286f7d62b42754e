-- ===== src/Gateway/AdminSocket.antt =====
-- The admin sockets of the gateway: _handle_admin_connection of
-- marlinspike/fleet/gateway/server.py, with the start of push_command. The unix socket knows its
-- peer's uid, the TCP listener asks for a token with each request.
use net_discover.Prelude.{
  ℕ, String, List, [], ◌∷◌, Option, none, some, Bool, true, false, ◌==◌, any, if◌then◌else◌, str_eq,
}
use net_discover.Gateway.Connections.{GatewayServer, disconnect_agent, push_command}

pub data AdminMethod : Type 0 where
  disconnect push : String → AdminMethod
  other : String → AdminMethod

-- Of the params, `admin_token`, or the empty text where there is none. The id, which the answer
-- repeats, is left out.
pub record AdminRequest : Type 0 where
  pub admin_token : String
  pub method : AdminMethod

-- A command that is pushed waits for its reply: the connection and the id it went out with.
pub data AdminAnswer : Type 0 where
  unauthorized : AdminAnswer
  disconnected : Bool → AdminAnswer
  not_connected : AdminAnswer
  pushed : ℕ → ℕ → AdminAnswer
  unknown_method : String → AdminAnswer

-- SO_PEERCRED's uid against those allowed; the TCP listener has no such list.
unfoldable pub is_peer_allowed : Option (List ℕ) → Option ℕ → Bool
unfolding any
is_peer_allowed none uid = true
is_peer_allowed (some uids) none = false
is_peer_allowed (some uids) (some uid) = any (λ k. k == uid) uids

unfoldable pub has_token : Option String → String → Bool
has_token none given = true
has_token (some token) given = str_eq given token

unfoldable pub answer_push : Option (ℕ × ℕ) × GatewayServer → AdminAnswer × GatewayServer
answer_push (none, s) = (not_connected, s)
answer_push (some (n, id), s) = (pushed n id, s)

unfoldable pub run_method : AdminMethod → GatewayServer → AdminAnswer × GatewayServer
unfolding disconnect_agent push_command answer_push
run_method (disconnect u) s = let (found, s') = disconnect_agent u s in (disconnected found, s')
run_method (push u) s = answer_push (push_command u s)
run_method (other m) s = (unknown_method m, s)

unfoldable pub handle_admin_request :
    Option String → AdminRequest → GatewayServer → AdminAnswer × GatewayServer
unfolding has_token run_method
handle_admin_request token r s =
    if has_token token r.admin_token then run_method r.method s else (unauthorized, s)

-- A connection's requests in order.
unfoldable pub handle_admin_requests :
    Option String → List AdminRequest → GatewayServer → List AdminAnswer × GatewayServer
unfolding handle_admin_request
handle_admin_requests token [] s = ([], s)
handle_admin_requests token (r ∷ rest) s =
    let (answer, s') = handle_admin_request token r s in
    let (answers, last) = handle_admin_requests token rest s' in (answer ∷ answers, last)

-- A peer that is not allowed is refused before anything is read.
unfoldable pub handle_admin_connection :
    Option (List ℕ)
    → Option ℕ
    → Option String
    → List AdminRequest
    → GatewayServer
    → List AdminAnswer × GatewayServer
unfolding is_peer_allowed handle_admin_requests
handle_admin_connection uids uid token rs s =
    if is_peer_allowed uids uid then handle_admin_requests token rs s else (unauthorized ∷ [], s)
