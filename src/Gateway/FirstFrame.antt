-- ===== src/Gateway/FirstFrame.antt =====
-- The first frame of a connection: _handle_connection and _authenticate of
-- marlinspike/fleet/gateway/server.py, up to the connection's place in the table.
use net_discover.Prelude.{ℕ, String, Option, none, some, Bool, inl, inr, if◌then◌else◌}
use net_discover.Fleet.Agents.{Tables}
use net_discover.Fleet.Gateway.{
  GatewayAuthError, key_taken, Draws, EnrollRequest, Enrolled, enroll_agent,
}
use net_discover.Fleet.Presence.{authenticate_agent}
use net_discover.Gateway.Limiter.{Attempts, auth_rate_limited}
use net_discover.Gateway.Connections.{GatewayServer, register_connection}

-- By type and method. The params of a `broken` request are not an object.
pub data FirstFrame : Type 0 where
  enroll : Option ℕ → EnrollRequest → FirstFrame
  auth : Option ℕ → String → String → FirstFrame
  broken other : Option ℕ → FirstFrame

-- A connection up to its first frame, which is `none` where the stream ends or holds no object. A
-- `delivered` answer raised nothing on the way out; `clock` is time.monotonic.
pub record Visit : Type 0 where
  pub peer : Option String
  pub clock : ℕ
  pub draws : Draws
  pub peer_cert_fingerprint : Option String
  pub delivered : Bool
  pub frame : Option FirstFrame

pub data Answer : Type 0 where
  nothing : Answer
  not_first rate_limited : Option ℕ → Answer
  refused : Option ℕ → GatewayAuthError → Answer
  enrolled : Option ℕ → Enrolled → Answer
  authenticated : Option ℕ → String → Answer
  crashed : Answer

pub record Door : Type 0 where
  pub attempts : Attempts
  pub server : GatewayServer

unfoldable pub peer_ip : Option String → String
peer_ip none = "unknown"
peer_ip (some ip) = ip

unfoldable pub id_of : FirstFrame → Option ℕ
id_of (enroll id r) = id
id_of (auth id u credential) = id
id_of (broken id) = id
id_of (other id) = id

-- The refusal of a row by the database is no GatewayAuthError.
unfoldable pub refusal : Option ℕ → GatewayAuthError → Answer
refusal id key_taken = crashed
refusal id e = refused id e

-- A connection whose answer was not delivered ends before it is registered.
unfoldable pub let_in : Bool → String → Tables → GatewayServer → GatewayServer
unfolding register_connection
let_in delivered u t s =
    let s' = record s { tables = t } in if delivered then register_connection u s' else s'

module _ (hash : String → String) where
  unfoldable pub enroll_first :
      Visit → Option ℕ → EnrollRequest → GatewayServer → Answer × GatewayServer
  unfolding enroll_agent refusal let_in
  enroll_first v id r s =
      let (result, t) = enroll_agent hash v.draws r s.tables in
      elim result [
        | inl e ↦ (refusal id e, record s { tables = t })
        | inr x ↦ (enrolled id x, let_in v.delivered x.agent_uuid t s)
      ]

  unfoldable pub auth_first :
      Visit → Option ℕ → String → String → GatewayServer → Answer × GatewayServer
  unfolding authenticate_agent refusal let_in
  auth_first v id u credential s =
      let (result, t) =
        authenticate_agent hash v.draws.now
          (record {
            agent_uuid = u;
            raw_credential = credential;
            peer_cert_fingerprint = v.peer_cert_fingerprint;
          })
          s.tables in
      elim result [
        | inl e ↦ (refusal id e, record s { tables = t })
        | inr _ ↦ (authenticated id u, let_in v.delivered u t s)
      ]

  unfoldable pub authenticate : Visit → FirstFrame → GatewayServer → Answer × GatewayServer
  unfolding enroll_first auth_first
  authenticate v (enroll id r) s = enroll_first v id r s
  authenticate v (auth id u credential) s = auth_first v id u credential s
  authenticate v (broken id) s = (crashed, s)
  authenticate v (other id) s = (not_first id, s)

module _ (hash : String → String) (window : ℕ) where
  unfoldable pub attempt : Visit → FirstFrame → Door → Answer × Door
  unfolding auth_rate_limited authenticate peer_ip id_of
  attempt v f d =
      let (limited, attempts) = auth_rate_limited window (peer_ip v.peer) v.clock d.attempts in
      if limited
      then (rate_limited (id_of f), record d { attempts = attempts })
      else let (answer, server) = authenticate hash v f d.server in
        (answer, record { attempts = attempts; server = server })

  unfoldable pub turn : Visit → Option FirstFrame → Door → Answer × Door
  unfolding attempt
  turn v none d = (nothing, d)
  turn v (some (other id)) d = (not_first id, d)
  turn v (some f) d = attempt v f d

  unfoldable pub first_frame : Visit → Door → Answer × Door
  unfolding turn
  first_frame v d = turn v v.frame d
