-- ===== src/Gateway/Scenarios.antt =====
-- Attempts, frames and connections at one gateway, and the theorems about them there.
use net_discover.Prelude.{
  ℕ, ◌+◌, ◌<◌, leb, count_where, map, String, List, [], ◌∷◌, none, some, Bool, true, ◌≡◌, refl,
  arith, All,
}
use net_discover.Fleet.Agents.{Agent, AgentStatus}
use net_discover.Gateway.Limiter.{auth_rate_limited, run_attempts, in_window}
use net_discover.Gateway.Frames.{Frame, event, heartbeat, new_agent_connection, serve}
use net_discover.Gateway.CutOff.{serve-cut_off}
use net_discover.Gateway.Connections.{Phase, GatewayServer, find_connection}
use net_discover.Gateway.Current.{
  ServerEvent, connected, hung_up, cleaned, marked, push, run_server, is_heard, uuid_of,
}
use net_discover.Gateway.Heard.{run_server-one_heard}

abbrev attempts : List (String × ℕ)
attempts = ("b", 70) ∷ ("a", 30) ∷ ("a", 5) ∷ []

one_in_window : count_where (in_window 60 "a" 80) attempts ≡ 1
unfolding count_where
one_in_window = refl

-- Twenty attempts at once, and the next is refused.
abbrev twenty : List (String × ℕ)
twenty =
    map (λ t. ("a", t))
      (9 ∷ 9 ∷ 9 ∷ 9 ∷ 9 ∷ 9 ∷ 9 ∷ 9 ∷ 9 ∷ 9 ∷ 9 ∷ 9 ∷ 9 ∷ 9 ∷ 9 ∷ 9 ∷ 9 ∷ 9 ∷ 9 ∷ 9 ∷ [])

twenty_first : (auth_rate_limited 60 "a" 10 (run_attempts 60 twenty)).0 ≡ true
unfolding auth_rate_limited run_attempts
twenty_first = refl

abbrev revoked : ℕ → Bool
revoked t = leb 100 t

abbrev frames : List (ℕ × Frame)
frames = (99, heartbeat (some 1)) ∷ (104, event) ∷ (108, event) ∷ (109, event) ∷ (300, event) ∷ []

serve-cut_off_example : All (λ t. t < 100 + 10) (serve 10 revoked frames (new_agent_connection "u"))
serve-cut_off_example = serve-cut_off 10 100 revoked (λ t late. ground (arith, late)) "u" frames

three_more : serve 10 revoked frames (new_agent_connection "u") ≡ 99 ∷ 104 ∷ 108 ∷ []
unfolding serve new_agent_connection
three_more = refl

abbrev sensor : Agent
sensor = record {
  id = 1;
  agent_uuid = "u";
  project_id = 5;
  name = "sensor";
  status = AgentStatus.online;
  agent_version = none;
  os_info = none;
  last_seen_at = none;
  revoked_at = none;
  health = record {
    cpu_percent = none;
    memory_percent = none;
    disk_percent = none;
    uptime_s = none;
    capd_reachable = none;
    capture_active = none;
    last_error = none;
  };
}

abbrev start : GatewayServer
start = record {
  connections = [];
  handlers = λ n. record { conn = new_agent_connection ""; phase = Phase.gone };
  next = 0;
  tables = record {
    agents = sensor ∷ [];
    tokens = [];
    credentials = [];
    sessions = [];
    projects = [];
    members = [];
    next_agent_id = 2;
  };
}

-- The agent connects again while its old connection is open, and the old one ends later.
abbrev reconnect : List ServerEvent
reconnect = connected "u" ∷ connected "u" ∷ push "u" ∷ hung_up 0 ∷ cleaned 0 ∷ marked 0 ∷ []

two_handlers : (run_server 10 reconnect start).next ≡ 2
unfolding run_server
two_handlers = refl

second_heard : is_heard ((run_server 10 reconnect start).handlers 1) ≡ true
unfolding run_server
second_heard = refl

run_server-one_heard_example :
    find_connection
      (uuid_of ((run_server 10 reconnect start).handlers 1))
      (run_server 10 reconnect start).connections
    ≡ some 1
run_server-one_heard_example =
    run_server-one_heard 10 reconnect start refl 1 (rw two_handlers (omega arith)) second_heard

still_online :
    map (λ a. a.status) (run_server 10 reconnect start).tables.agents ≡ AgentStatus.online ∷ []
unfolding run_server
still_online = refl

-- The old connection's cleanup is under way when the agent connects again: it is marked offline
-- while it is heard.
abbrev race : List ServerEvent
race = connected "u" ∷ hung_up 0 ∷ cleaned 0 ∷ connected "u" ∷ marked 0 ∷ []

race_heard : is_heard ((run_server 10 race start).handlers 1) ≡ true
unfolding run_server
race_heard = refl

race_offline :
    map (λ a. a.status) (run_server 10 race start).tables.agents ≡ AgentStatus.offline ∷ []
unfolding run_server
race_offline = refl
