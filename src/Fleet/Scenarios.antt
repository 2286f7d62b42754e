-- ===== src/Fleet/Scenarios.antt =====
-- A small fleet: one project with two agents, and the theorems about its tables there.
use net_discover.Prelude.{
  ℕ, ◌≤◌, String, List, [], ◌∷◌, Option, none, some, true, false, ◌≡◌, ◌↔◌, ◌≢◌, refl, arith, inl,
  inr, All, str_eq_iff, find_where, map,
}
use net_discover.Fleet.Agents.{
  Agent, AgentStatus, AgentEnrollmentToken, AgentCredential, CaptureSession, SessionStatus, Tables,
  has_session, Reading, number, infinity,
}
use net_discover.Fleet.Gateway.{
  unauthorized, token_used, Draws, EnrollRequest, Enrolled, enroll_agent, no_health,
}
use net_discover.Fleet.Presence.{
  AuthRequest, SessionStats, Heartbeat, authenticate_agent, cert_matches, record_heartbeat,
}
use net_discover.Fleet.Admin.{done, token, not_found, revoke_agent, rotate_agent_credential}
use net_discover.Fleet.Badge.{compute_health, warning}
use net_discover.Fleet.Captures.{NewSession, totals}
use net_discover.Fleet.Operations.{
  FleetCall, enroll, authenticate, disconnect, session_stats, start_capture, stop_capture,
  stop_answered, revoke, delete, rotate, perform_all,
}
use net_discover.Fleet.Redeemed.{is_ok}
use net_discover.Fleet.Tokens.{redemptions, redemptions-once}
use net_discover.Fleet.Revoked.{RevokedRow, revoke_agent-final}
use net_discover.Fleet.Admitted.{Shows, issued_fingerprint, enroll_agent-authenticates}
use net_discover.Fleet.Retired.{by_rotation, Retired-final}
use net_discover.Fleet.Tenants.{perform_all-isolates}

abbrev hash : String → String
hash s = s

abbrev agent : ℕ → String → Agent
agent id uuid = record {
  id = id;
  agent_uuid = uuid;
  project_id = 5;
  name = "sensor";
  status = AgentStatus.online;
  agent_version = none;
  os_info = none;
  last_seen_at = none;
  revoked_at = none;
  health = no_health;
}

abbrev one_time : Option ℕ → String → AgentEnrollmentToken
one_time id h = record {
  project_id = 5;
  agent_id = id;
  token_hash = h;
  expires_at = some 900;
  used_at = none;
  is_standing = false;
  revoked_at = none;
  created_by = some 7;
}

abbrev key : ℕ → String → AgentCredential
key id h = record {
  agent_id = id;
  key_hash = h;
  issued_at = 0;
  revoked_at = none;
  cert_fingerprint_sha256 = none;
}

abbrev remote_session : CaptureSession
remote_session = record {
  id = 3;
  session_uuid = "s";
  user_id = 7;
  project_id = some 5;
  status = SessionStatus.running;
  stopped_at = none;
  bytes_captured = 10;
  packets_captured = 1;
  drop_count = 0;
  rotation_count = 2;
  agent_id = some 1;
}

abbrev fleet : List AgentEnrollmentToken → Tables
fleet tokens = record {
  agents = agent 1 "u1" ∷ agent 2 "u2" ∷ [];
  tokens = tokens;
  credentials = key 1 "k1" ∷ key 2 "k2" ∷ [];
  sessions = remote_session ∷ [];
  projects = record { id = 5; user_id = 7 } ∷ [];
  members = record { project_id = 5; user_id = 8; role = "viewer" } ∷ [];
  next_agent_id = 3;
}

abbrev draws : String → String → Draws
draws uuid credential = record {
  now = 100;
  agent_uuid = uuid;
  agent_name = "agent-1";
  credential = credential;
  sign = λ csr cn. some ("pem", "fp");
}

abbrev request : String → EnrollRequest
request raw = record {
  raw_token = raw;
  name = none;
  agent_version = some "1.0";
  os_info = none;
  csr_pem = some "csr";
}

abbrev auth : String → String → AuthRequest
auth uuid credential = record {
  agent_uuid = uuid;
  raw_credential = credential;
  peer_cert_fingerprint = some "fp";
}

abbrev with_token : Tables
with_token = fleet (one_time none "tok" ∷ [])

-- The second enrolment with one token is refused.
second_refused :
    (enroll_agent hash
      (draws "u4" "k4")
      (request "tok")
      (perform_all hash (enroll (draws "u3" "k3") (request "tok") ∷ []) with_token)).0
    ≡ inl token_used
unfolding enroll_agent perform_all
second_refused = refl

abbrev twice : List FleetCall
twice =
    enroll (draws "u3" "k3") (request "tok")
    ∷ disconnect "u3"
    ∷ enroll (draws "u4" "k4") (request "tok")
    ∷ []

redemptions-once_example : redemptions hash "tok" twice with_token ≤ 1
redemptions-once_example =
    redemptions-once hash "tok" twice with_token ((λ is. refl), tt) (tt, (tt, (tt, tt)))

redeemed : redemptions hash "tok" twice with_token ≡ 1
unfolding redemptions
redeemed = refl

-- A viewer may not revoke, and the owner may.
abbrev calm : List FleetCall
calm = authenticate 120 (auth "u1" "k1") ∷ disconnect "u1" ∷ rotate 130 (some 7) 1 "raw" ∷ []

viewer_denied : (revoke_agent 110 (some 8) 1 with_token).0 ≡ not_found
unfolding revoke_agent
viewer_denied = refl

owner_done : (revoke_agent 110 (some 7) 1 with_token).0 ≡ done
unfolding revoke_agent
owner_done = refl

revoke_agent-final_example :
    ((authenticate_agent hash 140
        (auth "u1" "k1")
        (perform_all hash calm (revoke_agent 110 (some 7) 1 with_token).1)).0
      ≢ inr 1)
    × All (RevokedRow 1) (perform_all hash calm (revoke_agent 110 (some 7) 1 with_token).1).agents
revoke_agent-final_example =
    revoke_agent-final 1 hash 110 (some 7) with_token owner_done
      ((λ is. absurd (ground (arith, is))), tt) (omega arith) calm 140 (auth "u1" "k1")

-- A rotation token from before a revocation brings the agent back.
abbrev rotated_tables : Tables
rotated_tables =
    perform_all hash
      (rotate 100 (some 7) 1 "rot"
        ∷ revoke 110 (some 7) 1
        ∷ enroll (draws "u9" "k9") (request "rot")
        ∷ [])
      (fleet [])

revival : (authenticate_agent hash 120 (auth "u1" "k9") rotated_tables).0 ≡ inr 1
unfolding authenticate_agent perform_all
revival = refl

abbrev enrolled : Enrolled
enrolled = record { agent_uuid = "u3"; credential = "k3"; client_cert_pem = some "pem" }

enrolls :
    (enroll_agent hash (draws "u3" "k3") (request "tok") (perform_all hash calm with_token)).0
    ≡ inr enrolled
unfolding enroll_agent perform_all
enrolls = refl

enroll_agent-authenticates_example :
    (is_ok
        (authenticate_agent hash 150
          (record { agent_uuid = "u3"; raw_credential = "k3"; peer_cert_fingerprint = none })
          (enroll_agent hash
            (draws "u3" "k3")
            (request "tok")
            (perform_all hash calm with_token)).1).0
      ≡ true)
    ↔ Shows (issued_fingerprint (draws "u3" "k3") (request "tok") "u3") none
unfolding find_where
enroll_agent-authenticates_example =
    enroll_agent-authenticates hash calm with_token (refl, (refl, tt)) (draws "u3" "k3")
      (request "tok") enrolled enrolls 150 none

-- Without the certificate the new credential is refused.
no_certificate :
    cert_matches (issued_fingerprint (draws "u3" "k3") (request "tok") "u3") none ≡ false
unfolding cert_matches issued_fingerprint
no_certificate = refl

rotates : (rotate_agent_credential hash 100 (some 7) 1 "rot" with_token).0 ≡ token "rot"
unfolding rotate_agent_credential
rotates = refl

abbrev afterwards : List FleetCall
afterwards = enroll (draws "u3" "k9") (request "rot") ∷ disconnect "u1" ∷ []

before_rotation : (authenticate_agent hash 90 (auth "u1" "k1") with_token).0 ≡ inr 1
unfolding authenticate_agent
before_rotation = refl

other_key : hash "k9" ≢ "k1"
other_key is = ground (arith, (str_eq_iff "k9" "k1").1 is)

abbrev intruder : String
intruder = "u2"

other_agent : intruder ≢ "u1"
other_agent is = ground (arith, (str_eq_iff intruder "u1").1 is)

Retired-final_example :
    (authenticate_agent hash 150 (auth "u1" "k1") (
      perform_all hash afterwards
        (rotate_agent_credential hash 100 (some 7) 1 "rot" with_token).1)).0
    ≡ inl unauthorized
Retired-final_example =
    Retired-final hash 1 with_token (rotate_agent_credential hash 100 (some 7) 1 "rot" with_token).1
      (by_rotation 100 (some 7) "rot" rotates) (auth "u1" "k1")
      ((λ is. refl), ((λ is. absurd (ground (arith, is))), tt)) afterwards (other_key, (tt, tt)) 150

abbrev stats : SessionStats
stats = record {
  session_uuid = "s";
  bytes_captured = 99;
  rotation_count = 1;
  running = false;
  packets_captured = none;
  drop_count = some 4;
}

abbrev second_session : NewSession
second_session = record {
  id = 4;
  session_uuid = "s2";
  user_id = 8;
  project_id = 5;
  agent_id = some 2;
}

-- The other agent reports on the session, a user starts and stops a capture on it, and it is
-- revoked and removed.
abbrev intrusion : List FleetCall
intrusion =
    session_stats 100 "u2" stats
    ∷ start_capture second_session
    ∷ stop_capture (some 8) 4
    ∷ revoke 110 (some 7) 2
    ∷ delete (some 7) 2
    ∷ []

second_stops :
    map
      (λ s. s.status)
      (perform_all hash
        (start_capture second_session ∷ stop_capture (some 8) 4 ∷ [])
        with_token).sessions
    ≡ SessionStatus.stopping ∷ SessionStatus.running ∷ []
unfolding perform_all
second_stops = refl

-- Another user's stop changes nothing, and the owner's ends the capture.
owner_stops :
    (perform_all hash
      (stop_capture (some 8) 3
        ∷ stop_capture (some 7) 3
        ∷ stop_answered 90 3 (totals 5 none (some 2) 0)
        ∷ [])
      with_token).sessions
    ≡ record remote_session {
      status = SessionStatus.stopped;
      stopped_at = some 90;
      bytes_captured = 5;
      drop_count = 2;
    }
      ∷ []
unfolding perform_all
owner_stops = refl

perform_all-isolates_example :
    find_where (has_session "s") (perform_all hash intrusion with_token).sessions
    ≡ some remote_session
unfolding find_where
perform_all-isolates_example =
    perform_all-isolates 1 "u1" "s" remote_session hash with_token refl refl
      ((λ is. refl), ((λ is. absurd (ground (arith, is))), tt)) (omega arith) intrusion
      (other_agent, (tt, ((λ is. ground (arith, is)), (tt, ((λ is. ground (arith, is)), tt)))))

-- The agent itself may.
own_report :
    (perform_all hash (session_stats 100 "u1" stats ∷ []) with_token).sessions
    ≡ record remote_session {
      status = SessionStatus.stopped;
      stopped_at = some 100;
      bytes_captured = 99;
      drop_count = 4;
    }
      ∷ []
unfolding perform_all
own_report = refl

-- A heartbeat with an infinite uptime raises, and one that is unreadable does not.
abbrev beat_with : Option Reading → Heartbeat
beat_with uptime = record {
  cpu_percent = some (number 80);
  memory_percent = none;
  disk_percent = none;
  uptime_s = uptime;
  capd_reachable = some true;
  capture_active = none;
  last_error = some "";
}

infinite_uptime : record_heartbeat 100 "u1" (beat_with (some infinity)) with_token ≡ none
unfolding record_heartbeat
infinite_uptime = refl

badge :
    compute_health
      (record (agent 1 "u1") { health = record no_health { cpu_percent = some (number 80) } })
    ≡ some warning
unfolding compute_health
badge = refl
