-- ===== src/Gateway/FirstScenarios.antt =====
-- First frames at a gateway: one that enrols, one that comes back, and one address that guesses.
use net_discover.Prelude.{
  ℕ, zero, suc, ◌≤◌, String, List, [], ◌∷◌, none, some, true, false, ◌≡◌, refl, arith,
}
use net_discover.Fleet.Agents.{AgentEnrollmentToken}
use net_discover.Fleet.Gateway.{Draws, unauthorized, GatewayAuthError}
use net_discover.Gateway.Limiter.{attempts_per_window}
use net_discover.Gateway.Connections.{Phase, GatewayServer}
use net_discover.Gateway.Frames.{new_agent_connection}
use net_discover.Gateway.AdminSocket.{
  AdminRequest, push, unauthorized, pushed, handle_admin_connection,
}
use net_discover.Gateway.FirstFrame.{
  FirstFrame, enroll, auth, Visit, Answer, rate_limited, refused, authenticated, Door, first_frame,
}
use net_discover.Gateway.Admission.{admits}
use net_discover.Gateway.Tries.{attempts_by, run_visits, tries, tries-le}

abbrev same_text : String → String
same_text s = s

abbrev standing : AgentEnrollmentToken
standing = record {
  project_id = 5;
  agent_id = none;
  token_hash = "welcome";
  expires_at = none;
  used_at = none;
  is_standing = true;
  revoked_at = none;
  created_by = none;
}

abbrev start : GatewayServer
start = record {
  connections = [];
  handlers = λ n. record { conn = new_agent_connection ""; phase = Phase.gone };
  next = 0;
  tables = record {
    agents = [];
    tokens = standing ∷ [];
    credentials = [];
    sessions = [];
    projects = [];
    members = [];
    next_agent_id = 1;
  };
}

abbrev draws : Draws
draws = record {
  now = 50;
  agent_uuid = "u";
  agent_name = "agent-u";
  credential = "secret";
  sign = λ csr u. none;
}

abbrev visit : String → ℕ → FirstFrame → Visit
visit ip clock f = record {
  peer = some ip;
  clock = clock;
  draws = draws;
  peer_cert_fingerprint = none;
  delivered = true;
  frame = some f;
}

abbrev with_token : String → FirstFrame
with_token raw =
    enroll (some 1) (record {
      raw_token = raw;
      name = none;
      agent_version = none;
      os_info = none;
      csr_pem = none;
    })

abbrev good : Visit
good = visit "b" 1 (with_token "welcome")

abbrev again : Visit
again = visit "b" 2 (auth (some 2) "u" "secret")

abbrev wrong : Visit
wrong = visit "a" 3 (auth (some 3) "u" "guess")

abbrev visits : List Visit
visits = wrong ∷ again ∷ good ∷ []

abbrev door : List Visit → Door
door vs = run_visits same_text 60 vs start

abbrev answer : Visit → List Visit → Answer
answer v before = (first_frame same_text 60 v (door before)).0

comes_back : answer again (good ∷ []) ≡ authenticated (some 2) "u"
unfolding first_frame run_visits
comes_back = refl

-- The second connection took the place of the first.
in_table : (door (again ∷ good ∷ [])).server.connections ≡ ("u", 1) ∷ []
unfolding run_visits
in_table = refl

wrong_credential : answer wrong (again ∷ good ∷ []) ≡ refused (some 3) GatewayAuthError.unauthorized
unfolding first_frame run_visits
wrong_credential = refl

-- The token was redeemed, but nobody heard of the credential.
undelivered : (door (record good { delivered = false } ∷ [])).server.connections ≡ []
unfolding run_visits
undelivered = refl

abbrev request : String → AdminRequest
request token = record { admin_token = token; method = push "u" }

-- The first command pushed on a connection has the id 2.
with_token_pushed :
    (handle_admin_connection none none
      (some "key")
      (request "" ∷ request "key" ∷ [])
      (door visits).server).0
    ≡ unauthorized ∷ pushed 1 2 ∷ []
unfolding run_visits handle_admin_connection
with_token_pushed = refl

wrong_uid :
    (handle_admin_connection
      (some (0 ∷ []))
      (some 1000)
      none
      (request "" ∷ [])
      (door visits).server).0
    ≡ unauthorized ∷ []
unfolding handle_admin_connection
wrong_uid = refl

abbrev guesses : ℕ → List Visit → List Visit
guesses zero vs = vs
guesses (suc n) vs = wrong ∷ guesses n vs

twenty_first : answer wrong (guesses 20 []) ≡ rate_limited (some 3)
unfolding first_frame run_visits
twenty_first = refl

not_admitted : admits (answer wrong visits) ≡ false
unfolding first_frame run_visits admits
not_admitted = refl

tries-le_example :
    (tries same_text 60 "a" 9 visits start ≤ attempts_per_window)
    × ((v : Visit)
        → admits (answer v visits) ≡ false
        → (first_frame same_text 60 v (door visits)).1.server ≡ (door visits).server)
unfolding attempts_by
tries-le_example =
    tries-le same_text 60 "a" 9 visits start (omega arith, (omega arith, (omega arith, tt)))

one_try : tries same_text 60 "a" 9 visits start ≡ 1
unfolding tries
one_try = refl

twenty_tries : tries same_text 60 "a" 9 (guesses 23 []) start ≡ 20
unfolding tries
twenty_tries = refl
