-- ===== src/Fleet/Operations.antt =====
-- The calls that reach the fleet's tables, from agents through the gateway and from users through
-- the routes, one after the other: enrolment, authentication, heartbeats and reports, tokens,
-- revocation, removal and rotation, and the captures that users start and stop. A transaction of
-- the database is one step. The removal of a whole project or user is not among them.
use net_discover.Prelude.{ℕ, String, Bool, List, [], ◌∷◌, Option, none, some}
use net_discover.Fleet.Agents.{Tables}
use net_discover.Fleet.Gateway.{Draws, EnrollRequest, enroll_agent}
use net_discover.Fleet.Presence.{
  AuthRequest, Heartbeat, SessionStats, authenticate_agent, record_heartbeat, mark_offline,
  record_session_stats,
}
use net_discover.Fleet.Admin.{
  revoke_agent, delete_agent, rotate_agent_credential, issue_enrollment_token,
}
use net_discover.Fleet.Captures.{
  NewSession, StopReply, FinalFrame, finalize_session, open_session, capture_started, request_stop,
  capture_stopped,
}

pub data FleetCall : Type 0 where
  enroll : Draws → EnrollRequest → FleetCall
  authenticate : ℕ → AuthRequest → FleetCall
  heartbeat : ℕ → String → Heartbeat → FleetCall
  disconnect : String → FleetCall
  session_stats : ℕ → String → SessionStats → FleetCall
  revoke : ℕ → Option ℕ → ℕ → FleetCall
  delete : Option ℕ → ℕ → FleetCall
  rotate : ℕ → Option ℕ → ℕ → String → FleetCall
  issue_token : ℕ → Option ℕ → ℕ → String → FleetCall
  start_capture : NewSession → FleetCall
  start_answered : ℕ → ℕ → Bool → FleetCall
  stop_capture : Option ℕ → ℕ → FleetCall
  stop_answered : ℕ → ℕ → StopReply → FleetCall
  finalize : ℕ → ℕ → Option FinalFrame → FleetCall

module _ (hash : String → String) where
  unfoldable pub perform : FleetCall → Tables → Tables
  unfolding enroll_agent authenticate_agent record_heartbeat mark_offline record_session_stats
      revoke_agent delete_agent rotate_agent_credential issue_enrollment_token open_session
      capture_started request_stop capture_stopped finalize_session
  perform (enroll d r) t = (enroll_agent hash d r t).1
  perform (authenticate now r) t = (authenticate_agent hash now r t).1
  perform (heartbeat now u b) t = elim (record_heartbeat now u b t) [ none ↦ t | some v ↦ v ]
  perform (disconnect u) t = mark_offline u t
  perform (session_stats now u p) t = record_session_stats now u p t
  perform (revoke now uid id) t = (revoke_agent now uid id t).1
  perform (delete uid id) t = (delete_agent uid id t).1
  perform (rotate now uid id raw) t = (rotate_agent_credential hash now uid id raw t).1
  perform (issue_token now uid pid raw) t = (issue_enrollment_token hash now uid pid raw t).1
  perform (start_capture r) t = open_session r t
  perform (start_answered now id answered) t = capture_started now id answered t
  perform (stop_capture user id) t = request_stop user id t
  perform (stop_answered now id reply) t = capture_stopped now id reply t
  perform (finalize now id frame) t = finalize_session now id frame t

  unfoldable pub perform_all : List FleetCall → Tables → Tables
  unfolding perform
  perform_all [] t = t
  perform_all (op ∷ ops) t = perform_all ops (perform op t)
