-- ===== src/Fleet/Refines.antt =====
-- Each operation of the fleet is a step of the relation, with its operation's name.
use net_discover.Prelude.{
  ℕ, String, Option, some, false, ◌≡◌, refl, arith, inl, inr, find_where, change_where, Bool-cases,
  Option-cases,
}
use net_discover.Fleet.Agents.{
  Agent, Tables, has_id, has_uuid, has_hash, has_session, is_revoked, AgentStatus, online, offline,
}
use net_discover.Fleet.Presence.{
  AuthRequest, Heartbeat, SessionStats, seen, beat, health_snapshot, with_status, proved_agent,
  present_agent, is_reporting, session_owned_by_agent, authenticate_agent, safe_int,
  record_heartbeat, mark_offline, record_session_stats,
}
use net_discover.Fleet.Admin.{
  editable_agent, revoke_agent, delete_agent, add_token, rotation_token, standing_token,
  is_standing_of, end_token, rotate_agent_credential, mint_standing_token, get_project_for_user,
  issue_enrollment_token,
}
use net_discover.Fleet.Operations.{
  FleetCall, enroll, authenticate, heartbeat, disconnect, session_stats, start_capture,
  start_answered, stop_capture, stop_answered, finalize, revoke, delete, rotate, issue_token,
  perform,
}
use net_discover.Fleet.Steps.{
  KeepsKeys, Step, idle, written, reported, ended, removed, rotated, standing,
}
use net_discover.Fleet.Enrolls.{enroll_agent-Step}
use net_discover.Fleet.Steered.{
  open_session-Step, capture_started-Step, request_stop-Step, capture_stopped-Step,
  finalize_session-Step,
}

known-proved_agent :
    (hash : String → String) (r : AuthRequest) (t : Tables) {a : Agent}
    → proved_agent hash r t ≡ some a
    → (find_where (has_uuid r.agent_uuid) t.agents ≡ some a) × (is_revoked a.status ≡ false)
unfolding proved_agent
known-proved_agent hash r t h = ground (arith, h)

known-present_agent :
    (u : String) (t : Tables) {a : Agent}
    → present_agent u t ≡ some a
    → (find_where (has_uuid u) t.agents ≡ some a) × (is_revoked a.status ≡ false)
unfolding present_agent
known-present_agent u t h = ground (arith, h)

module _ (hash : String → String) where
  module _ (t : Tables) where
    seen-KeepsKeys : (s : AgentStatus) (now : ℕ) → KeepsKeys (seen s now)
    unfolding seen
    seen-KeepsKeys s now = record { same_id = λ a. refl; same_uuid = λ a. refl }

    authenticate_agent-Step :
        (now : ℕ) (r : AuthRequest)
        → Step hash t (authenticate now r) (authenticate_agent hash now r t).1
    unfolding authenticate_agent
    authenticate_agent-Step now r = elim (Option-cases (proved_agent hash r t)) [
      | inl unproved ↦ rw (authenticate_agent, unproved) (idle (authenticate now r))
      | inr (a, proved) ↦
          rw (authenticate_agent, proved)
            (written (authenticate now r) r.agent_uuid a (seen online now)
              (known-proved_agent hash r t proved).0 (known-proved_agent hash r t proved).1
              (seen-KeepsKeys online now))
    ]

    record_heartbeat-Step :
        (now : ℕ) (u : String) (b : Heartbeat)
        → Step hash t (heartbeat now u b) (perform hash (heartbeat now u b) t)
    unfolding perform record_heartbeat beat
    record_heartbeat-Step now u b = elim (Option-cases (present_agent u t)) [
      | inl absent ↦ rw (perform, record_heartbeat, absent) (idle (heartbeat now u b))
      | inr (a, present) ↦ elim (Option-cases (safe_int b.uptime_s)) [
        | inl raised ↦ rw (perform, record_heartbeat, present, raised) (idle (heartbeat now u b))
        | inr (up, read) ↦
            rw (perform, record_heartbeat, present, read)
              (written (heartbeat now u b) u a (beat now (health_snapshot b up))
                (known-present_agent u t present).0 (known-present_agent u t present).1
                (record { same_id = λ a. refl; same_uuid = λ a. refl }))
      ]
    ]

    mark_offline-Step : (u : String) → Step hash t (disconnect u) (mark_offline u t)
    unfolding mark_offline
    mark_offline-Step u = elim (Option-cases (present_agent u t)) [
      | inl absent ↦ rw (mark_offline, absent) (idle (disconnect u))
      | inr (a, present) ↦
          rw (mark_offline, present)
            (written (disconnect u) u a (with_status offline) (known-present_agent u t present).0
              (known-present_agent u t present).1
              (record { same_id = λ a. refl; same_uuid = λ a. refl }))
    ]

    record_session_stats-Step :
        (now : ℕ) (u : String) (p : SessionStats)
        → Step hash t (session_stats now u p) (record_session_stats now u p t)
    unfolding record_session_stats
    record_session_stats-Step now u p =
        elim (Option-cases (find_where (has_session p.session_uuid) t.sessions)) [
          | inl unknown ↦ rw (record_session_stats, unknown) (idle (session_stats now u p))
          | inr (cs, known) ↦ elim (Bool-cases (is_reporting cs.status)) [
            | inr over ↦ rw (record_session_stats, known, over) (idle (session_stats now u p))
            | inl live ↦ elim (Bool-cases (session_owned_by_agent cs u t)) [
              | inr other ↦
                  rw (record_session_stats, known, live, other) (idle (session_stats now u p))
              | inl owned ↦
                  rw (record_session_stats, known, live, owned) (reported now u p cs known owned)
            ]
          ]
        ]

    revoke_agent-Step :
        (now : ℕ) (uid : Option ℕ) (id : ℕ)
        → Step hash t (revoke now uid id) (revoke_agent now uid id t).1
    unfolding revoke_agent
    revoke_agent-Step now uid id = elim (Option-cases (editable_agent uid id t)) [
      | inl denied ↦ rw (revoke_agent, denied) (idle (revoke now uid id))
      | inr (a, granted) ↦ rw (revoke_agent, granted) (ended now uid id)
    ]

    delete_agent-Step :
        (uid : Option ℕ) (id : ℕ) → Step hash t (delete uid id) (delete_agent uid id t).1
    unfolding delete_agent
    delete_agent-Step uid id = elim (Option-cases (editable_agent uid id t)) [
      | inl denied ↦ rw (delete_agent, denied) (idle (delete uid id))
      | inr (a, granted) ↦ elim (Bool-cases (is_revoked a.status)) [
        | inl out ↦ rw (delete_agent, granted, out) (removed uid id)
        | inr live ↦ rw (delete_agent, granted, live) (idle (delete uid id))
      ]
    ]

    known-editable_agent :
        (uid : Option ℕ) (id : ℕ) {a : Agent}
        → editable_agent uid id t ≡ some a
        → find_where (has_id id) t.agents ≡ some a
    unfolding editable_agent
    known-editable_agent uid id h = ground (arith, h)

    rotate_agent_credential-Step :
        (now : ℕ) (uid : Option ℕ) (id : ℕ) (raw : String)
        → Step hash t (rotate now uid id raw) (rotate_agent_credential hash now uid id raw t).1
    unfolding rotate_agent_credential add_token rotation_token
    rotate_agent_credential-Step now uid id raw = elim (Option-cases (editable_agent uid id t)) [
      | inl denied ↦ rw (rotate_agent_credential, denied) (idle (rotate now uid id raw))
      | inr (a, granted) ↦ elim (Bool-cases (is_revoked a.status)) [
        | inl out ↦ rw (rotate_agent_credential, granted, out) (idle (rotate now uid id raw))
        | inr live ↦ elim (Option-cases (find_where (has_hash (hash raw)) t.tokens)) [
          | inl free ↦
              rw (rotate_agent_credential, granted, live, add_token, free)
                (rotated now uid id raw a (known-editable_agent uid id granted) live free)
          | inr (k, taken) ↦
              rw (rotate_agent_credential, granted, live, add_token, taken)
                (idle (rotate now uid id raw))
        ]
      ]
    ]

    issue_enrollment_token-Step :
        (now : ℕ) (uid : Option ℕ) (pid : ℕ) (raw : String)
        → Step hash t
            (issue_token now uid pid raw)
            (issue_enrollment_token hash now uid pid raw t).1
    unfolding issue_enrollment_token mint_standing_token add_token standing_token
    issue_enrollment_token-Step now uid pid raw =
        elim (Option-cases (get_project_for_user pid 2 uid t)) [
          | inl denied ↦ rw (issue_enrollment_token, denied) (idle (issue_token now uid pid raw))
          | inr (p, granted) ↦
              elim (Option-cases (
                find_where (has_hash (hash raw))
                  (change_where (is_standing_of pid) (end_token now) t.tokens))) [
                    | inl free ↦
                        rw (issue_enrollment_token, granted, mint_standing_token, add_token, free)
                          (standing now uid pid raw free)
                    | inr (k, taken) ↦
                        rw (issue_enrollment_token, granted, mint_standing_token, add_token, taken)
                          (idle (issue_token now uid pid raw))
                  ]
        ]

  -- Every operation on the fleet's tables is a transaction of the relation, under its conditions,
  -- or leaves the tables as they are.
  pub perform-Step : (op : FleetCall) (t : Tables) → Step hash t op (perform hash op t)
  unfolding perform
  perform-Step (enroll d r) t = enroll_agent-Step hash t d r
  perform-Step (authenticate now r) t = authenticate_agent-Step t now r
  perform-Step (heartbeat now u b) t = record_heartbeat-Step t now u b
  perform-Step (disconnect u) t = mark_offline-Step t u
  perform-Step (session_stats now u p) t = record_session_stats-Step t now u p
  perform-Step (revoke now uid id) t = revoke_agent-Step t now uid id
  perform-Step (delete uid id) t = delete_agent-Step t uid id
  perform-Step (rotate now uid id raw) t = rotate_agent_credential-Step t now uid id raw
  perform-Step (issue_token now uid pid raw) t = issue_enrollment_token-Step t now uid pid raw
  perform-Step (start_capture r) t = open_session-Step hash t r
  perform-Step (start_answered now id answered) t = capture_started-Step hash t now id answered
  perform-Step (stop_capture user id) t = request_stop-Step hash t user id
  perform-Step (stop_answered now id reply) t = capture_stopped-Step hash t now id reply
  perform-Step (finalize now id frame) t = finalize_session-Step hash t now id frame
