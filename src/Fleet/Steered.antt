-- ===== src/Fleet/Steered.antt =====
-- The calls of marlinspike/capture/api.py on the sessions are steps of the relation.
use net_discover.Prelude.{
  ℕ, String, Bool, Option, none, some, ◌≡◌, refl, arith, inl, inr, find_where, Bool-cases,
  Option-cases,
}
use net_discover.Fleet.Agents.{CaptureSession, Tables, has_session}
use net_discover.Fleet.Presence.{is_reporting}
use net_discover.Fleet.Captures.{
  NewSession, StopReply, failure, totals, has_sid, open_session, started_row, capture_started,
  may_stop, stopping_row, request_stop, stopped_row, capture_stopped, FinalFrame, ended_row,
  finalized_row, finalize_session,
}
use net_discover.Fleet.Operations.{
  start_capture, start_answered, stop_capture, stop_answered, finalize,
}
use net_discover.Fleet.Steps.{Step, idle, opened, steered}

module _ (hash : String → String) (t : Tables) where
  pub open_session-Step : (r : NewSession) → Step hash t (start_capture r) (open_session r t)
  unfolding open_session
  open_session-Step r = elim (Option-cases (find_where (has_session r.session_uuid) t.sessions)) [
    | inl free ↦ rw (open_session, free) (opened r free)
    | inr (s, taken) ↦ rw (open_session, taken) (idle (start_capture r))
  ]

  pub capture_started-Step :
      (now id : ℕ) (answered : Bool)
      → Step hash t (start_answered now id answered) (capture_started now id answered t)
  unfolding capture_started started_row
  capture_started-Step now id answered =
      steered (start_answered now id answered) id (started_row now answered) refl
        (λ s. ground arith)

  pub request_stop-Step :
      (user : Option ℕ) (id : ℕ) → Step hash t (stop_capture user id) (request_stop user id t)
  unfolding request_stop
  request_stop-Step user id = elim (Option-cases (find_where (has_sid id) t.sessions)) [
    | inl unknown ↦ rw (request_stop, unknown) (idle (stop_capture user id))
    | inr (s, known) ↦ elim (Bool-cases (may_stop user s)) [
      | inr other ↦ rw (request_stop, known, other) (idle (stop_capture user id))
      | inl own ↦ elim (Bool-cases (is_reporting s.status)) [
        | inr over ↦ rw (request_stop, known, own, over) (idle (stop_capture user id))
        | inl live ↦
            rw (request_stop, known, own, live)
              (steered (stop_capture user id) id stopping_row refl (λ x. refl))
      ]
    ]
  ]

  same-stopped_row :
      (now : ℕ) (reply : StopReply) (s : CaptureSession)
      → (stopped_row now reply s).session_uuid ≡ s.session_uuid
  unfolding stopped_row
  same-stopped_row now failure s = refl
  same-stopped_row now (totals bytes packets drops closed) s = refl

  pub capture_stopped-Step :
      (now id : ℕ) (reply : StopReply)
      → Step hash t (stop_answered now id reply) (capture_stopped now id reply t)
  unfolding capture_stopped
  capture_stopped-Step now id reply =
      steered (stop_answered now id reply) id (stopped_row now reply) refl
        (same-stopped_row now reply)

  same-finalized_row :
      (now : ℕ) (frame : Option FinalFrame) (s : CaptureSession)
      → (finalized_row now frame s).session_uuid ≡ s.session_uuid
  unfolding finalized_row ended_row
  same-finalized_row now none s = ground arith
  same-finalized_row now (some f) s = ground arith

  pub finalize_session-Step :
      (now id : ℕ) (frame : Option FinalFrame)
      → Step hash t (finalize now id frame) (finalize_session now id frame t)
  unfolding finalize_session
  finalize_session-Step now id frame =
      steered (finalize now id frame) id (finalized_row now frame) refl
        (same-finalized_row now frame)
