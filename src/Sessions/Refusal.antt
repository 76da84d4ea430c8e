-- ===== src/Sessions/Refusal.antt =====
-- `enter_with_invitation` for an invitation whose session exists: when it is refused, and what a
-- refusal leaves behind.
use i_bot_core_api_service.Prelude.{
  ◌+◌, ◌≡◌, refl, ap, ◌&&◌, Option, none, some, length, length-append, string_eq, nat_eq,
  if◌then◌else◌, Bool-cases, inl, inr, arith,
}
use i_bot_core_api_service.Db.{
  Db, Uuid, Time, InterviewSession, CandidateAssessment, Error, ok, err, session_expired,
  session_closed, find, ◌>>=◌,
}
use i_bot_core_api_service.Repositories.Env.{Env}
use i_bot_core_api_service.Repositories.Contexts.{
  InvitationContext, invitation_row, has_invitation, lock_invitation_context,
}
use i_bot_core_api_service.Repositories.CandidateSession.{
  of_enrollment, get_or_create_session_for_update,
}
use i_bot_core_api_service.Violations.{Python}
use i_bot_core_api_service.Sessions.Outcome.{record_event}
use i_bot_core_api_service.Sessions.Responses.{Bootstrap}
use i_bot_core_api_service.Sessions.Validate.{window_missed, is_closed}
use i_bot_core_api_service.Sessions.Enter.{
  admit, credential_expired, enter_session, enter_context, enter_with_invitation,
}

-- Why an invitation is refused at a time, by the first reason that applies.
abbrev pub refusal : Time → InvitationContext → InterviewSession → Option Error
refusal now c s =
    if window_missed c.window_end c.interview_started_at now
    then some session_expired
    else if is_closed s.status c.candidate_assessment_status
    then some session_closed
    else if c.invite_consumed && credential_expired s.session_token_expires_at now
    then some session_expired
    else none

pub invitation_row-columns :
    (db : Db) (ca : CandidateAssessment) (c : InvitationContext)
    → invitation_row db ca ≡ some c
    → (c.candidate_assessment_id ≡ ca.id) × (c.invite_consumed ≡ ca.invite_consumed)
unfolding invitation_row
invitation_row-columns db ca c h = ground arith

module _ (py : Python) (env : Env) (db : Db) (token : Uuid) (ca : CandidateAssessment)
    (c : InvitationContext) (s : InterviewSession)
    (invited : find (has_invitation token) db.candidate_assessments ≡ some ca)
    (row : invitation_row db ca ≡ some c)
    (begun : find (of_enrollment c.candidate_assessment_id) db.interview_sessions ≡ some s) where
  enter-rejects :
      (e : Error) (after : Db)
      → enter_session py env c s db ≡ (ok (some e, none), after)
      → enter_with_invitation py env token db ≡ (err e, after)
  unfolding enter_with_invitation lock_invitation_context enter_context
      get_or_create_session_for_update ◌>>=◌
  enter-rejects e after h = rw (invited, row, begun, begun, h) refl

  pub enter-admits :
      (b : Bootstrap) (after : Db)
      → enter_session py env c s db ≡ (ok (none, some b), after)
      → enter_with_invitation py env token db ≡ (ok b, after)
  unfolding enter_with_invitation lock_invitation_context enter_context
      get_or_create_session_for_update ◌>>=◌
  enter-admits b after h = rw (invited, row, begun, begun, h) refl

  enter_session-refused :
      (e : Error)
      → refusal (env.utc_now 0) c s ≡ some e
      → let (result, db') = enter_session py env c s db in
        (result ≡ ok (some e, none))
        × (db'.interview_sessions ≡ db.interview_sessions)
        × (db'.candidate_assessments ≡ db.candidate_assessments)
        × (length db'.event_logs ≡ length db.event_logs + 1)
  unfolding enter_session record_event ◌>>=◌
  enter_session-refused e refused =
      elim (Bool-cases (window_missed c.window_end c.interview_started_at (env.utc_now 0))) [
        | inl missed ↦ rw missed (
          ap (λ x. ok (x, none)) (rw missed at refused),
          refl,
          refl,
          length-append db.event_logs _,
        )
        | inr early ↦ elim (Bool-cases (is_closed s.status c.candidate_assessment_status)) [
          | inl closed ↦
              rw (early, closed)
                (
                  ap (λ x. ok (x, none)) (rw (early, closed) at refused),
                  refl,
                  refl,
                  length-append db.event_logs _,
                )
          | inr going ↦
              elim (Bool-cases (
                c.invite_consumed
                && credential_expired s.session_token_expires_at (env.utc_now 0))) [
                  | inl expired ↦
                      rw (early, going, expired)
                        (
                          ap (λ x. ok (x, none)) (rw (early, going, expired) at refused),
                          refl,
                          refl,
                          length-append db.event_logs _,
                        )
                  | inr valid ↦ cc (rw (early, going, valid) at refused)
                ]
        ]
      ]

  pub enter_session-admitted :
      refusal (env.utc_now 0) c s ≡ none → enter_session py env c s db ≡ admit py env c s db
  unfolding enter_session
  enter_session-admitted admitted =
      elim (Bool-cases (window_missed c.window_end c.interview_started_at (env.utc_now 0))) [
        | inl missed ↦ cc (rw missed at admitted)
        | inr early ↦ elim (Bool-cases (is_closed s.status c.candidate_assessment_status)) [
          | inl closed ↦ cc (rw (early, closed) at admitted)
          | inr going ↦
              elim (Bool-cases (
                c.invite_consumed
                && credential_expired s.session_token_expires_at (env.utc_now 0))) [
                  | inl expired ↦ cc (rw (early, going, expired) at admitted)
                  | inr valid ↦ rw (early, going, valid) refl
                ]
        ]
      ]

  -- The invitation of an enrollment whose session exists is refused by the first of the three
  -- reasons that applies (the window ended before the interview began, the session or the
  -- enrollment is terminal, the session token expired), and the refusal is committed: sessions and
  -- enrollments are as they were, and one event is logged.
  pub enter-refused :
      (e : Error)
      → refusal (env.utc_now 0) c s ≡ some e
      → let (result, db') = enter_with_invitation py env token db in
        (result ≡ err e)
        × (db'.interview_sessions ≡ db.interview_sessions)
        × (db'.candidate_assessments ≡ db.candidate_assessments)
        × (length db'.event_logs ≡ length db.event_logs + 1)
  enter-refused e refused =
      let (result, sessions, enrollments, events) = enter_session-refused e refused in
      rw
        (enter-rejects e (enter_session py env c s db).1
          (ap (λ r. (r, (enter_session py env c s db).1)) result))
        (refl, sessions, enrollments, events)
