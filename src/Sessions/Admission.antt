-- ===== src/Sessions/Admission.antt =====
-- What an admission by `enter_with_invitation` gives and leaves behind.

use i_bot_core_api_service.Prelude.{
  ◌+◌, ◌*◌, max, ◌≡◌, ◌∙◌, refl, sym, ap, String, true, false, not, none, some, ◌==◌, string_eq,
  nat_eq, if◌then◌else◌, Bool-cases, inl, inr,
}
use i_bot_core_api_service.Db.{
  Db, Uuid, Time, InterviewSession, CandidateAssessment, EventName, ok, find, find-update_key,
  ◌>>=◌,
}
use i_bot_core_api_service.Repositories.Env.{Env}
use i_bot_core_api_service.Repositories.Ending.{unless_set}
use i_bot_core_api_service.Repositories.Statements.{
  enrollment_has_id, session_by_id, enrollment_by_id,
}
use i_bot_core_api_service.Repositories.Contexts.{InvitationContext, invitation_row, has_invitation}
use i_bot_core_api_service.Repositories.CandidateSession.{
  of_enrollment, first_time, consume_invitation,
}
use i_bot_core_api_service.Violations.{Python}
use i_bot_core_api_service.Sessions.Outcome.{record_event}
use i_bot_core_api_service.Sessions.Responses.{Bootstrap}
use i_bot_core_api_service.Sessions.Enter.{
  bootstrap_response, issue_credentials, consume_if_fresh, admit, enter_with_invitation,
}
use i_bot_core_api_service.Sessions.Refusal.{
  refusal, invitation_row-columns, enter-admits, enter_session-admitted,
}

module _ (py : Python) (env : Env) (db : Db) (token : Uuid) (ca : CandidateAssessment)
    (c : InvitationContext) (s : InterviewSession)
    (invited : find (has_invitation token) db.candidate_assessments ≡ some ca)
    (row : invitation_row db ca ≡ some c)
    (begun : find (of_enrollment c.candidate_assessment_id) db.interview_sessions ≡ some s) where
  module _ (kept : enrollment_by_id db ca.id ≡ some ca)
      (stored : session_by_id db s.id ≡ some s) where
    -- What an admission does to the enrollment and to the session.
    abbrev pub consumed_row : CandidateAssessment
    consumed_row = if c.invite_consumed then ca else record ca {
      invite_consumed = true;
      invite_consumed_at = unless_set ca.invite_consumed_at env.db_now;
      updated_at = env.db_now;
    }

    consume_if_fresh-row :
        (rows : Db)
        → rows.candidate_assessments ≡ db.candidate_assessments
        → ((consume_if_fresh py env c rows).0
            ≡ ok (
                if c.invite_consumed
                then EventName.session_token_reissued
                else EventName.invite_link_consumed))
          × (enrollment_by_id (consume_if_fresh py env c rows).1 ca.id ≡ some consumed_row)
          × ((consume_if_fresh py env c rows).1.interview_sessions ≡ rows.interview_sessions)
    unfolding consume_if_fresh consume_invitation enrollment_by_id ◌>>=◌
    consume_if_fresh-row rows same =
        let (id, flag) = invitation_row-columns db ca c row in
        elim (Bool-cases c.invite_consumed) [
          | inl again ↦ rw (again, same) (refl, kept, refl)
          | inr first ↦
              rw (first, same, id)
                (
                  refl,
                  find-update_key (enrollment_has_id ca.id) (λ d. not d.invite_consumed)
                      (λ d. record d {
                        invite_consumed = true;
                        invite_consumed_at = first_time d.invite_consumed_at env.db_now;
                        updated_at = env.db_now;
                      })
                      db.candidate_assessments ca (λ d. refl) kept (rw (sym flag, first) refl),
                  refl,
                )
        ]

    -- An hour after the window's end, or, if that is later or there is no window, an hour after an
    -- interview that begins now, which takes a minute at least; in microseconds.
    abbrev pub expiry : Time
    expiry =
        let after_interview = env.utc_now 0 + (max 1 c.interview_duration_mins + 60) * 60000000 in
        elim c.window_end [ none ↦ after_interview | some t ↦ max after_interview (t + 3600000000) ]

    abbrev pub issued_row : InterviewSession
    issued_row = record s {
      session_token = some env.token_urlsafe;
      session_token_expires_at = some expiry;
      last_updated_at = env.db_now;
    }

    -- An admission whose session has its token already.
    admit-again :
        (old : String) (expires_at : Time)
        → s.session_token ≡ some old
        → (old == "") ≡ false
        → s.session_token_expires_at ≡ some expires_at
        → (b : Bootstrap) × ((admit py env c s db).0 ≡ ok (none, some b))
          × (b.session_token ≡ old)
          × (b.session_token_expires_at ≡ expires_at)
          × (b.invite_reissued ≡ ca.invite_consumed)
          × ((admit py env c s db).1.interview_sessions ≡ db.interview_sessions)
          × (enrollment_by_id (admit py env c s db).1 ca.id ≡ some consumed_row)
    unfolding admit issue_credentials bootstrap_response enrollment_by_id record_event ◌>>=◌
    admit-again old expires_at has set expires =
        let (named, consumed, sessions) = consume_if_fresh-row db refl in
        let (id, flag) = invitation_row-columns db ca c row in
        rw (has, set, named, expires) (_, refl, refl, refl, flag, sessions, consumed)

    module _ (admitted : refusal (env.utc_now 0) c s ≡ none) where
      -- An entrance whose session has its token already answers with that token and its expiry, and
      -- no session changes.
      pub enter-again :
          (old : String) (expires_at : Time)
          → s.session_token ≡ some old
          → (old == "") ≡ false
          → s.session_token_expires_at ≡ some expires_at
          → let (result, db') = enter_with_invitation py env token db in
            (b : Bootstrap) × (result ≡ ok b)
            × (b.session_token ≡ old)
            × (b.session_token_expires_at ≡ expires_at)
            × (b.invite_reissued ≡ ca.invite_consumed)
            × (db'.interview_sessions ≡ db.interview_sessions)
            × (enrollment_by_id db' ca.id ≡ some consumed_row)
      enter-again old expires_at has set expires =
          let (b, answered, token_given, expiry, flag, session, enrollment) =
            admit-again old expires_at has set expires in
          let after : Db = (admit py env c s db).1 in
          rw
            (enter-admits py env db token ca c s invited row begun b after (
              enter_session-admitted py env db token ca c s invited row begun admitted
              ∙ ap (λ r. (r, after)) answered))
            (b, refl, token_given, expiry, flag, session, enrollment)
