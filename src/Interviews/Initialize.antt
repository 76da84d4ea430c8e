-- ===== src/Interviews/Initialize.antt =====
-- What `initialize_interview_context` does to a session that exists.
use i_bot_core_api_service.Prelude.{◌≡◌, refl, none, some, nat_eq}
use i_bot_core_api_service.Db.{
  Db, InterviewSession, CandidateAssessment, SessionStatus, EnrollmentStatus, ok, find, ◌>>=◌,
}
use i_bot_core_api_service.Repositories.Env.{Env}
use i_bot_core_api_service.Repositories.Statements.{
  session_by_id, session_by_id-update_id, enrollment_by_id, enrollment_by_id-update,
}
use i_bot_core_api_service.Repositories.CandidateSession.{
  of_enrollment, get_or_create_session_for_update,
}
use i_bot_core_api_service.Interviews.Rows.{
  in_progress_row, mark_session_in_progress, mark_candidate_started,
}
use i_bot_core_api_service.Interviews.Requests.{
  InterviewContext, load_interview_context, initialize_interview_context,
}

-- For an enrollment with its candidate, its assessment and its session, an initialization answers
-- with the context and the session as it was, and starts the interview whatever the session's and
-- the enrollment's statuses were, terminal ones included: both are in progress afterwards, and the
-- reconnect deadline is gone.
pub initialize-starts :
    (env : Env) (db : Db) (ca : CandidateAssessment) (s : InterviewSession)
    (context : InterviewContext)
    → enrollment_by_id db ca.id ≡ some ca
    → load_interview_context ca.id db ≡ (ok (some context), db)
    → find (of_enrollment ca.id) db.interview_sessions ≡ some s
    → session_by_id db s.id ≡ some s
    → let (result, db') = initialize_interview_context env ca.id db in
      (result ≡ ok (context, s))
      × (session_by_id db' s.id
          ≡ some (record s {
            status = SessionStatus.in_progress;
            reconnect_deadline = none;
            last_updated_at = env.db_now;
          }))
      × (enrollment_by_id db' ca.id
          ≡ some (record ca { status = EnrollmentStatus.in_progress; updated_at = env.db_now }))
unfolding initialize_interview_context get_or_create_session_for_update mark_session_in_progress
    mark_candidate_started session_by_id enrollment_by_id ◌>>=◌
initialize-starts env db ca s context kept loaded begun stored =
    rw (loaded, begun, begun)
      (
        refl,
        rw (session_by_id-update_id (in_progress_row env) db s.id (λ t. refl)) (rw stored refl),
        rw
            (enrollment_by_id-update
              (λ c. record c { status = EnrollmentStatus.in_progress; updated_at = env.db_now }) db
              ca.id (λ t. refl))
            (rw kept refl),
      )
