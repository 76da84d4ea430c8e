-- ===== src/Interviews/Rows.antt =====
-- The methods of `InterviewSessionRepository` and `AssessmentContextRepository` that change single
-- columns.
use i_bot_core_api_service.Prelude.{
  ℕ, max, Bool, true, false, Option, none, some, List, if◌then◌else◌,
}
use i_bot_core_api_service.Json.{Json, Fields, ℤ, max_zero}
use i_bot_core_api_service.Db.{
  Db, Uuid, Time, InterviewSession, CandidateAssessment, SessionStatus, EnrollmentStatus, Exec,
  interview_configuration, pure, raise, gets, lift, scalar_one, ◌>>=◌, ◌>>◌,
}
use i_bot_core_api_service.Repositories.Env.{Env}
use i_bot_core_api_service.Repositories.Statements.{
  has_id, enrollment_has_id, session_by_id, enrollment_by_id, update_sessions, update_enrollments,
}
use i_bot_core_api_service.Repositories.CandidateSession.{first_time}
use i_bot_core_api_service.Violations.{Python, append_unique}

-- `_locked_session`
unfoldable pub locked_session : Uuid → Exec Db InterviewSession
locked_session session_id = do found ← gets (λ db. session_by_id db session_id); scalar_one found

-- The new elapsed total of `append_transcript_turn`.
abbrev pub elapsed_after : Option ℤ → ℕ → ℕ
elapsed_after none total = total
elapsed_after (some n) total = max total (max_zero n)

abbrev pub transcribed : Env → List Json → Bool → Option ℤ → InterviewSession → InterviewSession
transcribed env transcript appended total_elapsed_secs s = record s {
  transcript = if appended then transcript else s.transcript;
  total_elapsed_secs = elapsed_after total_elapsed_secs s.total_elapsed_secs;
  last_updated_at = env.db_now;
}

unfoldable pub append_transcript_turn : Python → Env → Uuid → Fields → Option ℤ → Exec Db Bool
unfolding update_sessions
append_transcript_turn py env session_id turn total_elapsed_secs = do
  s ← locked_session session_id
  (transcript, appended) ← lift (append_unique py "turn_id" s.transcript turn)
  update_sessions (has_id session_id) (transcribed env transcript appended total_elapsed_secs)
  pure appended

abbrev pub with_violations : Env → List Json → InterviewSession → InterviewSession
with_violations env violations s = record s {
  violations = violations;
  last_updated_at = env.db_now;
}

unfoldable pub append_violation : Python → Env → Uuid → Fields → Exec Db Bool
unfolding update_sessions
append_violation py env session_id violation = do
  s ← locked_session session_id
  (violations, appended) ← lift (append_unique py "violation_id" s.violations violation)
  if appended
      then (do update_sessions (has_id session_id) (with_violations env violations); pure true)
      else pure false

unfoldable pub update_elapsed_time : Env → Uuid → ℤ → ℤ → Exec Db Unit
unfolding update_sessions
update_elapsed_time env session_id elapsed_secs total_pause_secs =
    update_sessions (has_id session_id) λ s. record s {
      total_elapsed_secs = max s.total_elapsed_secs (max_zero elapsed_secs);
      total_pause_secs = max s.total_pause_secs (max_zero total_pause_secs);
      last_updated_at = env.db_now;
    }

abbrev pub in_progress_row : Env → InterviewSession → InterviewSession
in_progress_row env s = record s {
  status = SessionStatus.in_progress;
  reconnect_deadline = none;
  last_updated_at = env.db_now;
}

unfoldable pub mark_session_in_progress : Env → Uuid → Exec Db Unit
unfolding update_sessions
mark_session_in_progress env session_id = update_sessions (has_id session_id) (in_progress_row env)

abbrev pub completed_row : Env → ℤ → InterviewSession → InterviewSession
completed_row env total_elapsed_secs s = record s {
  status = SessionStatus.completed;
  total_elapsed_secs = max_zero total_elapsed_secs;
  reconnect_deadline = none;
  active_connection_id = none;
  last_updated_at = env.db_now;
}

unfoldable pub complete_session : Env → Uuid → ℤ → Exec Db Unit
unfolding update_sessions
complete_session env session_id total_elapsed_secs =
    update_sessions (has_id session_id) (completed_row env total_elapsed_secs)

unfoldable pub mark_candidate_started : Env → Uuid → Exec Db Unit
unfolding update_enrollments
mark_candidate_started env ca_id =
    update_enrollments (enrollment_has_id ca_id)
      λ c. record c { status = EnrollmentStatus.in_progress; updated_at = env.db_now }

abbrev pub started : Env → CandidateAssessment → CandidateAssessment
started env c = record c {
  status = EnrollmentStatus.in_progress;
  interview_started_at = first_time c.interview_started_at env.db_now;
  updated_at = env.db_now;
}

-- `scalar_one()` of the statement's `returning(interview_started_at)`, and its NULL test.
unfoldable pub mark_candidate_timer_started : Env → Uuid → Exec Db Time
unfolding update_enrollments
mark_candidate_timer_started env ca_id = do
  update_enrollments (enrollment_has_id ca_id) (started env)
  found ← gets (λ db. enrollment_by_id db ca_id)
  c ← scalar_one found
  elim c.interview_started_at [ none ↦ raise interview_configuration | some t ↦ pure t ]

unfoldable pub mark_candidate_completed : Env → Uuid → Exec Db Unit
unfolding update_enrollments
mark_candidate_completed env ca_id = update_enrollments (enrollment_has_id ca_id) λ c. record c {
  status = EnrollmentStatus.completed;
  interview_ended_at = first_time c.interview_ended_at env.db_now;
  updated_at = env.db_now;
}
