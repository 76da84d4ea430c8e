-- ===== src/Repositories/CandidateSession.antt =====
-- src/data/repositories/candidate_session_repository.py: the statements that change rows.
use i_bot_core_api_service.Prelude.{
  ℕ, ◌+◌, ◌-◌, ◌/◌, max, String, Bool, true, not, ◌&&◌, Option, none, some, [], ◌∷◌, leb, ◌==◌,
  nat_eq, ◌≡◌, arith, string_eq, is_some_of, if◌then◌else◌,
}
use i_bot_core_api_service.Json.{ℤ, max_zero}
use i_bot_core_api_service.Db.{
  Db, Uuid, Time, SessionStatus, EnrollmentStatus, InterviewSession, CandidateAssessment, is_live,
  is_disconnected, is_terminated, Exec, gets, pure, scalar_one, modify, ◌>>=◌, ◌>>◌, find,
}
use i_bot_core_api_service.Repositories.Env.{Env}
use i_bot_core_api_service.Repositories.Statements.{
  has_id, enrollment_has_id, update_sessions, update_session_returning, update_enrollments,
}

-- The row that `get_or_create_session_for_update` inserts, with the column defaults.
abbrev pub new_session : Env → Uuid → InterviewSession
new_session env ca_id = record {
  id = env.fresh_id;
  candidate_assessment_id = ca_id;
  transcript = [];
  violations = [];
  status = SessionStatus.initializing;
  total_elapsed_secs = 0;
  total_pause_secs = 0;
  session_token = none;
  session_token_expires_at = none;
  disconnect_count = 0;
  timeout_disconnect_count = 0;
  last_disconnected_at = none;
  reconnect_deadline = none;
  active_connection_id = none;
  last_updated_at = env.db_now;
}

abbrev pub of_enrollment : Uuid → InterviewSession → Bool
of_enrollment ca_id s = s.candidate_assessment_id == ca_id

-- `insert(...).on_conflict_do_nothing(index_elements=[candidate_assessment_id])`, by the row that
-- the enrollment has already.
abbrev pub insert_absent : Env → Uuid → Option InterviewSession → Db → Db
insert_absent env ca_id (some _) db = db
insert_absent env ca_id none db = record db {
  interview_sessions = new_session env ca_id ∷ db.interview_sessions;
}

unfoldable pub insert_session : Env → Uuid → Exec Db Unit
insert_session env ca_id =
    modify λ db. insert_absent env ca_id (find (of_enrollment ca_id) db.interview_sessions) db

unfoldable pub get_or_create_session_for_update : Env → Uuid → Exec Db InterviewSession
unfolding insert_session
get_or_create_session_for_update env ca_id = do
  insert_session env ca_id
  found ← gets (λ db. find (of_enrollment ca_id) db.interview_sessions)
  scalar_one found

-- `coalesce(column, now())`
abbrev pub first_time : Option Time → Time → Option Time
first_time none now = some now
first_time (some t) now = some t

unfoldable pub consume_invitation : Env → Uuid → Exec Db Unit
unfolding update_enrollments
consume_invitation env ca_id =
    update_enrollments (λ c. enrollment_has_id ca_id c && not c.invite_consumed)
      λ c. record c {
        invite_consumed = true;
        invite_consumed_at = first_time c.invite_consumed_at env.db_now;
        updated_at = env.db_now;
      }

unfoldable pub set_session_credentials : Env → Uuid → String → Time → Exec Db Unit
unfolding update_sessions
set_session_credentials env session_id token expires_at = update_sessions (has_id session_id) λ s.
    record s {
      session_token = some token;
      session_token_expires_at = some expires_at;
      last_updated_at = env.db_now;
    }

abbrev pub bound : Env → String → InterviewSession → InterviewSession
bound env connection_id s = record s {
  active_connection_id = some connection_id;
  last_updated_at = env.db_now;
}

unfoldable pub bind_active_connection : Env → Uuid → String → Exec Db Unit
unfolding update_sessions
bind_active_connection env session_id connection_id =
    update_sessions (λ s. has_id session_id s && is_live s.status) (bound env connection_id)

-- `cast(extract(epoch from now() - last_disconnected_at) as integer)`: PostgreSQL rounds to the
-- nearest second.
abbrev pub pause_seconds : Env → InterviewSession → ℕ
pause_seconds env s = elim s.last_disconnected_at [
  | none ↦ 0
  | some t ↦ (env.db_now - t + 500000) / 1000000
]

abbrev pub restored : Env → InterviewSession → InterviewSession
restored env s = record s {
  status = SessionStatus.in_progress;
  total_pause_secs = s.total_pause_secs + pause_seconds env s;
  reconnect_deadline = none;
  active_connection_id = none;
  last_updated_at = env.db_now;
}

abbrev pub resumed : Env → CandidateAssessment → CandidateAssessment
resumed env c = record c { status = EnrollmentStatus.in_progress; updated_at = env.db_now }

unfoldable pub restore_disconnected_session : Env → Uuid → Exec Db InterviewSession
unfolding update_session_returning update_enrollments
restore_disconnected_session env session_id = do
  found ←
      update_session_returning (λ s. has_id session_id s && is_disconnected s.status) (restored env)
  s ← scalar_one found
  update_enrollments (enrollment_has_id s.candidate_assessment_id) (resumed env)
  pure s

abbrev pub ended : Env → CandidateAssessment → CandidateAssessment
ended env c = record c {
  status = EnrollmentStatus.terminated;
  interview_ended_at = first_time c.interview_ended_at env.db_now;
  updated_at = env.db_now;
}

unfoldable pub mark_candidate_terminated : Env → Uuid → Exec Db Unit
unfolding update_enrollments
mark_candidate_terminated env ca_id = update_enrollments (enrollment_has_id ca_id) (ended env)

abbrev pub timed_out : Env → InterviewSession → InterviewSession
timed_out env s = record s {
  status = SessionStatus.terminated;
  timeout_disconnect_count = s.timeout_disconnect_count + 1;
  reconnect_deadline = none;
  active_connection_id = none;
  last_updated_at = env.db_now;
}

unfoldable pub terminate_reconnect_timeout : Env → Uuid → Exec Db InterviewSession
unfolding update_session_returning mark_candidate_terminated
terminate_reconnect_timeout env session_id = do
  found ←
      update_session_returning (λ s. has_id session_id s && is_disconnected s.status)
        (timed_out env)
  s ← scalar_one found
  mark_candidate_terminated env s.candidate_assessment_id
  pure s

-- The `values(...)` of `record_disconnect`, where every column is read before any is written.
abbrev pub dropped : Env → Time → ℤ → InterviewSession → InterviewSession
dropped env deadline elapsed_secs s =
    let should_terminate = leb 3 (s.disconnect_count + 1) in
    record s {
      disconnect_count = s.disconnect_count + 1;
      status = if should_terminate then SessionStatus.terminated else SessionStatus.disconnected;
      total_elapsed_secs = max s.total_elapsed_secs (max_zero elapsed_secs);
      last_disconnected_at = some env.db_now;
      reconnect_deadline = if should_terminate then none else some deadline;
      active_connection_id = none;
      last_updated_at = env.db_now;
    }

abbrev pub is_current : Uuid → String → InterviewSession → Bool
is_current session_id connection_id s =
    has_id session_id s && (is_some_of s.active_connection_id connection_id && is_live s.status)

-- An update of the current connection's session is one of a live session.
pub is_current-live :
    (id : Uuid) (connection_id : String) (s : InterviewSession)
    → is_current id connection_id s ≡ true
    → is_live s.status ≡ true
is_current-live id connection_id s p = ground arith

unfoldable pub record_disconnect :
    Env → Uuid → String → Time → ℤ → Exec Db (Option InterviewSession)
unfolding update_session_returning mark_candidate_terminated
record_disconnect env session_id connection_id deadline elapsed_secs = do
  found ←
      update_session_returning (is_current session_id connection_id)
        (dropped env deadline elapsed_secs)
  elim found [
    | none ↦ pure none
    | some s ↦
        if is_terminated s.status
        then (do mark_candidate_terminated env s.candidate_assessment_id; pure (some s))
        else pure (some s)
  ]
