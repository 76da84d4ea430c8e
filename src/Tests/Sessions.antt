-- ===== src/Tests/Sessions.antt =====
-- The session service at concrete inputs.
use mathlib.Core.Option
use mathlib.Core.Option.{some-injective}
use i_bot_core_api_service.Prelude.{
  ◌+◌, ◌≡◌, refl, true, false, none, some, List, [], ◌∷◌, length, arith, All, inl, inr, eq_iff,
  string_eq,
}
use i_bot_core_api_service.Json.{pos, arr, from_list}
use i_bot_core_api_service.Db.{
  Db, InterviewSession, EnrollmentStatus, SessionStatus, ok, err, reconnect_timeout,
  session_expired, find, update_where, ◌>>=◌,
}
use i_bot_core_api_service.Repositories.Ending.{terminated_at, in_progress_at}
use i_bot_core_api_service.Repositories.Env.{Env}
use i_bot_core_api_service.Repositories.Statements.{session_by_id, enrollment_by_id}
use i_bot_core_api_service.Repositories.Contexts.{
  InvitationContext, SessionContext, session_row, has_token, invitation_row, has_invitation,
  lock_invitation_context, lock_session_context_by_token, session_context,
}
use i_bot_core_api_service.Repositories.CandidateSession as Repository
use i_bot_core_api_service.Repositories.CandidateSession.{
  ended, resumed, is_current, of_enrollment, insert_session, get_or_create_session_for_update,
  consume_invitation, set_session_credentials, bind_active_connection, restore_disconnected_session,
  terminate_reconnect_timeout, mark_candidate_terminated,
}
use i_bot_core_api_service.Json.{get, truthy}
use i_bot_core_api_service.Violations.{tab_switch_count}
use i_bot_core_api_service.Sessions.Outcome.{record_event}
use i_bot_core_api_service.Sessions.Validate.{validate_active_token, sections_overview}
use i_bot_core_api_service.Sessions.Responses.{Bootstrap}
use i_bot_core_api_service.Sessions.Calls.{
  Call, enter, context, authorize, disconnect, serve, serve_call,
}
use i_bot_core_api_service.Sessions.Enter.{
  credential_expiry, enter_with_invitation, enter_context, enter_session, admit, issue_credentials,
  consume_if_fresh, bootstrap_response, get_session_context,
}
use i_bot_core_api_service.Sessions.Connect.{
  authorize_interview_connection, connection_response, record_disconnect, resume, time_out,
  reconnect, next_connection,
}
use i_bot_core_api_service.Sessions.Later.{LaterDb}
use i_bot_core_api_service.Sessions.History.{serve-LaterDb}
use i_bot_core_api_service.Sessions.Lifecycle.{Run, live, views}
use i_bot_core_api_service.Sessions.Refinement.{serve-Run}
use i_bot_core_api_service.Sessions.Limits.{IsValidDb, serve-IsValidDb}
use i_bot_core_api_service.Sessions.Reconnect.{authorize-timeout, authorize-reconnect}
use i_bot_core_api_service.Sessions.Disconnect.{IsOther, disconnect-current, disconnect-stale}
use i_bot_core_api_service.Sessions.Refusal.{enter-refused}
use i_bot_core_api_service.Sessions.Admission.{enter-again}
use i_bot_core_api_service.Tests.Data.{
  seconds, test_python, at_time, dropped_interview, live_interview, new_interview, enrollment,
  database, assessment,
}

abbrev waiting : Db
waiting = database EnrollmentStatus.in_progress dropped_interview

abbrev dropped_context : SessionContext
dropped_context = record {
  session_id = 5;
  candidate_assessment_id = 4;
  session_status = SessionStatus.disconnected;
  session_token = some "token";
  session_token_expires_at = some (seconds 100000);
  disconnect_count = 1;
  timeout_disconnect_count = 0;
  reconnect_deadline = some (seconds 1300);
  active_connection_id = none;
  total_elapsed_secs = 0;
  violations = [];
  candidate_id = 2;
  assessment_id = 3;
  candidate_assessment_status = EnrollmentStatus.in_progress;
  interview_started_at = none;
  candidate_name = "Chandra";
  assessment_title = "Backend";
  interview_plan = assessment.interview_plan;
  interview_duration_mins = 30;
  window_end = some (seconds 100000);
  company_name = "Example";
}

stored : session_by_id waiting 5 ≡ some dropped_interview
unfolding session_by_id find
stored = refl

row : session_row waiting dropped_interview ≡ some dropped_context
unfolding session_row find
row = refl

found : find (has_token "token") waiting.interview_sessions ≡ some dropped_interview
unfolding find
found = refl

valid : validate_active_token (at_time (seconds 1400)) (some dropped_context) ≡ none
unfolding validate_active_token
valid = refl

valid_early : validate_active_token (at_time (seconds 1200)) (some dropped_context) ≡ none
unfolding validate_active_token
valid_early = refl

authorize-timeout_example :
    let (result, db') = authorize_interview_connection (at_time (seconds 1400)) "token" waiting in
    (result ≡ err reconnect_timeout)
    × (session_by_id db' 5
        ≡ some (record dropped_interview {
          status = SessionStatus.terminated;
          timeout_disconnect_count = 0 + 1;
          reconnect_deadline = none;
          active_connection_id = none;
          last_updated_at = seconds 1400;
        }))
    × (enrollment_by_id db' 4
        ≡ Option.map (terminated_at (seconds 1400)) (enrollment_by_id waiting 4))
authorize-timeout_example =
    authorize-timeout (at_time (seconds 1400)) waiting dropped_interview stored refl "token"
      dropped_context found row valid refl

authorize-reconnect_example :
    let (result, db') = authorize_interview_connection (at_time (seconds 1200)) "token" waiting in
    (result
      ≡ ok (record {
        session_id = 5;
        connection_id = "fresh-connection";
        candidate_assessment_id = 4;
        candidate_id = 2;
        assessment_id = 3;
        candidate_name = "Chandra";
        session_token_expires_at = seconds 100000;
        elapsed_secs = 0;
        interview_started = false;
        tab_switch_count = tab_switch_count (arr (from_list []));
      }))
    × (session_by_id db' 5
        ≡ some (record dropped_interview {
          status = SessionStatus.in_progress;
          total_pause_secs = 200;
          reconnect_deadline = none;
          active_connection_id = some "fresh-connection";
          last_updated_at = seconds 1200;
        }))
    × (enrollment_by_id db' 4
        ≡ Option.map (in_progress_at (seconds 1200)) (enrollment_by_id waiting 4))
authorize-reconnect_example =
    authorize-reconnect (at_time (seconds 1200)) waiting dropped_interview stored refl "token"
      dropped_context found row valid_early refl

-- A candidate who enters, connects, drops and comes back too late.
abbrev calls : List (Env × Call)
calls =
    (at_time (seconds 10), enter 7)
    ∷ (at_time (seconds 20), authorize "fresh-token")
    ∷ (at_time (seconds 30), disconnect 5 "fresh-connection" 4 "lost" (pos 5))
    ∷ (at_time (seconds 40), context "fresh-token")
    ∷ (at_time (seconds 400), authorize "fresh-token")
    ∷ []

abbrev invited : Db
invited = database EnrollmentStatus.invited new_interview

serve-LaterDb_example : LaterDb invited (serve test_python calls invited)
serve-LaterDb_example = serve-LaterDb test_python calls invited

serve-Run_example : Run (live 0 ∷ []) (views (serve test_python calls invited).interview_sessions)
serve-Run_example = serve-Run test_python calls invited

invited-IsValid : IsValidDb invited
invited-IsValid = (
  record {
    drops = omega arith;
    open_drops = λ h. omega arith;
    deadline = λ h. ground arith;
    deadline_only = λ h. refl;
    connection = λ h. refl;
    credential = λ h k. h refl;
  },
  tt,
)

serve-IsValidDb_example : IsValidDb (serve test_python calls invited)
serve-IsValidDb_example = serve-IsValidDb test_python calls invited invited-IsValid

-- The last call of the sequence ends the interview.
late_return :
    Option.map (λ s. s.status) (session_by_id (serve test_python calls invited) 5)
    ≡ some SessionStatus.terminated
unfolding serve serve_call enter_with_invitation enter_context enter_session admit issue_credentials
    consume_if_fresh bootstrap_response sections_overview get_session_context
    authorize_interview_connection validate_active_token resume time_out reconnect next_connection
    connection_response record_disconnect record_event insert_session
    get_or_create_session_for_update consume_invitation set_session_credentials
    bind_active_connection restore_disconnected_session terminate_reconnect_timeout
    mark_candidate_terminated Repository.record_disconnect lock_invitation_context
    lock_session_context_by_token session_context session_row invitation_row find update_where
    session_by_id get truthy tab_switch_count credential_expiry ◌>>=◌
late_return = refl

abbrev connected : Db
connected = database EnrollmentStatus.in_progress live_interview

connected_stored : session_by_id connected 5 ≡ some live_interview
unfolding session_by_id find
connected_stored = refl

disconnect-current_example :
    let (result, db') =
      record_disconnect (at_time (seconds 2000)) 5 "connection" 4 "lost" (pos 9) connected in
    let s' = record live_interview {
      disconnect_count = 3;
      status = SessionStatus.terminated;
      total_elapsed_secs = 9;
      last_disconnected_at = some (seconds 2000);
      reconnect_deadline = none;
      active_connection_id = none;
      last_updated_at = seconds 2000;
    } in
    (result ≡ ok (some s'))
    × (session_by_id db' 5 ≡ some s')
    × (enrollment_by_id db' 4
        ≡ Option.map (terminated_at (seconds 2000)) (enrollment_by_id connected 4))
disconnect-current_example =
    disconnect-current (at_time (seconds 2000)) connected live_interview "connection"
      connected_stored refl refl 4 "lost" (pos 9)

different : ¬ (false ≡ true)
different h = cc

connected-IsOther : All (IsOther 5 "older") connected.interview_sessions
connected-IsOther = (
  inr (
      inl
        (λ h. different ((eq_iff "connection" "older").1 (some-injective "connection" "older" h)))),
  tt,
)

disconnect-stale_example :
    record_disconnect (at_time (seconds 2000)) 5 "older" 4 "lost" (pos 9) connected
    ≡ (ok none, connected)
disconnect-stale_example =
    disconnect-stale (at_time (seconds 2000)) connected 5 "older" 4 "lost" (pos 9) connected-IsOther

abbrev invitation : InvitationContext
invitation = record {
  candidate_assessment_id = 4;
  candidate_assessment_status = EnrollmentStatus.invited;
  invite_consumed = false;
  interview_started_at = none;
  candidate_name = "Chandra";
  assessment_title = "Backend";
  interview_plan = assessment.interview_plan;
  interview_duration_mins = 30;
  window_end = some (seconds 100000);
  company_name = "Example";
}

invitation_found :
    (s : InterviewSession)
    → find (has_invitation 7) (database EnrollmentStatus.invited s).candidate_assessments
      ≡ some (enrollment EnrollmentStatus.invited)
unfolding find
invitation_found s = refl

invitation_row_found :
    (s : InterviewSession)
    → invitation_row (database EnrollmentStatus.invited s) (enrollment EnrollmentStatus.invited)
      ≡ some invitation
unfolding invitation_row find
invitation_row_found s = refl

enrollment_found :
    (s : InterviewSession)
    → enrollment_by_id (database EnrollmentStatus.invited s) 4
      ≡ some (enrollment EnrollmentStatus.invited)
unfolding enrollment_by_id find
enrollment_found s = refl

begun : find (of_enrollment 4) invited.interview_sessions ≡ some new_interview
unfolding find
begun = refl

abbrev known_interview : InterviewSession
known_interview = record new_interview {
  session_token = some "token";
  session_token_expires_at = some (seconds 100000);
}

abbrev known : Db
known = database EnrollmentStatus.invited known_interview

known_begun : find (of_enrollment 4) known.interview_sessions ≡ some known_interview
unfolding find
known_begun = refl

known_stored : session_by_id known 5 ≡ some known_interview
unfolding session_by_id find
known_stored = refl

enter-again_example :
    let (result, db') = enter_with_invitation test_python (at_time (seconds 10)) 7 known in
    (b : Bootstrap) × (result ≡ ok b)
    × (b.session_token ≡ "token")
    × (b.session_token_expires_at ≡ seconds 100000)
    × (b.invite_reissued ≡ false)
    × (db'.interview_sessions ≡ known.interview_sessions)
    × (enrollment_by_id db' 4
        ≡ some (record (enrollment EnrollmentStatus.invited) {
          invite_consumed = true;
          invite_consumed_at = some (seconds 10);
          updated_at = seconds 10;
        }))
enter-again_example =
    enter-again test_python (at_time (seconds 10)) known 7 (enrollment EnrollmentStatus.invited)
      invitation known_interview (invitation_found known_interview)
      (invitation_row_found known_interview) known_begun (enrollment_found known_interview)
      known_stored refl "token" (seconds 100000) refl refl refl

enter-refused_example :
    let (result, db') = enter_with_invitation test_python (at_time (seconds 200000)) 7 invited in
    (result ≡ err session_expired)
    × (db'.interview_sessions ≡ invited.interview_sessions)
    × (db'.candidate_assessments ≡ invited.candidate_assessments)
    × (length db'.event_logs ≡ length invited.event_logs + 1)
enter-refused_example =
    enter-refused test_python (at_time (seconds 200000)) invited 7
      (enrollment EnrollmentStatus.invited) invitation new_interview
      (invitation_found new_interview) (invitation_row_found new_interview) begun session_expired
      refl
