-- ===== src/Sessions/Reconnect.antt =====
-- What `authorize_interview_connection` does to a session that is disconnected.
use mathlib.Core.Option
use mathlib.Core.Path.{subst}
use i_bot_core_api_service.Prelude.{
  ℕ, ◌+◌, ◌-◌, ◌/◌, ◌≡◌, refl, sym, ap, ◌∙◌, String, true, false, ◌&&◌, none, some, ◌==◌, string_eq,
  if◌then◌else◌, arith,
}
use i_bot_core_api_service.Json.{arr, from_list}
use i_bot_core_api_service.Violations.{tab_switch_count}
use i_bot_core_api_service.Db.{
  Db, InterviewSession, SessionStatus, is_disconnected, is_in_progress, ok, err, reconnect_timeout,
  find, find-and, update_where, ◌>>=◌,
}
use i_bot_core_api_service.Repositories.Ending.{terminated_at, in_progress_at}
use i_bot_core_api_service.Repositories.Env.{Env}
use i_bot_core_api_service.Repositories.Statements.{
  has_id, session_by_id, session_by_id-update, enrollment_by_id, enrollment_by_id-update,
  enrollment_has_id,
}
use i_bot_core_api_service.Repositories.Contexts.{SessionContext, session_row, has_token}
use i_bot_core_api_service.Repositories.CandidateSession.{
  bind_active_connection, timed_out, ended, restored, resumed, terminate_reconnect_timeout,
  restore_disconnected_session,
}
use i_bot_core_api_service.Sessions.Outcome.{record_event}
use i_bot_core_api_service.Sessions.Responses.{Connection}
use i_bot_core_api_service.Sessions.Validate.{validate_active_token}
use i_bot_core_api_service.Sessions.Authorize.{
  IsContextOf, session_row-IsContextOf, authorize-rejected, authorize-bound,
  bind_active_connection_lem,
}
use i_bot_core_api_service.Sessions.Connect.{
  connection_response, next_connection, authorize_interview_connection, deadline_missed, resume,
  time_out, reconnect,
}

module _ (env : Env) (db : Db) (s : InterviewSession) (stored : session_by_id db s.id ≡ some s)
    (disconnected : is_disconnected s.status ≡ true) where
  abbrev pub timeout_rows : Db
  timeout_rows = record db {
    interview_sessions =
        update_where (λ t. has_id s.id t && is_disconnected t.status) (timed_out env)
          db.interview_sessions;
    candidate_assessments =
        update_where (enrollment_has_id s.candidate_assessment_id) (ended env)
          db.candidate_assessments;
  }

  terminate_reconnect_timeout_lem :
      terminate_reconnect_timeout env s.id db ≡ (ok (timed_out env s), timeout_rows)
  unfolding terminate_reconnect_timeout session_by_id ◌>>=◌
  terminate_reconnect_timeout_lem = rw (
      find-and (has_id s.id) (λ t. is_disconnected t.status) db.interview_sessions s stored
        disconnected)

  abbrev pub reconnect_rows : Db
  reconnect_rows = record db {
    interview_sessions =
        update_where (λ t. has_id s.id t && is_disconnected t.status) (restored env)
          db.interview_sessions;
    candidate_assessments =
        update_where (enrollment_has_id s.candidate_assessment_id) (resumed env)
          db.candidate_assessments;
  }

  restore_disconnected_session_lem :
      restore_disconnected_session env s.id db ≡ (ok (restored env s), reconnect_rows)
  unfolding restore_disconnected_session session_by_id ◌>>=◌
  restore_disconnected_session_lem = rw (
      find-and (has_id s.id) (λ t. is_disconnected t.status) db.interview_sessions s stored
        disconnected)

  resume-reconnect :
      (c : SessionContext)
      → IsContextOf s c
      → deadline_missed env c.reconnect_deadline (env.utc_now 2) ≡ false
      → ((resume env c db).0 ≡ ok none)
        × ((resume env c db).1.interview_sessions ≡ reconnect_rows.interview_sessions)
        × ((resume env c db).1.candidate_assessments ≡ reconnect_rows.candidate_assessments)
  unfolding resume reconnect record_event ◌>>=◌
  resume-reconnect c k early =
      rw (k.status, disconnected, early, k.id, restore_disconnected_session_lem) (refl, refl, refl)

  -- The branch that ends in a timeout, with the events that it logs left open.
  resume-timeout :
      (c : SessionContext)
      → IsContextOf s c
      → deadline_missed env c.reconnect_deadline (env.utc_now 2) ≡ true
      → ((resume env c db).0 ≡ ok (some reconnect_timeout))
        × ((resume env c db).1.interview_sessions ≡ timeout_rows.interview_sessions)
        × ((resume env c db).1.candidate_assessments ≡ timeout_rows.candidate_assessments)
  unfolding resume time_out record_event ◌>>=◌
  resume-timeout c k missed =
      rw (k.status, disconnected, missed, k.id, terminate_reconnect_timeout_lem) (refl, refl, refl)

  -- The connection id that the row kept, or a fresh one if it kept none or an empty one.
  abbrev pub kept_connection : String
  kept_connection = elim s.active_connection_id [
    | none ↦ env.uuid4_hex
    | some k ↦ if k == "" then env.uuid4_hex else k
  ]

  -- The whole seconds since the drop, to the nearest.
  abbrev pub pause : ℕ
  pause = elim s.last_disconnected_at [ none ↦ 0 | some t ↦ (env.db_now - t + 500000) / 1000000 ]

  -- The response about the session and its enrollment, once the session is connected again.
  abbrev pub connected_again : SessionContext → Connection
  connected_again c = record {
    session_id = s.id;
    connection_id = kept_connection;
    candidate_assessment_id = s.candidate_assessment_id;
    candidate_id = c.candidate_id;
    assessment_id = c.assessment_id;
    candidate_name = if c.candidate_name == "" then "Candidate" else c.candidate_name;
    session_token_expires_at = elim s.session_token_expires_at [
      | none ↦ env.utc_now 2
      | some t ↦ t
    ];
    elapsed_secs = s.total_elapsed_secs;
    interview_started = elim c.interview_started_at [ none ↦ false | some _ ↦ true ];
    tab_switch_count = tab_switch_count (arr (from_list s.violations));
  }

  not_in_progress :
      (status : SessionStatus) → is_disconnected status ≡ true → is_in_progress status ≡ false
  not_in_progress status h = ground arith

  connection_response-again :
      (c : SessionContext) → IsContextOf s c → connection_response env c ≡ connected_again c
  unfolding connection_response next_connection
  connection_response-again c k =
      rw
        (
          k.id,
          k.enrollment,
          k.status,
          not_in_progress s.status disconnected,
          k.connection,
          k.expires,
          k.elapsed,
          k.violations,
        )
        refl

  module _ (token : String) (c : SessionContext)
      (found : find (has_token token) db.interview_sessions ≡ some s)
      (row : session_row db s ≡ some c) (valid : validate_active_token env (some c) ≡ none) where
    -- A valid token whose session is disconnected, with no deadline or one that has passed, is
    -- refused with the reconnect timeout, and the refusal is committed: the session is terminated,
    -- with one more expired window, no deadline and no connection, and so is its enrollment, whose
    -- end is set unless it was.
    pub authorize-timeout :
        deadline_missed env s.reconnect_deadline (env.utc_now 2) ≡ true
        → let (result, db') = authorize_interview_connection env token db in
          (result ≡ err reconnect_timeout)
          × (session_by_id db' s.id
              ≡ some (record s {
                status = SessionStatus.terminated;
                timeout_disconnect_count = s.timeout_disconnect_count + 1;
                reconnect_deadline = none;
                active_connection_id = none;
                last_updated_at = env.db_now;
              }))
          × (enrollment_by_id db' s.candidate_assessment_id
              ≡ Option.map
                  (terminated_at env.db_now)
                  (enrollment_by_id db s.candidate_assessment_id))
    unfolding session_by_id enrollment_by_id
    authorize-timeout missed =
        let k = session_row-IsContextOf db s c row in
        let (refused, sessions, enrollments) =
          resume-timeout c k
            (subst (λ d. deadline_missed env d (env.utc_now 2) ≡ true) (sym k.deadline) missed) in
        rw
          (authorize-rejected env db s token c found row valid reconnect_timeout (resume env c db).1
            (ap (λ r. (r, (resume env c db).1)) refused))
          (
            refl,
            rw sessions (
                session_by_id-update (λ t. is_disconnected t.status) (timed_out env) db s
                  (λ t. refl) stored disconnected),
            rw enrollments
                (enrollment_by_id-update (ended env) db s.candidate_assessment_id (λ t. refl)),
          )

    -- Within the window the session goes on. The response is about the session and its enrollment, and
    -- carries the connection id that the row kept, or a fresh one if it kept none or an empty one; that
    -- id is bound to the session, which is in progress with the pause added and its deadline gone; the
    -- enrollment is in progress too.
    pub authorize-reconnect :
        deadline_missed env s.reconnect_deadline (env.utc_now 2) ≡ false
        → let (result, db') = authorize_interview_connection env token db in
          (result ≡ ok (connected_again c))
          × (session_by_id db' s.id
              ≡ some (record s {
                status = SessionStatus.in_progress;
                total_pause_secs = s.total_pause_secs + pause;
                reconnect_deadline = none;
                active_connection_id = some kept_connection;
                last_updated_at = env.db_now;
              }))
          × (enrollment_by_id db' s.candidate_assessment_id
              ≡ Option.map
                  (in_progress_at env.db_now)
                  (enrollment_by_id db s.candidate_assessment_id))
    unfolding session_by_id enrollment_by_id connection_response bind_active_connection
    authorize-reconnect early =
        let k = session_row-IsContextOf db s c row in
        let (kept, sessions, enrollments) =
          resume-reconnect c k
            (subst (λ d. deadline_missed env d (env.utc_now 2) ≡ false) (sym k.deadline) early) in
        rw
          (authorize-bound env db s token c found row valid (resume env c db).1
            (ap (λ r. (r, (resume env c db).1)) kept))
          (
            ap (λ r. ok r) (connection_response-again c k),
            bind_active_connection_lem env c.session_id (next_connection env c) (resume env c db).1
                  (restored env s) k.id
                  (rw sessions (
                    session_by_id-update (λ t. is_disconnected t.status) (restored env) db s
                      (λ t. refl) stored disconnected))
                  refl
                ∙ ap
                    (λ r. some (record (restored env s) {
                      active_connection_id = some r.connection_id;
                      last_updated_at = env.db_now;
                    }))
                    (connection_response-again c k),
            rw enrollments
                (enrollment_by_id-update (resumed env) db s.candidate_assessment_id (λ t. refl)),
          )
