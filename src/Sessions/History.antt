-- ===== src/Sessions/History.antt =====
-- What a session's row and an enrollment's row may become under the candidate-facing calls.

use i_bot_core_api_service.Prelude.{
  ◌≡◌, String, Bool, true, Option, none, some, List, arith, Option-cases, inl, inr, &&-eq-true,
}
use i_bot_core_api_service.Json.{ℤ}
use i_bot_core_api_service.Db.{
  Db, Uuid, Time, InterviewSession, CandidateAssessment, EventName, Detail, is_live,
  is_disconnected, EnrollmentStatus, find, modify,
}
use i_bot_core_api_service.Keeps.{Keeps, keeps_rules, Keeps-pure, Keeps-bind}
use i_bot_core_api_service.Repositories.Env.{Env}
use i_bot_core_api_service.Repositories.Statements.{
  has_id, enrollment_has_id, update_sessions, update_session_returning, update_enrollments,
}
use i_bot_core_api_service.Repositories.CandidateSession.{
  insert_session, insert_absent, of_enrollment, new_session, consume_invitation,
  set_session_credentials, bind_active_connection, restore_disconnected_session,
  mark_candidate_terminated, terminate_reconnect_timeout, record_disconnect, restored, dropped,
  ended, timed_out, is_current-live,
}
use i_bot_core_api_service.Violations.{Python}
use i_bot_core_api_service.Sessions.Outcome.{record_event}
use i_bot_core_api_service.Sessions.Calls.{Call, serve}
use i_bot_core_api_service.Sessions.Invariant.{IsStable, serve_induction}
use i_bot_core_api_service.Sessions.Later.{
  Later, added, Later-refl, Later-trans, Later-update_where, LaterSession, LaterSession-refl,
  LaterSession-trans, LaterEnrollment, LaterEnrollment-refl, LaterEnrollment-trans, LaterDb,
}

module _ (start : Db) where
  abbrev After : Db → Type 0
  After db = LaterDb start db

  sessions-After :
      (db : Db) (rows : List InterviewSession)
      → After db
      → Later LaterSession db.interview_sessions rows
      → After (record db { interview_sessions = rows })
  sessions-After db rows h step = record {
    sessions = Later-trans LaterSession-trans step h.sessions;
    enrollments = h.enrollments;
  }

  update_sessions-After :
      (p : InterviewSession → Bool) (f : InterviewSession → InterviewSession)
      → ((s : InterviewSession) → p s ≡ true → LaterSession s (f s))
      → Keeps After (update_sessions p f)
  unfolding update_sessions
  update_sessions-After p f step = record {
    holds_after = λ db h.
        sessions-After db _ h (Later-update_where LaterSession-refl p f step db.interview_sessions);
  }

  update_session_returning-After :
      (p : InterviewSession → Bool) (f : InterviewSession → InterviewSession)
      → ((s : InterviewSession) → p s ≡ true → LaterSession s (f s))
      → Keeps After (update_session_returning p f)
  unfolding update_session_returning
  update_session_returning-After p f step = record {
    holds_after = λ db h.
        sessions-After db _ h (Later-update_where LaterSession-refl p f step db.interview_sessions);
  }

  update_enrollments-After :
      (p : CandidateAssessment → Bool) (f : CandidateAssessment → CandidateAssessment)
      → ((c : CandidateAssessment) → p c ≡ true → LaterEnrollment c (f c))
      → Keeps After (update_enrollments p f)
  unfolding update_enrollments
  update_enrollments-After p f step = record {
    holds_after = λ db h. record {
      sessions = h.sessions;
      enrollments =
          Later-trans LaterEnrollment-trans
            (Later-update_where LaterEnrollment-refl p f step db.candidate_assessments)
            h.enrollments;
    };
  }

  record_event-After :
      (name : EventName) (id : Uuid) (ca_id : Option Uuid) (details : List (String × Detail))
      → Keeps After (record_event name id ca_id details)
  unfolding record_event modify
  record_event-After name id ca_id details = record {
    holds_after = λ db h. record { sessions = h.sessions; enrollments = h.enrollments };
  }

  insert_session-After : (env : Env) (ca_id : Uuid) → Keeps After (insert_session env ca_id)
  unfolding insert_session modify
  insert_session-After env ca_id = record {
    holds_after = λ db h. elim (Option-cases (find (of_enrollment ca_id) db.interview_sessions)) [
      | inl e ↦
          rw (e, insert_absent)
            (sessions-After db _ h
              (added (new_session env ca_id) (Later-refl LaterSession-refl db.interview_sessions)))
      | inr (s, e) ↦ rw (e, insert_absent) h
    ];
  }

  module _ (env : Env) where
    consume-After : (ca_id : Uuid) → Keeps After (consume_invitation env ca_id)
    unfolding consume_invitation
    consume-After ca_id = update_enrollments-After _ _ (λ c p. ground arith)

    ended-Later : (c : CandidateAssessment) → LaterEnrollment c (ended env c)
    ended-Later c = ground arith

    mark_candidate_terminated-After :
        (ca_id : Uuid) → Keeps After (mark_candidate_terminated env ca_id)
    unfolding mark_candidate_terminated
    mark_candidate_terminated-After ca_id = update_enrollments-After _ _ (λ c p. ended-Later c)

    credentials-After :
        (id : Uuid) (token : String) (expires_at : Time)
        → Keeps After (set_session_credentials env id token expires_at)
    unfolding set_session_credentials
    credentials-After id token expires_at = update_sessions-After _ _ (λ s p. ground arith)

    bind-After :
        (id : Uuid) (connection_id : String)
        → Keeps After (bind_active_connection env id connection_id)
    unfolding bind_active_connection
    bind-After id connection_id = update_sessions-After _ _ (λ s p. ground arith)

    restored-Later :
        (s : InterviewSession) → is_disconnected s.status ≡ true → LaterSession s (restored env s)
    restored-Later s p = ground arith

    restarted-After :
        (ca_id : Uuid)
        → Keeps After (
            update_enrollments
              (enrollment_has_id ca_id)
              (λ c. record c { status = EnrollmentStatus.in_progress; updated_at = env.db_now }))
    restarted-After ca_id = update_enrollments-After _ _ (λ c p. ground arith)

    restore-After : (id : Uuid) → Keeps After (restore_disconnected_session env id)
    unfolding restore_disconnected_session
    restore-After id =
        Keeps-bind _ _
          (update_session_returning-After _ _
            (λ s p. restored-Later s (&&-eq-true (has_id id s) _ p).1))
          (λ found. search (keeps_rules, restarted-After))

    timed_out-Later :
        (s : InterviewSession) → is_disconnected s.status ≡ true → LaterSession s (timed_out env s)
    timed_out-Later s p = ground arith

    time_out-After : (id : Uuid) → Keeps After (terminate_reconnect_timeout env id)
    unfolding terminate_reconnect_timeout
    time_out-After id =
        Keeps-bind _ _
          (update_session_returning-After _ _
            (λ s p. timed_out-Later s (&&-eq-true (has_id id s) _ p).1))
          (λ found. search (keeps_rules, mark_candidate_terminated-After))

    dropped-Later :
        (deadline : Time) (elapsed_secs : ℤ) (s : InterviewSession)
        → is_live s.status ≡ true
        → LaterSession s (dropped env deadline elapsed_secs s)
    dropped-Later deadline elapsed_secs s p = ground arith

    drop-After :
        (id : Uuid) (connection_id : String) (deadline : Time) (elapsed_secs : ℤ)
        → Keeps After (record_disconnect env id connection_id deadline elapsed_secs)
    unfolding record_disconnect
    drop-After id connection_id deadline elapsed_secs =
        Keeps-bind _ _
          (update_session_returning-After _ _
            (λ s p. dropped-Later deadline elapsed_secs s (is_current-live id connection_id s p)))
          elim [
            | none ↦ Keeps-pure none
            | some s ↦ search (keeps_rules, mark_candidate_terminated-After)
          ]

  After-IsStable : IsStable After
  After-IsStable = record {
    record_event = record_event-After;
    insert_session = insert_session-After;
    consume = consume-After;
    credentials = credentials-After;
    bind = bind-After;
    restore = restore-After;
    time_out = time_out-After;
    drop = drop-After;
  }

-- After any sequence of candidate-facing calls every session and every enrollment that was there
-- is there still, in the same order. A session keeps its keys, its transcript and its violations,
-- a terminal status is final, and its drop and timeout counts and its elapsed and paused totals
-- have not fallen. An enrollment keeps its invitation and its start, a consumed invitation stays
-- consumed, and the times of consumption and of the end are never overwritten.
pub serve-LaterDb :
    (py : Python) (calls : List (Env × Call)) (db : Db) → LaterDb db (serve py calls db)
serve-LaterDb py calls db = serve_induction (After-IsStable db) py calls db (record {
  sessions = Later-refl LaterSession-refl db.interview_sessions;
  enrollments = Later-refl LaterEnrollment-refl db.candidate_assessments;
})
