-- ===== src/Sessions/Refinement.antt =====
-- The candidate-facing calls refine the abstract life of the sessions.
use i_bot_core_api_service.Prelude.{
  ◌≡◌, refl, String, Bool, true, Option, none, some, List, Option-cases, inl, inr, &&-eq-true,
}
use i_bot_core_api_service.Json.{ℤ}
use i_bot_core_api_service.Db.{
  Db, Uuid, Time, InterviewSession, CandidateAssessment, EventName, Detail, find, modify,
}
use i_bot_core_api_service.Keeps.{Keeps, keeps_rules, Keeps-pure, Keeps-bind}
use i_bot_core_api_service.Repositories.Env.{Env}
use i_bot_core_api_service.Repositories.Statements.{
  has_id, update_sessions, update_session_returning, update_enrollments,
}
use i_bot_core_api_service.Repositories.CandidateSession.{
  insert_session, insert_absent, of_enrollment, consume_invitation, set_session_credentials,
  bind_active_connection, restore_disconnected_session, mark_candidate_terminated,
  terminate_reconnect_timeout, record_disconnect, is_current-live,
}
use i_bot_core_api_service.Violations.{Python}
use i_bot_core_api_service.Sessions.Outcome.{record_event}
use i_bot_core_api_service.Sessions.Calls.{Call, serve}
use i_bot_core_api_service.Sessions.Invariant.{IsStable, serve_induction}
use i_bot_core_api_service.Sessions.Lifecycle.{opened, Run, done, followed, followed_by, views}
use i_bot_core_api_service.Sessions.Moves.{
  Moves, Run-update_where, dropped-Moves, restored-Moves, timed_out-Moves,
}

module _ (start : Db) where
  abbrev Ran : Db → Type 0
  Ran db = Run (views start.interview_sessions) (views db.interview_sessions)

  update_sessions-Ran :
      (p : InterviewSession → Bool) (f : InterviewSession → InterviewSession)
      → ((s : InterviewSession) → p s ≡ true → Moves s (f s))
      → Keeps Ran (update_sessions p f)
  unfolding update_sessions
  update_sessions-Ran p f step = record {
    holds_after = λ db h. followed_by h (Run-update_where p f step db.interview_sessions);
  }

  update_session_returning-Ran :
      (p : InterviewSession → Bool) (f : InterviewSession → InterviewSession)
      → ((s : InterviewSession) → p s ≡ true → Moves s (f s))
      → Keeps Ran (update_session_returning p f)
  unfolding update_session_returning
  update_session_returning-Ran p f step = record {
    holds_after = λ db h. followed_by h (Run-update_where p f step db.interview_sessions);
  }

  update_enrollments-Ran :
      (p : CandidateAssessment → Bool) (f : CandidateAssessment → CandidateAssessment)
      → Keeps Ran (update_enrollments p f)
  unfolding update_enrollments
  update_enrollments-Ran p f = record { holds_after = λ db h. h }

  record_event-Ran :
      (name : EventName) (id : Uuid) (ca_id : Option Uuid) (details : List (String × Detail))
      → Keeps Ran (record_event name id ca_id details)
  unfolding record_event modify
  record_event-Ran name id ca_id details = record { holds_after = λ db h. h }

  insert_session-Ran : (env : Env) (ca_id : Uuid) → Keeps Ran (insert_session env ca_id)
  unfolding insert_session modify
  insert_session-Ran env ca_id = record {
    holds_after = λ db h. elim (Option-cases (find (of_enrollment ca_id) db.interview_sessions)) [
      | inl e ↦ rw (e, insert_absent) (followed h opened)
      | inr (s, e) ↦ rw (e, insert_absent) h
    ];
  }

  module _ (env : Env) where
    consume-Ran : (ca_id : Uuid) → Keeps Ran (consume_invitation env ca_id)
    unfolding consume_invitation
    consume-Ran ca_id = update_enrollments-Ran _ _

    mark_candidate_terminated-Ran : (ca_id : Uuid) → Keeps Ran (mark_candidate_terminated env ca_id)
    unfolding mark_candidate_terminated
    mark_candidate_terminated-Ran ca_id = update_enrollments-Ran _ _

    credentials-Ran :
        (id : Uuid) (token : String) (expires_at : Time)
        → Keeps Ran (set_session_credentials env id token expires_at)
    unfolding set_session_credentials
    credentials-Ran id token expires_at = update_sessions-Ran _ _ (λ s p. inl refl)

    bind-Ran :
        (id : Uuid) (connection_id : String)
        → Keeps Ran (bind_active_connection env id connection_id)
    unfolding bind_active_connection
    bind-Ran id connection_id = update_sessions-Ran _ _ (λ s p. inl refl)

    restore-Ran : (id : Uuid) → Keeps Ran (restore_disconnected_session env id)
    unfolding restore_disconnected_session
    restore-Ran id =
        Keeps-bind _ _
          (update_session_returning-Ran _ _
            (λ s p. restored-Moves env s (&&-eq-true (has_id id s) _ p).1))
          (λ found. search (keeps_rules, update_enrollments-Ran))

    time_out-Ran : (id : Uuid) → Keeps Ran (terminate_reconnect_timeout env id)
    unfolding terminate_reconnect_timeout
    time_out-Ran id =
        Keeps-bind _ _
          (update_session_returning-Ran _ _
            (λ s p. timed_out-Moves env s (&&-eq-true (has_id id s) _ p).1))
          (λ found. search (keeps_rules, mark_candidate_terminated-Ran))

    drop-Ran :
        (id : Uuid) (connection_id : String) (deadline : Time) (elapsed_secs : ℤ)
        → Keeps Ran (record_disconnect env id connection_id deadline elapsed_secs)
    unfolding record_disconnect
    drop-Ran id connection_id deadline elapsed_secs =
        Keeps-bind _ _
          (update_session_returning-Ran _ _ (λ s p.
            dropped-Moves env deadline elapsed_secs s (is_current-live id connection_id s p)))
          elim [
            | none ↦ Keeps-pure none
            | some s ↦ search (keeps_rules, mark_candidate_terminated-Ran)
          ]

  Ran-IsStable : IsStable Ran
  Ran-IsStable = record {
    record_event = record_event-Ran;
    insert_session = insert_session-Ran;
    consume = consume-Ran;
    credentials = credentials-Ran;
    bind = bind-Ran;
    restore = restore-Ran;
    time_out = time_out-Ran;
    drop = drop-Ran;
  }

-- Any sequence of candidate-facing calls is, seen by the status and the drops of each session, a run
-- of the abstract machine: a session begins live and without drops; a live one may drop, which is
-- counted and leaves it away, or over at the third drop; one that is away may come back or stay away
-- for good, with the same count; and one that is over never moves.
pub serve-Run :
    (py : Python) (calls : List (Env × Call)) (db : Db)
    → Run (views db.interview_sessions) (views (serve py calls db).interview_sessions)
serve-Run py calls db = serve_induction (Ran-IsStable db) py calls db done
