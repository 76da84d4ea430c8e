-- ===== src/Sessions/Limits.antt =====
-- The bound on dropped connections, and what a session's row keeps together.
use i_bot_core_api_service.Prelude.{
  ◌≤◌, ◌≡◌, ◌≢◌, String, Bool, true, false, Option, none, some, List, All, arith, Option-cases, inl,
  inr, &&-eq-true,
}
use i_bot_core_api_service.Json.{ℤ}
use i_bot_core_api_service.Db.{
  Db, Uuid, Time, InterviewSession, is_live, is_disconnected, is_terminated, All-update_where, find,
  modify, EventName, Detail, CandidateAssessment,
}
use i_bot_core_api_service.Keeps.{Keeps, keeps_rules, Keeps-pure, Keeps-bind}
use i_bot_core_api_service.Repositories.Env.{Env}
use i_bot_core_api_service.Repositories.Statements.{
  has_id, update_sessions, update_session_returning, update_enrollments,
}
use i_bot_core_api_service.Repositories.CandidateSession.{
  insert_session, consume_invitation, set_session_credentials, bind_active_connection,
  restore_disconnected_session, mark_candidate_terminated, terminate_reconnect_timeout,
  record_disconnect, of_enrollment, new_session, insert_absent, bound, is_current-live, restored,
  dropped,
}
use i_bot_core_api_service.Violations.{Python}
use i_bot_core_api_service.Sessions.Outcome.{record_event}
use i_bot_core_api_service.Sessions.Calls.{Call, serve}
use i_bot_core_api_service.Sessions.Invariant.{IsStable, serve_induction}

pub record IsValidSession (s : InterviewSession) : Type 0 where
  pub drops : s.disconnect_count ≤ 3
  pub open_drops : is_terminated s.status ≡ false → s.disconnect_count ≤ 2
  pub deadline : is_disconnected s.status ≡ true → s.reconnect_deadline ≢ none
  pub deadline_only : is_disconnected s.status ≡ false → s.reconnect_deadline ≡ none
  pub connection : is_live s.status ≡ false → s.active_connection_id ≡ none
  pub credential : s.session_token ≢ none → s.session_token_expires_at ≢ none

abbrev pub IsValidDb : Db → Type 0
IsValidDb db = All IsValidSession db.interview_sessions

update_sessions-IsValid :
    (p : InterviewSession → Bool) (f : InterviewSession → InterviewSession)
    → ((s : InterviewSession) → p s ≡ true → IsValidSession s → IsValidSession (f s))
    → Keeps IsValidDb (update_sessions p f)
unfolding update_sessions
update_sessions-IsValid p f keep = record {
  holds_after = λ db h. All-update_where IsValidSession p f db.interview_sessions keep h;
}

update_session_returning-IsValid :
    (p : InterviewSession → Bool) (f : InterviewSession → InterviewSession)
    → ((s : InterviewSession) → p s ≡ true → IsValidSession s → IsValidSession (f s))
    → Keeps IsValidDb (update_session_returning p f)
unfolding update_session_returning
update_session_returning-IsValid p f keep = record {
  holds_after = λ db h. All-update_where IsValidSession p f db.interview_sessions keep h;
}

record_event-IsValid :
    (name : EventName) (id : Uuid) (ca_id : Option Uuid) (details : List (String × Detail))
    → Keeps IsValidDb (record_event name id ca_id details)
unfolding record_event modify
record_event-IsValid name id ca_id details = record { holds_after = λ db h. h }

update_enrollments-IsValid :
    (p : CandidateAssessment → Bool) (f : CandidateAssessment → CandidateAssessment)
    → Keeps IsValidDb (update_enrollments p f)
unfolding update_enrollments
update_enrollments-IsValid p f = record { holds_after = λ db h. h }

new_session-IsValid : (env : Env) (ca_id : Uuid) → IsValidSession (new_session env ca_id)
new_session-IsValid env ca_id = ground arith

insert_session-IsValid : (env : Env) (ca_id : Uuid) → Keeps IsValidDb (insert_session env ca_id)
unfolding insert_session modify
insert_session-IsValid env ca_id = record {
  holds_after = λ db h. elim (Option-cases (find (of_enrollment ca_id) db.interview_sessions)) [
    | inl e ↦ rw (e, insert_absent) (new_session-IsValid env ca_id, h)
    | inr (s, e) ↦ rw (e, insert_absent) h
  ];
}

module _ (env : Env) (id : Uuid) where
  set_session_credentials-IsValid :
      (token : String) (expires_at : Time)
      → Keeps IsValidDb (set_session_credentials env id token expires_at)
  unfolding set_session_credentials
  set_session_credentials-IsValid token expires_at =
      update_sessions-IsValid _ _ (λ s p h. ground arith)

  bound-IsValid :
      (connection_id : String) (s : InterviewSession)
      → is_live s.status ≡ true
      → IsValidSession s
      → IsValidSession (bound env connection_id s)
  bound-IsValid connection_id s p h = ground arith

  bind_active_connection-IsValid :
      (connection_id : String) → Keeps IsValidDb (bind_active_connection env id connection_id)
  unfolding bind_active_connection
  bind_active_connection-IsValid connection_id =
      update_sessions-IsValid _ _
        (λ s p h. bound-IsValid connection_id s (&&-eq-true (has_id id s) _ p).1 h)

  restored-IsValid :
      (s : InterviewSession)
      → is_disconnected s.status ≡ true
      → IsValidSession s
      → IsValidSession (restored env s)
  restored-IsValid s p h = ground arith

  restore-IsValid : Keeps IsValidDb (restore_disconnected_session env id)
  unfolding restore_disconnected_session
  restore-IsValid =
      Keeps-bind _ _
        (update_session_returning-IsValid _ _ (λ s p h. restored-IsValid s (&&-eq-true _ _ p).1 h))
        (λ found. search (keeps_rules, update_enrollments-IsValid))

  mark_candidate_terminated-IsValid :
      (ca_id : Uuid) → Keeps IsValidDb (mark_candidate_terminated env ca_id)
  unfolding mark_candidate_terminated
  mark_candidate_terminated-IsValid ca_id = update_enrollments-IsValid _ _

  time_out-IsValid : Keeps IsValidDb (terminate_reconnect_timeout env id)
  unfolding terminate_reconnect_timeout
  time_out-IsValid =
      Keeps-bind _ _ (update_session_returning-IsValid _ _ (λ s p h. ground arith))
        (λ found. search (keeps_rules, mark_candidate_terminated-IsValid))

  -- A drop of a live session: it had two at most before.
  dropped-IsValid :
      (deadline : Time) (elapsed_secs : ℤ) (s : InterviewSession)
      → is_live s.status ≡ true
      → IsValidSession s
      → IsValidSession (dropped env deadline elapsed_secs s)
  dropped-IsValid deadline elapsed_secs s p h = ground arith

  drop-IsValid :
      (connection_id : String) (deadline : Time) (elapsed_secs : ℤ)
      → Keeps IsValidDb (record_disconnect env id connection_id deadline elapsed_secs)
  unfolding record_disconnect
  drop-IsValid connection_id deadline elapsed_secs =
      Keeps-bind _ _
        (update_session_returning-IsValid _ _ (λ s p h.
          dropped-IsValid deadline elapsed_secs s (is_current-live id connection_id s p) h))
        elim [
          | none ↦ Keeps-pure none
          | some s ↦ search (keeps_rules, mark_candidate_terminated-IsValid)
        ]

IsValidDb-IsStable : IsStable IsValidDb
IsValidDb-IsStable = record {
  record_event = record_event-IsValid;
  insert_session = insert_session-IsValid;
  consume = λ env ca_id. unfold consume_invitation in update_enrollments-IsValid _ _;
  credentials = set_session_credentials-IsValid;
  bind = bind_active_connection-IsValid;
  restore = restore-IsValid;
  time_out = time_out-IsValid;
  drop = drop-IsValid;
}

-- From a valid database, after any sequence of candidate-facing calls, every session still counts
-- at most three dropped connections and at most two unless it is terminated, has a reconnect
-- deadline exactly while it is disconnected, has no bound connection unless it is live, and has
-- an expiry beside its token.
pub serve-IsValidDb :
    (py : Python) (calls : List (Env × Call)) (db : Db)
    → IsValidDb db
    → IsValidDb (serve py calls db)
serve-IsValidDb py calls db h = serve_induction IsValidDb-IsStable py calls db h
