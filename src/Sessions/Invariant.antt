-- ===== src/Sessions/Invariant.antt =====
-- An invariant of the database that every statement of the candidate session repository keeps is
-- kept by every method of the service, and so by any sequence of calls.
use i_bot_core_api_service.Prelude.{
  String, Bool, Option, none, some, List, [], ◌∷◌, Option-cases, inl, inr,
}
use i_bot_core_api_service.Json.{ℤ}
use i_bot_core_api_service.Db.{Db, Uuid, Time, InterviewSession, EventName, Detail, Error}
use i_bot_core_api_service.Keeps.{Keeps, keeps_rules, Keeps-pure, Keeps-raise}
use i_bot_core_api_service.Repositories.Env.{Env}
use i_bot_core_api_service.Repositories.Contexts.{
  InvitationContext, SessionContext, lock_invitation_context, lock_session_context_by_token,
}
use i_bot_core_api_service.Repositories.CandidateSession as Repository
use i_bot_core_api_service.Violations.{Python}
use i_bot_core_api_service.Sessions.Outcome.{Outcome, settle, record_event}
use i_bot_core_api_service.Sessions.Enter.{
  enter_with_invitation, enter_context, enter_session, admit, issue_credentials, consume_if_fresh,
  bootstrap_response, bootstrap_context, get_session_context,
}
use i_bot_core_api_service.Sessions.Connect.{
  authorize_interview_connection, authorize_demo, record_disconnect, resume, time_out, reconnect,
  bind_connection, authorize_valid, demo_valid, log_drop,
}
use i_bot_core_api_service.Sessions.Calls.{
  Call, enter, context, authorize, demo, disconnect, serve_call, serve,
}

-- What the statements of the repository have to keep.
pub record IsStable (P : Db → Type 0) : Type 0 where
  pub record_event :
      (name : EventName) (id : Uuid) (ca_id : Option Uuid) (details : List (String × Detail))
      → Keeps P (record_event name id ca_id details)
  pub insert_session : (env : Env) (ca_id : Uuid) → Keeps P (Repository.insert_session env ca_id)
  pub consume : (env : Env) (ca_id : Uuid) → Keeps P (Repository.consume_invitation env ca_id)
  pub credentials :
      (env : Env) (id : Uuid) (token : String) (expires_at : Time)
      → Keeps P (Repository.set_session_credentials env id token expires_at)
  pub bind :
      (env : Env) (id : Uuid) (connection_id : String)
      → Keeps P (Repository.bind_active_connection env id connection_id)
  pub restore : (env : Env) (id : Uuid) → Keeps P (Repository.restore_disconnected_session env id)
  pub time_out : (env : Env) (id : Uuid) → Keeps P (Repository.terminate_reconnect_timeout env id)
  pub drop :
      (env : Env) (id : Uuid) (connection_id : String) (deadline : Time) (elapsed_secs : ℤ)
      → Keeps P (Repository.record_disconnect env id connection_id deadline elapsed_secs)

module _ {P : Db → Type 0} (stable : IsStable P) (py : Python) (env : Env) where
  settle-Keeps : {A : Type 0} (e : Error) (o : Outcome A) → Keeps P (settle e o)
  settle-Keeps e (some x, response) = Keeps-raise x
  settle-Keeps e (none, none) = Keeps-raise e
  settle-Keeps e (none, some a) = Keeps-pure a

  bootstrap_response-Keeps :
      (c : InvitationContext) (s : InterviewSession) (reissued : Bool)
      → Keeps P (bootstrap_response py env c s reissued)
  unfolding bootstrap_response
  bootstrap_response-Keeps c s reissued = elim (Option-cases s.session_token_expires_at) [
    | inl e ↦ rw e (Keeps-raise _)
    | inr (t, e) ↦ rw e (Keeps-pure _)
  ]

  issue_credentials-Keeps :
      (c : InvitationContext) (s : InterviewSession) → Keeps P (issue_credentials py env c s)
  unfolding issue_credentials
  issue_credentials-Keeps c s = search (keeps_rules, stable.credentials)

  consume_if_fresh-Keeps : (c : InvitationContext) → Keeps P (consume_if_fresh py env c)
  unfolding consume_if_fresh
  consume_if_fresh-Keeps c = search (keeps_rules, stable.consume)

  admit-Keeps : (c : InvitationContext) (s : InterviewSession) → Keeps P (admit py env c s)
  unfolding admit
  admit-Keeps c s = search (
    keeps_rules, stable.record_event, issue_credentials-Keeps, consume_if_fresh-Keeps,
    bootstrap_response-Keeps,
  )

  enter_session-Keeps :
      (c : InvitationContext) (s : InterviewSession) → Keeps P (enter_session py env c s)
  unfolding enter_session
  enter_session-Keeps c s = search (keeps_rules, stable.record_event, admit-Keeps)

  enter_context-Keeps :
      (token : Uuid) (c : Option InvitationContext) → Keeps P (enter_context py env token c)
  unfolding enter_context Repository.get_or_create_session_for_update
  enter_context-Keeps token none = search (keeps_rules, stable.record_event)
  enter_context-Keeps token (some c) =
      search (keeps_rules, stable.insert_session, enter_session-Keeps) depth 8

  enter_with_invitation-Keeps : (token : Uuid) → Keeps P (enter_with_invitation py env token)
  unfolding enter_with_invitation lock_invitation_context
  enter_with_invitation-Keeps token = search (keeps_rules, enter_context-Keeps, settle-Keeps)

  bootstrap_context-Keeps :
      (rejection : Option Error) (c : Option SessionContext)
      → Keeps P (bootstrap_context py env rejection c)
  bootstrap_context-Keeps none none = search keeps_rules
  bootstrap_context-Keeps none (some c) = elim (Option-cases c.session_token_expires_at) [
    | inl e ↦ rw e (Keeps-raise _)
    | inr (t, e) ↦ rw e (Keeps-pure _)
  ]
  bootstrap_context-Keeps (some e) c = search keeps_rules

  get_session_context-Keeps : (token : String) → Keeps P (get_session_context py env token)
  unfolding get_session_context lock_session_context_by_token
  get_session_context-Keeps token = search (keeps_rules, bootstrap_context-Keeps, settle-Keeps)

  time_out-Keeps : (c : SessionContext) → Keeps P (time_out env c)
  unfolding time_out
  time_out-Keeps c = search (keeps_rules, stable.time_out, stable.record_event)

  reconnect-Keeps : (c : SessionContext) → Keeps P (reconnect env c)
  unfolding reconnect
  reconnect-Keeps c = search (keeps_rules, stable.restore, stable.record_event)

  resume-Keeps : (c : SessionContext) → Keeps P (resume env c)
  unfolding resume
  resume-Keeps c = search (keeps_rules, time_out-Keeps, reconnect-Keeps)

  bind_connection-Keeps :
      (c : SessionContext) (rejection : Option Error) → Keeps P (bind_connection env c rejection)
  bind_connection-Keeps c none = search (keeps_rules, stable.bind)
  bind_connection-Keeps c (some e) = search keeps_rules

  authorize_valid-Keeps :
      (rejection : Option Error) (c : Option SessionContext)
      → Keeps P (authorize_valid env rejection c)
  authorize_valid-Keeps none none = search keeps_rules
  authorize_valid-Keeps none (some c) = search (keeps_rules, resume-Keeps, bind_connection-Keeps)
  authorize_valid-Keeps (some e) c = search keeps_rules

  authorize-Keeps : (token : String) → Keeps P (authorize_interview_connection env token)
  unfolding authorize_interview_connection lock_session_context_by_token
  authorize-Keeps token = search (keeps_rules, authorize_valid-Keeps, settle-Keeps)

  demo_valid-Keeps :
      (rejection : Option Error) (c : Option SessionContext) → Keeps P (demo_valid env rejection c)
  demo_valid-Keeps none none = search keeps_rules
  demo_valid-Keeps none (some c) = search keeps_rules
  demo_valid-Keeps (some e) c = search keeps_rules

  authorize_demo-Keeps : (token : String) → Keeps P (authorize_demo env token)
  unfolding authorize_demo lock_session_context_by_token
  authorize_demo-Keeps token = search (keeps_rules, demo_valid-Keeps, settle-Keeps)

  log_drop-Keeps :
      (id ca_id : Uuid) (reason : String) (elapsed_secs : ℤ) (s : Option InterviewSession)
      → Keeps P (log_drop env id ca_id reason elapsed_secs s)
  log_drop-Keeps id ca_id reason elapsed_secs none = search keeps_rules
  log_drop-Keeps id ca_id reason elapsed_secs (some s) = search (keeps_rules, stable.record_event)

  record_disconnect-Keeps :
      (id : Uuid) (connection_id : String) (ca_id : Uuid) (reason : String) (elapsed_secs : ℤ)
      → Keeps P (record_disconnect env id connection_id ca_id reason elapsed_secs)
  unfolding record_disconnect
  record_disconnect-Keeps id connection_id ca_id reason elapsed_secs =
      search (keeps_rules, stable.drop, log_drop-Keeps)

  serve_call-keeps : (call : Call) (db : Db) → P db → P (serve_call py env call db)
  unfolding serve_call
  serve_call-keeps (enter token) db h = (enter_with_invitation-Keeps token).holds_after db h
  serve_call-keeps (context token) db h = (get_session_context-Keeps token).holds_after db h
  serve_call-keeps (authorize token) db h = (authorize-Keeps token).holds_after db h
  serve_call-keeps (demo token) db h = (authorize_demo-Keeps token).holds_after db h
  serve_call-keeps (disconnect id connection_id ca_id reason elapsed_secs) db h =
      (record_disconnect-Keeps id connection_id ca_id reason elapsed_secs).holds_after db h

-- A stable predicate that holds at the start holds after any calls.
pub serve_induction :
    {P : Db → Type 0} (stable : IsStable P) (py : Python) (calls : List (Env × Call)) (db : Db)
    → P db
    → P (serve py calls db)
unfolding serve
serve_induction stable py [] db h = h
serve_induction stable py ((env, call) ∷ rest) db h =
    serve_induction stable py rest (serve_call py env call db)
      (serve_call-keeps stable py env call db h)
