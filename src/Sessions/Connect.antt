-- ===== src/Sessions/Connect.antt =====
-- `authorize_interview_connection`, `authorize_demo` and `record_disconnect`.
use i_bot_core_api_service.Prelude.{
  ◌+◌, String, Bool, true, false, Option, none, some, List, [], ◌∷◌, ltb, string_eq, if◌then◌else◌,
}
use i_bot_core_api_service.Json.{ℤ, max_zero, arr, from_list}
use i_bot_core_api_service.Db.{
  Db, Uuid, Time, InterviewSession, is_disconnected, is_in_progress, is_terminated, EventName,
  Detail, text, count, at, Exec, Error, reconnect_timeout, interview_connection_failed, forbidden,
  invalid_session_token, pure, session_scope, ◌>>=◌, ◌>>◌,
}
use i_bot_core_api_service.Repositories.Env.{Env, minutes}
use i_bot_core_api_service.Repositories.Contexts.{SessionContext, lock_session_context_by_token}
use i_bot_core_api_service.Repositories.CandidateSession as Repository
use i_bot_core_api_service.Violations.{tab_switch_count}
use i_bot_core_api_service.Sessions.Outcome.{Outcome, reject, respond, settle, record_event}
use i_bot_core_api_service.Sessions.Responses.{Connection}
use i_bot_core_api_service.Sessions.Validate.{validate_active_token, text_or}

module _ (env : Env) where
  -- `reconnect_deadline is None or reconnect_deadline < now`
  abbrev pub deadline_missed : Option Time → Time → Bool
  deadline_missed none now = true
  deadline_missed (some t) now = ltb t now

  unfoldable pub time_out : SessionContext → Exec Db (Option Error)
  time_out c = do
    terminated ← Repository.terminate_reconnect_timeout env c.session_id
    record_event EventName.session_disconnect_timeout_recorded c.session_id
        (some c.candidate_assessment_id)
        (("timeout_disconnect_count", count terminated.timeout_disconnect_count)
          ∷ ("reconnect_deadline", at c.reconnect_deadline)
          ∷ [])
    record_event EventName.session_terminated_reconnect_timeout c.session_id
        (some c.candidate_assessment_id)
        (("timeout_disconnect_count", count terminated.timeout_disconnect_count)
          ∷ ("disconnect_count", count terminated.disconnect_count)
          ∷ [])
    pure (some reconnect_timeout)

  unfoldable pub reconnect : SessionContext → Exec Db (Option Error)
  reconnect c = do
    restored ← Repository.restore_disconnected_session env c.session_id
    record_event EventName.session_reconnected c.session_id (some c.candidate_assessment_id) (
        ("disconnect_count", count restored.disconnect_count)
        ∷ ("timeout_disconnect_count", count restored.timeout_disconnect_count)
        ∷ ("reconnected_at", at (some (env.utc_now 2)))
        ∷ [])
    pure none

  -- `if session_status == "DISCONNECTED": ...`, the rejection that it leaves.
  unfoldable pub resume : SessionContext → Exec Db (Option Error)
  resume c =
      if is_disconnected c.session_status
      then (if deadline_missed c.reconnect_deadline (env.utc_now 2)
          then time_out c
          else reconnect c)
      else pure none

  abbrev active_or_new : Option String → String
  active_or_new none = env.uuid4_hex
  active_or_new (some c) = text_or c env.uuid4_hex

  -- An interview in progress gets a new connection generation.
  unfoldable pub next_connection : SessionContext → String
  next_connection c =
      if is_in_progress c.session_status
      then env.uuid4_hex
      else active_or_new c.active_connection_id

  abbrev expiry_or_now : Option Time → Time
  expiry_or_now none = env.utc_now 2
  expiry_or_now (some t) = t

  unfoldable pub connection_response : SessionContext → Connection
  connection_response c = record {
    session_id = c.session_id;
    connection_id = next_connection c;
    candidate_assessment_id = c.candidate_assessment_id;
    candidate_id = c.candidate_id;
    assessment_id = c.assessment_id;
    candidate_name = text_or c.candidate_name "Candidate";
    session_token_expires_at = expiry_or_now c.session_token_expires_at;
    elapsed_secs = c.total_elapsed_secs;
    interview_started = elim c.interview_started_at [ none ↦ false | some _ ↦ true ];
    tab_switch_count = tab_switch_count (arr (from_list c.violations));
  }

  abbrev pub bind_connection : SessionContext → Option Error → Exec Db (Outcome Connection)
  bind_connection c (some e) = reject e
  bind_connection c none = do
    Repository.bind_active_connection env c.session_id (next_connection c)
    respond (connection_response c)

  abbrev pub authorize_valid : Option Error → Option SessionContext → Exec Db (Outcome Connection)
  authorize_valid (some e) context = reject e
  authorize_valid none none = pure (none, none)
  authorize_valid none (some c) = do rejection ← resume c; bind_connection c rejection

  unfoldable pub authorize_interview_connection : String → Exec Db Connection
  authorize_interview_connection session_token = do
    outcome ← session_scope (do
      context ← lock_session_context_by_token session_token
      authorize_valid (validate_active_token env context) context)
    settle interview_connection_failed outcome

  abbrev pub demo_valid : Option Error → Option SessionContext → Exec Db (Outcome SessionContext)
  demo_valid (some e) context = reject e
  demo_valid none none = pure (none, none)
  demo_valid none (some c) =
      if is_disconnected c.session_status then reject forbidden else respond c

  -- The context of a token that passes validation is never empty, so the last case of `settle` is
  -- not reached here.
  unfoldable pub authorize_demo : String → Exec Db SessionContext
  authorize_demo session_token = do
    outcome ← session_scope (do
      context ← lock_session_context_by_token session_token
      demo_valid (validate_active_token env context) context)
    settle invalid_session_token outcome

  -- RECONNECT_WINDOW
  abbrev pub reconnect_window : Time
  reconnect_window = minutes 5

  abbrev drop_event : InterviewSession → EventName
  drop_event s =
      if is_terminated s.status
      then EventName.session_terminated_max_disconnects
      else EventName.session_disconnected

  abbrev drop_details : InterviewSession → String → ℤ → List (String × Detail)
  drop_details s reason elapsed_secs =
      if is_terminated s.status
      then ("reason", text (text_or reason "livekit_session_closed"))
        ∷ ("disconnect_count", count s.disconnect_count)
        ∷ ("elapsed_secs", count (max_zero elapsed_secs))
        ∷ []
      else ("reason", text (text_or reason "livekit_session_closed"))
        ∷ ("disconnect_count", count s.disconnect_count)
        ∷ ("timeout_disconnect_count", count s.timeout_disconnect_count)
        ∷ ("reconnect_deadline", at (some (env.utc_now 0 + reconnect_window)))
        ∷ ("elapsed_secs", count (max_zero elapsed_secs))
        ∷ []

  abbrev pub log_drop :
      Uuid → Uuid → String → ℤ → Option InterviewSession → Exec Db (Option InterviewSession)
  log_drop session_id ca_id reason elapsed_secs none = pure none
  log_drop session_id ca_id reason elapsed_secs (some s) = do
    record_event (drop_event s) session_id (some ca_id) (drop_details s reason elapsed_secs)
    pure (some s)

  -- `{}` is `none`.
  unfoldable pub record_disconnect :
      Uuid → String → Uuid → String → ℤ → Exec Db (Option InterviewSession)
  record_disconnect session_id connection_id ca_id reason elapsed_secs = session_scope (do
    outcome ←
        Repository.record_disconnect env session_id connection_id (env.utc_now 0 + reconnect_window)
          elapsed_secs
    log_drop session_id ca_id reason elapsed_secs outcome)
