-- ===== src/Sessions/Enter.antt =====
-- `enter_with_invitation` and `get_session_context`.
use i_bot_core_api_service.Prelude.{
  ℕ, ◌+◌, max, String, Bool, false, not, ◌&&◌, Option, none, some, List, [], ◌∷◌, leb, ◌==◌,
  string_eq, if◌then◌else◌,
}
use i_bot_core_api_service.Db.{
  Db, Uuid, Time, InterviewSession, SessionStatus, session_status_text, enrollment_status_text,
  EventName, Detail, text, at, Exec, Error, invalid_invitation, session_expired, session_closed,
  session_bootstrap_failed, session_token_expiry_missing, raise, pure, session_scope, ◌>>=◌, ◌>>◌,
}
use i_bot_core_api_service.Repositories.Env.{Env, minutes}
use i_bot_core_api_service.Repositories.Contexts.{
  InvitationContext, SessionContext, lock_invitation_context, lock_session_context_by_token,
}
use i_bot_core_api_service.Repositories.CandidateSession.{
  get_or_create_session_for_update, consume_invitation, set_session_credentials,
}
use i_bot_core_api_service.Violations.{Python}
use i_bot_core_api_service.Sessions.Outcome.{Outcome, reject, respond, settle, record_event}
use i_bot_core_api_service.Sessions.Responses.{Bootstrap}
use i_bot_core_api_service.Sessions.Validate.{
  is_none, window_missed, is_closed, validate_active_token, text_or, str_of_column,
  sections_overview,
}

abbrev pub existing_token : Option String → String
existing_token none = ""
existing_token (some t) = t

-- `invite_consumed and expires_at is not None and expires_at <= now`
abbrev pub credential_expired : Option Time → Time → Bool
credential_expired none now = false
credential_expired (some t) now = leb t now

module _ (py : Python) (env : Env) where
  abbrev window_end_or_now : Option Time → Time
  window_end_or_now none = env.utc_now 2
  window_end_or_now (some t) = t

  -- `_bootstrap_response` on the entries of its two dicts that it reads from the session.
  abbrev pub bootstrap_from :
      Option String
      → Option Time
      → SessionStatus
      → Option Time
      → ℕ
      → InvitationContext
      → Bool
      → Exec Db (Outcome Bootstrap)
  bootstrap_from token none status deadline drops c reissued = raise session_token_expiry_missing
  bootstrap_from token (some expires_at) status deadline drops c reissued = respond (record {
    session_token = str_of_column token;
    session_token_expires_at = expires_at;
    session_status = status;
    invite_reissued = reissued;
    interview_started = not (is_none c.interview_started_at);
    reconnect_deadline = deadline;
    disconnect_count = drops;
    candidate_name = text_or c.candidate_name "Candidate";
    company_name = text_or c.company_name "the company";
    assessment_title = text_or c.assessment_title "Interview";
    interview_duration_mins = c.interview_duration_mins;
    window_end = window_end_or_now c.window_end;
    status = c.candidate_assessment_status;
    sections_overview = sections_overview py c.interview_plan;
  })

  unfoldable pub bootstrap_response :
      InvitationContext → InterviewSession → Bool → Exec Db (Outcome Bootstrap)
  bootstrap_response c s reissued =
      bootstrap_from s.session_token s.session_token_expires_at s.status s.reconnect_deadline
        s.disconnect_count c reissued

  -- `max(minimum_expiry, window_end + 1 h)`, where the minimum leaves an hour beyond the interview.
  unfoldable pub credential_expiry : InvitationContext → Time
  credential_expiry c =
      let minimum_expiry = env.utc_now 0 + minutes (max 1 c.interview_duration_mins + 60) in
      elim c.window_end [ none ↦ minimum_expiry | some t ↦ max minimum_expiry (t + minutes 60) ]

  -- `if not existing_token: ...`
  unfoldable pub issue_credentials : InvitationContext → InterviewSession → Exec Db InterviewSession
  issue_credentials c s =
      if existing_token s.session_token == ""
      then (do
        let expires_at = credential_expiry c
        set_session_credentials env s.id env.token_urlsafe expires_at
        pure (record s {
          session_token = some env.token_urlsafe;
          session_token_expires_at = some expires_at;
        }))
      else pure s

  unfoldable pub consume_if_fresh : InvitationContext → Exec Db EventName
  consume_if_fresh c = if c.invite_consumed then pure EventName.session_token_reissued else (do
    consume_invitation env c.candidate_assessment_id
    pure EventName.invite_link_consumed)

  unfoldable pub admit : InvitationContext → InterviewSession → Exec Db (Outcome Bootstrap)
  admit c s = do
    s' ← issue_credentials c s
    name ← consume_if_fresh c
    record_event name s.id (some c.candidate_assessment_id) (
        ("session_status", text (session_status_text s.status))
        ∷ ("session_token_expires_at", at s'.session_token_expires_at)
        ∷ [])
    bootstrap_response c s' c.invite_consumed

  abbrev reject_invite :
      Uuid → Option Uuid → List (String × Detail) → Error → Exec Db (Outcome Bootstrap)
  reject_invite correlation ca_id details e = do
    record_event EventName.invite_link_rejected correlation ca_id details
    reject e

  unfoldable pub enter_session : InvitationContext → InterviewSession → Exec Db (Outcome Bootstrap)
  enter_session c s =
      if window_missed c.window_end c.interview_started_at (env.utc_now 0)
      then reject_invite s.id (some c.candidate_assessment_id)
          (("reason", text "assessment_window_expired") ∷ ("window_end", at c.window_end) ∷ [])
          session_expired
      else if is_closed s.status c.candidate_assessment_status
      then reject_invite s.id (some c.candidate_assessment_id)
          (("reason", text "session_terminal")
            ∷ ("session_status", text (session_status_text s.status))
            ∷ (
              "candidate_assessment_status",
              text (enrollment_status_text c.candidate_assessment_status),
            )
            ∷ [])
          session_closed
      else if c.invite_consumed && credential_expired s.session_token_expires_at (env.utc_now 0)
      then reject_invite s.id (some c.candidate_assessment_id)
          (("reason", text "session_token_expired")
            ∷ ("session_status", text (session_status_text s.status))
            ∷ [])
          session_expired
      else admit c s

  unfoldable pub enter_context : Uuid → Option InvitationContext → Exec Db (Outcome Bootstrap)
  enter_context invitation_token none =
      reject_invite invitation_token none (("reason", text "invitation_not_found") ∷ [])
        invalid_invitation
  enter_context invitation_token (some c) = do
    s ← get_or_create_session_for_update env c.candidate_assessment_id
    enter_session c s

  unfoldable pub enter_with_invitation : Uuid → Exec Db Bootstrap
  enter_with_invitation invitation_token = do
    outcome ← session_scope (do
      context ← lock_invitation_context invitation_token
      enter_context invitation_token context)
    settle session_bootstrap_failed outcome

  -- The part of the session's row that `_bootstrap_response` reads of the locked context.
  abbrev as_invitation : SessionContext → InvitationContext
  as_invitation c = record {
    candidate_assessment_id = c.candidate_assessment_id;
    candidate_assessment_status = c.candidate_assessment_status;
    invite_consumed = false;
    interview_started_at = c.interview_started_at;
    candidate_name = c.candidate_name;
    assessment_title = c.assessment_title;
    interview_plan = c.interview_plan;
    interview_duration_mins = c.interview_duration_mins;
    window_end = c.window_end;
    company_name = c.company_name;
  }

  abbrev pub bootstrap_context : Option Error → Option SessionContext → Exec Db (Outcome Bootstrap)
  bootstrap_context (some e) context = reject e
  bootstrap_context none none = pure (none, none)
  bootstrap_context none (some c) =
      bootstrap_from c.session_token c.session_token_expires_at c.session_status
        c.reconnect_deadline c.disconnect_count (as_invitation c) false

  unfoldable pub get_session_context : String → Exec Db Bootstrap
  get_session_context session_token = do
    outcome ← session_scope (do
      context ← lock_session_context_by_token session_token
      bootstrap_context (validate_active_token env context) context)
    settle session_bootstrap_failed outcome
