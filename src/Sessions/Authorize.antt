-- ===== src/Sessions/Authorize.antt =====
-- `authorize_interview_connection` once the token is found and valid.

use i_bot_core_api_service.Prelude.{◌≡◌, refl, String, true, none, some, arith}
use i_bot_core_api_service.Db.{Db, Uuid, InterviewSession, is_live, Error, ok, err, find, ◌>>=◌}
use i_bot_core_api_service.Repositories.Env.{Env}
use i_bot_core_api_service.Repositories.Statements.{session_by_id, session_by_id-update}
use i_bot_core_api_service.Repositories.Contexts.{
  SessionContext, session_row, session_context, has_token, lock_session_context_by_token,
}
use i_bot_core_api_service.Repositories.CandidateSession.{bind_active_connection, resumed, bound}
use i_bot_core_api_service.Sessions.Validate.{validate_active_token}
use i_bot_core_api_service.Sessions.Connect.{
  connection_response, next_connection, authorize_interview_connection, resume,
}

-- The columns of the context that come from the session's row.
pub record IsContextOf (s : InterviewSession) (c : SessionContext) : Type 0 where
  pub id : c.session_id ≡ s.id
  pub enrollment : c.candidate_assessment_id ≡ s.candidate_assessment_id
  pub status : c.session_status ≡ s.status
  pub deadline : c.reconnect_deadline ≡ s.reconnect_deadline
  pub connection : c.active_connection_id ≡ s.active_connection_id
  pub expires : c.session_token_expires_at ≡ s.session_token_expires_at
  pub elapsed : c.total_elapsed_secs ≡ s.total_elapsed_secs
  pub violations : c.violations ≡ s.violations

pub session_row-IsContextOf :
    (db : Db) (s : InterviewSession) (c : SessionContext)
    → session_row db s ≡ some c
    → IsContextOf s c
unfolding session_row
session_row-IsContextOf db s c h = ground arith

-- What the request ends with, by how its `DISCONNECTED` branch ended.
module _ (env : Env) (db : Db) (s : InterviewSession) (token : String) (c : SessionContext)
    (found : find (has_token token) db.interview_sessions ≡ some s)
    (row : session_row db s ≡ some c) (valid : validate_active_token env (some c) ≡ none) where
  pub authorize-rejected :
      (e : Error) (after : Db)
      → resume env c db ≡ (ok (some e), after)
      → authorize_interview_connection env token db ≡ (err e, after)
  unfolding authorize_interview_connection lock_session_context_by_token session_context ◌>>=◌
  authorize-rejected e after resumed = rw (found, session_context) (rw row (rw valid (rw resumed)))

  pub authorize-bound :
      (after : Db)
      → resume env c db ≡ (ok none, after)
      → authorize_interview_connection env token db ≡ (
        ok (connection_response env c),
        (bind_active_connection env c.session_id (next_connection env c) after).1,
      )
  unfolding authorize_interview_connection lock_session_context_by_token session_context
      bind_active_connection ◌>>=◌
  authorize-bound after resumed = rw (found, session_context) (rw row (rw valid (rw resumed)))

-- Binding a connection to a live session.
pub bind_active_connection_lem :
    (env : Env) (i : Uuid) (connection_id : String) (db : Db) (s : InterviewSession)
    → i ≡ s.id
    → session_by_id db s.id ≡ some s
    → is_live s.status ≡ true
    → session_by_id (bind_active_connection env i connection_id db).1 s.id
      ≡ some (bound env connection_id s)
unfolding bind_active_connection session_by_id
bind_active_connection_lem env i connection_id db s e stored live = rw e (
    session_by_id-update (λ t. is_live t.status) (bound env connection_id) db s (λ t. refl) stored
      live)
