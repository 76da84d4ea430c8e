-- ===== src/Sessions/Calls.antt =====
-- The candidate-facing requests (the session routes of src/api/rest/routes/internal_interview.py),
-- each served in its own transaction, one after another.
use i_bot_core_api_service.Prelude.{String, List, [], ◌∷◌}
use i_bot_core_api_service.Json.{ℤ}
use i_bot_core_api_service.Db.{Db, Uuid}
use i_bot_core_api_service.Repositories.Env.{Env}
use i_bot_core_api_service.Violations.{Python}
use i_bot_core_api_service.Sessions.Enter.{enter_with_invitation, get_session_context}
use i_bot_core_api_service.Sessions.Connect.{
  authorize_interview_connection, authorize_demo, record_disconnect,
}

pub data Call : Type 0 where
  enter : Uuid → Call
  context : String → Call
  authorize : String → Call
  demo : String → Call
  disconnect : Uuid → String → Uuid → String → ℤ → Call

-- The database after one call: the response or the error goes to the client.
unfoldable pub serve_call : Python → Env → Call → Db → Db
serve_call py env (enter token) db = (enter_with_invitation py env token db).1
serve_call py env (context token) db = (get_session_context py env token db).1
serve_call py env (authorize token) db = (authorize_interview_connection env token db).1
serve_call py env (demo token) db = (authorize_demo env token db).1
serve_call py env (disconnect session_id connection_id ca_id reason elapsed_secs) db =
    (record_disconnect env session_id connection_id ca_id reason elapsed_secs db).1

unfoldable pub serve : Python → List (Env × Call) → Db → Db
serve py [] db = db
serve py ((env, call) ∷ rest) db = serve py rest (serve_call py env call db)
