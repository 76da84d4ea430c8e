-- ===== src/Sessions/Responses.antt =====
-- CandidateSessionBootstrapResponse and CandidateConnectionContext of
-- src/schemas/internal_interview.py.
use i_bot_core_api_service.Prelude.{ℕ, String, Bool, Option, List}
use i_bot_core_api_service.Db.{Uuid, Time, SessionStatus, EnrollmentStatus}

pub record Bootstrap : Type 0 where
  pub session_token : String
  pub session_token_expires_at : Time
  pub session_status : SessionStatus
  pub invite_reissued : Bool
  pub interview_started : Bool
  pub reconnect_deadline : Option Time
  pub disconnect_count : ℕ
  pub candidate_name : String
  pub company_name : String
  pub assessment_title : String
  pub interview_duration_mins : ℕ
  pub window_end : Time
  pub status : EnrollmentStatus
  pub sections_overview : List String

pub record Connection : Type 0 where
  pub session_id : Uuid
  pub connection_id : String
  pub candidate_assessment_id : Uuid
  pub candidate_id : Uuid
  pub assessment_id : Uuid
  pub candidate_name : String
  pub session_token_expires_at : Time
  pub elapsed_secs : ℕ
  pub interview_started : Bool
  pub tab_switch_count : ℕ
