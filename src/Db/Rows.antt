-- ===== src/Db/Rows.antt =====
-- The rows of the tables, from src/data/models/postgres. A UUID is only compared: it is a number.
-- A time is a number of microseconds. Columns that no operation of the model reads or writes
-- (relationships, created_at, resume reminders, audit texts) are left out.
use i_bot_core_api_service.Prelude.{ℕ, String, Bool, Option, List}
use i_bot_core_api_service.Json.{Json, ℤ}
use i_bot_core_api_service.Db.Status.{
  SessionStatus, EnrollmentStatus, AssessmentStatus, ParseStatus, Decision,
}

abbrev pub Uuid : Type 0
Uuid = ℕ

abbrev pub Time : Type 0
Time = ℕ

pub record Recruiter : Type 0 where
  pub id : Uuid
  pub full_name : String
  pub email : String
  pub hashed_password : String
  pub company_name : String
  pub is_active : Bool

pub record RecruiterToken : Type 0 where
  pub recruiter_id : Uuid
  pub token_hash : String
  pub expires_at : Time
  pub is_revoked : Bool
  pub user_agent : Option String
  pub ip_address : Option String

pub record Candidate : Type 0 where
  pub id : Uuid
  pub full_name : String
  pub email : String
  pub created_by : Uuid

pub record Assessment : Type 0 where
  pub id : Uuid
  pub recruiter_id : Uuid
  pub title : String
  pub role_name : String
  pub jd_text : String
  pub jd_file_path : Option String
  pub jd_analysis : Json
  pub focus_areas : Json
  pub interview_plan : Json
  pub interview_duration_mins : ℕ
  pub window_start : Time
  pub window_end : Time
  pub status : AssessmentStatus
  pub updated_at : Time

pub record CandidateAssessment : Type 0 where
  pub id : Uuid
  pub candidate_id : Uuid
  pub assessment_id : Uuid
  pub resume_file_path : String
  pub resume_parsed : Json
  pub resume_parse_status : ParseStatus
  pub invitation_token : Uuid
  pub invite_consumed : Bool
  pub invite_consumed_at : Option Time
  pub status : EnrollmentStatus
  pub interview_started_at : Option Time
  pub interview_ended_at : Option Time
  pub recruiter_decision : Decision
  pub recruiter_feedback : Option String
  pub updated_at : Time

pub record InterviewSession : Type 0 where
  pub id : Uuid
  pub candidate_assessment_id : Uuid
  pub transcript : List Json
  pub violations : List Json
  pub status : SessionStatus
  pub total_elapsed_secs : ℕ
  pub total_pause_secs : ℕ
  pub session_token : Option String
  pub session_token_expires_at : Option Time
  pub disconnect_count : ℕ
  pub timeout_disconnect_count : ℕ
  pub last_disconnected_at : Option Time
  pub reconnect_deadline : Option Time
  pub active_connection_id : Option String
  pub last_updated_at : Time

-- EventName, the members that the modelled services record.
pub data EventName : Type 0 where
  invite_link_consumed session_token_reissued invite_link_rejected : EventName
  session_disconnected session_terminated_max_disconnects session_reconnected : EventName
  session_disconnect_timeout_recorded session_terminated_reconnect_timeout : EventName
  csv_row_failed password_reseted : EventName
  celery_task_started celery_task_retrying celery_task_completed celery_task_failed : EventName

pub data EventSource : Type 0 where
  core_api interview_engine : EventSource

-- A value of an event's metadata; `at` is a time's `isoformat()`, or None, and
-- `ident` the `str` of a UUID.
pub data Detail : Type 0 where
  text : String → Detail
  count : ℕ → Detail
  at : Option Time → Detail
  ident : Uuid → Detail

-- The correlation id is the `str` of a UUID.
pub record EventLog : Type 0 where
  pub event_name : EventName
  pub source_service : EventSource
  pub correlation_id : Uuid
  pub candidate_assessment_id : Option Uuid
  pub recruiter_id : Option Uuid
  pub details : List (String × Detail)

-- The notification types that the code writes.
pub data NotificationType : Type 0 where
  invitation approval rejection report_ready report_ready_email assessment_cancellation :
      NotificationType

-- A row is SENT, or FAILED with an error message.
pub record NotificationLog : Type 0 where
  pub candidate_assessment_id : Uuid
  pub notification_type : NotificationType
  pub recipient_email : String
  pub was_sent : Bool
  pub error_message : Option String

-- A score is a float: its place in the order.
pub record InterviewEvaluation : Type 0 where
  pub candidate_assessment_id : Uuid
  pub session_id : Uuid
  pub overall_score : ℤ
  pub report : Json
  pub transcript_hash : String
  pub rank_in_assessment : Option ℕ
  pub percentile_in_assessment : Option ℕ
  pub total_candidates_evaluated : Option ℕ
  pub generated_at : Time

pub record Db : Type 0 where
  pub recruiters : List Recruiter
  pub recruiter_tokens : List RecruiterToken
  pub candidates : List Candidate
  pub assessments : List Assessment
  pub candidate_assessments : List CandidateAssessment
  pub interview_sessions : List InterviewSession
  pub event_logs : List EventLog
  pub notification_logs : List NotificationLog
  pub interview_evaluations : List InterviewEvaluation
