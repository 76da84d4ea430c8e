-- ===== src/Tests/Data.antt =====
-- A recruiter with one assessment, one candidate and one interview.
use i_bot_core_api_service.Prelude.{
  ℕ, ◌*◌, true, false, none, some, [], ◌∷◌, ◌==◌, nat_eq, if◌then◌else◌,
}
use i_bot_core_api_service.Json.{null, str, arr, obj, from_list, dict}
use i_bot_core_api_service.Db.{
  Db, Time, Recruiter, Candidate, Assessment, CandidateAssessment, InterviewSession, SessionStatus,
  EnrollmentStatus, AssessmentStatus, ParseStatus, Decision,
}
use i_bot_core_api_service.Repositories.Env.{Env}
use i_bot_core_api_service.Violations.{Python}

abbrev pub seconds : ℕ → Time
seconds n = n * 1000000

abbrev pub test_python : Python
test_python = record {
  repr = λ j. "?";
  to_int = λ j. none;
  to_float = λ z. z;
  uuid_text = λ n. if n == 1 then "one" else "other";
  isoformat = λ t. "2026-01-01T00:00:00+00:00";
}

-- A request at a time.
abbrev pub at_time : Time → Env
at_time t = record {
  db_now = t;
  utc_now = λ k. t;
  fresh_id = 99;
  token_urlsafe = "fresh-token";
  uuid4_hex = "fresh-connection";
}

abbrev pub recruiter : Recruiter
recruiter = record {
  id = 1;
  full_name = "Rina";
  email = "rina@example.com";
  hashed_password = "salt:secret";
  company_name = "Example";
  is_active = true;
}

abbrev pub candidate : Candidate
candidate = record { id = 2; full_name = "Chandra"; email = "c@example.com"; created_by = 1 }

abbrev pub assessment : Assessment
assessment = record {
  id = 3;
  recruiter_id = 1;
  title = "Backend";
  role_name = "Engineer";
  jd_text = "";
  jd_file_path = none;
  jd_analysis = null;
  focus_areas = null;
  interview_plan = obj (
      dict (
        ("sections", arr (from_list (obj (dict (("section_name", str "Basics") ∷ [])) ∷ [])))
        ∷ []));
  interview_duration_mins = 30;
  window_start = 0;
  window_end = seconds 100000;
  status = AssessmentStatus.active;
  updated_at = 0;
}

abbrev pub enrollment : EnrollmentStatus → CandidateAssessment
enrollment status = record {
  id = 4;
  candidate_id = 2;
  assessment_id = 3;
  resume_file_path = "";
  resume_parsed = null;
  resume_parse_status = ParseStatus.completed;
  invitation_token = 7;
  invite_consumed = false;
  invite_consumed_at = none;
  status = status;
  interview_started_at = none;
  interview_ended_at = none;
  recruiter_decision = Decision.pending;
  recruiter_feedback = none;
  updated_at = 0;
}

abbrev pub new_interview : InterviewSession
new_interview = record {
  id = 5;
  candidate_assessment_id = 4;
  transcript = [];
  violations = [];
  status = SessionStatus.initializing;
  total_elapsed_secs = 0;
  total_pause_secs = 0;
  session_token = none;
  session_token_expires_at = none;
  disconnect_count = 0;
  timeout_disconnect_count = 0;
  last_disconnected_at = none;
  reconnect_deadline = none;
  active_connection_id = none;
  last_updated_at = 0;
}

-- The session once it has its token, dropped once and waiting for its candidate.
abbrev pub dropped_interview : InterviewSession
dropped_interview = record new_interview {
  session_token = some "token";
  session_token_expires_at = some (seconds 100000);
  status = SessionStatus.disconnected;
  disconnect_count = 1;
  last_disconnected_at = some (seconds 1000);
  reconnect_deadline = some (seconds 1300);
}

-- The session while its candidate is connected.
abbrev pub live_interview : InterviewSession
live_interview = record new_interview {
  session_token = some "token";
  session_token_expires_at = some (seconds 100000);
  status = SessionStatus.in_progress;
  disconnect_count = 2;
  active_connection_id = some "connection";
}

abbrev pub database : EnrollmentStatus → InterviewSession → Db
database status s = record {
  recruiters = recruiter ∷ [];
  recruiter_tokens = [];
  candidates = candidate ∷ [];
  assessments = assessment ∷ [];
  candidate_assessments = enrollment status ∷ [];
  interview_sessions = s ∷ [];
  event_logs = [];
  notification_logs = [];
  interview_evaluations = [];
}
