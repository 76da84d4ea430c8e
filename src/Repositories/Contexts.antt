-- ===== src/Repositories/Contexts.antt =====
-- The joined rows that src/data/repositories/candidate_session_repository.py locks and returns.
use i_bot_core_api_service.Prelude.{
  ℕ, String, Bool, Option, none, some, List, ◌==◌, nat_eq, is_some_of, string_eq,
}
use i_bot_core_api_service.Json.{Json}
use i_bot_core_api_service.Db.{
  Db, Uuid, Time, SessionStatus, EnrollmentStatus, InterviewSession, CandidateAssessment,
  Assessment, Exec, gets, find,
}
use i_bot_core_api_service.Repositories.Statements.{enrollment_has_id}

-- The row of `lock_invitation_context`.
pub record InvitationContext : Type 0 where
  pub candidate_assessment_id : Uuid
  pub candidate_assessment_status : EnrollmentStatus
  pub invite_consumed : Bool
  pub interview_started_at : Option Time
  pub candidate_name : String
  pub assessment_title : String
  pub interview_plan : Json
  pub interview_duration_mins : ℕ
  pub window_end : Option Time
  pub company_name : String

-- The row of `lock_session_context_by_token`.
pub record SessionContext : Type 0 where
  pub session_id : Uuid
  pub candidate_assessment_id : Uuid
  pub session_status : SessionStatus
  pub session_token : Option String
  pub session_token_expires_at : Option Time
  pub disconnect_count : ℕ
  pub timeout_disconnect_count : ℕ
  pub reconnect_deadline : Option Time
  pub active_connection_id : Option String
  pub total_elapsed_secs : ℕ
  pub violations : List Json
  pub candidate_id : Uuid
  pub assessment_id : Uuid
  pub candidate_assessment_status : EnrollmentStatus
  pub interview_started_at : Option Time
  pub candidate_name : String
  pub assessment_title : String
  pub interview_plan : Json
  pub interview_duration_mins : ℕ
  pub window_end : Option Time
  pub company_name : String

-- `coalesce(Recruiter.company_name, "")` under the outer join.
abbrev pub company_name : Db → Assessment → String
company_name db a = elim (find (λ r. r.id == a.recruiter_id) db.recruiters) [
  | none ↦ ""
  | some r ↦ r.company_name
]

-- The two inner joins: an enrollment whose candidate or assessment is gone gives no row.
unfoldable pub invitation_row : Db → CandidateAssessment → Option InvitationContext
invitation_row db ca = elim (find (λ c. c.id == ca.candidate_id) db.candidates) [
  | none ↦ none
  | some c ↦ elim (find (λ a. a.id == ca.assessment_id) db.assessments) [
    | none ↦ none
    | some a ↦ some (record {
      candidate_assessment_id = ca.id;
      candidate_assessment_status = ca.status;
      invite_consumed = ca.invite_consumed;
      interview_started_at = ca.interview_started_at;
      candidate_name = c.full_name;
      assessment_title = a.title;
      interview_plan = a.interview_plan;
      interview_duration_mins = a.interview_duration_mins;
      window_end = some a.window_end;
      company_name = company_name db a;
    })
  ]
]

abbrev pub has_invitation : Uuid → CandidateAssessment → Bool
has_invitation token ca = ca.invitation_token == token

unfoldable pub lock_invitation_context : Uuid → Exec Db (Option InvitationContext)
lock_invitation_context token = gets λ db.
    elim (find (has_invitation token) db.candidate_assessments) [
      | none ↦ none
      | some ca ↦ invitation_row db ca
    ]

unfoldable pub session_row : Db → InterviewSession → Option SessionContext
session_row db s =
    elim (find (enrollment_has_id s.candidate_assessment_id) db.candidate_assessments) [
      | none ↦ none
      | some ca ↦ elim (find (λ c. c.id == ca.candidate_id) db.candidates) [
        | none ↦ none
        | some c ↦ elim (find (λ a. a.id == ca.assessment_id) db.assessments) [
          | none ↦ none
          | some a ↦ some (record {
            session_id = s.id;
            candidate_assessment_id = s.candidate_assessment_id;
            session_status = s.status;
            session_token = s.session_token;
            session_token_expires_at = s.session_token_expires_at;
            disconnect_count = s.disconnect_count;
            timeout_disconnect_count = s.timeout_disconnect_count;
            reconnect_deadline = s.reconnect_deadline;
            active_connection_id = s.active_connection_id;
            total_elapsed_secs = s.total_elapsed_secs;
            violations = s.violations;
            candidate_id = ca.candidate_id;
            assessment_id = ca.assessment_id;
            candidate_assessment_status = ca.status;
            interview_started_at = ca.interview_started_at;
            candidate_name = c.full_name;
            assessment_title = a.title;
            interview_plan = a.interview_plan;
            interview_duration_mins = a.interview_duration_mins;
            window_end = some a.window_end;
            company_name = company_name db a;
          })
        ]
      ]
    ]

abbrev pub has_token : String → InterviewSession → Bool
has_token token s = is_some_of s.session_token token

unfoldable pub session_context : Db → String → Option SessionContext
session_context db token = elim (find (has_token token) db.interview_sessions) [
  | none ↦ none
  | some s ↦ session_row db s
]

unfoldable pub lock_session_context_by_token : String → Exec Db (Option SessionContext)
lock_session_context_by_token token = gets λ db. session_context db token
