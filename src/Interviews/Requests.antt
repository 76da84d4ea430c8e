-- ===== src/Interviews/Requests.antt =====
-- The engine's requests that combine several statements: `initialize_interview_context` and
-- `persist_turn` of src/api/rest/routes/internal_interview.py.
use i_bot_core_api_service.Prelude.{ℕ, String, Option, none, some, List, [], ◌∷◌, ◌==◌, nat_eq}
use i_bot_core_api_service.Json.{Json, Fields, ℤ, pos}
use i_bot_core_api_service.Db.{
  Db, Uuid, Time, InterviewSession, CandidateAssessment, Candidate, Exec,
  interview_context_not_found, find, raise, pure, gets, ◌>>=◌, ◌>>◌,
}
use i_bot_core_api_service.Repositories.Env.{Env}
use i_bot_core_api_service.Repositories.Statements.{enrollment_by_id}
use i_bot_core_api_service.Repositories.Contexts.{company_name}
use i_bot_core_api_service.Repositories.CandidateSession.{get_or_create_session_for_update}
use i_bot_core_api_service.Violations.{Python}
use i_bot_core_api_service.Interviews.Rows.{
  append_transcript_turn, append_violation, update_elapsed_time, mark_session_in_progress,
  mark_candidate_started,
}

-- The row of `load_interview_context`.
pub record InterviewContext : Type 0 where
  pub interview_started_at : Option Time
  pub resume_parsed : Json
  pub candidate_name : String
  pub role_name : String
  pub jd_analysis : Json
  pub interview_plan : Json
  pub interview_duration_mins : ℕ
  pub company_name : String

abbrev context_of : Db → CandidateAssessment → Candidate → Option InterviewContext
context_of db ca c = elim (find (λ a. a.id == ca.assessment_id) db.assessments) [
  | none ↦ none
  | some a ↦ some (record {
    interview_started_at = ca.interview_started_at;
    resume_parsed = ca.resume_parsed;
    candidate_name = c.full_name;
    role_name = a.role_name;
    jd_analysis = a.jd_analysis;
    interview_plan = a.interview_plan;
    interview_duration_mins = a.interview_duration_mins;
    company_name = company_name db a;
  })
]

unfoldable pub load_interview_context : Uuid → Exec Db (Option InterviewContext)
load_interview_context ca_id = gets λ db. elim (enrollment_by_id db ca_id) [
  | none ↦ none
  | some ca ↦ elim (find (λ c. c.id == ca.candidate_id) db.candidates) [
    | none ↦ none
    | some c ↦ context_of db ca c
  ]
]

-- Its statements are those of `get_or_create_session_for_update`: the columns that it does not
-- name default to 0.
abbrev pub get_or_create_session : Env → Uuid → Exec Db InterviewSession
get_or_create_session env ca_id = get_or_create_session_for_update env ca_id

abbrev pub initialize_found :
    Env → Uuid → Option InterviewContext → Exec Db (InterviewContext × InterviewSession)
initialize_found env ca_id none = raise interview_context_not_found
initialize_found env ca_id (some context) = do
  s ← get_or_create_session env ca_id
  mark_session_in_progress env s.id
  mark_candidate_started env ca_id
  pure (context, s)

unfoldable pub initialize_interview_context :
    Env → Uuid → Exec Db (InterviewContext × InterviewSession)
initialize_interview_context env ca_id = do
  context ← load_interview_context ca_id
  initialize_found env ca_id context

module _ (py : Python) (env : Env) (session_id : Uuid) where
  unfoldable pub append_turns : List Fields → Exec Db Unit
  append_turns [] = pure tt
  append_turns (item ∷ rest) = do
    append_transcript_turn py env session_id item none
    append_turns rest

  unfoldable pub append_violations : List Fields → Exec Db Unit
  append_violations [] = pure tt
  append_violations (item ∷ rest) = do
    append_violation py env session_id item
    append_violations rest

  unfoldable pub persist_turn : List Fields → List Fields → Option ℤ → Exec Db Unit
  persist_turn transcript_items violations elapsed_secs = do
    append_turns transcript_items
    append_violations violations
    elim elapsed_secs [ none ↦ pure tt | some n ↦ update_elapsed_time env session_id n (pos 0) ]
