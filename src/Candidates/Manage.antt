-- ===== src/Candidates/Manage.antt =====
-- Decisions, deletions and parsed resumes: `update_recruiter_decision`,
-- `delete_candidate_from_assessment` and `process_candidate_resume_in_background` of
-- src/core/services/candidate_service.py.
use i_bot_core_api_service.Prelude.{
  String, Bool, true, false, not, ◌&&◌, Option, none, some, List, [], ◌∷◌, ◌==◌, nat_eq, string_eq,
  if◌then◌else◌,
}
use i_bot_core_api_service.Json.{Json}
use i_bot_core_api_service.Db.{
  Db, Uuid, Candidate, Assessment, CandidateAssessment, Decision, session_scope, Exec,
  attribute_error, candidate_registration_not_found, candidate_access_denied, raise, pure, gets,
  ◌>>=◌, ◌>>◌,
}
use i_bot_core_api_service.Office.{Office, DecisionEmail, send_decision, on_rows, enqueue}
use i_bot_core_api_service.Repositories.Env.{Env}
use i_bot_core_api_service.Repositories.Statements.{enrollment_by_id}
use i_bot_core_api_service.Assessments.Repository.{assessment_by_id}
use i_bot_core_api_service.Candidates.Repository.{
  candidate_by_id, delete_candidate, get_all_by_candidate_id, save_decision, decided,
  delete_enrollment,
}
use i_bot_core_api_service.Candidates.Repository.{
  save_parsed_resume_success, save_parsed_resume_failed,
}
use i_bot_core_api_service.Candidates.Enroll.{or_raise}

-- The row with its assessment; a foreign key keeps the assessment there.
unfoldable pub registration : Uuid → Exec Office (CandidateAssessment × Assessment)
registration id = do
  found ← gets (λ o. enrollment_by_id o.db id)
  ca ← or_raise candidate_registration_not_found found
  known ← gets (λ o. assessment_by_id o.db ca.assessment_id)
  a ← or_raise attribute_error known
  pure (ca, a)

abbrev pub same_decision : Decision → Decision → Bool
same_decision Decision.pending Decision.pending = true
same_decision Decision.approved Decision.approved = true
same_decision Decision.rejected Decision.rejected = true
same_decision _ _ = false

abbrev pub name_of : Option Candidate → String
name_of none = ""
name_of (some c) = c.full_name

abbrev pub email_of : Option Candidate → String
email_of none = ""
email_of (some c) = c.email

abbrev pub decision_email :
    CandidateAssessment → Assessment → Option Candidate → Decision → Option String → DecisionEmail
decision_email ca a c decision feedback = record {
  ca_record_id = ca.id;
  candidate_name = name_of c;
  recipient_email = email_of c;
  assessment_title = a.title;
  role_name = a.role_name;
  decision = decision;
  feedback = feedback;
}

-- The e-mail is handed to the event loop at once, before the transaction commits.
unfoldable pub update_recruiter_decision :
    Env → Uuid → Uuid → Decision → Option String → Exec Office CandidateAssessment
update_recruiter_decision env id recruiter_id decision feedback = do
  (ca, a) ← registration id
  if not (a.recruiter_id == recruiter_id) then raise candidate_access_denied else pure tt
  c ← gets (λ o. candidate_by_id o.db ca.candidate_id)
  on_rows (save_decision env id decision feedback)
  if not (same_decision ca.recruiter_decision decision) && not (email_of c == "")
      then enqueue (send_decision (decision_email ca a c decision feedback))
      else pure tt
  pure (decided env decision feedback ca)

abbrev pub delete_if_left : Uuid → List CandidateAssessment → Exec Office Unit
delete_if_left candidate_id (_ ∷ _) = pure tt
delete_if_left candidate_id [] = do
  found ← gets (λ o. candidate_by_id o.db candidate_id)
  elim found [ none ↦ pure tt | some c ↦ on_rows (delete_candidate c.id) ]

unfoldable pub delete_candidate_from_assessment : Uuid → Uuid → Exec Office Unit
delete_candidate_from_assessment id recruiter_id = do
  (ca, a) ← registration id
  if not (a.recruiter_id == recruiter_id) then raise candidate_access_denied else pure tt
  on_rows (delete_enrollment id)
  remaining ← gets (λ o. get_all_by_candidate_id o.db ca.candidate_id)
  delete_if_left ca.candidate_id remaining

-- What the download and the parser make of the resume: its content, or the text of an exception.
pub data Parsed : Type 0 where
  content : Json → Parsed
  failure : String → Parsed

-- `none` is a call with neither a URL nor a path. The statements do not raise.
unfoldable pub process_candidate_resume_in_background : Env → Uuid → Option Parsed → Exec Db Unit
process_candidate_resume_in_background env id none = pure tt
process_candidate_resume_in_background env id (some (content parsed)) =
    session_scope (save_parsed_resume_success env id parsed)
process_candidate_resume_in_background env id (some (failure error)) =
    session_scope (save_parsed_resume_failed env id error)
