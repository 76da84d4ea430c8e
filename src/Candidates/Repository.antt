-- ===== src/Candidates/Repository.antt =====
-- src/data/repositories/candidate_repository.py and candidate_assessment_repository.py: the
-- candidates and their enrollments (candidate_assessments).
use i_bot_core_api_service.Prelude.{
  String, Bool, not, ◌&&◌, Option, none, some, List, [], ◌∷◌, filter, ◌==◌, nat_eq, string_eq,
  false,
}
use i_bot_core_api_service.Json.{Json, int, str, arr, obj, nil, dict, pos}
use i_bot_core_api_service.Db.{
  Db, Uuid, Candidate, CandidateAssessment, EnrollmentStatus, ParseStatus, Decision, Exec, gets,
  pure, modify, find, update_where, ◌>>=◌, ◌>>◌,
}
use i_bot_core_api_service.Repositories.Env.{Env}
use i_bot_core_api_service.Repositories.Statements.{enrollment_has_id, update_enrollments}

-- `str.lower` and `str.strip`.
pub record Texts : Type 0 where
  pub lower : String → String
  pub strip : String → String

-- The ids and the token that the new rows of one enrollment draw.
pub record Fresh : Type 0 where
  pub candidate_id : Uuid
  pub enrollment_id : Uuid
  pub invitation_token : Uuid

abbrev pub has_candidate_id : Uuid → Candidate → Bool
has_candidate_id id c = c.id == id

abbrev pub has_candidate_email : String → Candidate → Bool
has_candidate_email email c = c.email == email

unfoldable pub candidate_by_id : Db → Uuid → Option Candidate
candidate_by_id db id = find (has_candidate_id id) db.candidates

-- `get_by_email`
unfoldable pub candidate_by_email : Texts → Db → String → Option Candidate
candidate_by_email texts db email =
    find (has_candidate_email (texts.strip (texts.lower email))) db.candidates

abbrev pub new_candidate : Texts → Fresh → String → String → Uuid → Candidate
new_candidate texts fresh full_name email created_by = record {
  id = fresh.candidate_id;
  full_name = full_name;
  email = texts.strip (texts.lower email);
  created_by = created_by;
}

unfoldable pub create_candidate : Texts → Fresh → String → String → Uuid → Exec Db Candidate
create_candidate texts fresh full_name email created_by = do
  let c = new_candidate texts fresh full_name email created_by
  modify λ db. record db { candidates = c ∷ db.candidates }
  pure c

-- `candidate.full_name = name` and `update_candidate`.
unfoldable pub rename_candidate : Uuid → String → Exec Db Unit
rename_candidate id name = modify λ db. record db {
  candidates =
      update_where (has_candidate_id id) (λ c. record c { full_name = name }) db.candidates;
}

unfoldable pub delete_candidate : Uuid → Exec Db Unit
delete_candidate id =
    modify λ db. record db { candidates = filter (λ c. not (has_candidate_id id c)) db.candidates }

-- A new enrollment stands first, so that the table is in the order of `created_at.desc()`.
unfoldable pub get_all_by_candidate_id : Db → Uuid → List CandidateAssessment
get_all_by_candidate_id db candidate_id =
    filter (λ ca. ca.candidate_id == candidate_id) db.candidate_assessments

abbrev pub is_registration : Uuid → Uuid → CandidateAssessment → Bool
is_registration candidate_id assessment_id ca =
    ca.candidate_id == candidate_id && ca.assessment_id == assessment_id

unfoldable pub get_by_candidate_and_assessment : Db → Uuid → Uuid → Option CandidateAssessment
get_by_candidate_and_assessment db candidate_id assessment_id =
    find (is_registration candidate_id assessment_id) db.candidate_assessments

abbrev pub new_enrollment :
    Env → Fresh → Uuid → Uuid → String → ParseStatus → Json → CandidateAssessment
new_enrollment env fresh candidate_id assessment_id path parse_status parsed = record {
  id = fresh.enrollment_id;
  candidate_id = candidate_id;
  assessment_id = assessment_id;
  resume_file_path = path;
  resume_parsed = parsed;
  resume_parse_status = parse_status;
  invitation_token = fresh.invitation_token;
  invite_consumed = false;
  invite_consumed_at = none;
  status = EnrollmentStatus.invited;
  interview_started_at = none;
  interview_ended_at = none;
  recruiter_decision = Decision.pending;
  recruiter_feedback = none;
  updated_at = env.db_now;
}

-- `CandidateAssessmentRepository.create`
unfoldable pub create_enrollment : CandidateAssessment → Exec Db CandidateAssessment
create_enrollment ca = do
  modify λ db. record db { candidate_assessments = ca ∷ db.candidate_assessments }
  pure ca

abbrev pub with_resume : Env → ParseStatus → Json → CandidateAssessment → CandidateAssessment
with_resume env status parsed ca = record ca {
  resume_parse_status = status;
  resume_parsed = parsed;
  updated_at = env.db_now;
}

-- An enrollment that is not there is only logged.
unfoldable pub update_resume_parsing_result : Env → Uuid → ParseStatus → Json → Exec Db Unit
unfolding update_enrollments
update_resume_parsing_result env id status parsed =
    update_enrollments (enrollment_has_id id) (with_resume env status parsed)

abbrev pub save_parsed_resume_success : Env → Uuid → Json → Exec Db Unit
save_parsed_resume_success env id parsed =
    update_resume_parsing_result env id ParseStatus.completed parsed

abbrev pub failed_resume : String → Json
failed_resume error = obj (
    dict (
      ("error", str error)
      ∷ ("summary", str "Failed to parse resume.")
      ∷ ("skills", arr nil)
      ∷ ("experience_years", int (pos 0))
      ∷ []))

abbrev pub save_parsed_resume_failed : Env → Uuid → String → Exec Db Unit
save_parsed_resume_failed env id error =
    update_resume_parsing_result env id ParseStatus.failed (failed_resume error)

abbrev pub decided : Env → Decision → Option String → CandidateAssessment → CandidateAssessment
decided env decision feedback ca = record ca {
  recruiter_decision = decision;
  recruiter_feedback = feedback;
  updated_at = env.db_now;
}

-- `CandidateAssessmentRepository.update_recruiter_decision`
unfoldable pub save_decision : Env → Uuid → Decision → Option String → Exec Db Unit
unfolding update_enrollments
save_decision env id decision feedback =
    update_enrollments (enrollment_has_id id) (decided env decision feedback)

-- `CandidateAssessmentRepository.delete`: the session of the enrollment, then the enrollment. The
-- evaluation of the session and the notification logs of the enrollment go with them.
unfoldable pub delete_enrollment : Uuid → Exec Db Unit
delete_enrollment id = do
  found ← gets (λ db. find (λ s. s.candidate_assessment_id == id) db.interview_sessions)
  elim found [
    | none ↦ pure tt
    | some s ↦ modify λ db. record db {
      interview_sessions = filter (λ t. not (t.id == s.id)) db.interview_sessions;
      interview_evaluations = filter (λ e. not (e.session_id == s.id)) db.interview_evaluations;
    }
  ]
  modify λ db. record db {
    candidate_assessments = filter (λ ca. not (enrollment_has_id id ca)) db.candidate_assessments;
    notification_logs = filter (λ l. not (l.candidate_assessment_id == id)) db.notification_logs;
  }
