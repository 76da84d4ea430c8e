-- ===== src/Candidates/EnrollResume.antt =====
-- The resume of a new enrollment, and the enrollment itself.

use i_bot_core_api_service.Prelude.{
  ◌≡◌, refl, String, Bool, false, not, ◌&&◌, Option, none, some, List, ◌==◌, nat_eq, string_eq,
  if◌then◌else◌,
}
use i_bot_core_api_service.Json.{Json, null}
use i_bot_core_api_service.Db.{CandidateAssessment, EnrollmentStatus, ParseStatus, Decision, find}
use i_bot_core_api_service.Office.{is_given}
use i_bot_core_api_service.Repositories.Env.{Env}
use i_bot_core_api_service.Candidates.Repository.{Fresh}
use i_bot_core_api_service.Candidates.Enroll.{
  NewEnrollment, is_parsed, or_empty, reused_resume, find_reusable_resume_enrollment, earlier_path,
  resume_for, new_row, has_resume,
}
use i_bot_core_api_service.Candidates.EnrollSearch.{
  find_reusable_resume_enrollment-find, names_resume, path_of, earlier_path-find,
}

abbrev pub plain_text : Option String → String
plain_text none = ""
plain_text (some s) = s

-- Whether the request brings a resume: a file with content and a name.
abbrev pub brings_resume : NewEnrollment → Bool
brings_resume new =
    not (plain_text new.resume_file_bytes == "") && not (plain_text new.resume_filename == "")

abbrev reused : String → Option CandidateAssessment → String × ParseStatus × Json
reused path (some ca) = (ca.resume_file_path, ParseStatus.completed, ca.resume_parsed)
reused path none = (path, ParseStatus.pending, null)

-- The resume of the new enrollment: the one that the request brings, else the first that was parsed
-- for another enrollment of the candidate, else the first that one names.
abbrev pub resume_columns : NewEnrollment → List CandidateAssessment → String × ParseStatus × Json
resume_columns new enrollments =
    if brings_resume new
    then (plain_text new.resume_filename, ParseStatus.pending, null)
    else reused (path_of (find names_resume enrollments)) (find is_parsed enrollments)

-- An invited enrollment.
abbrev pub invited_row :
    Env → Fresh → NewEnrollment → List CandidateAssessment → CandidateAssessment
invited_row env fresh new enrollments =
    let (path, parse_status, parsed) = resume_columns new enrollments in
    record {
      id = fresh.enrollment_id;
      candidate_id = new.candidate_id;
      assessment_id = new.assessment_id;
      resume_file_path = path;
      resume_parsed = parsed;
      resume_parse_status = parse_status;
      invitation_token = fresh.invitation_token;
      invite_consumed = false;
      invite_consumed_at = none;
      status = EnrollmentStatus.invited;
      interview_started_at = none;
      interview_ended_at = none;
      recruiter_decision = Decision.pending;
      recruiter_feedback = none;
      updated_at = env.db_now;
    }

pub or_empty-plain_text : (text : Option String) → or_empty text ≡ plain_text text
or_empty-plain_text none = refl
or_empty-plain_text (some s) = refl

given_text : (text : Option String) → is_given text ≡ not (plain_text text == "")
given_text none = refl
given_text (some s) = refl

reused_resume-reused :
    (enrollments : List CandidateAssessment) (found : Option CandidateAssessment)
    → reused_resume enrollments found ≡ reused (earlier_path enrollments) found
reused_resume-reused enrollments none = refl
reused_resume-reused enrollments (some ca) = refl

resume_for-columns :
    (new : NewEnrollment) (enrollments : List CandidateAssessment)
    → resume_for enrollments new.resume_file_bytes new.resume_filename
      ≡ resume_columns new enrollments
resume_for-columns new enrollments =
    rw
      (
        given_text new.resume_file_bytes,
        given_text new.resume_filename,
        or_empty-plain_text new.resume_filename,
        reused_resume-reused enrollments (find_reusable_resume_enrollment enrollments),
        find_reusable_resume_enrollment-find enrollments,
        earlier_path-find enrollments,
      )
      refl

pub new_row-invited :
    (env : Env) (fresh : Fresh) (new : NewEnrollment) (enrollments : List CandidateAssessment)
    → new_row env fresh new enrollments ≡ invited_row env fresh new enrollments
new_row-invited env fresh new enrollments = rw (resume_for-columns new enrollments) refl

pub has_resume-brings : (new : NewEnrollment) → has_resume new ≡ brings_resume new
has_resume-brings new = rw (given_text new.resume_file_bytes, given_text new.resume_filename) refl
