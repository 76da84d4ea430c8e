-- ===== src/Candidates/EnrollOutcome.antt =====
-- What is expected of `enroll_existing_candidate`.
use mathlib.Core.List.{Mem}
use i_bot_core_api_service.Prelude.{
  ◌≡◌, ◌⊎◌, true, false, ◌||◌, none, some, List, [], ◌∷◌, ◌++◌, ◌==◌, nat_eq, string_eq,
  if◌then◌else◌,
}
use i_bot_core_api_service.Db.{
  Db, Uuid, Candidate, Assessment, CandidateAssessment, Error, assessment_not_found,
  candidate_not_found, duplicate_enrollment, candidate_access_denied, window_overlap,
  resume_not_stored, ok, err, find, Result,
}
use i_bot_core_api_service.Office.{Office, Job, send_invitation, parse_resume, temp_file, request}
use i_bot_core_api_service.Repositories.Env.{Env}
use i_bot_core_api_service.Assessments.Repository.{assessment_by_id}
use i_bot_core_api_service.Candidates.Repository.{
  Fresh, is_registration, get_all_by_candidate_id, candidate_by_id,
}
use i_bot_core_api_service.Candidates.Consistent.{any_clash}
use i_bot_core_api_service.Candidates.Enroll.{NewEnrollment, enroll_existing_candidate, belongs_to}
use i_bot_core_api_service.Candidates.EnrollSearch.{any_own, IsBlockedBy}
use i_bot_core_api_service.Candidates.EnrollResume.{plain_text, brings_resume, invited_row}

-- The invitation, and the parsing of a resume that the request brings.
abbrev pub enrollment_jobs : NewEnrollment → Assessment → Candidate → CandidateAssessment → List Job
enrollment_jobs new a c row =
    send_invitation (record {
      ca_record_id = row.id;
      candidate_name = c.full_name;
      recipient_email = c.email;
      assessment_title = a.title;
      role_name = a.role_name;
      invitation_token = row.invitation_token;
      interview_duration_mins = a.interview_duration_mins;
    })
    ∷ (if brings_resume new
        then parse_resume row.id (temp_file (plain_text new.resume_file_bytes)) ∷ []
        else [])

-- What each refusal is for.
abbrev pub IsReason : Db → Uuid → NewEnrollment → Error → Type 0
IsReason db recruiter_id new assessment_not_found =
    belongs_to recruiter_id (assessment_by_id db new.assessment_id) ≡ false
IsReason db recruiter_id new candidate_not_found = candidate_by_id db new.candidate_id ≡ none
IsReason db recruiter_id new duplicate_enrollment =
    (ca : CandidateAssessment) × (find (is_registration new.candidate_id new.assessment_id)
        db.candidate_assessments
      ≡ some ca)
IsReason db recruiter_id new candidate_access_denied =
    (c : Candidate) × (candidate_by_id db new.candidate_id ≡ some c)
    × ((c.created_by == recruiter_id) ≡ false)
    × (any_own db recruiter_id new.candidate_id db.candidate_assessments ≡ false)
IsReason db recruiter_id new (window_overlap title id) =
    (a : Assessment) × (b : Assessment) × (ca : CandidateAssessment) × (assessment_by_id db
        new.assessment_id
      ≡ some a)
    × Mem ca db.candidate_assessments
    × IsBlockedBy db new.candidate_id a b ca
    × (title ≡ b.title)
    × (id ≡ b.id)
IsReason db recruiter_id new resume_not_stored = new.stored ≡ false
IsReason db recruiter_id new _ = ⊥

module _ (env : Env) (fresh : Fresh) (recruiter_id : Uuid) (new : NewEnrollment) (o : Office) where
  abbrev pub row : CandidateAssessment
  row = invited_row env fresh new (get_all_by_candidate_id o.db new.candidate_id)

  -- The request was refused for its reason, and nothing has changed.
  abbrev pub IsRefused : Result (CandidateAssessment × Candidate) × Office → Type 0
  IsRefused (result, o') =
      (e : Error) × (result ≡ err e)
      × IsReason o.db recruiter_id new e
      × (o'.db ≡ o.db)
      × (o'.jobs ≡ o.jobs)

  -- The request was allowed to enroll the candidate, and did.
  abbrev pub IsAccepted : Result (CandidateAssessment × Candidate) × Office → Type 0
  IsAccepted (result, o') =
      (a : Assessment) × (c : Candidate) × (assessment_by_id o.db new.assessment_id ≡ some a)
      × ((a.recruiter_id == recruiter_id) ≡ true)
      × (candidate_by_id o.db new.candidate_id ≡ some c)
      × (find (is_registration new.candidate_id new.assessment_id) o.db.candidate_assessments
          ≡ none)
      × ((any_own o.db recruiter_id new.candidate_id o.db.candidate_assessments
            || c.created_by == recruiter_id)
          ≡ true)
      × (any_clash o.db.assessments row o.db.candidate_assessments ≡ false)
      × (result ≡ ok (row, c))
      × (o'.db ≡ record o.db { candidate_assessments = row ∷ o.db.candidate_assessments })
      × (o'.jobs ≡ o.jobs ++ enrollment_jobs new a c row)

  abbrev pub IsDecided : Type 0
  IsDecided =
      let run = request (enroll_existing_candidate env fresh recruiter_id new) o in
      ((enroll_existing_candidate env fresh recruiter_id new o).1.jobs ≡ o.jobs)
      × (IsAccepted run ⊎ IsRefused run)
