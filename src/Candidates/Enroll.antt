-- ===== src/Candidates/Enroll.antt =====
-- `enroll_existing_candidate` of src/core/services/candidate_service.py.
use i_bot_core_api_service.Prelude.{
  String, Bool, true, false, not, ◌&&◌, ◌||◌, Option, none, some, List, [], ◌∷◌, ◌==◌, nat_eq,
  string_eq, if◌then◌else◌,
}
use i_bot_core_api_service.Json.{Json, null}
use i_bot_core_api_service.Db.{
  Db, Uuid, Candidate, Assessment, CandidateAssessment, ParseStatus, Error, Exec,
  assessment_not_found, candidate_not_found, candidate_access_denied, raise, pure, gets, ◌>>=◌,
  ◌>>◌,
}
use i_bot_core_api_service.Office.{
  Office, temp_file, send_invitation, parse_resume, on_rows, register_after_commit_callback,
  is_given,
}
use i_bot_core_api_service.Repositories.Env.{Env}
use i_bot_core_api_service.Assessments.Repository.{assessment_by_id}
use i_bot_core_api_service.Candidates.Repository.{
  Fresh, candidate_by_id, get_all_by_candidate_id, get_by_candidate_and_assessment, new_enrollment,
  create_enrollment,
}
use i_bot_core_api_service.Candidates.Service.{
  owned_by, invitation_of, write_temporary_resume, refuse_registered, assert_no_window_overlap,
}

-- `resume_parsed is not None`
abbrev pub is_parsed : CandidateAssessment → Bool
is_parsed ca = elim ca.resume_parse_status [
  | ParseStatus.completed ↦ elim ca.resume_parsed [ Json.null ↦ false | _ ↦ true ]
  | _ ↦ false
]

-- `_find_reusable_resume_enrollment`
unfoldable pub find_reusable_resume_enrollment :
    List CandidateAssessment → Option CandidateAssessment
find_reusable_resume_enrollment [] = none
find_reusable_resume_enrollment (ca ∷ rest) =
    if is_parsed ca then some ca else find_reusable_resume_enrollment rest

abbrev pub placeholder : String
placeholder = "placeholder_resume.pdf"

-- The first path of an earlier enrollment that is not the placeholder.
unfoldable pub earlier_path : List CandidateAssessment → String
earlier_path [] = placeholder
earlier_path (ca ∷ rest) =
    if not (ca.resume_file_path == "") && not (ca.resume_file_path == placeholder)
    then ca.resume_file_path
    else earlier_path rest

abbrev pub belongs_to : Uuid → Option Assessment → Bool
belongs_to recruiter_id none = false
belongs_to recruiter_id (some a) = a.recruiter_id == recruiter_id

unfoldable pub has_recruiter_enrollment : Db → Uuid → List CandidateAssessment → Bool
has_recruiter_enrollment db recruiter_id [] = false
has_recruiter_enrollment db recruiter_id (ca ∷ rest) =
    belongs_to recruiter_id (assessment_by_id db ca.assessment_id)
    || has_recruiter_enrollment db recruiter_id rest

-- The path, the status and the parsed resume of the new enrollment.
abbrev pub reused_resume :
    List CandidateAssessment → Option CandidateAssessment → String × ParseStatus × Json
reused_resume enrollments (some ca) = (ca.resume_file_path, ParseStatus.completed, ca.resume_parsed)
reused_resume enrollments none = (earlier_path enrollments, ParseStatus.pending, null)

abbrev pub or_empty : Option String → String
or_empty none = ""
or_empty (some s) = s

abbrev pub resume_for :
    List CandidateAssessment → Option String → Option String → String × ParseStatus × Json
resume_for enrollments bytes filename =
    if is_given bytes && is_given filename
    then (or_empty filename, ParseStatus.pending, null)
    else reused_resume enrollments (find_reusable_resume_enrollment enrollments)

-- The arguments of `enroll_existing_candidate`; `stored` says whether the file can be written.
pub record NewEnrollment : Type 0 where
  pub candidate_id : Uuid
  pub assessment_id : Uuid
  pub resume_file_bytes : Option String
  pub resume_filename : Option String
  pub stored : Bool

abbrev pub has_resume : NewEnrollment → Bool
has_resume new = is_given new.resume_file_bytes && is_given new.resume_filename

abbrev pub or_raise : {A : Type 0} → Error → Option A → Exec Office A
or_raise e none = raise e
or_raise e (some a) = pure a

-- The callbacks of the new enrollment.
unfoldable pub announce :
    NewEnrollment
    → Assessment
    → Candidate
    → CandidateAssessment
    → Exec Office (CandidateAssessment × Candidate)
announce new a c ca = do
  register_after_commit_callback (send_invitation (invitation_of a ca c.full_name c.email))
  if has_resume new
      then (do
        write_temporary_resume new.stored
        register_after_commit_callback
            (parse_resume ca.id (temp_file (or_empty new.resume_file_bytes))))
      else pure tt
  pure (ca, c)

abbrev pub new_row : Env → Fresh → NewEnrollment → List CandidateAssessment → CandidateAssessment
new_row env fresh new enrollments =
    let (path, status, parsed) = resume_for enrollments new.resume_file_bytes new.resume_filename in
    new_enrollment env fresh new.candidate_id new.assessment_id path status parsed

unfoldable pub enroll_existing_candidate :
    Env → Fresh → Uuid → NewEnrollment → Exec Office (CandidateAssessment × Candidate)
enroll_existing_candidate env fresh recruiter_id new = do
  found ← gets (λ o. owned_by recruiter_id (assessment_by_id o.db new.assessment_id))
  a ← or_raise assessment_not_found found
  known ← gets (λ o. candidate_by_id o.db new.candidate_id)
  c ← or_raise candidate_not_found known
  registered ← gets (λ o. get_by_candidate_and_assessment o.db new.candidate_id new.assessment_id)
  refuse_registered registered
  enrollments ← gets (λ o. get_all_by_candidate_id o.db new.candidate_id)
  has ← gets (λ o. has_recruiter_enrollment o.db recruiter_id enrollments)
  if not has && not (c.created_by == recruiter_id) then raise candidate_access_denied else pure tt
  assert_no_window_overlap new.candidate_id a
  ca ← on_rows (create_enrollment (new_row env fresh new enrollments))
  announce new a c ca
