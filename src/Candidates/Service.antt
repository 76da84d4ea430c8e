-- ===== src/Candidates/Service.antt =====
-- `CandidateService` of src/core/services/candidate_service.py: the overlap check, and single
-- candidates.
use i_bot_core_api_service.Prelude.{
  String, Bool, true, false, ◌&&◌, Option, none, some, List, [], ◌∷◌, ltb, ◌==◌, nat_eq, string_eq,
  if◌then◌else◌,
}
use i_bot_core_api_service.Json.{null}
use i_bot_core_api_service.Db.{
  Db, Uuid, Candidate, Assessment, CandidateAssessment, EnrollmentStatus, ParseStatus, Exec,
  duplicate_enrollment, resume_not_stored, csv_validation, window_overlap, raise, pure, gets, ◌>>=◌,
  ◌>>◌,
}
use i_bot_core_api_service.Office.{
  Office, Invitation, temp_file, send_invitation, parse_resume, on_rows,
  register_after_commit_callback,
}
use i_bot_core_api_service.Repositories.Env.{Env}
use i_bot_core_api_service.Assessments.Repository.{assessment_by_id}
use i_bot_core_api_service.Candidates.Repository.{
  Texts, Fresh, candidate_by_email, create_candidate, delete_candidate, get_all_by_candidate_id,
  get_by_candidate_and_assessment, new_enrollment, create_enrollment,
}

-- `status not in COMPLETED_ENROLLMENT_STATUSES`
abbrev pub is_unfinished : EnrollmentStatus → Bool
is_unfinished EnrollmentStatus.completed = false
is_unfinished EnrollmentStatus.evaluated = false
is_unfinished _ = true

-- Whether two interview windows overlap.
abbrev pub overlaps : Assessment → Assessment → Bool
overlaps a b = ltb a.window_start b.window_end && ltb b.window_start a.window_end

abbrev pub blocked_by :
    Assessment → CandidateAssessment → Option Assessment → Option Assessment → Option Assessment
blocked_by a ca none later = later
blocked_by a ca (some b) later = if overlaps a b && is_unfinished ca.status then some b else later

-- The assessment of the first enrollment at which the loop stops.
unfoldable pub blocking : Db → Assessment → List CandidateAssessment → Option Assessment
blocking db a [] = none
blocking db a (ca ∷ rest) =
    blocked_by a ca (assessment_by_id db ca.assessment_id) (blocking db a rest)

abbrev pub refuse_overlap : Option Assessment → Exec Office Unit
refuse_overlap none = pure tt
refuse_overlap (some b) = raise (window_overlap b.title b.id)

unfoldable pub assert_no_window_overlap : Uuid → Assessment → Exec Office Unit
assert_no_window_overlap candidate_id a = do
  found ← gets (λ o. blocking o.db a (get_all_by_candidate_id o.db candidate_id))
  refuse_overlap found

-- The assessment, if it is the recruiter's.
abbrev pub owned_by : Uuid → Option Assessment → Option Assessment
owned_by recruiter_id none = none
owned_by recruiter_id (some a) = if a.recruiter_id == recruiter_id then some a else none

abbrev pub invitation_of : Assessment → CandidateAssessment → String → String → Invitation
invitation_of a ca name email = record {
  ca_record_id = ca.id;
  candidate_name = name;
  recipient_email = email;
  assessment_title = a.title;
  role_name = a.role_name;
  invitation_token = ca.invitation_token;
  interview_duration_mins = a.interview_duration_mins;
}

-- The arguments of `create_single_candidate`; `stored` says whether the file can be written.
pub record SingleCandidate : Type 0 where
  pub name : String
  pub email : String
  pub assessment_id : Uuid
  pub resume_file_bytes : String
  pub resume_filename : String
  pub stored : Bool

-- `write_temporary_resume`
unfoldable pub write_temporary_resume : Bool → Exec Office Unit
write_temporary_resume stored = if stored then pure tt else raise resume_not_stored

-- An existing row without enrollments is removed, and one with enrollments refuses the request.
abbrev pub make_room : Option Candidate → Exec Office Unit
make_room none = pure tt
make_room (some c) = do
  enrollments ← gets (λ o. get_all_by_candidate_id o.db c.id)
  elim enrollments [ [] ↦ on_rows (delete_candidate c.id) | _ ∷ _ ↦ raise csv_validation ]

abbrev pub refuse_registered : Option CandidateAssessment → Exec Office Unit
refuse_registered none = pure tt
refuse_registered (some ca) = raise duplicate_enrollment

-- The file, and the callbacks of the new enrollment.
unfoldable pub announce_single :
    SingleCandidate → Assessment → CandidateAssessment → Exec Office CandidateAssessment
announce_single new a ca = do
  write_temporary_resume new.stored
  register_after_commit_callback (send_invitation (invitation_of a ca new.name new.email))
  register_after_commit_callback (parse_resume ca.id (temp_file new.resume_file_bytes))
  pure ca

unfoldable pub enroll_new :
    Env → Fresh → SingleCandidate → Assessment → Uuid → Exec Office CandidateAssessment
enroll_new env fresh new a candidate_id = do
  assert_no_window_overlap candidate_id a
  registered ← gets (λ o. get_by_candidate_and_assessment o.db candidate_id a.id)
  refuse_registered registered
  ca ← on_rows (
      create_enrollment
        (new_enrollment env fresh candidate_id a.id new.resume_filename ParseStatus.pending null))
  announce_single new a ca

abbrev pub create_for :
    Texts → Env → Fresh → Uuid → SingleCandidate → Assessment → Exec Office CandidateAssessment
create_for texts env fresh recruiter_id new a = do
  existing ← gets (λ o. candidate_by_email texts o.db new.email)
  make_room existing
  c ← on_rows (create_candidate texts fresh new.name new.email recruiter_id)
  enroll_new env fresh new a c.id

abbrev pub create_if_owned :
    Texts
    → Env
    → Fresh
    → Uuid
    → SingleCandidate
    → Option Assessment
    → Exec Office CandidateAssessment
create_if_owned texts env fresh recruiter_id new none = raise csv_validation
create_if_owned texts env fresh recruiter_id new (some a) =
    create_for texts env fresh recruiter_id new a

unfoldable pub create_single_candidate :
    Texts → Env → Fresh → Uuid → SingleCandidate → Exec Office CandidateAssessment
create_single_candidate texts env fresh recruiter_id new = do
  found ← gets (λ o. owned_by recruiter_id (assessment_by_id o.db new.assessment_id))
  create_if_owned texts env fresh recruiter_id new found
