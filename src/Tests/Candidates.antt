-- ===== src/Tests/Candidates.antt =====
-- Candidates and their enrollments at concrete inputs.
use i_bot_core_api_service.Prelude.{
  ◌⊎◌, ℕ, suc, max, ◌+◌, ◌≤◌, ◌≡◌, refl, String, true, not, none, some, List, [], ◌∷◌, filter,
  contains, ◌==◌, nat_eq, string_eq, arith,
}
use i_bot_core_api_service.Db.{
  Db, Uuid, Assessment, CandidateAssessment, EnrollmentStatus, Decision, ok, err,
  assessment_not_found, find, ◌>>=◌,
}
use i_bot_core_api_service.Office.{
  Office, request, send_invitation, parse_resume, temp_file, register_after_commit_callback,
}
use i_bot_core_api_service.Repositories.Env.{Env}
use i_bot_core_api_service.Repositories.Statements.{enrollment_has_id, enrollment_by_id}
use i_bot_core_api_service.Assessments.Repository.{assessment_by_id}
use i_bot_core_api_service.Candidates.Repository.{
  Texts, Fresh, is_registration, get_by_candidate_and_assessment, candidate_by_id,
  get_all_by_candidate_id, create_enrollment,
}
use i_bot_core_api_service.Candidates.Service.{
  blocking, assert_no_window_overlap, write_temporary_resume,
}
use i_bot_core_api_service.Candidates.Enroll.{
  NewEnrollment, enroll_existing_candidate, has_recruiter_enrollment, announce,
}
use i_bot_core_api_service.Candidates.Manage.{delete_candidate_from_assessment}
use i_bot_core_api_service.Candidates.Csv.{RawRow, CsvFile, table}
use i_bot_core_api_service.Candidates.Tally.{UploadCall}
use i_bot_core_api_service.Candidates.Consistent.{IsConsistent, any_clash}
use i_bot_core_api_service.Candidates.Uploads.{DrawsFresh}
use i_bot_core_api_service.Candidates.Actions.{
  Action, upload, enroll, decide, remove, run_actions, run_actions-IsConsistent,
}
use i_bot_core_api_service.Candidates.Requests.{delete-removes}
use i_bot_core_api_service.Candidates.EnrollOutcome.{IsAccepted, IsRefused}
use i_bot_core_api_service.Candidates.Enrolled.{enroll-decided}
use i_bot_core_api_service.Tests.Data.{
  seconds, at_time, candidate, assessment, enrollment, new_interview, database,
}

abbrev texts : Texts
texts = record { lower = λ s. s; strip = λ s. s }

-- A later assessment of the same recruiter.
abbrev later : Assessment
later = record assessment { id = 30; window_start = seconds 200000; window_end = seconds 300000 }

abbrev office : Office
office = record {
  db = record (database EnrollmentStatus.invited new_interview) {
    assessments = assessment ∷ later ∷ [];
  };
  after_commit = [];
  jobs = [];
}

above : List CandidateAssessment → ℕ
above [] = 0
above (ca ∷ rest) = max (suc ca.candidate_id) (above rest)

not_registered :
    (id assessment_id : Uuid) (cas : List CandidateAssessment)
    → above cas ≤ id
    → find (is_registration id assessment_id) cas ≡ none
unfolding above find
not_registered id assessment_id [] h = refl
not_registered id assessment_id (ca ∷ rest) h = ground (arith, not_registered id assessment_id rest)

-- Numbers that the database does not hold.
abbrev unused : ℕ → Db → Fresh
unused row db = record {
  candidate_id = above db.candidate_assessments + row;
  enrollment_id = 1000 + row;
  invitation_token = 2000 + row;
}

unused-DrawsFresh : DrawsFresh unused
unfolding get_by_candidate_and_assessment
unused-DrawsFresh row db assessment_id =
    not_registered _ assessment_id db.candidate_assessments (omega arith)

abbrev call : UploadCall
call = record {
  recruiter_id = 1;
  assessment_id = 30;
  filename = "candidates.csv";
  upload_id = 77;
  fresh = unused;
}

abbrev row_of : String → String → RawRow
row_of name email =
    (some "name", some name)
    ∷ (some "email", some email)
    ∷ (some "resume", some "https://example.com/r.pdf")
    ∷ (none, some "surplus")
    ∷ []

-- A new candidate, a known one, the same again, and a row without a name.
abbrev rows : List RawRow
rows =
    row_of "Nila" "n@example.com"
    ∷ row_of "Chandra B" "c@example.com"
    ∷ row_of "Chandra B" "c@example.com"
    ∷ row_of "" "x@example.com"
    ∷ []

abbrev file : CsvFile
file = table (some ("name" ∷ "email" ∷ "resume" ∷ [])) rows

abbrev with_resume : NewEnrollment
with_resume = record {
  candidate_id = 2;
  assessment_id = 30;
  resume_file_bytes = some "%PDF";
  resume_filename = some "r.pdf";
  stored = true;
}

office-IsConsistent : IsConsistent office.db
unfolding contains find any_clash
office-IsConsistent = record {
  addresses = (refl, tt);
  registrations = (refl, tt);
  windows = (refl, tt);
}

abbrev draw : Fresh
draw = record { candidate_id = 50; enrollment_id = 51; invitation_token = 52 }

abbrev actions : List (Env × Action)
actions =
    (at_time (seconds 10), upload call file)
    ∷ (at_time (seconds 20), enroll draw 1 with_resume)
    ∷ (at_time (seconds 30), decide 4 1 Decision.approved none)
    ∷ (at_time (seconds 40), remove 4 1)
    ∷ []

run_actions-IsConsistent_example : IsConsistent (run_actions texts actions office).db
run_actions-IsConsistent_example =
    run_actions-IsConsistent texts actions office (unused-DrawsFresh, tt) office-IsConsistent

known : candidate_by_id office.db 2 ≡ some candidate
unfolding candidate_by_id find
known = refl

enroll-decided_example :
    let run =
      request (enroll_existing_candidate (at_time (seconds 10)) draw 1 with_resume) office in
    ((enroll_existing_candidate (at_time (seconds 10)) draw 1 with_resume office).1.jobs ≡ [])
    × (IsAccepted (at_time (seconds 10)) draw 1 with_resume office run
        ⊎ IsRefused (at_time (seconds 10)) draw 1 with_resume office run)
enroll-decided_example = enroll-decided (at_time (seconds 10)) draw 1 with_resume office

-- The request is accepted, and its resume is parsed; another recruiter's is refused.
its_jobs :
    (request (enroll_existing_candidate (at_time (seconds 10)) draw 1 with_resume) office).1.jobs
    ≡ send_invitation (record {
      ca_record_id = 51;
      candidate_name = "Chandra";
      recipient_email = "c@example.com";
      assessment_title = "Backend";
      role_name = "Engineer";
      invitation_token = 52;
      interview_duration_mins = 30;
    })
      ∷ parse_resume 51 (temp_file "%PDF")
      ∷ []
unfolding request enroll_existing_candidate assert_no_window_overlap create_enrollment announce
    write_temporary_resume register_after_commit_callback get_by_candidate_and_assessment
    get_all_by_candidate_id has_recruiter_enrollment blocking candidate_by_id assessment_by_id
    filter find ◌>>=◌
its_jobs = refl

another_recruiter :
    (request (enroll_existing_candidate (at_time (seconds 10)) draw 8 with_resume) office).0
    ≡ err assessment_not_found
unfolding request enroll_existing_candidate assessment_by_id find ◌>>=◌
another_recruiter = refl

stored_4 : enrollment_by_id office.db 4 ≡ some (enrollment EnrollmentStatus.invited)
unfolding enrollment_by_id find
stored_4 = refl

stored_3 : assessment_by_id office.db 3 ≡ some assessment
unfolding assessment_by_id find
stored_3 = refl

delete-removes_example :
    let (result, o') = request (delete_candidate_from_assessment 4 1) office in
    let left = filter (λ x. not (enrollment_has_id 4 x)) office.db.candidate_assessments in
    (result ≡ ok tt)
    × (o'.db.candidate_assessments ≡ left)
    × (enrollment_by_id o'.db 4 ≡ none)
    × (candidate_by_id o'.db 2
        ≡ elim (filter (λ x. x.candidate_id == 2) left) [ [] ↦ none | _ ∷ _ ↦ some candidate ])
    × (o'.jobs ≡ [])
delete-removes_example =
    delete-removes 4 1 office (enrollment EnrollmentStatus.invited) assessment candidate stored_4
      stored_3 refl known
