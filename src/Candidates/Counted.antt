-- ===== src/Candidates/Counted.antt =====
-- What one row of a bulk upload adds to the database.
use i_bot_core_api_service.Prelude.{
  ◌≡◌, refl, List, [], ◌∷◌, ◌++◌, String, not, ◌&&◌, Option, none, some, ◌==◌, nat_eq, string_eq,
  Bool-cases, Option-cases, inl, inr,
}
use i_bot_core_api_service.Db.{
  Uuid, Candidate, Assessment, CandidateAssessment, EnrollmentStatus, Result, ok, err, ◌>>=◌,
}
use i_bot_core_api_service.Office.{Office}
use i_bot_core_api_service.Repositories.Env.{Env}
use i_bot_core_api_service.Candidates.Repository.{
  Texts, Fresh, get_all_by_candidate_id, candidate_by_email, create_candidate, rename_candidate,
  create_enrollment,
}
use i_bot_core_api_service.Candidates.Service.{blocking, assert_no_window_overlap}
use i_bot_core_api_service.Candidates.Tally.{UploadCall}
use i_bot_core_api_service.Candidates.Upload.{enroll_row, register_known, try_row}

abbrev pub added : Result (Option CandidateAssessment) → List CandidateAssessment
added (ok (some ca)) = ca ∷ []
added (ok none) = []
added (err e) = []

abbrev pub IsEnrolled : Uuid → String → Result (Option CandidateAssessment) → Type 0
IsEnrolled assessment_id resume (ok (some ca)) =
    (ca.resume_file_path ≡ resume)
    × (ca.assessment_id ≡ assessment_id)
    × (ca.status ≡ EnrollmentStatus.invited)
IsEnrolled assessment_id resume _ = Unit

-- What a row adds: an enrollment in the assessment, with the resume's path, if it succeeds, and else
-- none. It leaves the events and the jobs alone.
abbrev pub Adds : Uuid → String → Office → Result (Option CandidateAssessment) × Office → Type 0
Adds assessment_id resume o (r, o') =
    (o'.db.candidate_assessments ≡ added r ++ o.db.candidate_assessments)
    × IsEnrolled assessment_id resume r
    × (o'.db.event_logs ≡ o.db.event_logs)
    × (o'.after_commit ≡ o.after_commit)
    × (o'.jobs ≡ o.jobs)

module _ (texts : Texts) (env : Env) (call : UploadCall) (a : Assessment) where
  enroll_row-Adds :
      (fresh : Fresh) (resume : String) (candidate_id : Uuid) (o : Office)
      → Adds a.id resume o (enroll_row texts env call a fresh resume candidate_id o)
  unfolding assert_no_window_overlap create_enrollment ◌>>=◌
  enroll_row-Adds fresh resume candidate_id o =
      elim (Option-cases (blocking o.db a (get_all_by_candidate_id o.db candidate_id))) [
        | inr (b, e) ↦ rw e (refl, tt, refl, refl, refl)
        | inl free ↦ rw free (refl, (refl, refl, refl), refl, refl, refl)
      ]

  known-Adds :
      (fresh : Fresh) (name resume : String) (c : Candidate) (o : Office)
      (found : Option CandidateAssessment)
      → Adds a.id resume o (register_known texts env call a fresh name resume c found o)
  unfolding rename_candidate ◌>>=◌
  known-Adds fresh name resume c o (some ca) = (refl, tt, refl, refl, refl)
  known-Adds fresh name resume c o none =
      elim (Bool-cases (not (name == "") && not (c.full_name == name))) [
        | inl e ↦ rw e (enroll_row-Adds fresh resume c.id _)
        | inr e ↦ rw e (enroll_row-Adds fresh resume c.id o)
      ]

  pub try_row-Adds :
      (fresh : Fresh) (name email resume : String) (o : Office)
      → Adds a.id resume o (try_row texts env call a fresh name email resume o)
  unfolding try_row create_candidate ◌>>=◌
  try_row-Adds fresh name email resume o =
      elim (Option-cases (candidate_by_email texts o.db email)) [
        | inl absent ↦ rw absent (enroll_row-Adds fresh resume fresh.candidate_id _)
        | inr (c, found) ↦ rw found (known-Adds fresh name resume c o _)
      ]
