-- ===== src/Candidates/EnrollFree.antt =====
-- A request to enroll a candidate that passes the checks.
use i_bot_core_api_service.Prelude.{
  ◌≡◌, refl, Bool, true, false, not, ◌&&◌, ◌||◌, none, some, List, [], ◌∷◌, ◌==◌, nat_eq, string_eq,
  Bool-cases, inl, inr,
}
use i_bot_core_api_service.Db.{Uuid, Candidate, Assessment, resume_not_stored, find, ◌>>=◌}
use i_bot_core_api_service.Office.{Office, Job, request, register_after_commit_callback}
use i_bot_core_api_service.Repositories.Env.{Env}
use i_bot_core_api_service.Assessments.Repository.{assessment_by_id}
use i_bot_core_api_service.Candidates.Repository.{
  Fresh, is_registration, get_all_by_candidate_id, candidate_by_id, create_enrollment,
  get_by_candidate_and_assessment,
}
use i_bot_core_api_service.Candidates.Service.{
  blocking, assert_no_window_overlap, write_temporary_resume,
}
use i_bot_core_api_service.Candidates.Consistent.{any_clash}
use i_bot_core_api_service.Candidates.Statements.{any_clash-of_blocking}
use i_bot_core_api_service.Candidates.Enroll.{NewEnrollment, enroll_existing_candidate, announce}
use i_bot_core_api_service.Candidates.EnrollSearch.{any_own, has_recruiter_enrollment-any_own}
use i_bot_core_api_service.Candidates.EnrollResume.{
  brings_resume, or_empty-plain_text, new_row-invited, has_resume-brings,
}
use i_bot_core_api_service.Candidates.EnrollOutcome.{row, IsDecided}

pub de_morgan : (x y : Bool) → (not x && not y) ≡ not (x || y)
de_morgan true y = refl
de_morgan false y = refl

module _ (env : Env) (fresh : Fresh) (recruiter_id : Uuid) (new : NewEnrollment) (o : Office)
    (a : Assessment) (c : Candidate) (stored : assessment_by_id o.db new.assessment_id ≡ some a)
    (own : (a.recruiter_id == recruiter_id) ≡ true)
    (known : candidate_by_id o.db new.candidate_id ≡ some c)
    (unregistered : find
        (is_registration new.candidate_id new.assessment_id)
        o.db.candidate_assessments
      ≡ none)
    (allowed : (any_own o.db recruiter_id new.candidate_id o.db.candidate_assessments
        || c.created_by == recruiter_id)
      ≡ true)
    (free : blocking o.db a (get_all_by_candidate_id o.db new.candidate_id) ≡ none) where
  row-no_clash :
      any_clash o.db.assessments (row env fresh recruiter_id new o) o.db.candidate_assessments
      ≡ false
  unfolding assessment_by_id get_all_by_candidate_id
  row-no_clash =
      any_clash-of_blocking o.db a (row env fresh recruiter_id new o) stored
        o.db.candidate_assessments free

  -- All that is left is to store the row and to announce it.
  announce-free :
      (after_commit : List Job)
      → let o' = record o { after_commit = after_commit } in
        enroll_existing_candidate env fresh recruiter_id new o'
        ≡ announce new a c (row env fresh recruiter_id new o) (record o' {
          db = record o.db {
            candidate_assessments = row env fresh recruiter_id new o ∷ o.db.candidate_assessments;
          };
        })
  unfolding enroll_existing_candidate assert_no_window_overlap create_enrollment
      get_by_candidate_and_assessment get_all_by_candidate_id ◌>>=◌
  announce-free after_commit =
      let cas = o.db.candidate_assessments in
      rw
        (
          stored,
          own,
          known,
          unregistered,
          has_recruiter_enrollment-any_own o.db recruiter_id new.candidate_id cas,
          de_morgan (any_own o.db recruiter_id new.candidate_id cas) (c.created_by == recruiter_id),
          allowed,
          free,
          new_row-invited env fresh new (get_all_by_candidate_id o.db new.candidate_id),
        )
        refl

  pub enroll-free : IsDecided env fresh recruiter_id new o
  unfolding request announce write_temporary_resume register_after_commit_callback ◌>>=◌
  enroll-free = elim (Bool-cases (brings_resume new)) [
    | inr e ↦
        rw (announce-free o.after_commit, announce-free [], has_resume-brings new, e)
          (
            refl,
            inl (
              a,
              c,
              stored,
              own,
              known,
              unregistered,
              allowed,
              (rw e at row-no_clash),
              refl,
              refl,
              refl,
            ),
          )
    | inl e ↦ elim (Bool-cases new.stored) [
      | inl written ↦
          rw
            (
              announce-free o.after_commit,
              announce-free [],
              has_resume-brings new,
              e,
              written,
              or_empty-plain_text new.resume_file_bytes,
            )
            (
              refl,
              inl (
                a,
                c,
                stored,
                own,
                known,
                unregistered,
                allowed,
                (rw e at row-no_clash),
                refl,
                refl,
                refl,
              ),
            )
      | inr unwritten ↦
          rw (announce-free o.after_commit, announce-free [], has_resume-brings new, e, unwritten)
            (refl, inr (resume_not_stored, refl, refl, refl, refl))
    ]
  ]
