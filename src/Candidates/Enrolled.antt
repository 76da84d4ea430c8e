-- ===== src/Candidates/Enrolled.antt =====
-- What `enroll_existing_candidate` answers and leaves behind, on every path.

use i_bot_core_api_service.Prelude.{
  ◌≡◌, ◌⊎◌, refl, Bool, true, false, ◌||◌, none, some, ◌==◌, nat_eq, string_eq, Bool-cases,
  Option-cases, inl, inr, arith,
}
use i_bot_core_api_service.Db.{
  Uuid, Candidate, Assessment, assessment_not_found, candidate_not_found, duplicate_enrollment,
  candidate_access_denied, window_overlap, find, ◌>>=◌,
}
use i_bot_core_api_service.Office.{Office, request, register_after_commit_callback}
use i_bot_core_api_service.Repositories.Env.{Env}
use i_bot_core_api_service.Assessments.Repository.{assessment_by_id}
use i_bot_core_api_service.Candidates.Repository.{
  Fresh, is_registration, get_all_by_candidate_id, candidate_by_id, create_enrollment,
  get_by_candidate_and_assessment,
}
use i_bot_core_api_service.Candidates.Service.{
  blocking, assert_no_window_overlap, write_temporary_resume,
}
use i_bot_core_api_service.Candidates.Enroll.{NewEnrollment, enroll_existing_candidate, announce}
use i_bot_core_api_service.Candidates.EnrollSearch.{
  any_own, has_recruiter_enrollment-any_own, blocking-IsBlockedBy,
}
use i_bot_core_api_service.Candidates.EnrollOutcome.{IsRefused, IsAccepted, IsDecided}
use i_bot_core_api_service.Candidates.EnrollFree.{de_morgan, enroll-free}

neither : (x y : Bool) → (x || y) ≡ false → (x ≡ false) × (y ≡ false)
neither x y h = ground arith

module _ (env : Env) (fresh : Fresh) (recruiter_id : Uuid) (new : NewEnrollment) (o : Office) where
  module _ (a : Assessment) (c : Candidate)
      (stored : assessment_by_id o.db new.assessment_id ≡ some a)
      (own : (a.recruiter_id == recruiter_id) ≡ true)
      (known : candidate_by_id o.db new.candidate_id ≡ some c) where
    module _
        (unregistered : find
            (is_registration new.candidate_id new.assessment_id)
            o.db.candidate_assessments
          ≡ none) where
      enroll-unregistered : IsDecided env fresh recruiter_id new o
      unfolding request enroll_existing_candidate assert_no_window_overlap create_enrollment
          announce write_temporary_resume register_after_commit_callback
          get_by_candidate_and_assessment get_all_by_candidate_id ◌>>=◌
      enroll-unregistered =
          let own_or =
            has_recruiter_enrollment-any_own o.db recruiter_id new.candidate_id
              o.db.candidate_assessments in
          let mine = any_own o.db recruiter_id new.candidate_id o.db.candidate_assessments in
          elim (Bool-cases (mine || c.created_by == recruiter_id)) [
            | inr e ↦
                let (no_enrollment, no_creation) = neither mine (c.created_by == recruiter_id) e in
                rw (stored, own, known, unregistered, own_or, no_enrollment, no_creation)
                  (
                    refl,
                    inr (
                      candidate_access_denied,
                      refl,
                      (c, known, no_creation, no_enrollment),
                      refl,
                      refl,
                    ),
                  )
            | inl allowed ↦
                elim (Option-cases
                  (blocking o.db a (get_all_by_candidate_id o.db new.candidate_id))) [
                    | inl free ↦
                        enroll-free env fresh recruiter_id new o a c stored own known unregistered
                          allowed free
                    | inr (b, blocked) ↦
                        let (ca, member, k) =
                          blocking-IsBlockedBy o.db new.candidate_id a b o.db.candidate_assessments
                            blocked in
                        rw
                          (
                            stored,
                            own,
                            known,
                            unregistered,
                            own_or,
                            de_morgan mine (c.created_by == recruiter_id),
                            allowed,
                            blocked,
                          )
                          (
                            refl,
                            inr (
                              window_overlap b.title b.id,
                              refl,
                              (a, b, ca, stored, member, k, refl, refl),
                              refl,
                              refl,
                            ),
                          )
                  ]
          ]

    enroll-known : IsDecided env fresh recruiter_id new o
    unfolding request enroll_existing_candidate assert_no_window_overlap create_enrollment announce
        write_temporary_resume register_after_commit_callback get_by_candidate_and_assessment
        get_all_by_candidate_id ◌>>=◌
    enroll-known =
        elim (Option-cases
          (find (is_registration new.candidate_id new.assessment_id) o.db.candidate_assessments)) [
            | inl unregistered ↦ enroll-unregistered unregistered
            | inr (ca, e) ↦
                rw (stored, own, known, e)
                  (refl, inr (duplicate_enrollment, refl, (ca, e), refl, refl))
          ]

  -- Nothing is queued before the commit, and every request is accepted or refused. A refusal changes
  -- nothing and names what is true: that the assessment is not the recruiter's; that there is no such
  -- candidate; that they are registered for it already; that they are the recruiter's neither by an
  -- enrollment nor by creation; that an unfinished enrollment of theirs has an overlapping window; or
  -- that the resume cannot be written. For an accepted request none of the first five is true: an
  -- invited enrollment joins the table, with the resume of the request or else an earlier one, and
  -- after the commit its invitation is queued, and the parsing of a resume that the request brings.
  pub enroll-decided :
      let run = request (enroll_existing_candidate env fresh recruiter_id new) o in
      ((enroll_existing_candidate env fresh recruiter_id new o).1.jobs ≡ o.jobs)
      × (IsAccepted env fresh recruiter_id new o run ⊎ IsRefused env fresh recruiter_id new o run)
  unfolding request enroll_existing_candidate ◌>>=◌
  enroll-decided = elim (Option-cases (assessment_by_id o.db new.assessment_id)) [
    | inl e ↦ rw e (refl, inr (assessment_not_found, refl, rw e refl, refl, refl))
    | inr (a, stored) ↦ elim (Bool-cases (a.recruiter_id == recruiter_id)) [
      | inr e ↦
          rw (stored, e) (refl, inr (assessment_not_found, refl, rw (stored, e) refl, refl, refl))
      | inl own ↦ elim (Option-cases (candidate_by_id o.db new.candidate_id)) [
        | inl e ↦ rw (stored, own, e) (refl, inr (candidate_not_found, refl, e, refl, refl))
        | inr (c, known) ↦ enroll-known a c stored own known
      ]
    ]
  ]
