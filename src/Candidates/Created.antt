-- ===== src/Candidates/Created.antt =====
-- New enrollments keep candidates and enrollments consistent: `enroll_existing_candidate`,
-- `create_single_candidate` and the rows of a bulk upload.
use i_bot_core_api_service.Prelude.{
  ◌≡◌, sym, String, false, not, ◌&&◌, some, contains, ◌==◌, nat_beq_iff, nat_eq, string_eq,
  Bool-cases, Option-cases, List-cases, inl, inr,
}
use mathlib.Core.Path.{subst}
use i_bot_core_api_service.Db.{
  Db, Uuid, Candidate, Assessment, CandidateAssessment, find-holds, ◌>>=◌,
}
use i_bot_core_api_service.Keeps.{Keeps, keeps_rules}
use i_bot_core_api_service.Office.{Office, register_after_commit_callback}
use i_bot_core_api_service.Repositories.Env.{Env}
use i_bot_core_api_service.Assessments.Repository.{is_assessment, assessment_by_id}
use i_bot_core_api_service.Candidates.Repository.{
  Texts, Fresh, get_all_by_candidate_id, candidate_by_id, candidate_by_email, create_candidate,
  delete_candidate, create_enrollment, get_by_candidate_and_assessment,
}
use i_bot_core_api_service.Candidates.Service.{
  SingleCandidate, blocking, assert_no_window_overlap, owned_by, create_single_candidate,
  write_temporary_resume, create_for, enroll_new, announce_single,
}
use i_bot_core_api_service.Candidates.Enroll.{
  NewEnrollment, enroll_existing_candidate, announce, has_recruiter_enrollment,
}
use i_bot_core_api_service.Candidates.Consistent.{
  IsConsistent, emails, find-contains, contains-deleted,
}
use i_bot_core_api_service.Candidates.Kept.{
  IsOrderly, Keeps-register, Keeps-write, Keeps-delete_candidate,
}
use i_bot_core_api_service.Candidates.Statements.{stored-IsConsistent}

-- An assessment that a recruiter owns is in the table under the id that was asked for.
pub owned-stored :
    (recruiter_id id : Uuid) (db : Db) (a : Assessment)
    → owned_by recruiter_id (assessment_by_id db id) ≡ some a
    → assessment_by_id db id ≡ some a
owned-stored recruiter_id id db a h = elim (Option-cases (assessment_by_id db id)) [
  | inl e ↦ cc (rw e at h)
  | inr (b, e) ↦ elim (Bool-cases (b.recruiter_id == recruiter_id)) [
    | inl own ↦ rw e (rw (e, own) at h)
    | inr other ↦ cc (rw (e, other) at h)
  ]
]

Keeps-announce :
    (new : NewEnrollment) (a : Assessment) (c : Candidate) (ca : CandidateAssessment)
    → Keeps IsOrderly (announce new a c ca)
unfolding announce
Keeps-announce new a c ca = search (keeps_rules, Keeps-register, Keeps-write)

-- ... and under its own id.
pub stored_self :
    (id : Uuid) (db : Db) (a : Assessment)
    → assessment_by_id db id ≡ some a
    → assessment_by_id db a.id ≡ some a
unfolding assessment_by_id
stored_self id db a stored =
    let same : a.id ≡ id =
      (nat_beq_iff a.id id).0 (find-holds (is_assessment id) db.assessments a stored) in
    subst (λ i. assessment_by_id db i ≡ some a) (sym same) stored

pub enroll-IsConsistent :
    (env : Env) (fresh : Fresh) (recruiter_id : Uuid) (new : NewEnrollment) (o : Office)
    → IsConsistent o.db
    → IsConsistent (enroll_existing_candidate env fresh recruiter_id new o).1.db
unfolding enroll_existing_candidate assert_no_window_overlap create_enrollment
    write_temporary_resume register_after_commit_callback ◌>>=◌
enroll-IsConsistent env fresh recruiter_id new o h =
    elim (Option-cases (owned_by recruiter_id (assessment_by_id o.db new.assessment_id))) [
      | inl e ↦ rw e h
      | inr (a, owned) ↦ elim (Option-cases (candidate_by_id o.db new.candidate_id)) [
        | inl e ↦ rw (owned, e) h
        | inr (c, known) ↦
            elim (Option-cases
              (get_by_candidate_and_assessment o.db new.candidate_id new.assessment_id)) [
                | inr (ca, e) ↦ rw (owned, known, e) h
                | inl unregistered ↦
                    elim (Bool-cases (
                      not (
                        has_recruiter_enrollment o.db recruiter_id
                          (get_all_by_candidate_id o.db new.candidate_id))
                      && not (c.created_by == recruiter_id))) [
                        | inl e ↦ rw (owned, known, unregistered, e) h
                        | inr allowed ↦
                            elim (Option-cases
                              (blocking o.db a (get_all_by_candidate_id o.db new.candidate_id))) [
                                | inr (b, e) ↦ rw (owned, known, unregistered, allowed, e) h
                                | inl free ↦
                                    rw (owned, known, unregistered, allowed, free)
                                      ((Keeps-announce new a c _).holds_after _ (
                                        stored-IsConsistent o.db a _
                                          (owned-stored recruiter_id new.assessment_id o.db a owned)
                                          free unregistered h))
                              ]
                      ]
              ]
      ]
    ]

Keeps-announce_single :
    (new : SingleCandidate) (a : Assessment) (ca : CandidateAssessment)
    → Keeps IsOrderly (announce_single new a ca)
unfolding announce_single
Keeps-announce_single new a ca = search (keeps_rules, Keeps-register, Keeps-write)

enroll_new-IsConsistent :
    (env : Env) (fresh : Fresh) (new : SingleCandidate) (a : Assessment) (candidate_id : Uuid)
    (o : Office)
    → assessment_by_id o.db a.id ≡ some a
    → IsConsistent o.db
    → IsConsistent (enroll_new env fresh new a candidate_id o).1.db
unfolding enroll_new assert_no_window_overlap create_enrollment ◌>>=◌
enroll_new-IsConsistent env fresh new a candidate_id o stored h =
    elim (Option-cases (blocking o.db a (get_all_by_candidate_id o.db candidate_id))) [
      | inr (b, e) ↦ rw e h
      | inl free ↦ elim (Option-cases (get_by_candidate_and_assessment o.db candidate_id a.id)) [
        | inr (ca, e) ↦ rw (free, e) h
        | inl unregistered ↦
            rw (free, unregistered)
              ((Keeps-announce_single new a _).holds_after _
                (stored-IsConsistent o.db a _ stored free unregistered h))
      ]
    ]

-- A candidate with a free address.
pub created-IsConsistent :
    (texts : Texts) (fresh : Fresh) (name email : String) (by : Uuid) (db : Db)
    → contains (texts.strip (texts.lower email)) (emails db.candidates) ≡ false
    → IsConsistent db
    → IsConsistent (create_candidate texts fresh name email by db).1
unfolding create_candidate ◌>>=◌
created-IsConsistent texts fresh name email by db free h = record {
  addresses = (free, h.addresses);
  registrations = h.registrations;
  windows = h.windows;
}

create_for-IsConsistent :
    (texts : Texts) (env : Env) (fresh : Fresh) (recruiter_id : Uuid) (new : SingleCandidate)
    (a : Assessment) (o : Office)
    → assessment_by_id o.db a.id ≡ some a
    → IsConsistent o.db
    → IsConsistent (create_for texts env fresh recruiter_id new a o).1.db
unfolding candidate_by_email create_candidate delete_candidate assessment_by_id ◌>>=◌
create_for-IsConsistent texts env fresh recruiter_id new a o stored h =
    elim (Option-cases (candidate_by_email texts o.db new.email)) [
      | inl absent ↦ rw absent (
          enroll_new-IsConsistent env fresh new a fresh.candidate_id _ stored (
            created-IsConsistent texts fresh new.name new.email recruiter_id o.db
              (find-contains _ o.db.candidates absent) h))
      | inr (c, found) ↦ elim (List-cases (get_all_by_candidate_id o.db c.id)) [
        | inr (ca, rest, e) ↦ rw (found, e) h
        | inl e ↦
            rw (found, e)
              (enroll_new-IsConsistent env fresh new a fresh.candidate_id _ stored (
                created-IsConsistent texts fresh new.name new.email recruiter_id _
                  (contains-deleted _ o.db.candidates c h.addresses found)
                  ((Keeps-delete_candidate c.id).holds_after o.db h)))
      ]
    ]

pub create-IsConsistent :
    (texts : Texts) (env : Env) (fresh : Fresh) (recruiter_id : Uuid) (new : SingleCandidate)
    (o : Office)
    → IsConsistent o.db
    → IsConsistent (create_single_candidate texts env fresh recruiter_id new o).1.db
unfolding create_single_candidate ◌>>=◌
create-IsConsistent texts env fresh recruiter_id new o h =
    elim (Option-cases (owned_by recruiter_id (assessment_by_id o.db new.assessment_id))) [
      | inl e ↦ rw e h
      | inr (a, owned) ↦ rw owned (
          create_for-IsConsistent texts env fresh recruiter_id new a o
            (stored_self new.assessment_id o.db a
              (owned-stored recruiter_id new.assessment_id o.db a owned))
            h)
    ]
