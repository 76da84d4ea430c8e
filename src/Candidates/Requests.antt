-- ===== src/Candidates/Requests.antt =====
-- What a recruiter's requests on one enrollment answer and leave behind.
use mathlib.Core.Path.{subst}
use i_bot_core_api_service.Prelude.{
  ◌≡◌, append_nil, refl, Bool, true, not, none, some, List, [], ◌∷◌, filter, ◌==◌, nat_beq_iff,
  nat_eq, string_eq, Bool-cases, Option-cases, List-cases, inl, inr,
}
use i_bot_core_api_service.Db.{
  find-holds, Db, Uuid, Candidate, Assessment, CandidateAssessment, InterviewSession,
  InterviewEvaluation, ok, find, ◌>>=◌,
}
use i_bot_core_api_service.Office.{Office, request}
use i_bot_core_api_service.Repositories.Statements.{enrollment_has_id, enrollment_by_id}
use i_bot_core_api_service.Assessments.Repository.{assessment_by_id}
use i_bot_core_api_service.Candidates.Repository.{
  has_candidate_id, get_all_by_candidate_id, candidate_by_id, delete_candidate, delete_enrollment,
}
use i_bot_core_api_service.Candidates.Manage.{registration, delete_candidate_from_assessment}

find-removed :
    {A : Type 0} (p : A → Bool) (xs : List A) → find p (filter (λ x. not (p x)) xs) ≡ none
unfolding find filter
find-removed p [] = refl
find-removed p (x ∷ xs) = elim (Bool-cases (p x)) [
  | inl e ↦ rw e (find-removed p xs)
  | inr e ↦ rw (e, e) (find-removed p xs)
]

-- The enrollments but one.
abbrev without : Uuid → Db → List CandidateAssessment
without id db = filter (λ ca. not (enrollment_has_id id ca)) db.candidate_assessments

delete_enrollment_lem :
    (id : Uuid) (db : Db)
    → (sessions : List InterviewSession) × (evaluations : List InterviewEvaluation)
      × (delete_enrollment id db ≡ (
        ok tt,
        record db {
          candidate_assessments = without id db;
          interview_sessions = sessions;
          interview_evaluations = evaluations;
          notification_logs =
              filter (λ l. not (l.candidate_assessment_id == id)) db.notification_logs;
        },
      ))
unfolding delete_enrollment ◌>>=◌
delete_enrollment_lem id db =
    elim (Option-cases (find (λ s. s.candidate_assessment_id == id) db.interview_sessions)) [
      | inl e ↦ (db.interview_sessions, db.interview_evaluations, rw e refl)
      | inr (s, e) ↦ (
        filter (λ t. not (t.id == s.id)) db.interview_sessions,
        filter (λ t. not (t.session_id == s.id)) db.interview_evaluations,
        rw e refl,
      )
    ]

deleted_candidate :
    (id : Uuid) (candidates : List Candidate) (c : Candidate)
    → find (has_candidate_id id) candidates ≡ some c
    → find (has_candidate_id id) (filter (λ x. not (has_candidate_id c.id x)) candidates) ≡ none
deleted_candidate id candidates c found =
    let same : c.id ≡ id =
      (nat_beq_iff c.id id).0 (find-holds (has_candidate_id id) candidates c found) in
    subst
      (λ i.
        find (has_candidate_id i) (filter (λ x. not (has_candidate_id c.id x)) candidates) ≡ none)
      same (find-removed (has_candidate_id c.id) candidates)

module _ (id recruiter_id : Uuid) (o : Office) (ca : CandidateAssessment) (a : Assessment)
    (c : Candidate) (stored : enrollment_by_id o.db id ≡ some ca)
    (known : assessment_by_id o.db ca.assessment_id ≡ some a)
    (own : (a.recruiter_id == recruiter_id) ≡ true)
    (person : candidate_by_id o.db ca.candidate_id ≡ some c) where
  -- The owner's deletion of an enrollment removes it, and no other enrollment; the candidate is removed
  -- with it exactly when it was their last one.
  pub delete-removes :
      let (result, o') = request (delete_candidate_from_assessment id recruiter_id) o in
      let left = without id o.db in
      (result ≡ ok tt)
      × (o'.db.candidate_assessments ≡ left)
      × (enrollment_by_id o'.db id ≡ none)
      × (candidate_by_id o'.db ca.candidate_id
          ≡ elim (filter (λ x. x.candidate_id == ca.candidate_id) left) [
            | [] ↦ none
            | _ ∷ _ ↦ some c
          ])
      × (o'.jobs ≡ o.jobs)
  unfolding request delete_candidate_from_assessment registration delete_candidate
      get_all_by_candidate_id candidate_by_id enrollment_by_id ◌>>=◌
  delete-removes =
      let (sessions, evaluations, deleted) = delete_enrollment_lem id o.db in
      let gone = find-removed (enrollment_has_id id) o.db.candidate_assessments in
      elim (List-cases (filter (λ x. x.candidate_id == ca.candidate_id) (without id o.db))) [
        | inr (x, rest, e) ↦
            rw (stored, known, own, deleted, e) (refl, refl, gone, person, append_nil o.jobs)
        | inl e ↦
            rw (stored, known, own, deleted, e, person)
              (
                refl,
                refl,
                gone,
                deleted_candidate ca.candidate_id o.db.candidates c person,
                append_nil o.jobs,
              )
      ]
