-- ===== src/Candidates/EnrollSearch.antt =====
-- What the searches of an enrollment find in the tables.
use mathlib.Core.Option.{some-injective}
use mathlib.Core.List.{Mem, mem-cons_self, mem-cons_of_mem}
use i_bot_core_api_service.Prelude.{
  ◌≡◌, refl, sym, Bool, true, false, not, ◌&&◌, ◌||◌, String, Option, none, some, List, [], ◌∷◌,
  filter, ◌==◌, ltb, nat_eq, string_eq, Bool-cases, Option-cases, inl, inr, arith,
}
use i_bot_core_api_service.Db.{Db, Uuid, Assessment, CandidateAssessment, find}
use i_bot_core_api_service.Assessments.Repository.{assessment_by_id}
use i_bot_core_api_service.Candidates.Service.{blocking, is_unfinished, overlaps}
use i_bot_core_api_service.Candidates.Enroll.{
  belongs_to, has_recruiter_enrollment, find_reusable_resume_enrollment, is_parsed, earlier_path,
}

-- Whether some enrollment of the candidate is in an assessment of the recruiter.
unfoldable pub any_own : Db → Uuid → Uuid → List CandidateAssessment → Bool
any_own db recruiter_id candidate_id [] = false
any_own db recruiter_id candidate_id (ca ∷ rest) =
    (ca.candidate_id == candidate_id
      && belongs_to recruiter_id (assessment_by_id db ca.assessment_id))
    || any_own db recruiter_id candidate_id rest

pub has_recruiter_enrollment-any_own :
    (db : Db) (recruiter_id candidate_id : Uuid) (cas : List CandidateAssessment)
    → has_recruiter_enrollment db recruiter_id (filter (λ ca. ca.candidate_id == candidate_id) cas)
      ≡ any_own db recruiter_id candidate_id cas
unfolding has_recruiter_enrollment any_own filter
has_recruiter_enrollment-any_own db recruiter_id candidate_id [] = refl
has_recruiter_enrollment-any_own db recruiter_id candidate_id (ca ∷ rest) =
    elim (Bool-cases (ca.candidate_id == candidate_id)) [
      | inl e ↦ rw (e, has_recruiter_enrollment-any_own db recruiter_id candidate_id rest) refl
      | inr e ↦ rw (e, has_recruiter_enrollment-any_own db recruiter_id candidate_id rest) refl
    ]

-- An unfinished enrollment of the candidate in an assessment whose window overlaps.
abbrev pub IsBlockedBy : Db → Uuid → Assessment → Assessment → CandidateAssessment → Type 0
IsBlockedBy db candidate_id a b ca =
    ((ca.candidate_id == candidate_id) ≡ true)
    × (is_unfinished ca.status ≡ true)
    × (assessment_by_id db ca.assessment_id ≡ some b)
    × (ltb a.window_start b.window_end ≡ true)
    × (ltb b.window_start a.window_end ≡ true)

both : (x y z : Bool) → ((x && y) && z) ≡ true → (x ≡ true) × (y ≡ true) × (z ≡ true)
both x y z h = ground arith

pub blocking-IsBlockedBy :
    (db : Db) (candidate_id : Uuid) (a b : Assessment) (cas : List CandidateAssessment)
    → blocking db a (filter (λ ca. ca.candidate_id == candidate_id) cas) ≡ some b
    → (ca : CandidateAssessment) × Mem ca cas × IsBlockedBy db candidate_id a b ca
unfolding blocking filter
blocking-IsBlockedBy db candidate_id a b [] h = cc
blocking-IsBlockedBy db candidate_id a b (ca ∷ rest) h =
    elim (Bool-cases (ca.candidate_id == candidate_id)) [
      | inr other ↦
          let (d, member, k) = blocking-IsBlockedBy db candidate_id a b rest (rw other at h) in
          (d, mem-cons_of_mem ca member, k)
      | inl own ↦ elim (Option-cases (assessment_by_id db ca.assessment_id)) [
        | inl missing ↦
            let (d, member, k) =
              blocking-IsBlockedBy db candidate_id a b rest (rw (own, missing) at h) in
            (d, mem-cons_of_mem ca member, k)
        | inr (b', found) ↦ elim (Bool-cases (overlaps a b' && is_unfinished ca.status)) [
          | inr free ↦
              let (d, member, k) =
                blocking-IsBlockedBy db candidate_id a b rest (rw (own, found, free) at h) in
              (d, mem-cons_of_mem ca member, k)
          | inl blocked ↦
              let same : some b' ≡ some b = rw (own, found, blocked) at h in
              let (starts, ends, unfinished) =
                both (ltb a.window_start b'.window_end) (ltb b'.window_start a.window_end)
                  (is_unfinished ca.status) blocked in
              (
                ca,
                mem-cons_self,
                (
                  own,
                  unfinished,
                  rw found same,
                  rw (sym (some-injective b' b same)) starts,
                  rw (sym (some-injective b' b same)) ends,
                ),
              )
        ]
      ]
    ]

pub find_reusable_resume_enrollment-find :
    (cas : List CandidateAssessment) → find_reusable_resume_enrollment cas ≡ find is_parsed cas
unfolding find_reusable_resume_enrollment find
find_reusable_resume_enrollment-find [] = refl
find_reusable_resume_enrollment-find (ca ∷ rest) = elim (Bool-cases (is_parsed ca)) [
  | inl e ↦ rw e refl
  | inr e ↦ rw e (find_reusable_resume_enrollment-find rest)
]

-- A path that names a resume.
abbrev pub names_resume : CandidateAssessment → Bool
names_resume ca =
    not (ca.resume_file_path == "") && not (ca.resume_file_path == "placeholder_resume.pdf")

abbrev pub path_of : Option CandidateAssessment → String
path_of none = "placeholder_resume.pdf"
path_of (some ca) = ca.resume_file_path

pub earlier_path-find :
    (cas : List CandidateAssessment) → earlier_path cas ≡ path_of (find names_resume cas)
unfolding earlier_path find
earlier_path-find [] = refl
earlier_path-find (ca ∷ rest) = elim (Bool-cases (names_resume ca)) [
  | inl e ↦ rw e refl
  | inr e ↦ rw e (earlier_path-find rest)
]
