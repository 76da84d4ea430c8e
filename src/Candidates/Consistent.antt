-- ===== src/Candidates/Consistent.antt =====
-- What the candidate service keeps true of candidates and enrollments, and how single statements
-- keep it.
use mathlib.Core.Path.{subst}
use mathlib.Core.Option.{some-injective}
use i_bot_core_api_service.Prelude.{
  ◌≡◌, refl, ap, String, Bool, true, false, not, ◌&&◌, ◌||◌, Option, none, some, List, [], ◌∷◌, map,
  filter, contains, Distinct, ◌==◌, ==_self, ltb, max, min, eq_iff, nat_eq, string_eq, Bool-cases,
  inl, inr, arith,
}
use i_bot_core_api_service.Db.{Db, Candidate, Assessment, CandidateAssessment, find, update_where}
use i_bot_core_api_service.Assessments.Repository.{is_assessment}
use i_bot_core_api_service.Candidates.Repository.{
  has_candidate_id, has_candidate_email, is_registration,
}
use i_bot_core_api_service.Candidates.Service.{is_unfinished}

-- Whether some moment lies in both windows.
abbrev pub windows_overlap : Option Assessment → Option Assessment → Bool
windows_overlap (some a) (some b) =
    ltb (max a.window_start b.window_start) (min a.window_end b.window_end)
windows_overlap _ _ = false

-- Two enrollments of one candidate that are both unfinished and whose windows overlap.
abbrev pub clash : List Assessment → CandidateAssessment → CandidateAssessment → Bool
clash assessments c d =
    d.candidate_id == c.candidate_id
    && is_unfinished c.status
    && is_unfinished d.status
    && windows_overlap (find (is_assessment c.assessment_id) assessments)
        (find (is_assessment d.assessment_id) assessments)

unfoldable pub any_clash : List Assessment → CandidateAssessment → List CandidateAssessment → Bool
any_clash assessments c [] = false
any_clash assessments c (d ∷ rest) = clash assessments c d || any_clash assessments c rest

abbrev pub NoClash : List Assessment → List CandidateAssessment → Type 0
NoClash assessments [] = Unit
NoClash assessments (c ∷ rest) = (any_clash assessments c rest ≡ false) × NoClash assessments rest

-- No candidate is registered twice for one assessment.
abbrev pub OneEach : List CandidateAssessment → Type 0
OneEach [] = Unit
OneEach (c ∷ rest) =
    (find (is_registration c.candidate_id c.assessment_id) rest ≡ none) × OneEach rest

abbrev pub emails : List Candidate → List String
emails cs = map (λ c. c.email) cs

pub record IsConsistent (db : Db) : Type 0 where
  pub addresses : Distinct (emails db.candidates)
  pub registrations : OneEach db.candidate_assessments
  pub windows : NoClash db.assessments db.candidate_assessments

pub find-contains :
    (email : String) (cs : List Candidate)
    → find (has_candidate_email email) cs ≡ none
    → contains email (emails cs) ≡ false
unfolding find contains
find-contains email [] h = refl
find-contains email (c ∷ cs) h = elim (Bool-cases (c.email == email)) [
  | inl e ↦ cc (rw e at h)
  | inr e ↦ rw e (find-contains email cs (rw e at h))
]

contains-filter :
    (email : String) (p : Candidate → Bool) (cs : List Candidate)
    → contains email (emails cs) ≡ false
    → contains email (emails (filter p cs)) ≡ false
unfolding filter contains
contains-filter email p [] h = h
contains-filter email p (c ∷ cs) h = ground (arith, contains-filter email p cs)

pub Distinct-filter :
    (p : Candidate → Bool) (cs : List Candidate)
    → Distinct (emails cs)
    → Distinct (emails (filter p cs))
unfolding filter
Distinct-filter p [] h = h
Distinct-filter p (c ∷ cs) h = elim (Bool-cases (p c)) [
  | inl e ↦ rw e (contains-filter c.email p cs h.0, Distinct-filter p cs h.1)
  | inr e ↦ rw e (Distinct-filter p cs h.1)
]

-- An address is free once the candidate that a query by it found is deleted.
pub contains-deleted :
    (email : String) (cs : List Candidate) (found : Candidate)
    → Distinct (emails cs)
    → find (has_candidate_email email) cs ≡ some found
    → contains email (emails (filter (λ c. not (has_candidate_id found.id c)) cs)) ≡ false
unfolding find filter contains
contains-deleted email [] found h e = cc
contains-deleted email (c ∷ cs) found h e = elim (Bool-cases (c.email == email)) [
  | inl it ↦
      let same : c ≡ found = some-injective c found (rw it at e) in
      let gone : (c.id == found.id) ≡ true = rw (ap (λ x. x.id) same) (==_self found.id) in
      let free : contains email (emails cs) ≡ false =
        subst (λ a. contains a (emails cs) ≡ false) ((eq_iff c.email email).0 it) h.0 in
      rw gone (contains-filter email (λ x. not (has_candidate_id found.id x)) cs free)
  | inr other ↦
      let rest = contains-deleted email cs found h.1 (rw other at e) in
      elim (Bool-cases (c.id == found.id)) [
        | inl gone ↦ rw gone rest
        | inr kept ↦ rw (kept, other) rest
      ]
]

pub emails-update_where :
    (p : Candidate → Bool) (f : Candidate → Candidate) (cs : List Candidate)
    → ((c : Candidate) → (f c).email ≡ c.email)
    → emails (update_where p f cs) ≡ emails cs
unfolding update_where
emails-update_where p f [] same = refl
emails-update_where p f (c ∷ cs) same = ground (arith, same c, emails-update_where p f cs same)

find-filter :
    (q p : CandidateAssessment → Bool) (cs : List CandidateAssessment)
    → find q cs ≡ none
    → find q (filter p cs) ≡ none
unfolding find filter
find-filter q p [] h = h
find-filter q p (c ∷ cs) h = ground (arith, find-filter q p cs)

any_clash-filter :
    (assessments : List Assessment) (c : CandidateAssessment) (p : CandidateAssessment → Bool)
    (cs : List CandidateAssessment)
    → any_clash assessments c cs ≡ false
    → any_clash assessments c (filter p cs) ≡ false
unfolding any_clash filter
any_clash-filter assessments c p [] h = h
any_clash-filter assessments c p (d ∷ cs) h = elim (Bool-cases (clash assessments c d)) [
  | inl e ↦ cc (rw e at h)
  | inr e ↦
      let rest = any_clash-filter assessments c p cs (rw e at h) in
      elim (Bool-cases (p d)) [ inl kept ↦ rw (kept, e) rest | inr gone ↦ rw gone rest ]
]

pub NoClash-filter :
    (assessments : List Assessment) (p : CandidateAssessment → Bool) (cs : List CandidateAssessment)
    → NoClash assessments cs
    → NoClash assessments (filter p cs)
unfolding filter
NoClash-filter assessments p [] h = h
NoClash-filter assessments p (c ∷ cs) h =
    let rest = NoClash-filter assessments p cs h.1 in
    elim (Bool-cases (p c)) [
      | inl kept ↦ rw kept (any_clash-filter assessments c p cs h.0, rest)
      | inr gone ↦ rw gone rest
    ]

pub OneEach-filter :
    (p : CandidateAssessment → Bool) (cs : List CandidateAssessment)
    → OneEach cs
    → OneEach (filter p cs)
unfolding filter
OneEach-filter p [] h = h
OneEach-filter p (c ∷ cs) h = elim (Bool-cases (p c)) [
  | inl kept ↦ rw kept (
    find-filter (is_registration c.candidate_id c.assessment_id) p cs h.0,
    OneEach-filter p cs h.1,
  )
  | inr gone ↦ rw gone (OneEach-filter p cs h.1)
]
