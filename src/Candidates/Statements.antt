-- ===== src/Candidates/Statements.antt =====
-- The statements of the candidate repositories keep candidates and enrollments consistent.
use i_bot_core_api_service.Prelude.{
  ◌≡◌, refl, Bool, true, false, ◌&&◌, none, some, List, [], ◌∷◌, filter, ◌==◌, nat_eq, string_eq,
  Bool-cases, Option-cases, inl, inr, arith,
}
use i_bot_core_api_service.Db.{Db, Uuid, Assessment, CandidateAssessment, find, update_where}
use i_bot_core_api_service.Assessments.Repository.{is_assessment, assessment_by_id}
use i_bot_core_api_service.Candidates.Repository.{
  is_registration, get_all_by_candidate_id, get_by_candidate_and_assessment,
}
use i_bot_core_api_service.Candidates.Service.{is_unfinished, overlaps, blocking}
use i_bot_core_api_service.Candidates.Consistent.{
  windows_overlap, any_clash, NoClash, OneEach, IsConsistent,
}

module _ (f : CandidateAssessment → CandidateAssessment)
    (same : (c : CandidateAssessment) → (f c).candidate_id ≡ c.candidate_id)
    (there : (c : CandidateAssessment) → (f c).assessment_id ≡ c.assessment_id)
    (still : (c : CandidateAssessment) → (f c).status ≡ c.status)
    (p : CandidateAssessment → Bool) where
  any_clash-updated :
      (assessments : List Assessment) (c : CandidateAssessment) (cs : List CandidateAssessment)
      → any_clash assessments c (update_where p f cs) ≡ any_clash assessments c cs
  unfolding any_clash update_where
  any_clash-updated assessments c [] = refl
  any_clash-updated assessments c (d ∷ cs) = elim (Bool-cases (p d)) [
    | inl e ↦ rw (e, same d, there d, still d, any_clash-updated assessments c cs) refl
    | inr e ↦ rw (e, any_clash-updated assessments c cs) refl
  ]

  any_clash-of_updated :
      (assessments : List Assessment) (c : CandidateAssessment) (cs : List CandidateAssessment)
      → any_clash assessments (f c) cs ≡ any_clash assessments c cs
  unfolding any_clash
  any_clash-of_updated assessments c [] = refl
  any_clash-of_updated assessments c (d ∷ cs) =
      rw (same c, there c, still c, any_clash-of_updated assessments c cs) refl

  NoClash-update_where :
      (assessments : List Assessment) (cs : List CandidateAssessment)
      → NoClash assessments cs
      → NoClash assessments (update_where p f cs)
  unfolding update_where
  NoClash-update_where assessments [] h = h
  NoClash-update_where assessments (c ∷ cs) h =
      let rest = NoClash-update_where assessments cs h.1 in
      elim (Bool-cases (p c)) [
        | inl e ↦
            rw
              (
                e,
                any_clash-of_updated assessments c (update_where p f cs),
                any_clash-updated assessments c cs,
              )
              (h.0, rest)
        | inr e ↦ rw (e, any_clash-updated assessments c cs) (h.0, rest)
      ]

  find-updated_registration :
      (candidate_id assessment_id : Uuid) (cs : List CandidateAssessment)
      → find (is_registration candidate_id assessment_id) cs ≡ none
      → find (is_registration candidate_id assessment_id) (update_where p f cs) ≡ none
  unfolding find update_where
  find-updated_registration candidate_id assessment_id [] h = h
  find-updated_registration candidate_id assessment_id (c ∷ cs) h =
      ground (arith, same c, there c, find-updated_registration candidate_id assessment_id cs)

  OneEach-update_where :
      (cs : List CandidateAssessment) → OneEach cs → OneEach (update_where p f cs)
  unfolding update_where
  OneEach-update_where [] h = h
  OneEach-update_where (c ∷ cs) h =
      let rest = OneEach-update_where cs h.1 in
      let none_left = find-updated_registration c.candidate_id c.assessment_id cs h.0 in
      elim (Bool-cases (p c)) [
        | inl e ↦ rw (e, same c, there c) (none_left, rest)
        | inr e ↦ rw e (none_left, rest)
      ]

  pub updated-IsConsistent :
      (db : Db)
      → IsConsistent db
      → IsConsistent
          (record db { candidate_assessments = update_where p f db.candidate_assessments })
  updated-IsConsistent db h = record {
    addresses = h.addresses;
    registrations = OneEach-update_where db.candidate_assessments h.registrations;
    windows = NoClash-update_where db.assessments db.candidate_assessments h.windows;
  }

-- Windows that the check passes have no moment in common.
no_moment : (a b : Assessment) → overlaps a b ≡ false → windows_overlap (some a) (some b) ≡ false
no_moment a b h = ground arith

no_clash :
    (x y overlapping moment : Bool)
    → (overlapping && y) ≡ false
    → (overlapping ≡ false → moment ≡ false)
    → (x && y && moment) ≡ false
no_clash x false overlapping moment h none_left = ground arith
no_clash x true false moment h none_left = ground (arith, none_left refl)
no_clash x true true moment h none_left = ground arith

-- The overlap check, seen from the table.
pub any_clash-of_blocking :
    (db : Db) (a : Assessment) (new : CandidateAssessment)
    → find (is_assessment new.assessment_id) db.assessments ≡ some a
    → (cs : List CandidateAssessment)
    → blocking db a (filter (λ ca. ca.candidate_id == new.candidate_id) cs) ≡ none
    → any_clash db.assessments new cs ≡ false
unfolding any_clash blocking filter assessment_by_id
any_clash-of_blocking db a new stored [] h = refl
any_clash-of_blocking db a new stored (c ∷ cs) h =
    elim (Bool-cases (c.candidate_id == new.candidate_id)) [
      | inr other ↦ rw other (any_clash-of_blocking db a new stored cs (rw other at h))
      | inl own ↦ elim (Option-cases (find (is_assessment c.assessment_id) db.assessments)) [
        | inl missing ↦
            rw
              (
                own,
                stored,
                missing,
                no_clash (is_unfinished new.status) (is_unfinished c.status) false false refl
                    (λ e. refl),
              )
              (any_clash-of_blocking db a new stored cs (rw (own, missing) at h))
        | inr (b, found) ↦ elim (Bool-cases (overlaps a b && is_unfinished c.status)) [
          | inl blocked ↦ cc (rw (own, found, blocked) at h)
          | inr free ↦
              rw
                (
                  own,
                  stored,
                  found,
                  no_clash (is_unfinished new.status) (is_unfinished c.status) (overlaps a b)
                      (windows_overlap (some a) (some b)) free (no_moment a b),
                )
                (any_clash-of_blocking db a new stored cs (rw (own, found, free) at h))
        ]
      ]
    ]

-- A checked enrollment.
pub stored-IsConsistent :
    (db : Db) (a : Assessment) (new : CandidateAssessment)
    → assessment_by_id db new.assessment_id ≡ some a
    → blocking db a (get_all_by_candidate_id db new.candidate_id) ≡ none
    → get_by_candidate_and_assessment db new.candidate_id new.assessment_id ≡ none
    → IsConsistent db
    → IsConsistent (record db { candidate_assessments = new ∷ db.candidate_assessments })
unfolding assessment_by_id get_all_by_candidate_id get_by_candidate_and_assessment
stored-IsConsistent db a new stored free unregistered h = record {
  addresses = h.addresses;
  registrations = (unregistered, h.registrations);
  windows = (any_clash-of_blocking db a new stored db.candidate_assessments free, h.windows);
}
