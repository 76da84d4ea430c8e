-- ===== src/Evaluations/Ranked.antt =====
-- What the loop over the ranks does to the table of evaluations.
use mathlib.Core.Option
use mathlib.Core.Option.{some-injective}
use mathlib.Core.Path.{subst}
use i_bot_core_api_service.Prelude.{
  ◌≡◌, refl, ap, ◌∙◌, ℕ, suc, ◌+◌, Bool, true, false, Option, none, some, List, [], ◌∷◌, length,
  filter, contains, Distinct, ◌==◌, nat_eq, if◌then◌else◌, Bool-cases, inl, inr, arith,
}
use i_bot_core_api_service.Db.{
  Uuid, InterviewEvaluation, CandidateAssessment, find, update_where, find-holds, find-update_where,
}
use i_bot_core_api_service.Order.{count}
use i_bot_core_api_service.Evaluations.Places.{keys, position, same_number}
use i_bot_core_api_service.Evaluations.Repository.{
  Floats, is_evaluation_of, is_of_assessment, ranked, rank_rows,
}

abbrev pub enrollment : InterviewEvaluation → Uuid
enrollment e = e.candidate_assessment_id

count-update_where :
    (p q c : InterviewEvaluation → Bool) (f : InterviewEvaluation → InterviewEvaluation)
    (es : List InterviewEvaluation)
    → ((e : InterviewEvaluation) → p (f e) ≡ p e)
    → ((e : InterviewEvaluation) → q (f e) ≡ q e)
    → count p (filter q (update_where c f es)) ≡ count p (filter q es)
unfolding filter update_where
count-update_where p q c f [] same there = refl
count-update_where p q c f (e ∷ es) same there =
    let rest = count-update_where p q c f es same there in
    elim (Bool-cases (c e)) [
      | inr other ↦ elim (Bool-cases (q e)) [
        | inl kept ↦ rw (other, kept, rest) refl
        | inr left ↦ rw (other, left) rest
      ]
      | inl it ↦ elim (Bool-cases (q e)) [
        | inl kept ↦ rw (it, there e, kept, same e, rest) refl
        | inr left ↦ rw (it, there e, left) rest
      ]
    ]

pub count-all : (es : List InterviewEvaluation) → count (λ e. true) es ≡ length es
count-all [] = refl
count-all (e ∷ es) = ap suc (count-all es)

module _ (floats : Floats) (total : ℕ) where
  -- The rows and their places do not depend on the ranks.
  pub count-rank_rows :
      (p q : InterviewEvaluation → Bool) (rank : ℕ) (rows es : List InterviewEvaluation)
      → ((k : ℕ) (e : InterviewEvaluation) → p (ranked floats total k e) ≡ p e)
      → ((k : ℕ) (e : InterviewEvaluation) → q (ranked floats total k e) ≡ q e)
      → count p (filter q (rank_rows floats total rank rows es)) ≡ count p (filter q es)
  count-rank_rows p q rank [] es same there = refl
  count-rank_rows p q rank (row ∷ rows) es same there =
      count-rank_rows p q (suc rank) rows _ same there
      ∙ count-update_where p q (is_evaluation_of (enrollment row)) (ranked floats total rank) es
          (same rank) (there rank)

  abbrev pub at_place : ℕ → Option ℕ → InterviewEvaluation → InterviewEvaluation
  at_place rank none e = e
  at_place rank (some i) e = ranked floats total (rank + i) e

  unplaced :
      (id : Uuid) (rows : List InterviewEvaluation)
      → contains id (keys enrollment rows) ≡ false
      → position enrollment id rows ≡ none
  unfolding contains
  unplaced id [] h = refl
  unplaced id (row ∷ rows) h = ground (arith, unplaced id rows)

  at_next :
      (rank : ℕ) (place : Option ℕ) (e : InterviewEvaluation)
      → at_place (suc rank) place e ≡ at_place rank (Option.map suc place) e
  at_next rank none e = refl
  at_next rank (some i) e = ap (λ k. ranked floats total k e) (omega arith)

  same_test : (b : Bool) (a id r : ℕ) → (a == id) ≡ true → (r == id) ≡ b → (a == r) ≡ b
  same_test false a id r h k = ground arith
  same_test true a id r h k = ground arith

  pub find-rank_rows :
      (rank : ℕ) (id : Uuid) (rows es : List InterviewEvaluation) (e : InterviewEvaluation)
      → Distinct (keys enrollment rows)
      → find (is_evaluation_of id) es ≡ some e
      → find (is_evaluation_of id) (rank_rows floats total rank rows es)
        ≡ some (at_place rank (position enrollment id rows) e)
  find-rank_rows rank id [] es e h found = found
  find-rank_rows rank id (row ∷ rows) es e h found =
      let mine = find-holds (is_evaluation_of id) es e found in
      let seen : find (is_evaluation_of id)
            (update_where (is_evaluation_of (enrollment row)) (ranked floats total rank) es)
          ≡ some (if enrollment e == enrollment row then ranked floats total rank e else e) =
        rw
          (
            find-update_where (is_evaluation_of id) (is_evaluation_of (enrollment row))
                (ranked floats total rank) es (λ x. refl),
            found,
          )
          refl in
      elim (Bool-cases (enrollment row == id)) [
        | inl own ↦
            let nowhere : position enrollment id rows ≡ none = unplaced id rows (
              subst (λ k. contains k (keys enrollment rows) ≡ false)
                (same_number (enrollment row) id own) h.0) in
            let turn : (enrollment e == enrollment row) ≡ true =
              same_test true (enrollment e) id (enrollment row) mine own in
            rw own (
              find-rank_rows (suc rank) id rows _ (ranked floats total rank e) h.1
                (seen ∙ rw turn refl)
              ∙ rw nowhere (ap (λ k. some (ranked floats total k e)) (omega arith)))
        | inr other ↦
            let turn : (enrollment e == enrollment row) ≡ false =
              same_test false (enrollment e) id (enrollment row) mine other in
            rw other (
              find-rank_rows (suc rank) id rows _ e h.1 (seen ∙ rw turn refl)
              ∙ ap some (at_next rank (position enrollment id rows) e))
      ]

  pub find-rank_rows-none :
      (rank : ℕ) (id : Uuid) (rows es : List InterviewEvaluation)
      → find (is_evaluation_of id) es ≡ none
      → find (is_evaluation_of id) (rank_rows floats total rank rows es) ≡ none
  find-rank_rows-none rank id [] es h = h
  find-rank_rows-none rank id (row ∷ rows) es h = find-rank_rows-none (suc rank) id rows _ (
      rw
        (
          find-update_where (is_evaluation_of id) (is_evaluation_of (enrollment row))
              (ranked floats total rank) es (λ x. refl),
          h,
        )
        refl)

  pub is_of_assessment-at_place :
      (cas : List CandidateAssessment) (a : Uuid) (rank : ℕ) (place : Option ℕ)
      (e : InterviewEvaluation)
      → is_of_assessment cas a (at_place rank place e) ≡ is_of_assessment cas a e
  is_of_assessment-at_place cas a rank none e = refl
  is_of_assessment-at_place cas a rank (some i) e = refl
