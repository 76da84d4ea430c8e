-- ===== src/Evaluations/Upsert.antt =====
-- What the statement `insert ... on conflict do update` does to the evaluations.
use mathlib.Core.Path.{subst}
use i_bot_core_api_service.Prelude.{
  ◌≡◌, refl, sym, ℕ, Bool, false, Option, none, some, List, [], ◌∷◌, ◌++◌, contains, Distinct, ◌==◌,
  ==_self, nat_eq, string_eq, Bool-cases, Option-cases, inl, inr, arith,
}
use i_bot_core_api_service.Db.{Time, InterviewEvaluation, find, update_where, find-updated}
use i_bot_core_api_service.Evaluations.Places.{keys}
use i_bot_core_api_service.Evaluations.Repository.{
  FinalEvaluationRecord, Floats, is_evaluation_of, new_evaluation, replaced, upsert,
}
use i_bot_core_api_service.Evaluations.Ranked.{enrollment, at_place}

contains-append :
    (k : ℕ) (e : InterviewEvaluation) (es : List InterviewEvaluation)
    → contains k (keys enrollment es) ≡ false
    → (enrollment e == k) ≡ false
    → contains k (keys enrollment (es ++ e ∷ [])) ≡ false
unfolding contains
contains-append k e [] h other = rw other refl
contains-append k e (d ∷ ds) h other = ground (arith, contains-append k e ds)

append-Distinct :
    (e : InterviewEvaluation) (es : List InterviewEvaluation)
    → Distinct (keys enrollment es)
    → find (is_evaluation_of (enrollment e)) es ≡ none
    → Distinct (keys enrollment (es ++ e ∷ []))
unfolding find contains
append-Distinct e [] h free = (refl, tt)
append-Distinct e (d ∷ ds) h free = elim (Bool-cases (enrollment d == enrollment e)) [
  | inl taken ↦ cc (rw taken at free)
  | inr other ↦ (
    contains-append (enrollment d) e ds h.0 (ground (arith, other)),
    append-Distinct e ds h.1 (rw other at free),
  )
]

keys-update_where :
    (p : InterviewEvaluation → Bool) (f : InterviewEvaluation → InterviewEvaluation)
    (es : List InterviewEvaluation)
    → ((e : InterviewEvaluation) → enrollment (f e) ≡ enrollment e)
    → keys enrollment (update_where p f es) ≡ keys enrollment es
unfolding update_where
keys-update_where p f [] same = refl
keys-update_where p f (e ∷ es) same = ground (arith, same e, keys-update_where p f es same)

upsert-new :
    (now : Time) (r : FinalEvaluationRecord) (es : List InterviewEvaluation)
    → find (is_evaluation_of r.candidate_assessment_id) es ≡ none
    → upsert now r es ≡ es ++ new_evaluation now r ∷ []
unfolding upsert
upsert-new now r es free = rw (free, upsert) refl

upsert-known :
    (now : Time) (r : FinalEvaluationRecord) (es : List InterviewEvaluation)
    (e : InterviewEvaluation)
    → find (is_evaluation_of r.candidate_assessment_id) es ≡ some e
    → upsert now r es
      ≡ update_where (is_evaluation_of r.candidate_assessment_id) (replaced now r) es
unfolding upsert
upsert-known now r es e found = rw (found, upsert) refl

pub upsert-Distinct :
    (now : Time) (r : FinalEvaluationRecord) (es : List InterviewEvaluation)
    → Distinct (keys enrollment es)
    → Distinct (keys enrollment (upsert now r es))
upsert-Distinct now r es h =
    elim (Option-cases (find (is_evaluation_of r.candidate_assessment_id) es)) [
      | inl free ↦
          subst (λ ds. Distinct (keys enrollment ds)) (sym (upsert-new now r es free))
            (append-Distinct (new_evaluation now r) es h free)
      | inr (e, found) ↦
          subst (λ ds. Distinct (keys enrollment ds)) (sym (upsert-known now r es e found))
            (subst (λ ks. Distinct ks)
              (sym (
                keys-update_where (is_evaluation_of r.candidate_assessment_id) (replaced now r) es
                  (λ d. refl)))
              h)
    ]

-- The saved report is the evaluation of its enrollment.
abbrev pub IsReport : Time → FinalEvaluationRecord → InterviewEvaluation → Type 0
IsReport now r e =
    (e.session_id ≡ r.session_id)
    × (e.overall_score ≡ r.overall_score)
    × (e.report ≡ r.report)
    × (e.transcript_hash ≡ r.transcript_hash)
    × (e.generated_at ≡ now)

find-append :
    (e : InterviewEvaluation) (es : List InterviewEvaluation)
    → find (is_evaluation_of (enrollment e)) es ≡ none
    → find (is_evaluation_of (enrollment e)) (es ++ e ∷ []) ≡ some e
unfolding find
find-append e [] free = rw (==_self (enrollment e)) refl
find-append e (d ∷ ds) free = elim (Bool-cases (enrollment d == enrollment e)) [
  | inl taken ↦ cc (rw taken at free)
  | inr other ↦ rw other (find-append e ds (rw other at free))
]

pub find-upsert :
    (now : Time) (r : FinalEvaluationRecord) (es : List InterviewEvaluation)
    → (e : InterviewEvaluation) × (find
          (is_evaluation_of r.candidate_assessment_id)
          (upsert now r es)
        ≡ some e)
      × IsReport now r e
find-upsert now r es = elim (Option-cases (find (is_evaluation_of r.candidate_assessment_id) es)) [
  | inl free ↦ (
    new_evaluation now r,
    rw (upsert-new now r es free) (find-append (new_evaluation now r) es free),
    (refl, refl, refl, refl, refl),
  )
  | inr (e, found) ↦ (
    replaced now r e,
    rw
        (
          upsert-known now r es e found,
          find-updated (is_evaluation_of r.candidate_assessment_id) (replaced now r) es (λ d. refl),
          found,
        )
        refl,
    (refl, refl, refl, refl, refl),
  )
]

pub IsReport-at_place :
    (floats : Floats) (now : Time) (r : FinalEvaluationRecord) (total rank : ℕ) (place : Option ℕ)
    (e : InterviewEvaluation)
    → IsReport now r e
    → IsReport now r (at_place floats total rank place e)
IsReport-at_place floats now r total rank none e h = h
IsReport-at_place floats now r total rank (some i) e h = h
