-- ===== src/Evaluations/Ranking.antt =====
-- The ranks that `_refresh_assessment_ranking` leaves.
use mathlib.Core.Option.{some-injective}
use mathlib.Core.Path.{subst}
use i_bot_core_api_service.Prelude.{
  ◌≡◌, refl, sym, ap, ◌∙◌, ℕ, ◌+◌, ◌≤◌, ◌<◌, Bool, true, some, List, length, Distinct, nat_eq,
  Option-cases, inl, inr, arith,
}
use i_bot_core_api_service.Db.{Db, Uuid, InterviewEvaluation, find, ◌>>=◌}
use i_bot_core_api_service.Order.{order_by, count, order_by-Sorted, count-order_by, length-order_by}
use i_bot_core_api_service.Evaluations.Places.{
  keys, position, filter-Distinct, order_by-Distinct, find-selected, find-order_by, Placed,
  find-Placed,
}
use i_bot_core_api_service.Evaluations.Repository.{
  Floats, is_evaluation_of, is_of_assessment, precedes, percentile, ranked, rows_of,
  refresh_assessment_ranking,
}
use i_bot_core_api_service.Evaluations.Scores.{precedes-IsOrder}
use i_bot_core_api_service.Evaluations.Ranked.{
  enrollment, count-all, count-rank_rows, at_place, find-rank_rows, find-rank_rows-none,
  is_of_assessment-at_place,
}

-- An evaluation's rank among those of its assessment: the evaluations that precede it have smaller
-- ranks to take, and those that it precedes have greater ones.
abbrev pub HasRank : Floats → Db → Uuid → InterviewEvaluation → Type 0
HasRank floats db assessment_id e =
    let rows = rows_of db assessment_id in
    (rank : ℕ) × (e.rank_in_assessment ≡ some rank)
    × (e.total_candidates_evaluated ≡ some (length rows))
    × (e.percentile_in_assessment ≡ some (percentile floats (length rows) rank))
    × (count (λ d. precedes d e) rows < rank)
    × (rank + count (λ d. precedes e d) rows ≤ length rows)

module _ (floats : Floats) (assessment_id : Uuid) where
  abbrev pub refreshed : Db → Db
  refreshed db = (refresh_assessment_ranking floats assessment_id db).1

  abbrev pub ordered : Db → List InterviewEvaluation
  ordered db = order_by precedes (rows_of db assessment_id)

  count-refreshed :
      (db : Db) (p : InterviewEvaluation → Bool)
      → ((t k : ℕ) (e : InterviewEvaluation) → p (ranked floats t k e) ≡ p e)
      → count p (rows_of (refreshed db) assessment_id) ≡ count p (rows_of db assessment_id)
  unfolding refresh_assessment_ranking ◌>>=◌
  count-refreshed db p same =
      count-rank_rows floats (length (ordered db)) p
        (is_of_assessment db.candidate_assessments assessment_id) 1 (ordered db)
        db.interview_evaluations (same (length (ordered db))) (λ k e. refl)

  length-refreshed : (db : Db) → length (rows_of (refreshed db) assessment_id) ≡ length (ordered db)
  length-refreshed db =
      sym (count-all (rows_of (refreshed db) assessment_id))
      ∙ count-refreshed db (λ e. true) (λ t k e. refl)
      ∙ count-all (rows_of db assessment_id)
      ∙ sym (length-order_by precedes (rows_of db assessment_id))

  ranked-HasRank :
      (db : Db) (id : Uuid) (e : InterviewEvaluation)
      → Placed enrollment precedes id e (ordered db)
      → HasRank floats
          (refreshed db)
          assessment_id
          (at_place floats (length (ordered db)) 1 (position enrollment id (ordered db)) e)
  ranked-HasRank db id e (i, place, before, later) =
      let size = sym (length-refreshed db) in
      let counted : (p : InterviewEvaluation → Bool)
          → ((t k : ℕ) (d : InterviewEvaluation) → p (ranked floats t k d) ≡ p d)
          → count p (ordered db) ≡ count p (rows_of (refreshed db) assessment_id) =
        λ p same.
          count-order_by precedes p (rows_of db assessment_id) ∙ sym (count-refreshed db p same) in
      let better : count (λ d. precedes d e) (rows_of (refreshed db) assessment_id) < 1 + i =
        subst (λ n. n < 1 + i) (counted (λ d. precedes d e) (λ t k d. refl))
          (omega (arith, before)) in
      let worse : 1 + i + count (λ d. precedes e d) (rows_of (refreshed db) assessment_id)
          ≤ length (rows_of (refreshed db) assessment_id) =
        subst (λ n. 1 + i + n ≤ length (rows_of (refreshed db) assessment_id))
          (counted (λ d. precedes e d) (λ t k d. refl))
          (subst (λ n. 1 + i + count (λ d. precedes e d) (ordered db) ≤ n) size
            (omega (arith, later))) in
      rw place (
        1 + i,
        refl,
        ap some size,
        ap (λ n. some (percentile floats n (1 + i))) size,
        better,
        worse,
      )

  pub refreshed_row :
      (db : Db) (id : Uuid) (e : InterviewEvaluation)
      → Distinct (keys enrollment db.interview_evaluations)
      → find (is_evaluation_of id) db.interview_evaluations ≡ some e
      → find (is_evaluation_of id) (refreshed db).interview_evaluations
        ≡ some (at_place floats (length (ordered db)) 1 (position enrollment id (ordered db)) e)
  unfolding refresh_assessment_ranking ◌>>=◌
  refreshed_row db id e distinct there =
      find-rank_rows floats (length (ordered db)) 1 id (ordered db) db.interview_evaluations e
        (order_by-Distinct enrollment precedes (rows_of db assessment_id) (
          filter-Distinct enrollment (is_of_assessment db.candidate_assessments assessment_id)
            db.interview_evaluations distinct))
        there

  -- Whatever the refresh does to an evaluation of the assessment, it has its rank then.
  pub refreshed-HasRank :
      (db : Db) (id : Uuid) (e : InterviewEvaluation)
      → Distinct (keys enrollment db.interview_evaluations)
      → find (is_evaluation_of id) (refreshed db).interview_evaluations ≡ some e
      → is_of_assessment (refreshed db).candidate_assessments assessment_id e ≡ true
      → HasRank floats (refreshed db) assessment_id e
  unfolding refresh_assessment_ranking ◌>>=◌
  refreshed-HasRank db id e distinct found mine =
      elim (Option-cases (find (is_evaluation_of id) db.interview_evaluations)) [
        | inl missing ↦ cc (
          found,
          find-rank_rows-none floats (length (ordered db)) 1 id (ordered db)
              db.interview_evaluations missing,
        )
        | inr (d, there) ↦
            let rows = rows_of db assessment_id in
            let place = position enrollment id (ordered db) in
            let unique : Distinct (keys enrollment rows) =
              filter-Distinct enrollment (is_of_assessment db.candidate_assessments assessment_id)
                db.interview_evaluations distinct in
            let ordered_distinct = order_by-Distinct enrollment precedes rows unique in
            let same : at_place floats (length (ordered db)) 1 place d ≡ e = some-injective _ _ (
              sym (
                find-rank_rows floats (length (ordered db)) 1 id (ordered db)
                  db.interview_evaluations d ordered_distinct there)
              ∙ found) in
            let own : is_of_assessment db.candidate_assessments assessment_id d ≡ true =
              sym (
                is_of_assessment-at_place floats (length (ordered db)) db.candidate_assessments
                  assessment_id 1 place d)
              ∙ ap (is_of_assessment db.candidate_assessments assessment_id) same
              ∙ mine in
            let stands : find (is_evaluation_of id) (ordered db) ≡ some d =
              find-order_by enrollment precedes id rows unique
              ∙ find-selected enrollment (is_of_assessment db.candidate_assessments assessment_id)
                  id db.interview_evaluations d there own in
            subst (HasRank floats (refreshed db) assessment_id) same (
              ranked-HasRank db id d (
                find-Placed enrollment precedes precedes-IsOrder id d (ordered db)
                  (order_by-Sorted precedes precedes-IsOrder rows) stands))
      ]
