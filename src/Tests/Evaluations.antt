-- ===== src/Tests/Evaluations.antt =====
-- Evaluations and their ranking at concrete inputs.
use i_bot_core_api_service.Prelude.{
  ℕ, ◌+◌, ◌*◌, ◌/◌, ◌≡◌, refl, true, false, some, filter, [], ◌∷◌, contains, nat_eq,
}
use i_bot_core_api_service.Json.{null, pos}
use i_bot_core_api_service.Db.{Db, InterviewEvaluation, EnrollmentStatus, find, update_where, ◌>>=◌}
use i_bot_core_api_service.Repositories.Statements.{
  session_by_id, update_sessions, update_enrollments,
}
use i_bot_core_api_service.Evaluations.Repository.{
  FinalEvaluationRecord, Floats, ranked, upsert, new_evaluation, save_final_evaluation,
  refresh_assessment_ranking, mark_evaluation_failed, evaluation_exists_for_hash, is_evaluation_of,
}
use i_bot_core_api_service.Evaluations.Ranking.{HasRank}
use i_bot_core_api_service.Evaluations.Saved.{saved, save-ranks, save-lasts, evaluated_session}
use i_bot_core_api_service.Evaluations.Upsert.{IsReport}
use i_bot_core_api_service.Tests.Data.{at_time, enrollment, new_interview, database}

-- Quotients as pairs of natural numbers.
abbrev fractions : Floats
fractions = record {
  Float = ℕ × ℕ;
  quotient = λ m n. (m, n);
  hundredfold = λ x. (100 * x.0, x.1);
  plus_half = λ x. (2 * x.0 + x.1, 2 * x.1);
  floor = λ x. x.0 / x.1;
}

abbrev earlier : InterviewEvaluation
earlier = record {
  candidate_assessment_id = 6;
  session_id = 60;
  overall_score = pos 55;
  report = null;
  transcript_hash = "other hash";
  rank_in_assessment = some 1;
  percentile_in_assessment = some 100;
  total_candidates_evaluated = some 1;
  generated_at = 10;
}

abbrev db : Db
db = record (database EnrollmentStatus.completed new_interview) {
  candidate_assessments =
      enrollment EnrollmentStatus.completed
      ∷ record (enrollment EnrollmentStatus.evaluated) { id = 6; candidate_id = 8 }
      ∷ [];
  interview_evaluations = earlier ∷ [];
}

abbrev final : FinalEvaluationRecord
final = record {
  candidate_assessment_id = 4;
  session_id = 5;
  assessment_id = 3;
  overall_score = pos 70;
  report = null;
  transcript_hash = "hash";
}

abbrev after : Db
after = saved fractions (at_time 20) final "rina@example.com" db

-- The better evaluation takes the first place.
second_now :
    find (is_evaluation_of 6) after.interview_evaluations
    ≡ some (record earlier {
      rank_in_assessment = some 2;
      percentile_in_assessment = some 0;
      total_candidates_evaluated = some 2;
    })
unfolding save_final_evaluation refresh_assessment_ranking upsert find update_where update_sessions
    update_enrollments ◌>>=◌ filter
second_now = refl

save-ranks_example : HasRank fractions after 3 (ranked fractions 2 1 (new_evaluation 20 final))
unfolding save_final_evaluation refresh_assessment_ranking upsert find update_where update_sessions
    update_enrollments ◌>>=◌ filter contains
save-ranks_example =
    save-ranks fractions (at_time 20) final "rina@example.com" db 4
      (ranked fractions 2 1 (new_evaluation 20 final)) (refl, tt) refl refl

one_evaluation : contains {A = ℕ} 6 [] ≡ false
unfolding contains
one_evaluation = refl

save-lasts_example :
    ((e : InterviewEvaluation) × (find (is_evaluation_of 4) after.interview_evaluations ≡ some e)
      × IsReport 20 final e)
    × (evaluation_exists_for_hash after 4 "hash" ≡ true)
    × (evaluated_session (session_by_id after 5) ≡ true)
    × (session_by_id (mark_evaluation_failed (at_time 30) 4 after).1 5 ≡ session_by_id after 5)
save-lasts_example =
    save-lasts fractions (at_time 20) final "rina@example.com" db (at_time 30) 4
      (one_evaluation, tt)
