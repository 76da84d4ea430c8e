-- ===== src/Evaluations/Repository.antt =====
-- `EvaluationRepository` of src/data/repositories/evaluation_repository.py.
use i_bot_core_api_service.Prelude.{
  ℕ, suc, ◌-◌, String, Bool, true, false, not, ◌&&◌, ◌||◌, none, some, List, [], ◌∷◌, ◌++◌, length,
  filter, ◌==◌, nat_eq, string_eq, ltb, leb, if◌then◌else◌,
}
use i_bot_core_api_service.Json.{Json, ℤ, leb_ℤ}
use i_bot_core_api_service.Db.{
  Db, Uuid, Time, InterviewEvaluation, CandidateAssessment, SessionStatus, EnrollmentStatus,
  NotificationType, Exec, gets, modify, find, update_where, is_evaluated, ◌>>=◌, ◌>>◌,
}
use i_bot_core_api_service.Repositories.Env.{Env}
use i_bot_core_api_service.Repositories.Statements.{
  has_id, enrollment_has_id, update_sessions, update_enrollments,
}
use i_bot_core_api_service.Notifications.Log.{sent_row}
use i_bot_core_api_service.Order.{order_by}

-- The overall score and the transcript's hash; the other columns of the report are one value.
pub record FinalEvaluationRecord : Type 0 where
  pub candidate_assessment_id : Uuid
  pub session_id : Uuid
  pub assessment_id : Uuid
  pub overall_score : ℤ
  pub report : Json
  pub transcript_hash : String

-- What the percentile takes from Python's floats: the quotient of two int, its product with 100,
-- the sum with 0.5, and `math.floor` of a float that is not negative.
pub record Floats : Type 1 where
  pub Float : Type 0
  pub quotient : ℕ → ℕ → Float
  pub hundredfold : Float → Float
  pub plus_half : Float → Float
  pub floor : Float → ℕ

abbrev pub is_evaluation_of : Uuid → InterviewEvaluation → Bool
is_evaluation_of id e = e.candidate_assessment_id == id

unfoldable pub evaluation_exists_for_hash : Db → Uuid → String → Bool
evaluation_exists_for_hash db id hash =
    elim (find (λ e. is_evaluation_of id e && e.transcript_hash == hash) db.interview_evaluations) [
      | none ↦ false
      | some e ↦ true
    ]

unfoldable pub mark_evaluation_failed : Env → Uuid → Exec Db Unit
mark_evaluation_failed env id =
    update_sessions (λ s. s.candidate_assessment_id == id && not (is_evaluated s.status))
      (λ s. record s { status = SessionStatus.evaluation_failed; last_updated_at = env.db_now })

-- `insert(...).on_conflict_do_update(...)`: a conflict keeps the ranks.
abbrev pub new_evaluation : Time → FinalEvaluationRecord → InterviewEvaluation
new_evaluation now r = record {
  candidate_assessment_id = r.candidate_assessment_id;
  session_id = r.session_id;
  overall_score = r.overall_score;
  report = r.report;
  transcript_hash = r.transcript_hash;
  rank_in_assessment = none;
  percentile_in_assessment = none;
  total_candidates_evaluated = none;
  generated_at = now;
}

abbrev pub replaced : Time → FinalEvaluationRecord → InterviewEvaluation → InterviewEvaluation
replaced now r e = record e {
  session_id = r.session_id;
  overall_score = r.overall_score;
  report = r.report;
  transcript_hash = r.transcript_hash;
  generated_at = now;
}

unfoldable pub upsert :
    Time → FinalEvaluationRecord → List InterviewEvaluation → List InterviewEvaluation
upsert now r es = elim (find (is_evaluation_of r.candidate_assessment_id) es) [
  | none ↦ es ++ new_evaluation now r ∷ []
  | some e ↦ update_where (is_evaluation_of r.candidate_assessment_id) (replaced now r) es
]

-- The join with the enrollments of one assessment.
abbrev pub is_of_assessment : List CandidateAssessment → Uuid → InterviewEvaluation → Bool
is_of_assessment cas assessment_id e =
    elim (find (enrollment_has_id e.candidate_assessment_id) cas) [
      | none ↦ false
      | some ca ↦ ca.assessment_id == assessment_id
    ]

-- The higher score first, and of equal scores the earlier report.
abbrev pub precedes : InterviewEvaluation → InterviewEvaluation → Bool
precedes d e =
    not (leb_ℤ d.overall_score e.overall_score)
    || leb_ℤ e.overall_score d.overall_score && ltb d.generated_at e.generated_at

abbrev pub rows_of : Db → Uuid → List InterviewEvaluation
rows_of db assessment_id =
    filter (is_of_assessment db.candidate_assessments assessment_id) db.interview_evaluations

module _ (floats : Floats) where
  abbrev pub percentile : ℕ → ℕ → ℕ
  percentile total rank =
      if leb total 1
      then 100
      else floats.floor
          (floats.plus_half (floats.hundredfold (floats.quotient (total - rank) (total - 1))))

  abbrev pub ranked : ℕ → ℕ → InterviewEvaluation → InterviewEvaluation
  ranked total rank e = record e {
    rank_in_assessment = some rank;
    total_candidates_evaluated = some total;
    percentile_in_assessment = some (percentile total rank);
  }

  -- `for rank, evaluation in enumerate(evaluations, start=1)`
  abbrev pub rank_rows :
      ℕ → ℕ → List InterviewEvaluation → List InterviewEvaluation → List InterviewEvaluation
  rank_rows total rank [] es = es
  rank_rows total rank (row ∷ rows) es =
      rank_rows total (suc rank) rows
        (update_where (is_evaluation_of row.candidate_assessment_id) (ranked total rank) es)

  unfoldable pub refresh_assessment_ranking : Uuid → Exec Db Unit
  refresh_assessment_ranking assessment_id = do
    rows ← gets (λ db. order_by precedes (rows_of db assessment_id))
    modify (λ db. record db {
      interview_evaluations = rank_rows (length rows) 1 rows db.interview_evaluations;
    })

  -- The advisory lock makes the calls for one assessment follow one another.
  unfoldable pub save_final_evaluation : Env → FinalEvaluationRecord → String → Exec Db Unit
  save_final_evaluation env r recruiter_email = do
    modify
        (λ db. record db { interview_evaluations = upsert env.db_now r db.interview_evaluations })
    update_sessions (has_id r.session_id)
        (λ s. record s { status = SessionStatus.evaluated; last_updated_at = env.db_now })
    update_enrollments (enrollment_has_id r.candidate_assessment_id) (λ ca. record ca {
      status = EnrollmentStatus.evaluated;
      interview_ended_at = elim ca.interview_ended_at [ none ↦ some env.db_now | some t ↦ some t ];
      updated_at = env.db_now;
    })
    modify (λ db. record db {
      notification_logs =
          db.notification_logs
          ++ sent_row r.candidate_assessment_id NotificationType.report_ready recruiter_email ∷ [];
    })
    refresh_assessment_ranking r.assessment_id
