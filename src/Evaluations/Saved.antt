-- ===== src/Evaluations/Saved.antt =====
-- What `save_final_evaluation` leaves in the database.
use i_bot_core_api_service.Prelude.{
  ◌≡◌, refl, Bool, true, not, ◌&&◌, String, Option, none, some, Distinct, ◌==◌, ==_self, nat_eq,
  string_eq, Bool-cases, Option-cases, inl, inr,
}
use i_bot_core_api_service.Db.{
  Db, Uuid, InterviewEvaluation, InterviewSession, SessionStatus, is_evaluated, find, find-updated,
  find-update_where, find-and, ◌>>=◌,
}
use i_bot_core_api_service.Repositories.Env.{Env}
use i_bot_core_api_service.Repositories.Statements.{
  has_id, session_by_id, update_sessions, update_enrollments,
}
use i_bot_core_api_service.Evaluations.Places.{keys}
use i_bot_core_api_service.Evaluations.Repository.{
  FinalEvaluationRecord, Floats, is_evaluation_of, evaluation_exists_for_hash,
  mark_evaluation_failed, is_of_assessment, save_final_evaluation, refresh_assessment_ranking,
}
use i_bot_core_api_service.Evaluations.Ranked.{enrollment}
use i_bot_core_api_service.Evaluations.Ranking.{HasRank, refreshed-HasRank, refreshed_row}
use i_bot_core_api_service.Evaluations.Upsert.{
  upsert-Distinct, find-upsert, IsReport, IsReport-at_place,
}

-- Whether the session is evaluated.
abbrev pub evaluated_session : Option InterviewSession → Bool
evaluated_session none = true
evaluated_session (some s) = is_evaluated s.status

module _ (floats : Floats) (env : Env) (r : FinalEvaluationRecord) (recruiter_email : String) where
  abbrev pub saved : Db → Db
  saved db = (save_final_evaluation floats env r recruiter_email db).1

  -- Saving an evaluation ranks all of its assessment: every evaluation of an enrollment in it then
  -- has a rank, the number of evaluations and the percentile of that rank; the evaluations with a
  -- higher score, or the same score and an earlier report, are fewer than its rank, and with those
  -- that have a lower score, or the same and a later report, its rank is at most that number. (No
  -- enrollment has two evaluations.)
  pub save-ranks :
      (db : Db) (id : Uuid) (e : InterviewEvaluation)
      → Distinct (keys enrollment db.interview_evaluations)
      → find (is_evaluation_of id) (saved db).interview_evaluations ≡ some e
      → is_of_assessment (saved db).candidate_assessments r.assessment_id e ≡ true
      → HasRank floats (saved db) r.assessment_id e
  unfolding save_final_evaluation ◌>>=◌ find update_sessions update_enrollments
  save-ranks db id e distinct found mine =
      refreshed-HasRank floats r.assessment_id _ id e
        (upsert-Distinct env.db_now r db.interview_evaluations distinct) found mine

  saved-IsReport :
      (db : Db)
      → Distinct (keys enrollment db.interview_evaluations)
      → (e : InterviewEvaluation) × (find
            (is_evaluation_of r.candidate_assessment_id)
            (saved db).interview_evaluations
          ≡ some e)
        × IsReport env.db_now r e
  unfolding save_final_evaluation ◌>>=◌ find update_sessions update_enrollments
  saved-IsReport db distinct =
      let (e, found, is_report) = find-upsert env.db_now r db.interview_evaluations in
      let stays =
        refreshed_row floats r.assessment_id _ r.candidate_assessment_id e
          (upsert-Distinct env.db_now r db.interview_evaluations distinct) found in
      (_, stays, IsReport-at_place floats env.db_now r _ 1 _ e is_report)

  saved_session : (db : Db) → evaluated_session (session_by_id (saved db) r.session_id) ≡ true
  unfolding save_final_evaluation refresh_assessment_ranking ◌>>=◌ update_sessions
      update_enrollments session_by_id
  saved_session db =
      rw
        (find-updated (has_id r.session_id)
          (λ s. record s { status = SessionStatus.evaluated; last_updated_at = env.db_now })
          db.interview_sessions (λ s. refl))
        (elim (Option-cases (find (has_id r.session_id) db.interview_sessions)) [
          | inl e ↦ rw e refl
          | inr (s, e) ↦ rw e refl
        ])

  -- A failure reported after the evaluation leaves an evaluated session alone.
  failed_later :
      (env' : Env) (id : Uuid) (db : Db)
      → evaluated_session (session_by_id db r.session_id) ≡ true
      → session_by_id (mark_evaluation_failed env' id db).1 r.session_id
        ≡ session_by_id db r.session_id
  unfolding mark_evaluation_failed update_sessions session_by_id
  failed_later env' id db done =
      rw
        (find-update_where (has_id r.session_id)
          (λ s. s.candidate_assessment_id == id && not (is_evaluated s.status))
          (λ s. record s {
            status = SessionStatus.evaluation_failed;
            last_updated_at = env'.db_now;
          })
          db.interview_sessions (λ s. refl))
        (elim (Option-cases (find (has_id r.session_id) db.interview_sessions)) [
          | inl e ↦ rw e refl
          | inr (s, e) ↦
              let kept : is_evaluated s.status ≡ true = rw e at done in
              elim (Bool-cases (s.candidate_assessment_id == id)) [
                | inl mine ↦ rw (e, mine, kept) refl
                | inr other ↦ rw (e, other) refl
              ]
        ])

  found_by_hash :
      (db : Db) (e : InterviewEvaluation)
      → find (is_evaluation_of r.candidate_assessment_id) db.interview_evaluations ≡ some e
      → e.transcript_hash ≡ r.transcript_hash
      → evaluation_exists_for_hash db r.candidate_assessment_id r.transcript_hash ≡ true
  unfolding evaluation_exists_for_hash
  found_by_hash db e found hash =
      rw
        (
          evaluation_exists_for_hash,
          find-and (is_evaluation_of r.candidate_assessment_id)
              (λ d. d.transcript_hash == r.transcript_hash) db.interview_evaluations e found
              (rw hash (==_self r.transcript_hash)),
        )
        refl

  -- A saved evaluation is the one of its enrollment, with the report of the request, whether or not
  -- there was one before; a query by its transcript's hash finds it; its session is evaluated, if it
  -- exists, and a failure that is reported later, for whichever enrollment, changes nothing of the
  -- session. (No enrollment has two evaluations.)
  pub save-lasts :
      (db : Db) (env' : Env) (id : Uuid)
      → Distinct (keys enrollment db.interview_evaluations)
      → ((e : InterviewEvaluation) × (find
              (is_evaluation_of r.candidate_assessment_id)
              (saved db).interview_evaluations
            ≡ some e)
          × IsReport env.db_now r e)
        × (evaluation_exists_for_hash (saved db) r.candidate_assessment_id r.transcript_hash ≡ true)
        × (evaluated_session (session_by_id (saved db) r.session_id) ≡ true)
        × (session_by_id (mark_evaluation_failed env' id (saved db)).1 r.session_id
            ≡ session_by_id (saved db) r.session_id)
  save-lasts db env' id distinct =
      let (e, found, is_report) = saved-IsReport db distinct in
      (
        (e, found, is_report),
        found_by_hash (saved db) e found is_report.3,
        saved_session db,
        failed_later env' id (saved db) (saved_session db),
      )
