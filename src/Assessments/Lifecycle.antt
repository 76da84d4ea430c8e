-- ===== src/Assessments/Lifecycle.antt =====
-- What the background work does to assessments: a closed one stays closed, and the periodic task
-- closes every elapsed window once.
use i_bot_core_api_service.Prelude.{◌≡◌, refl, String, true, List, [], ◌∷◌, filter, arith}
use i_bot_core_api_service.Json.{Json}
use i_bot_core_api_service.Db.{
  Db, Uuid, Assessment, AssessmentStatus, is_closed_assessment, ok, update_where_idem,
  filter-updated, ◌>>=◌,
}
use i_bot_core_api_service.Repositories.Env.{Env}
use i_bot_core_api_service.Sessions.Later.{Later, Later-refl, Later-trans, Later-update_where}
use i_bot_core_api_service.Assessments.Repository.{
  is_assessment, activated, is_expired, closed_row, with_status, activate_assessment,
  close_expired_assessments, set_status, close_assessment_on_failure,
}

-- The statements of process_assessment_task and close_expired_assessments_task of
-- src/handlers/celery_tasks/assessment_tasks.py.
pub data Step : Type 0 where
  activate : Uuid → String → Json → Json → Step
  expire : Step
  fail : Uuid → Step

unfoldable pub run_step : Env → Step → Db → Db
run_step env (activate id jd_text jd_analysis plan) db =
    (activate_assessment env id jd_text jd_analysis plan db).1
run_step env expire db = (close_expired_assessments env db).1
run_step env (fail id) db = (close_assessment_on_failure env id db).1

unfoldable pub run_steps : List (Env × Step) → Db → Db
run_steps [] db = db
run_steps ((env, step) ∷ rest) db = run_steps rest (run_step env step db)

-- The same assessment later.
pub record LaterAssessment (a b : Assessment) : Type 0 where
  pub same_id : b.id ≡ a.id
  pub owner : b.recruiter_id ≡ a.recruiter_id
  pub window : b.window_end ≡ a.window_end
  pub final : is_closed_assessment a.status ≡ true → b.status ≡ AssessmentStatus.closed

LaterAssessment-refl : (a : Assessment) → LaterAssessment a a
LaterAssessment-refl a = ground arith

LaterAssessment-trans :
    (a b c : Assessment) → LaterAssessment a b → LaterAssessment b c → LaterAssessment a c
LaterAssessment-trans a b c h k = ground arith

activated-Later :
    (env : Env) (jd_text : String) (jd_analysis plan : Json) (a : Assessment)
    → LaterAssessment a (activated env jd_text jd_analysis plan a)
activated-Later env jd_text jd_analysis plan a = ground arith

run_step-Later :
    (env : Env) (step : Step) (db : Db)
    → Later LaterAssessment db.assessments (run_step env step db).assessments
unfolding run_step activate_assessment close_expired_assessments set_status ◌>>=◌
run_step-Later env (activate id jd_text jd_analysis plan) db =
    Later-update_where LaterAssessment-refl (is_assessment id)
      (activated env jd_text jd_analysis plan)
      (λ a h. activated-Later env jd_text jd_analysis plan a) db.assessments
run_step-Later env expire db =
    Later-update_where LaterAssessment-refl (is_expired env) (closed_row env) (λ a h. ground arith)
      db.assessments
run_step-Later env (fail id) db =
    Later-update_where LaterAssessment-refl (is_assessment id)
      (with_status env AssessmentStatus.closed) (λ a h. ground arith) db.assessments

-- Whatever background steps run, in whatever order and at whatever times, an assessment keeps its
-- id, its owner and the end of its window, and one that is closed stays closed.
pub run_steps-Later :
    (steps : List (Env × Step)) (db : Db)
    → Later LaterAssessment db.assessments (run_steps steps db).assessments
unfolding run_steps
run_steps-Later [] db = Later-refl LaterAssessment-refl db.assessments
run_steps-Later ((env, step) ∷ rest) db =
    Later-trans LaterAssessment-trans (run_steps-Later rest (run_step env step db))
      (run_step-Later env step db)

-- The periodic task returns the assessments whose window has ended and that were not closed, and
-- leaves none such; a second run at the same time returns nothing and changes nothing.
pub close_expired_idem :
    (env : Env) (db : Db)
    → let (result, db') = close_expired_assessments env db in
      (result ≡ ok (filter (is_expired env) db.assessments))
      × (filter (is_expired env) db'.assessments ≡ [])
      × (close_expired_assessments env db' ≡ (ok [], db'))
unfolding close_expired_assessments ◌>>=◌
close_expired_idem env db =
    let none_left = filter-updated (is_expired env) (closed_row env) db.assessments (λ a h. refl) in
    (
      refl,
      none_left,
      rw
          (
            none_left,
            update_where_idem (is_expired env) (closed_row env) db.assessments (λ a h. refl),
          )
          refl,
    )
