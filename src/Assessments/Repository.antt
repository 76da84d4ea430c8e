-- ===== src/Assessments/Repository.antt =====
-- src/data/repositories/assessment_repository.py.
use i_bot_core_api_service.Prelude.{
  String, Bool, not, ◌&&◌, Option, none, some, List, ◌∷◌, filter, leb, ◌==◌, nat_eq, if◌then◌else◌,
}
use i_bot_core_api_service.Json.{Json}
use i_bot_core_api_service.Db.{
  Db, Uuid, Assessment, AssessmentStatus, is_closed_assessment, Exec, gets, pure, modify, find,
  update_where, ◌>>=◌, ◌>>◌,
}
use i_bot_core_api_service.Repositories.Env.{Env}

abbrev pub is_assessment : Uuid → Assessment → Bool
is_assessment id a = a.id == id

unfoldable pub assessment_by_id : Db → Uuid → Option Assessment
assessment_by_id db id = find (is_assessment id) db.assessments

unfoldable pub create_row : Assessment → Exec Db Assessment
create_row a = do modify λ db. record db { assessments = a ∷ db.assessments }; pure a

abbrev pub final_status : Env → Assessment → AssessmentStatus
final_status env a =
    if is_closed_assessment a.status
    then AssessmentStatus.closed
    else if leb a.window_end env.db_now
    then AssessmentStatus.closed
    else AssessmentStatus.active

abbrev pub activated : Env → String → Json → Json → Assessment → Assessment
activated env jd_text jd_analysis interview_plan a = record a {
  jd_text = jd_text;
  jd_analysis = jd_analysis;
  interview_plan = interview_plan;
  status = final_status env a;
  updated_at = env.db_now;
}

abbrev pub status_or_closed : Option Assessment → AssessmentStatus
status_or_closed none = AssessmentStatus.closed
status_or_closed (some a) = a.status

unfoldable pub activate_assessment : Env → Uuid → String → Json → Json → Exec Db AssessmentStatus
activate_assessment env id jd_text jd_analysis interview_plan = do
  modify λ db. record db {
    assessments =
        update_where (is_assessment id) (activated env jd_text jd_analysis interview_plan)
          db.assessments;
  }
  found ← gets (λ db. assessment_by_id db id)
  pure (status_or_closed found)

abbrev pub is_expired : Env → Assessment → Bool
is_expired env a = not (is_closed_assessment a.status) && leb a.window_end env.db_now

abbrev pub closed_row : Env → Assessment → Assessment
closed_row env a = record a { status = AssessmentStatus.closed; updated_at = env.db_now }

-- The rows that the statement returns, of which the caller reads columns that it did not change.
unfoldable pub close_expired_assessments : Env → Exec Db (List Assessment)
close_expired_assessments env = do
  expired ← gets (λ db. filter (is_expired env) db.assessments)
  modify λ db. record db {
    assessments = update_where (is_expired env) (closed_row env) db.assessments;
  }
  pure expired

abbrev pub with_status : Env → AssessmentStatus → Assessment → Assessment
with_status env status a = record a { status = status; updated_at = env.db_now }

-- The flush writes `updated_at` too, through the column's `onupdate`.
unfoldable pub set_status : Env → Uuid → AssessmentStatus → Exec Db Unit
set_status env id status = modify λ db. record db {
  assessments = update_where (is_assessment id) (with_status env status) db.assessments;
}

abbrev pub close_assessment_on_failure : Env → Uuid → Exec Db Unit
close_assessment_on_failure env id = set_status env id AssessmentStatus.closed
