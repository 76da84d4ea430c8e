-- ===== src/Assessments/Service.antt =====
-- `AssessmentService` of src/core/services/assessment_service.py.
use i_bot_core_api_service.Prelude.{
  ℕ, String, not, ◌&&◌, Option, none, some, List, [], ◌==◌, nat_eq, string_eq, if◌then◌else◌,
}
use i_bot_core_api_service.Json.{Json, null, arr, from_list}
use i_bot_core_api_service.Db.{
  Uuid, Time, Assessment, AssessmentStatus, is_closed_assessment, Exec, assessment_not_found,
  assessment_access_denied, assessment_validation, gets, raise, pure, ◌>>=◌, ◌>>◌,
}
use i_bot_core_api_service.Office.{
  process_assessment, cancel_invitations, Office, on_rows, enqueue, register_after_commit_callback,
  is_given,
}
use i_bot_core_api_service.Repositories.Env.{Env}
use i_bot_core_api_service.Assessments.Repository.{
  assessment_by_id, create_row, set_status, with_status,
}

abbrev pub owned : Uuid → Option Assessment → Exec Office Assessment
owned recruiter_id none = raise assessment_not_found
owned recruiter_id (some a) =
    if not (a.recruiter_id == recruiter_id) then raise assessment_access_denied else pure a

unfoldable pub get_assessment_by_id : Uuid → Uuid → Exec Office Assessment
get_assessment_by_id id recruiter_id = do
  found ← gets (λ o. assessment_by_id o.db id)
  owned recruiter_id found

unfoldable pub update_status : Env → Uuid → Uuid → AssessmentStatus → Exec Office Assessment
update_status env id recruiter_id new_status = do
  a ← get_assessment_by_id id recruiter_id
  if not (is_closed_assessment a.status) && is_closed_assessment new_status
      then enqueue (cancel_invitations id)
      else pure tt
  on_rows (set_status env id new_status)
  pure (with_status env new_status a)

-- The arguments of `create_assessment`.
pub record NewAssessment : Type 0 where
  pub recruiter_id : Uuid
  pub title : String
  pub role_name : String
  pub duration_mins : ℕ
  pub window_start : Time
  pub window_end : Time
  pub jd_text : Option String
  pub jd_file_bytes : Option String
  pub jd_filename : Option String
  pub focus_areas : List Json

abbrev pub text_of_jd : Option String → String
text_of_jd none = ""
text_of_jd (some s) = s

abbrev pub focus_column : List Json → Json
focus_column [] = null
focus_column areas = arr (from_list areas)

abbrev pub new_assessment : Env → NewAssessment → Assessment
new_assessment env n = record {
  id = env.fresh_id;
  recruiter_id = n.recruiter_id;
  title = n.title;
  role_name = n.role_name;
  jd_text = text_of_jd n.jd_text;
  jd_file_path = n.jd_filename;
  jd_analysis = null;
  focus_areas = focus_column n.focus_areas;
  interview_plan = null;
  interview_duration_mins = n.duration_mins;
  window_start = n.window_start;
  window_end = n.window_end;
  status = AssessmentStatus.processing;
  updated_at = env.db_now;
}

unfoldable pub create_assessment : Env → NewAssessment → Exec Office Assessment
create_assessment env n =
    if not (is_given n.jd_file_bytes) && not (is_given n.jd_text)
    then raise assessment_validation
    else (do
      a ← on_rows (create_row (new_assessment env n))
      register_after_commit_callback (process_assessment a.id)
      pure a)
