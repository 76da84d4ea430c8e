-- ===== src/Tests/Assessments.antt =====
-- Assessments at concrete inputs.
use i_bot_core_api_service.Prelude.{◌≡◌, refl, none, some, List, [], ◌∷◌, filter}
use i_bot_core_api_service.Json.{null}
use i_bot_core_api_service.Db.{
  Db, Assessment, EnrollmentStatus, AssessmentStatus, ok, err, assessment_access_denied, find,
}
use i_bot_core_api_service.Repositories.Env.{Env}
use i_bot_core_api_service.Sessions.Later.{Later}
use i_bot_core_api_service.Assessments.Repository.{
  assessment_by_id, is_expired, close_expired_assessments,
}
use i_bot_core_api_service.Office.{process_assessment, Office, request}
use i_bot_core_api_service.Assessments.Service.{update_status, NewAssessment, create_assessment}
use i_bot_core_api_service.Assessments.Lifecycle.{
  Step, activate, expire, fail, run_steps, LaterAssessment, run_steps-Later, close_expired_idem,
}
use i_bot_core_api_service.Assessments.Requests.{create-queues, status-denied, status-updated}
use i_bot_core_api_service.Tests.Data.{seconds, at_time, assessment, new_interview, database}

abbrev db : Db
db = database EnrollmentStatus.invited new_interview

abbrev steps : List (Env × Step)
steps =
    (at_time (seconds 10), activate 3 "text" null null)
    ∷ (at_time (seconds 200000), expire)
    ∷ (at_time (seconds 200001), activate 3 "text" null null)
    ∷ (at_time (seconds 200002), fail 3)
    ∷ []

run_steps-Later_example : Later LaterAssessment db.assessments (run_steps steps db).assessments
run_steps-Later_example = run_steps-Later steps db

close_expired_idem_example :
    let (result, db') = close_expired_assessments (at_time (seconds 200000)) db in
    (result ≡ ok (filter (is_expired (at_time (seconds 200000))) db.assessments))
    × (filter (is_expired (at_time (seconds 200000))) db'.assessments ≡ [])
    × (close_expired_assessments (at_time (seconds 200000)) db' ≡ (ok [], db'))
close_expired_idem_example = close_expired_idem (at_time (seconds 200000)) db

abbrev office : Office
office = record { db = db; after_commit = []; jobs = [] }

abbrev frontend : NewAssessment
frontend = record {
  recruiter_id = 1;
  title = "Frontend";
  role_name = "Engineer";
  duration_mins = 20;
  window_start = 0;
  window_end = seconds 1000;
  jd_text = some "We are looking for an engineer.";
  jd_file_bytes = none;
  jd_filename = none;
  focus_areas = [];
}

-- The row that is stored for it.
abbrev stored_frontend : Assessment
stored_frontend = record {
  id = 99;
  recruiter_id = 1;
  title = "Frontend";
  role_name = "Engineer";
  jd_text = "We are looking for an engineer.";
  jd_file_path = none;
  jd_analysis = null;
  focus_areas = null;
  interview_plan = null;
  interview_duration_mins = 20;
  window_start = 0;
  window_end = seconds 1000;
  status = AssessmentStatus.processing;
  updated_at = seconds 10;
}

create-queues_example :
    let (result, o') = request (create_assessment (at_time (seconds 10)) frontend) office in
    (result ≡ ok stored_frontend)
    × ((create_assessment (at_time (seconds 10)) frontend office).1.jobs ≡ [])
    × (o'.db.assessments ≡ stored_frontend ∷ assessment ∷ [])
    × (o'.jobs ≡ process_assessment 99 ∷ [])
create-queues_example = create-queues (at_time (seconds 10)) frontend office

stored : assessment_by_id db 3 ≡ some assessment
unfolding assessment_by_id find
stored = refl

status-denied_example :
    let (result, o') =
      request (update_status (at_time (seconds 10)) 3 8 AssessmentStatus.closed) office in
    (result ≡ err assessment_access_denied) × (o'.db ≡ db) × (o'.jobs ≡ [])
status-denied_example =
    status-denied (at_time (seconds 10)) office assessment 8 stored AssessmentStatus.closed refl

-- A closed assessment that its owner makes active again.
abbrev closed_db : Db
closed_db = record db { assessments = record assessment { status = AssessmentStatus.closed } ∷ [] }

abbrev closed_office : Office
closed_office = record office { db = closed_db }

closed_stored :
    assessment_by_id closed_db 3 ≡ some (record assessment { status = AssessmentStatus.closed })
unfolding assessment_by_id find
closed_stored = refl

status-updated_example :
    let (result, o') =
      request (update_status (at_time (seconds 10)) 3 1 AssessmentStatus.active) closed_office in
    (result ≡ ok (record assessment { status = AssessmentStatus.active; updated_at = seconds 10 }))
    × (assessment_by_id o'.db 3
        ≡ some (record assessment { status = AssessmentStatus.active; updated_at = seconds 10 }))
    × (o'.jobs ≡ [])
status-updated_example =
    status-updated (at_time (seconds 10)) closed_office
      (record assessment { status = AssessmentStatus.closed }) 1 closed_stored
      AssessmentStatus.active refl
