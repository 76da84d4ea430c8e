-- ===== src/Candidates/Actions.antt =====
-- The requests on candidates, one after another, keep candidates and enrollments consistent.
use i_bot_core_api_service.Prelude.{String, Option, List, [], ◌∷◌, nat_eq, string_eq}
use i_bot_core_api_service.Db.{Uuid, Decision, Exec, Result, ok, err}
use i_bot_core_api_service.Office.{Office, conclude, request, on_rows}
use i_bot_core_api_service.Repositories.Env.{Env}
use i_bot_core_api_service.Candidates.Repository.{Texts, Fresh}
use i_bot_core_api_service.Candidates.Csv.{CsvFile}
use i_bot_core_api_service.Candidates.Tally.{UploadCall}
use i_bot_core_api_service.Candidates.Upload.{bulk_upload_from_csv}
use i_bot_core_api_service.Candidates.Consistent.{IsConsistent}
use i_bot_core_api_service.Candidates.Service.{SingleCandidate, create_single_candidate}
use i_bot_core_api_service.Candidates.Enroll.{NewEnrollment, enroll_existing_candidate}
use i_bot_core_api_service.Candidates.Manage.{
  Parsed, update_recruiter_decision, delete_candidate_from_assessment,
  process_candidate_resume_in_background,
}
use i_bot_core_api_service.Candidates.Kept.{Keeps-decision, Keeps-delete, Keeps-resume}
use i_bot_core_api_service.Candidates.Created.{enroll-IsConsistent, create-IsConsistent}
use i_bot_core_api_service.Candidates.Uploads.{DrawsFresh, upload-IsConsistent}

-- A request on candidates with its arguments and its draws, or the parsing of a resume.
pub data Action : Type 0 where
  upload : UploadCall → CsvFile → Action
  create : Fresh → Uuid → SingleCandidate → Action
  enroll : Fresh → Uuid → NewEnrollment → Action
  decide : Uuid → Uuid → Decision → Option String → Action
  remove : Uuid → Uuid → Action
  finish_resume : Uuid → Option Parsed → Action

-- The state after it; a request is one transaction.
unfoldable pub run_action : Texts → Env → Action → Office → Office
run_action texts env (upload call file) o = (request (bulk_upload_from_csv texts env call file) o).1
run_action texts env (create fresh recruiter_id new) o =
    (request (create_single_candidate texts env fresh recruiter_id new) o).1
run_action texts env (enroll fresh recruiter_id new) o =
    (request (enroll_existing_candidate env fresh recruiter_id new) o).1
run_action texts env (decide id recruiter_id decision feedback) o =
    (request (update_recruiter_decision env id recruiter_id decision feedback) o).1
run_action texts env (remove id recruiter_id) o =
    (request (delete_candidate_from_assessment id recruiter_id) o).1
run_action texts env (finish_resume id parsed) o =
    (on_rows (process_candidate_resume_in_background env id parsed) o).1

unfoldable pub run_actions : Texts → List (Env × Action) → Office → Office
run_actions texts [] o = o
run_actions texts ((env, action) ∷ rest) o = run_actions texts rest (run_action texts env action o)

-- The draws of the uploads among the actions.
abbrev pub AreFresh : List (Env × Action) → Type 0
AreFresh [] = Unit
AreFresh ((env, upload call file) ∷ rest) = DrawsFresh call.fresh × AreFresh rest
AreFresh ((env, _) ∷ rest) = AreFresh rest

concluded :
    {A : Type 0} (before : Office) (r : Result A) (after : Office)
    → IsConsistent before.db
    → IsConsistent after.db
    → IsConsistent (conclude before r after).1.db
concluded before (ok a) after h h' = h'
concluded before (err e) after h h' = h

request-IsConsistent :
    {A : Type 0} (m : Exec Office A) (o : Office)
    → IsConsistent o.db
    → IsConsistent (m (record o { after_commit = [] })).1.db
    → IsConsistent (request m o).1.db
unfolding request
request-IsConsistent m o before after =
    let (r, o') = m (record o { after_commit = [] }) in concluded o r o' before after

action-IsConsistent :
    (texts : Texts) (env : Env) (action : Action)
    → AreFresh ((env, action) ∷ [])
    → (o : Office) → IsConsistent o.db
    → IsConsistent (run_action texts env action o).db
unfolding run_action
action-IsConsistent texts env (upload call file) fresh o h =
    request-IsConsistent _ o h (upload-IsConsistent texts env call file fresh.0 _ h)
action-IsConsistent texts env (create fresh recruiter_id new) _ o h =
    request-IsConsistent _ o h (create-IsConsistent texts env fresh recruiter_id new _ h)
action-IsConsistent texts env (enroll fresh recruiter_id new) _ o h =
    request-IsConsistent _ o h (enroll-IsConsistent env fresh recruiter_id new _ h)
action-IsConsistent texts env (decide id recruiter_id decision feedback) _ o h =
    request-IsConsistent _ o h
      ((Keeps-decision env id recruiter_id decision feedback).holds_after _ h)
action-IsConsistent texts env (remove id recruiter_id) _ o h =
    request-IsConsistent _ o h ((Keeps-delete id recruiter_id).holds_after _ h)
action-IsConsistent texts env (finish_resume id parsed) _ o h =
    (Keeps-resume env id parsed).holds_after o.db h

AreFresh-head :
    (env : Env) (action : Action) (rest : List (Env × Action))
    → AreFresh ((env, action) ∷ rest)
    → AreFresh ((env, action) ∷ []) × AreFresh rest
AreFresh-head env (upload call file) rest h = ((h.0, tt), h.1)
AreFresh-head env (create _ _ _) rest h = (tt, h)
AreFresh-head env (enroll _ _ _) rest h = (tt, h)
AreFresh-head env (decide _ _ _ _) rest h = (tt, h)
AreFresh-head env (remove _ _) rest h = (tt, h)
AreFresh-head env (finish_resume _ _) rest h = (tt, h)

-- Uploads, single candidates, enrollments, decisions, deletions and parsed resumes, in any order and
-- whether they are accepted or refused, keep the addresses of the candidates distinct, at most one
-- enrollment of a candidate in an assessment, and no two unfinished enrollments of a candidate in
-- assessments whose windows have a moment in common. (The ids that the rows of an upload draw are fresh.)
pub run_actions-IsConsistent :
    (texts : Texts) (actions : List (Env × Action)) (o : Office)
    → AreFresh actions
    → IsConsistent o.db
    → IsConsistent (run_actions texts actions o).db
unfolding run_actions
run_actions-IsConsistent texts [] o fresh h = h
run_actions-IsConsistent texts ((env, action) ∷ rest) o fresh h =
    let (now, later) = AreFresh-head env action rest fresh in
    run_actions-IsConsistent texts rest (run_action texts env action o) later
      (action-IsConsistent texts env action now o h)
