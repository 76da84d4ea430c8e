-- ===== src/Office.antt =====
-- The jobs that the services hand to Celery or to the event loop, and the callbacks that run after
-- a request's transaction commits: src/data/clients/postgres_client.py and the `enqueue_` functions
-- of src/handlers/celery_tasks.
use i_bot_core_api_service.Prelude.{
  ℕ, String, Bool, false, not, Option, none, some, List, [], ◌∷◌, ◌++◌, ◌==◌, string_eq,
}
use i_bot_core_api_service.Db.{Db, Uuid, Decision, Exec, Result, ok, err, modify}

-- The arguments of `enqueue_invitation_email`; the link is named by the token that it carries.
pub record Invitation : Type 0 where
  pub ca_record_id : Uuid
  pub candidate_name : String
  pub recipient_email : String
  pub assessment_title : String
  pub role_name : String
  pub invitation_token : Uuid
  pub interview_duration_mins : ℕ

-- The arguments of `dispatch_decision_with_logging`.
pub record DecisionEmail : Type 0 where
  pub ca_record_id : Uuid
  pub candidate_name : String
  pub recipient_email : String
  pub assessment_title : String
  pub role_name : String
  pub decision : Decision
  pub feedback : Option String

-- Where `process_candidate_resume_in_background` finds the resume.
pub data ResumeSource : Type 0 where
  resume_url : String → ResumeSource
  temp_file : String → ResumeSource

pub data Job : Type 0 where
  process_assessment : Uuid → Job
  cancel_invitations : Uuid → Job
  send_invitation : Invitation → Job
  parse_resume : Uuid → ResumeSource → Job
  send_decision : DecisionEmail → Job

-- The database, the callbacks that wait for the commit, and the jobs that Celery was given.
pub record Office : Type 0 where
  pub db : Db
  pub after_commit : List Job
  pub jobs : List Job

abbrev pub on_rows : {A : Type 0} → Exec Db A → Exec Office A
on_rows m o = let (r, db) = m o.db in (r, record o { db = db })

abbrev pub conclude : {A : Type 0} → Office → Result A → Office → Result A × Office
conclude before (ok a) after =
    (ok a, record { db = after.db; after_commit = []; jobs = after.jobs ++ after.after_commit })
conclude before (err e) after = (err e, record after { db = before.db; after_commit = [] })

-- The request's session: a commit runs the callbacks, a rollback forgets them.
unfoldable pub request : {A : Type 0} → Exec Office A → Exec Office A
request m o = let (r, o') = m (record o { after_commit = [] }) in conclude o r o'

unfoldable pub enqueue : Job → Exec Office Unit
enqueue job = modify λ o. record o { jobs = o.jobs ++ job ∷ [] }

unfoldable pub register_after_commit_callback : Job → Exec Office Unit
register_after_commit_callback job =
    modify λ o. record o { after_commit = o.after_commit ++ job ∷ [] }

-- Python's truth of a value that is a `str`, a `bytes` or None.
abbrev pub is_given : Option String → Bool
is_given none = false
is_given (some s) = not (s == "")
