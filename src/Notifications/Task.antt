-- ===== src/Notifications/Task.antt =====
-- The tasks of src/handlers/celery_tasks/notification_tasks.py, with Celery's retries.
use i_bot_core_api_service.Prelude.{
  ℕ, zero, suc, ◌^◌, min, ltb, String, Bool, true, false, Option, none, some, List, [], ◌∷◌, ◌++◌,
  nat_eq, if◌then◌else◌,
}
use i_bot_core_api_service.Db.{
  Db, Uuid, NotificationType, EventLog, EventName, EventSource, Detail, text, count, Error, Result,
  ok, err, email_not_accepted, report_context_not_found, Exec, pure, raise, gets, modify, ◌>>=◌,
  ◌>>◌,
}
use i_bot_core_api_service.Repositories.Statements.{enrollment_by_id}
use i_bot_core_api_service.Assessments.Repository.{assessment_by_id}
use i_bot_core_api_service.Candidates.Repository.{Texts, candidate_by_id}
use i_bot_core_api_service.Notifications.Log.{sent_row, failed_row, create_log}

pub data MailKind : Type 0 where
  invitation_mail cancellation_mail report_ready_mail : MailKind

-- A task: its payload's enrollment and recipient, and its id.
pub record MailTask : Type 0 where
  pub kind : MailKind
  pub candidate_assessment_id : Uuid
  pub recipient_email : String
  pub task_id : Uuid

-- What one attempt meets: whether the e-mail client accepts the e-mail, whether each transaction
-- commits (that of the log, that of the failure's log, and those of the events), and the text of an
-- exception.
pub record Attempt : Type 0 where
  pub email_accepted : Bool
  pub log_stored : Bool
  pub failure_log_stored : Bool
  pub start_stored : Bool
  pub end_stored : Bool
  pub describe : Error → String

-- The database, and the e-mails that the client accepted.
pub record Post : Type 0 where
  pub db : Db
  pub sent : List MailTask

abbrev pub on_db : {A : Type 0} → Exec Db A → Exec Post A
on_db m p = let (r, db) = m p.db in (r, record p { db = db })

abbrev pub task_name : MailKind → String
task_name invitation_mail = "core.send_invitation_email"
task_name cancellation_mail = "core.send_cancellation_email"
task_name report_ready_mail = "core.send_report_ready_email"

abbrev pub type_of : MailKind → NotificationType
type_of invitation_mail = NotificationType.invitation
type_of cancellation_mail = NotificationType.assessment_cancellation
type_of report_ready_mail = NotificationType.report_ready_email

abbrev pub max_retries : ℕ
max_retries = 3

-- Whether `load_report_email_context` finds its row: the enrollment with its candidate and its
-- assessment.
unfoldable pub has_report_context : Db → Uuid → Bool
has_report_context db id = elim (enrollment_by_id db id) [
  | none ↦ false
  | some ca ↦ elim (candidate_by_id db ca.candidate_id) [
    | none ↦ false
    | some c ↦ elim (assessment_by_id db ca.assessment_id) [ none ↦ false | some a ↦ true ]
  ]
]

-- The report's task needs its context; the others have it in the payload.
unfoldable pub has_context : Db → MailTask → Bool
has_context db task = elim task.kind [
  | report_ready_mail ↦ has_report_context db task.candidate_assessment_id
  | _ ↦ true
]

-- The report's task strips its recipient.
abbrev pub recipient : Texts → MailTask → String
recipient texts task = elim task.kind [
  | report_ready_mail ↦ texts.strip task.recipient_email
  | _ ↦ task.recipient_email
]

abbrev pub task_event : MailTask → ℕ → EventName → List (String × Detail) → EventLog
task_event task retries name more = record {
  event_name = name;
  source_service = EventSource.core_api;
  correlation_id = task.task_id;
  candidate_assessment_id = some task.candidate_assessment_id;
  recruiter_id = none;
  details = ("task_name", text (task_name task.kind)) ∷ ("retry_number", count retries) ∷ more;
}

-- `try_record_event_in_background`; the exception's type and text and the duration are left out.
unfoldable pub try_record : Bool → EventLog → Exec Post Unit
try_record stored event =
    if stored
    then modify (λ p. record p { db = record p.db { event_logs = p.db.event_logs ++ event ∷ [] } })
    else pure tt

pub data TaskOutcome : Type 0 where
  completed : TaskOutcome
  retry_in : ℕ → TaskOutcome
  failed_permanently : Error → TaskOutcome

module _ (texts : Texts) (task : MailTask) where
  -- `_send_invitation`, `_send_cancellation` and `_send_report_ready`.
  unfoldable pub send : Attempt → Exec Post Unit
  send a = do
    ready ← gets (λ p. has_context p.db task)
    if ready then pure tt else raise report_context_not_found
    if a.email_accepted
        then modify (λ p. record p { sent = p.sent ++ task ∷ [] })
        else raise email_not_accepted
    on_db (
        create_log a.log_stored
          (sent_row task.candidate_assessment_id (type_of task.kind) (recipient texts task)))

  -- The failure's own log, whose failure is only logged.
  unfoldable pub log_failure : Attempt → Error → Exec Post Unit
  log_failure a e p =
      let (r, p') =
        on_db
          (create_log a.failure_log_stored (
            failed_row task.candidate_assessment_id (type_of task.kind) task.recipient_email
              (a.describe e)))
          p in
      (ok tt, p')

  abbrev pub countdown : ℕ → ℕ
  countdown retries = min 60 (2 ^ retries)

  abbrev pub conclude_attempt : ℕ → Attempt → Result (Unit {0}) → Exec Post TaskOutcome
  conclude_attempt retries a (ok _) = do
    try_record a.end_stored (task_event task retries EventName.celery_task_completed [])
    pure completed
  conclude_attempt retries a (err e) =
      if ltb retries max_retries
      then (do
        try_record a.end_stored (
            task_event task retries EventName.celery_task_retrying
              (("retry_in_seconds", count (countdown retries)) ∷ []))
        pure (retry_in (countdown retries)))
      else (do
        try_record a.end_stored (task_event task retries EventName.celery_task_failed [])
        log_failure a e
        pure (failed_permanently e))

  -- One run of the task's body.
  unfoldable pub run_attempt : ℕ → Attempt → Exec Post TaskOutcome
  run_attempt retries a = do
    try_record a.start_stored (task_event task retries EventName.celery_task_started [])
    r ← (λ p. let (r, p') = send a p in (ok r, p'))
    conclude_attempt retries a r

  -- Celery runs the task again, after the countdown and with one more retry, as long as it asks for it;
  -- `none` means that the fuel ran out.
  unfoldable pub deliver : ℕ → ℕ → (ℕ → Attempt) → Post → Option TaskOutcome × Post
  deliver zero retries attempts p = (none, p)
  deliver (suc fuel) retries attempts p =
      let (r, p') = run_attempt retries (attempts retries) p in
      elim r [
        | ok (retry_in n) ↦ deliver fuel (suc retries) attempts p'
        | ok outcome ↦ (some outcome, p')
        | err e ↦ (none, p')
      ]
