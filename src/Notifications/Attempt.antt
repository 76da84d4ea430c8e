-- ===== src/Notifications/Attempt.antt =====
-- What one run of a task does, by what it meets.

use i_bot_core_api_service.Prelude.{
  ◌≡◌, refl, ◌∙◌, ℕ, ltb, Bool, true, false, ◌&&◌, List, [], ◌∷◌, ◌++◌, append_nil, append_assoc,
  nat_eq, if◌then◌else◌, Bool-cases, inl, inr,
}
use i_bot_core_api_service.Db.{
  Db, NotificationLog, EventLog, EventName, Error, Result, ok, err, modify, raise, count, ◌>>=◌,
  email_not_accepted, log_not_stored, report_context_not_found,
}
use i_bot_core_api_service.Repositories.Statements.{enrollment_by_id}
use i_bot_core_api_service.Assessments.Repository.{assessment_by_id}
use i_bot_core_api_service.Candidates.Repository.{Texts, candidate_by_id}
use i_bot_core_api_service.Notifications.Log.{sent_row, failed_row, create_log}
use i_bot_core_api_service.Notifications.Task.{
  MailTask, Attempt, Post, TaskOutcome, completed, retry_in, failed_permanently, type_of, recipient,
  has_context, has_report_context, max_retries, try_record, send, log_failure, run_attempt,
  task_event, countdown, conclude_attempt,
}

-- An attempt mails, and it delivers if its log is stored too.
abbrev pub mails : Bool → Attempt → Bool
mails context a = context && a.email_accepted

abbrev pub delivers : Bool → Attempt → Bool
delivers context a = mails context a && a.log_stored

abbrev pub mailed : Bool → MailTask → List MailTask
mailed sends task = if sends then task ∷ [] else []

try_record_lem :
    (stored : Bool) (event : EventLog) (p : Post)
    → (events : List EventLog) × (try_record stored event p
        ≡ (ok tt, record p { db = record p.db { event_logs = events } }))
unfolding try_record ◌>>=◌
try_record_lem true event p = (p.db.event_logs ++ event ∷ [], refl)
try_record_lem false event p = (p.db.event_logs, refl)

module _ (texts : Texts) (task : MailTask) where
  abbrev pub failure_log : Attempt → Error → List NotificationLog
  failure_log a e =
      if a.failure_log_stored
      then failed_row task.candidate_assessment_id (type_of task.kind) task.recipient_email
          (a.describe e)
        ∷ []
      else []

  -- The error of an attempt that does not deliver.
  abbrev pub error_of : Bool → Attempt → Error
  error_of context a =
      if context
      then (if a.email_accepted then log_not_stored else email_not_accepted)
      else report_context_not_found

  abbrev pub sent_log : NotificationLog
  sent_log = sent_row task.candidate_assessment_id (type_of task.kind) (recipient texts task)

  abbrev pub verdict : Bool → Attempt → Result (Unit {0})
  verdict context a = if delivers context a then ok tt else err (error_of context a)

  abbrev pub sent_logs : Bool → Attempt → List NotificationLog
  sent_logs context a = if delivers context a then sent_log ∷ [] else []

  send_lem :
      (context : Bool) (a : Attempt) (p : Post)
      → has_context p.db task ≡ context
      → send texts task a p ≡ (
        verdict context a,
        record {
          db = record p.db { notification_logs = p.db.notification_logs ++ sent_logs context a };
          sent = p.sent ++ mailed (mails context a) task;
        },
      )
  unfolding send create_log ◌>>=◌
  send_lem false a p e = rw (e, append_nil p.db.notification_logs, append_nil p.sent) refl
  send_lem true a p e = elim (Bool-cases a.email_accepted) [
    | inr f ↦ rw (e, f, append_nil p.db.notification_logs, append_nil p.sent) refl
    | inl f ↦ elim (Bool-cases a.log_stored) [
      | inr g ↦ rw (e, f, g, append_nil p.db.notification_logs) refl
      | inl g ↦ rw (e, f, g) refl
    ]
  ]

  log_failure_lem :
      (a : Attempt) (e : Error) (p : Post)
      → log_failure texts task a e p ≡ (
        ok tt,
        record p {
          db = record p.db { notification_logs = p.db.notification_logs ++ failure_log a e };
        },
      )
  unfolding log_failure create_log modify raise
  log_failure_lem a e p = elim (Bool-cases a.failure_log_stored) [
    | inl f ↦ rw f refl
    | inr f ↦ rw (f, append_nil p.db.notification_logs) refl
  ]

  abbrev pub concluded_logs : ℕ → Attempt → Result (Unit {0}) → List NotificationLog
  concluded_logs retries a (ok _) = []
  concluded_logs retries a (err e) = if ltb retries max_retries then [] else failure_log a e

  abbrev pub concluded : ℕ → Result (Unit {0}) → TaskOutcome
  concluded retries (ok _) = completed
  concluded retries (err e) =
      if ltb retries max_retries
      then retry_in (countdown texts task retries)
      else failed_permanently e

  -- A run's end changes the events, and the log if the task fails permanently.
  conclude_attempt_lem :
      (retries : ℕ) (a : Attempt) (r : Result (Unit {0})) (p : Post)
      → (events : List EventLog) × (conclude_attempt texts task retries a r p ≡ (
        ok (concluded retries r),
        record p {
          db = record p.db {
            event_logs = events;
            notification_logs = p.db.notification_logs ++ concluded_logs retries a r;
          };
        },
      ))
  unfolding ◌>>=◌
  conclude_attempt_lem retries a (ok _) p =
      let (events, ended) =
        try_record_lem a.end_stored (task_event task retries EventName.celery_task_completed [])
          p in
      (events, rw (ended, append_nil p.db.notification_logs) refl)
  conclude_attempt_lem retries a (err e) p = elim (Bool-cases (ltb retries max_retries)) [
    | inl more ↦
        let (events, ended) =
          try_record_lem a.end_stored
            (task_event task retries EventName.celery_task_retrying
              (("retry_in_seconds", count (countdown texts task retries)) ∷ []))
            p in
        (events, rw (more, ended, append_nil p.db.notification_logs) refl)
    | inr over ↦
        let (events, ended) =
          try_record_lem a.end_stored (task_event task retries EventName.celery_task_failed []) p in
        (
          events,
          rw
              (
                over,
                ended,
                log_failure_lem a e (record p { db = record p.db { event_logs = events } }),
              )
              refl,
        )
  ]

  -- The rows that an attempt adds to the log.
  abbrev pub attempt_logs : Bool → ℕ → Attempt → List NotificationLog
  attempt_logs context retries a =
      sent_logs context a ++ concluded_logs retries a (verdict context a)

  has_context-logs :
      (db : Db) (events : List EventLog) (logs : List NotificationLog)
      → has_context (record db { event_logs = events; notification_logs = logs }) task
        ≡ has_context db task
  unfolding has_context has_report_context enrollment_by_id assessment_by_id candidate_by_id
  has_context-logs db events logs = refl

  run_attempt_steps :
      (retries : ℕ) (a : Attempt) (r : Result (Unit {0})) (o : TaskOutcome) (p p1 p2 p3 : Post)
      → try_record a.start_stored (task_event task retries EventName.celery_task_started []) p
        ≡ (ok tt, p1)
      → send texts task a p1 ≡ (r, p2)
      → conclude_attempt texts task retries a r p2 ≡ (ok o, p3)
      → run_attempt texts task retries a p ≡ (ok o, p3)
  unfolding run_attempt ◌>>=◌
  run_attempt_steps retries a r o p p1 p2 p3 started sent ended = rw (started, sent, ended) refl

  -- One run: its outcome, its e-mail and its log, by what it meets.
  pub run_attempt_lem :
      (context : Bool) (retries : ℕ) (a : Attempt) (p : Post)
      → has_context p.db task ≡ context
      → (p' : Post) × (run_attempt texts task retries a p
          ≡ (ok (concluded retries (verdict context a)), p'))
        × (p'.db.notification_logs ≡ p.db.notification_logs ++ attempt_logs context retries a)
        × (p'.sent ≡ p.sent ++ mailed (mails context a) task)
        × (has_context p'.db task ≡ context)
  run_attempt_lem context retries a p same =
      let (events, started) =
        try_record_lem a.start_stored (task_event task retries EventName.celery_task_started [])
          p in
      let p1 : Post = record p { db = record p.db { event_logs = events } } in
      let p2 : Post = record {
        db = record p1.db { notification_logs = p.db.notification_logs ++ sent_logs context a };
        sent = p.sent ++ mailed (mails context a) task;
      } in
      let (events', ended) = conclude_attempt_lem retries a (verdict context a) p2 in
      (
        _,
        run_attempt_steps retries a (verdict context a) (concluded retries (verdict context a)) p p1
            p2 _ started
            (send_lem context a p1 (has_context-logs p.db events p.db.notification_logs ∙ same))
            ended,
        append_assoc p.db.notification_logs (sent_logs context a)
            (concluded_logs retries a (verdict context a)),
        refl,
        has_context-logs p.db _ _ ∙ same,
      )
