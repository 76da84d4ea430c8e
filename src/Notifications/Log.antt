-- ===== src/Notifications/Log.antt =====
-- `NotificationLogRepository` of src/data/repositories/notification_log_repository.py, and the
-- e-mail of a decision, `dispatch_decision_with_logging` of src/core/services/candidate_service.py.
use i_bot_core_api_service.Prelude.{
  String, Bool, true, false, none, some, [], ◌∷◌, ◌++◌, if◌then◌else◌,
}
use i_bot_core_api_service.Db.{
  Db, Uuid, Decision, NotificationLog, NotificationType, Error, Result, ok, err, email_not_accepted,
  log_not_stored, Exec, pure, raise, modify, ◌>>◌,
}
use i_bot_core_api_service.Office.{DecisionEmail}

abbrev pub sent_row : Uuid → NotificationType → String → NotificationLog
sent_row id kind recipient = record {
  candidate_assessment_id = id;
  notification_type = kind;
  recipient_email = recipient;
  was_sent = true;
  error_message = none;
}

abbrev pub failed_row : Uuid → NotificationType → String → String → NotificationLog
failed_row id kind recipient message = record {
  candidate_assessment_id = id;
  notification_type = kind;
  recipient_email = recipient;
  was_sent = false;
  error_message = some message;
}

-- `create` in a transaction of its own, which commits if `stored`.
unfoldable pub create_log : Bool → NotificationLog → Exec Db Unit
create_log stored row =
    if stored
    then modify (λ db. record db { notification_logs = db.notification_logs ++ row ∷ [] })
    else raise log_not_stored

abbrev pub log_invitation_sent : Bool → Uuid → String → Exec Db Unit
log_invitation_sent stored id recipient =
    create_log stored (sent_row id NotificationType.invitation recipient)

abbrev pub log_invitation_failed : Bool → Uuid → String → String → Exec Db Unit
log_invitation_failed stored id recipient message =
    create_log stored (failed_row id NotificationType.invitation recipient message)

abbrev pub decision_type : Decision → NotificationType
decision_type Decision.approved = NotificationType.approval
decision_type _ = NotificationType.rejection

-- What one dispatch meets: whether the client accepts the e-mail, whether each transaction commits,
-- and the text of an exception.
pub record Dispatch : Type 0 where
  pub email_accepted : Bool
  pub log_stored : Bool
  pub failure_log_stored : Bool
  pub describe : Error → String

abbrev pub log_decision_sent : Dispatch → DecisionEmail → Exec Db Unit
log_decision_sent d e =
    create_log d.log_stored (sent_row e.ca_record_id (decision_type e.decision) e.recipient_email)

abbrev pub log_decision_failed : Dispatch → DecisionEmail → Error → Exec Db Unit
log_decision_failed d e error =
    create_log d.failure_log_stored
      (failed_row e.ca_record_id (decision_type e.decision) e.recipient_email (d.describe error))

abbrev pub send_decision_email : Dispatch → Exec Db Unit
send_decision_email d = if d.email_accepted then pure tt else raise email_not_accepted

-- `except Exception: pass`
abbrev pub ignore : Exec Db Unit → Exec Db Unit
ignore m db = let (r, db') = m db in (ok tt, db')

abbrev pub handle : Dispatch → DecisionEmail → Result (Unit {0}) → Exec Db Unit
handle d e (ok _) db = (ok tt, db)
handle d e (err error) db = ignore (log_decision_failed d e error) db

unfoldable pub dispatch_decision_with_logging : Dispatch → DecisionEmail → Exec Db Unit
dispatch_decision_with_logging d e db =
    let (r, db') = (do send_decision_email d; log_decision_sent d e) db in handle d e r db'
