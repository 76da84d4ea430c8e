-- ===== src/Notifications/Decision.antt =====
-- The e-mail of a decision and its log, on every branch.
use i_bot_core_api_service.Prelude.{
  ◌≡◌, refl, Bool-cases, List, [], ◌∷◌, ◌++◌, append_nil, if◌then◌else◌, inl, inr,
}
use i_bot_core_api_service.Db.{
  Db, NotificationLog, Error, ok, email_not_accepted, log_not_stored, ◌>>=◌,
}
use i_bot_core_api_service.Office.{DecisionEmail}
use i_bot_core_api_service.Notifications.Log.{
  Dispatch, sent_row, failed_row, decision_type, create_log, dispatch_decision_with_logging,
}

abbrev pub decision_logs : Dispatch → DecisionEmail → List NotificationLog
decision_logs d e =
    let failed : Error → List NotificationLog = λ error.
      if d.failure_log_stored
      then failed_row e.ca_record_id (decision_type e.decision) e.recipient_email (d.describe error)
        ∷ []
      else [] in
    if d.email_accepted
    then (if d.log_stored
        then sent_row e.ca_record_id (decision_type e.decision) e.recipient_email ∷ []
        else failed log_not_stored)
    else failed email_not_accepted

-- The e-mail of a decision never fails its task. The log has one row more: of an e-mail sent, if the
-- client accepts the e-mail and that row is stored; else of a failure (also of an e-mail sent whose
-- row was not stored), unless this row is not stored either.
pub dispatch-logs :
    (d : Dispatch) (e : DecisionEmail) (db : Db)
    → dispatch_decision_with_logging d e db
      ≡ (ok tt, record db { notification_logs = db.notification_logs ++ decision_logs d e })
unfolding dispatch_decision_with_logging create_log ◌>>=◌
dispatch-logs d e db = elim (Bool-cases d.failure_log_stored) [
  | inl f ↦ elim (Bool-cases d.email_accepted) [
    | inr g ↦ rw (f, g) refl
    | inl g ↦ elim (Bool-cases d.log_stored) [
      | inl h ↦ rw (f, g, h) refl
      | inr h ↦ rw (f, g, h) refl
    ]
  ]
  | inr f ↦ elim (Bool-cases d.email_accepted) [
    | inr g ↦ rw (f, g, append_nil db.notification_logs) refl
    | inl g ↦ elim (Bool-cases d.log_stored) [
      | inl h ↦ rw (f, g, h) refl
      | inr h ↦ rw (f, g, h, append_nil db.notification_logs) refl
    ]
  ]
]
