-- ===== src/Tests/Notifications.antt =====
-- E-mails, their retries and their logs at concrete inputs.
use i_bot_core_api_service.Prelude.{
  ℕ, suc, ◌≡◌, refl, Bool, true, false, not, [], ◌∷◌, ◌==◌, nat_eq,
}
use i_bot_core_api_service.Db.{EnrollmentStatus, find}
use i_bot_core_api_service.Repositories.Statements.{enrollment_by_id}
use i_bot_core_api_service.Candidates.Repository.{Texts}
use i_bot_core_api_service.Notifications.Task.{
  MailTask, Attempt, Post, invitation_mail, report_ready_mail, max_retries, has_context,
  has_report_context, deliver,
}
use i_bot_core_api_service.Notifications.Delivery.{mailings, deliver-once}
use i_bot_core_api_service.Tests.Data.{new_interview, database}

abbrev texts : Texts
texts = record { lower = λ s. s; strip = λ s. s }

abbrev invitation : MailTask
invitation = record {
  kind = invitation_mail;
  candidate_assessment_id = 4;
  recipient_email = "c@example.com";
  task_id = 50;
}

abbrev report : MailTask
report = record invitation { kind = report_ready_mail; candidate_assessment_id = 1000 }

abbrev attempt : Bool → Bool → Attempt
attempt accepted stored = record {
  email_accepted = accepted;
  log_stored = stored;
  failure_log_stored = true;
  start_stored = true;
  end_stored = true;
  describe = λ e. "error";
}

-- The client refuses the first e-mail, and the log of the second is not stored.
abbrev stumbling : ℕ → Attempt
stumbling k = attempt (not (k == 0)) (not (k == 1))

abbrev post : Post
post = record { db = database EnrollmentStatus.invited new_interview; sent = [] }

-- The candidate is sent the e-mail twice.
mailed_twice : mailings texts invitation true stumbling 4 0 ≡ invitation ∷ invitation ∷ []
mailed_twice = refl

report_without_context : has_context post.db report ≡ false
unfolding has_context has_report_context enrollment_by_id find
report_without_context = refl

-- The client refuses every e-mail but the third.
abbrev third_time : ℕ → Attempt
third_time k = attempt (k == 2) true

deliver-once_example :
    (deliver texts invitation (suc max_retries) 0 third_time post).1.sent ≡ invitation ∷ []
unfolding has_context
deliver-once_example = deliver-once texts invitation third_time post (λ k. refl)
