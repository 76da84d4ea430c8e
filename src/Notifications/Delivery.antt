-- ===== src/Notifications/Delivery.antt =====
-- What becomes of an e-mail: the outcome, the log and the number of e-mails, for every course of the
-- attempts.
use mathlib.Core.Path.{subst}
use i_bot_core_api_service.Prelude.{
  ◌≡◌, refl, ap, ◌∙◌, ℕ, zero, suc, ◌+◌, ◌<◌, ltb, Bool, true, Option, none, some, List, [], ◌∷◌,
  ◌++◌, append_nil, append_assoc, nat_eq, if◌then◌else◌, Bool-cases, inl, inr, arith,
}
use i_bot_core_api_service.Db.{NotificationLog, Error, Result, ok, err}
use i_bot_core_api_service.Candidates.Repository.{Texts}
use i_bot_core_api_service.Notifications.Task.{
  MailTask, Attempt, Post, TaskOutcome, completed, retry_in, failed_permanently, has_context,
  max_retries, run_attempt, deliver, countdown,
}
use i_bot_core_api_service.Notifications.Attempt.{
  mails, delivers, mailed, failure_log, error_of, sent_log, run_attempt_lem,
}

module _ (texts : Texts) (task : MailTask) (context : Bool) (attempts : ℕ → Attempt) where
  -- The first of `n` attempts from the `k`-th on that delivers.
  abbrev pub first_delivery : ℕ → ℕ → Option ℕ
  first_delivery zero k = none
  first_delivery (suc n) k =
      let rest = first_delivery n (suc k) in if delivers context (attempts k) then some k else rest

  -- The e-mails of the attempts up to the first that delivers.
  abbrev pub mailings : ℕ → ℕ → List MailTask
  mailings zero k = []
  mailings (suc n) k =
      let rest = mailings n (suc k) in
      mailed (mails context (attempts k)) task
      ++ (if delivers context (attempts k) then [] else rest)

  abbrev pub last_error : Error
  last_error = error_of texts task context (attempts max_retries)

  -- How the task ends: completed by its first delivery, else failed for good by the last attempt.
  abbrev pub ending : Option ℕ → TaskOutcome
  ending (some k) = completed
  ending none = failed_permanently last_error

  abbrev pub ending_logs : Option ℕ → List NotificationLog
  ending_logs (some k) = sent_log texts task ∷ []
  ending_logs none = failure_log texts task (attempts max_retries) last_error

  -- The attempts from `k` on, of which there are `n`, end the task as they should.
  abbrev Delivers : ℕ → ℕ → Post → Type 0
  Delivers n k p =
      (p' : Post) × (deliver texts task n k attempts p ≡ (some (ending (first_delivery n k)), p'))
      × (p'.db.notification_logs ≡ p.db.notification_logs ++ ending_logs (first_delivery n k))
      × (p'.sent ≡ p.sent ++ mailings n k)

  abbrev after : ℕ → ℕ → Result TaskOutcome × Post → Option TaskOutcome × Post
  after n k rp = elim rp.0 [
    | ok (retry_in seconds) ↦ deliver texts task n (suc k) attempts rp.1
    | ok o ↦ (some o, rp.1)
    | err e ↦ (none, rp.1)
  ]

  deliver_run :
      (n k : ℕ) (o : TaskOutcome) (p p' : Post)
      → run_attempt texts task k (attempts k) p ≡ (ok o, p')
      → deliver texts task (suc n) k attempts p ≡ after n k (ok o, p')
  unfolding deliver
  deliver_run n k o p p' ran = ap (λ rp. after n k rp) ran

  deliver_last : (p : Post) → has_context p.db task ≡ context → Delivers 1 max_retries p
  deliver_last p same =
      let (p', ran, logged, posted, kept) =
        run_attempt_lem texts task context max_retries (attempts max_retries) p same in
      elim (Bool-cases (delivers context (attempts max_retries))) [
        | inl e ↦ (
          p',
          deliver_run 0 max_retries _ p p' ran ∙ rw e refl,
          rw (logged, e) refl,
          rw (posted, e, append_nil (mailed (mails context (attempts max_retries)) task)) refl,
        )
        | inr e ↦ (
          p',
          deliver_run 0 max_retries _ p p' ran ∙ rw e refl,
          rw (logged, e) refl,
          rw (posted, e, append_nil (mailed (mails context (attempts max_retries)) task)) refl,
        )
      ]

  can_retry : (k m : ℕ) → k < m → ltb k m ≡ true
  can_retry k m lt = ground arith

  deliver_step :
      (n k : ℕ) (p : Post)
      → ltb k max_retries ≡ true
      → has_context p.db task ≡ context
      → ((q : Post) → has_context q.db task ≡ context → Delivers n (suc k) q)
      → Delivers (suc n) k p
  deliver_step n k p more same later =
      let (p', ran, logged, posted, kept) =
        run_attempt_lem texts task context k (attempts k) p same in
      let mail : List MailTask = mailed (mails context (attempts k)) task in
      elim (Bool-cases (delivers context (attempts k))) [
        | inl e ↦ (
          p',
          deliver_run n k _ p p' ran ∙ rw e refl,
          rw (logged, e) refl,
          rw (posted, e, append_nil mail) refl,
        )
        | inr e ↦
            let (q, went, logged', posted') = later p' kept in
            let logged_nothing : p'.db.notification_logs ≡ p.db.notification_logs =
              logged ∙ rw (e, more) (append_nil p.db.notification_logs) in
            (
              q,
              deliver_run n k (retry_in (countdown texts task k)) p p' (ran ∙ rw (e, more) refl)
                  ∙ went
                  ∙ rw e refl,
              logged' ∙ rw (e, logged_nothing) refl,
              posted' ∙ rw (e, posted) (append_assoc p.sent mail (mailings n (suc k))),
            )
      ]

  deliver_lem :
      (n k : ℕ) (p : Post)
      → k + n ≡ max_retries
      → has_context p.db task ≡ context
      → Delivers (suc n) k p
  deliver_lem zero k p sum same =
      subst (λ i. Delivers 1 i p) (omega (arith, sum)) (deliver_last p same)
  deliver_lem (suc n) k p sum same =
      deliver_step (suc n) k p (can_retry k max_retries (omega (arith, sum))) same
        (λ q e. deliver_lem n (suc k) q (omega (arith, sum)) e)

module _ (texts : Texts) (task : MailTask) where
  pub deliver-ends :
      (attempts : ℕ → Attempt) (p : Post)
      → let context = has_context p.db task in
        let first = first_delivery texts task context attempts (suc max_retries) 0 in
        (p' : Post) × (deliver texts task (suc max_retries) 0 attempts p
          ≡ (some (ending texts task context attempts first), p'))
        × (p'.db.notification_logs
            ≡ p.db.notification_logs ++ ending_logs texts task context attempts first)
        × (p'.sent ≡ p.sent ++ mailings texts task context attempts (suc max_retries) 0)
  deliver-ends attempts p =
      deliver_lem texts task (has_context p.db task) attempts max_retries 0 p refl refl

  abbrev mails_once : Option ℕ → List MailTask
  mails_once none = []
  mails_once (some k) = task ∷ []

  mailings_logged :
      (context : Bool) (attempts : ℕ → Attempt) (n k : ℕ)
      → ((i : ℕ) → (attempts i).log_stored ≡ true)
      → mailings texts task context attempts n k
        ≡ mails_once (first_delivery texts task context attempts n k)
  mailings_logged context attempts zero k logged = refl
  mailings_logged context attempts (suc n) k logged =
      elim (Bool-cases (mails context (attempts k))) [
        | inl e ↦ rw (logged k, e) refl
        | inr e ↦ rw (logged k, e) (mailings_logged context attempts n (suc k) logged)
      ]

  -- An e-mail is sent again only if its log was not stored: if every run whose e-mail is accepted
  -- stores the log, a completed task has sent its e-mail once, and a failed task never.
  pub deliver-once :
      (attempts : ℕ → Attempt) (p : Post)
      → ((i : ℕ) → (attempts i).log_stored ≡ true)
      → (deliver texts task (suc max_retries) 0 attempts p).1.sent
        ≡ p.sent
          ++ mails_once
              (first_delivery texts task (has_context p.db task) attempts (suc max_retries) 0)
  deliver-once attempts p logged =
      let (p', went, logs, posted) = deliver-ends attempts p in
      ap (λ r. r.1.sent) went
      ∙ posted
      ∙ ap (λ ms. p.sent ++ ms)
          (mailings_logged (has_context p.db task) attempts (suc max_retries) 0 logged)
