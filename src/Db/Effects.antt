-- ===== src/Db/Effects.antt =====
-- Coroutines that change the state and may raise, and `async_session_scope` of
-- src/data/clients/postgres_client.py.
use i_bot_core_api_service.Prelude.{ℕ, String, ◌≡◌, refl, ◌⊎◌, inl, inr, Option, none, some}

-- The exceptions of src/core/exceptions that the modelled operations raise; `no_result_found` is
-- SQLAlchemy's, from `scalar_one`, and `attribute_error` and `value_error` stand for what Python
-- raises on a JSON value of the wrong shape; `email_not_accepted` stands for what the e-mail client
-- raises, and `resume_not_stored` for what a write to the disk does and `log_not_stored` for what a commit does. `csv_validation` is
-- `CsvValidationException` with one of its fixed messages; `window_overlap` is the same exception with
-- the title and the id of an assessment in its message.
pub data Error : Type 0 where
  no_result_found attribute_error value_error : Error
  invalid_invitation invalid_session_token session_expired session_closed : Error
  reconnect_timeout session_bootstrap_failed interview_connection_failed : Error
  session_token_expiry_missing forbidden invalid_session_append : Error
  interview_context_not_found interview_configuration : Error
  email_already_registered invalid_credentials inactive_account invalid_refresh_token : Error
  expired_refresh_token inactive_or_missing_recruiter recruiter_not_found account_not_found : Error
  password_reset_unavailable otp_expired invalid_otp otp_still_active : Error
  inactive_account_operation email_not_accepted : Error
  assessment_not_found assessment_access_denied assessment_validation : Error
  candidate_not_found candidate_registration_not_found candidate_access_denied : Error
  duplicate_enrollment resume_not_stored csv_validation : Error
  log_not_stored report_context_not_found : Error
  window_overlap : String → ℕ → Error

pub data Result {ℓ} (A : Type ℓ) : Type ℓ where
  ok : A → Result A
  err : Error → Result A

pub Result-cases {ℓ} :
    {A : Type ℓ} (r : Result A) → ((a : A) × (r ≡ ok a)) ⊎ ((e : Error) × (r ≡ err e))
Result-cases (ok a) = inl (a, refl)
Result-cases (err e) = inr (e, refl)

abbrev pub Exec {ℓ} : Type ℓ → Type ℓ → Type ℓ
Exec S A = S → Result A × S

module _ {ℓ} {S A : Type ℓ} where
  unfoldable pub pure : A → Exec S A
  pure a s = (ok a, s)

  unfoldable pub raise : Error → Exec S A
  raise e s = (err e, s)

  unfoldable pub gets : (S → A) → Exec S A
  gets f s = (ok (f s), s)

  -- `scalar_one()` of a query's result.
  unfoldable pub scalar_one : Option A → Exec S A
  scalar_one none = raise no_result_found
  scalar_one (some a) = pure a

  -- A pure function that may raise.
  unfoldable pub lift : Result A → Exec S A
  lift r s = (r, s)

  abbrev pub commit_or_rollback : S → Result A → S → Result A × S
  commit_or_rollback before (ok a) after = (ok a, after)
  commit_or_rollback before (err e) after = (err e, before)

  -- The transaction: an exception inside the block rolls everything back and goes on.
  unfoldable pub session_scope : Exec S A → Exec S A
  session_scope block s = let (r, s') = block s in commit_or_rollback s r s'

unfoldable pub modify : {S : Type 0} → (S → S) → Exec S Unit
modify f s = (ok tt, f s)

module _ {ℓ} {S A B : Type ℓ} where
  abbrev pub continue : Result A → (A → Exec S B) → Exec S B
  continue (ok a) f s = f a s
  continue (err e) f s = (err e, s)

  infixl 5 ◌>>=◌ ◌>>◌
  -- Opening this opens the other actions too.
  unfoldable pub ◌>>=◌ : Exec S A → (A → Exec S B) → Exec S B
  unfolding pure raise gets scalar_one lift modify session_scope
  ◌>>=◌ m f s = let (r, s') = m s in continue r f s'

  abbrev pub ◌>>◌ : Exec S A → Exec S B → Exec S B
  m >> k = m >>= λ _. k
