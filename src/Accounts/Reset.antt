-- ===== src/Accounts/Reset.antt =====
-- The forgotten password: `initiate_password_reset`, `verify_otp` and `resend_otp` of
-- `AuthService`.
use Prim.Native.String as Text
use i_bot_core_api_service.Prelude.{
  ℕ, String, not, Option, none, some, List, [], ◌∷◌, ◌++◌, ◌==◌, string_eq, if◌then◌else◌,
}
use i_bot_core_api_service.Db.{
  Db, Recruiter, EventName, EventSource, text, Exec, password_reset_unavailable, account_not_found,
  inactive_account_operation, otp_expired, invalid_otp, recruiter_not_found, otp_still_active,
  email_not_accepted, raise, pure, gets, modify, ◌>>=◌, ◌>>◌,
}
use i_bot_core_api_service.Accounts.Security.{Security, Draws, OtpData, Redis}
use i_bot_core_api_service.Accounts.Repository.{
  get_recruiter_by_email, update_password, revoke_all_recruiter_tokens,
}

-- The database, Redis and the e-mails that went out: the recipient and the code.
pub record World (C : Type 0) : Type 0 where
  pub db : Db
  pub cache : C
  pub emails : List (String × String)

module _ {C : Type 0} where
  -- A repository's operation, in the request's session.
  unfoldable pub on_db : {A : Type 0} → Exec Db A → Exec (World C) A
  on_db m w = let (r, db) = m w.db in (r, record w { db = db })

-- `f"otp:{normalized_email}"`
abbrev pub otp_key : String → String
otp_key email = Text.◌++◌ "otp:" email

-- OTP_TTL_SECONDS
abbrev pub otp_ttl_seconds : ℕ
otp_ttl_seconds = 60

-- `if self._redis is None: raise ...`
abbrev pub with_redis :
    {C A : Type 0} → Option (Redis C) → (Redis C → Exec (World C) A) → Exec (World C) A
with_redis none f = raise password_reset_unavailable
with_redis (some redis) f = f redis

module _ {C : Type 0} (redis : Redis C) (security : Security) (draws : Draws) where
  unfoldable pub send_otp_email : String → String → Exec (World C) Unit
  send_otp_email recipient otp =
      if draws.email_accepted
      then modify (λ w. record w { emails = w.emails ++ (recipient, otp) ∷ [] })
      else raise email_not_accepted

  -- The code of both `initiate_password_reset` and `resend_otp` from the account on.
  abbrev pub start_reset : String → String → Option Recruiter → Exec (World C) Unit
  start_reset email new_password none = raise account_not_found
  start_reset email new_password (some r) =
      if not r.is_active then raise inactive_account_operation else (do
        modify (λ w. record w {
          cache =
              redis.set (draws.env.utc_now 0) otp_ttl_seconds (otp_key email)
                (record {
                  otp = draws.otp;
                  new_password_hash = security.hash_password draws.salt new_password;
                })
                w.cache;
        })
        send_otp_email email draws.otp)

  -- `try_record_event_in_background`, in a transaction of its own whose failure is only logged.
  unfoldable pub try_record_reset : Recruiter → String → Exec (World C) Unit
  try_record_reset r email =
      if draws.event_stored
      then modify (λ w. record w {
        db = record w.db {
          event_logs =
              w.db.event_logs
              ++ record {
                event_name = EventName.password_reseted;
                source_service = EventSource.core_api;
                correlation_id = r.id;
                candidate_assessment_id = none;
                recruiter_id = some r.id;
                details = ("email", text email) ∷ [];
              }
                ∷ [];
        };
      })
      else pure tt

  abbrev pub close_sessions : String → Option Recruiter → Exec (World C) Unit
  close_sessions email none = pure tt
  close_sessions email (some r) = do
    on_db (revoke_all_recruiter_tokens r.id)
    try_record_reset r email

  abbrev pub verify_record : String → String → Option OtpData → Exec (World C) Unit
  verify_record email otp none = raise otp_expired
  verify_record email otp (some data_) = if not (data_.otp == otp) then raise invalid_otp else (do
    updated ← on_db (update_password email data_.new_password_hash)
    if not updated then raise recruiter_not_found else (do
      modify (λ w. record w { cache = redis.delete (otp_key email) w.cache })
      recruiter ← on_db (get_recruiter_by_email email)
      close_sessions email recruiter))

  abbrev pub resend_absent : String → String → Option OtpData → Exec (World C) Unit
  resend_absent email new_password (some _) = raise otp_still_active
  resend_absent email new_password none = do
    recruiter ← on_db (get_recruiter_by_email email)
    start_reset email new_password recruiter

module _ {C : Type 0} (client : Option (Redis C)) (security : Security) (draws : Draws) where
  unfoldable pub initiate_password_reset : String → String → Exec (World C) Unit
  initiate_password_reset email new_password = with_redis client λ redis. do
    recruiter ← on_db (get_recruiter_by_email (security.lower email))
    start_reset redis security draws (security.lower email) new_password recruiter

  unfoldable pub verify_otp : String → String → Exec (World C) Unit
  verify_otp email otp = with_redis client λ redis. do
    stored ← gets (λ w. redis.get (draws.env.utc_now 0) (otp_key (security.lower email)) w.cache)
    verify_record redis security draws (security.lower email) otp stored

  unfoldable pub resend_otp : String → String → Exec (World C) Unit
  resend_otp email new_password = with_redis client λ redis. do
    existing ← gets (λ w. redis.get (draws.env.utc_now 0) (otp_key (security.lower email)) w.cache)
    resend_absent redis security draws (security.lower email) new_password existing
