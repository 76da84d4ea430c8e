-- ===== src/Accounts/Login.antt =====
-- `register_recruiter`, `login`, `refresh_token`, `logout` and `get_recruiter` of `AuthService`.
use i_bot_core_api_service.Prelude.{
  ℕ, ◌+◌, ◌*◌, String, not, Option, none, some, ltb, if◌then◌else◌,
}
use i_bot_core_api_service.Db.{
  Db, Uuid, Time, Recruiter, RecruiterToken, Exec, email_already_registered, invalid_credentials,
  inactive_account, invalid_refresh_token, expired_refresh_token, inactive_or_missing_recruiter,
  recruiter_not_found, raise, pure, ◌>>=◌, ◌>>◌,
}
use i_bot_core_api_service.Repositories.Env.{minutes}
use i_bot_core_api_service.Accounts.Security.{Security, Draws}
use i_bot_core_api_service.Accounts.Repository.{
  get_recruiter_by_email, get_recruiter_by_id, create_recruiter, new_token, create_refresh_token,
  get_refresh_token_by_hash, revoke_refresh_token, revoke_all_recruiter_tokens,
}

-- RecruiterRegisterRequest and LoginRequest.
pub record Registration : Type 0 where
  pub full_name : String
  pub email : String
  pub password : String
  pub company_name : String

pub record Credentials : Type 0 where
  pub email : String
  pub password : String

-- TokenResponse; `expires_in` is in seconds.
pub record Tokens : Type 0 where
  pub access_token : String
  pub refresh_token : String
  pub expires_in : ℕ

abbrev pub days : ℕ → Time
days n = n * minutes 1440

module _ (security : Security) (draws : Draws) where
  abbrev register_absent : Registration → String → Option Recruiter → Exec Db Recruiter
  register_absent payload email (some _) = raise email_already_registered
  register_absent payload email none =
      create_recruiter draws.env payload.full_name email
        (security.hash_password draws.salt payload.password) payload.company_name

  unfoldable pub register_recruiter : Registration → Exec Db Recruiter
  register_recruiter payload = do
    existing ← get_recruiter_by_email (security.lower payload.email)
    register_absent payload (security.lower payload.email) existing

  -- The token pair of both `login` and `refresh_token`: `k` readings of the clock came before.
  unfoldable pub issue_tokens : ℕ → Recruiter → Option String → Option String → Exec Db Tokens
  issue_tokens k r user_agent ip_address = do
    create_refresh_token (
        new_token r.id (security.sha256 draws.env.token_urlsafe)
          (draws.env.utc_now (k + 1) + days 7) user_agent ip_address)
    pure (record {
      access_token = security.create_access_token r.id r.email (draws.env.utc_now k + minutes 15);
      refresh_token = draws.env.token_urlsafe;
      expires_in = 15 * 60;
    })

  abbrev pub login_as :
      Credentials → Option String → Option String → Option Recruiter → Exec Db Tokens
  login_as payload user_agent ip_address none = raise invalid_credentials
  login_as payload user_agent ip_address (some r) =
      if not (security.verify_password payload.password r.hashed_password)
      then raise invalid_credentials
      else if not r.is_active
      then raise inactive_account
      else (do revoke_all_recruiter_tokens r.id; issue_tokens 0 r user_agent ip_address)

  unfoldable pub login : Credentials → Option String → Option String → Exec Db Tokens
  login payload user_agent ip_address = do
    recruiter ← get_recruiter_by_email (security.lower payload.email)
    login_as payload user_agent ip_address recruiter

  abbrev pub rotate : String → Option String → Option String → Option Recruiter → Exec Db Tokens
  rotate token_hash user_agent ip_address none = raise inactive_or_missing_recruiter
  rotate token_hash user_agent ip_address (some r) =
      if not r.is_active
      then raise inactive_or_missing_recruiter
      else (do revoke_refresh_token token_hash; issue_tokens 1 r user_agent ip_address)

  abbrev pub refresh_stored :
      String → Option String → Option String → Option RecruiterToken → Exec Db Tokens
  refresh_stored token_hash user_agent ip_address none = raise invalid_refresh_token
  refresh_stored token_hash user_agent ip_address (some t) =
      if t.is_revoked
      then raise invalid_refresh_token
      else if ltb t.expires_at (draws.env.utc_now 0)
      then raise expired_refresh_token
      else (do
        recruiter ← get_recruiter_by_id t.recruiter_id
        rotate token_hash user_agent ip_address recruiter)

  unfoldable pub refresh_token : String → Option String → Option String → Exec Db Tokens
  refresh_token token user_agent ip_address = do
    stored ← get_refresh_token_by_hash (security.sha256 token)
    refresh_stored (security.sha256 token) user_agent ip_address stored

  -- Whether a token was revoked is only logged.
  unfoldable pub logout : String → Exec Db Unit
  logout token = do revoke_refresh_token (security.sha256 token); pure tt

unfoldable pub get_recruiter : Uuid → Exec Db Recruiter
get_recruiter recruiter_id = do
  recruiter ← get_recruiter_by_id recruiter_id
  elim recruiter [ none ↦ raise recruiter_not_found | some r ↦ pure r ]
