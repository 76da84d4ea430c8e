-- ===== src/Accounts/Repository.antt =====
-- src/data/repositories/auth_repository.py.
use i_bot_core_api_service.Prelude.{
  String, Bool, true, false, not, ◌&&◌, Option, none, some, ◌∷◌, ◌==◌, nat_eq, string_eq,
}
use i_bot_core_api_service.Db.{
  Db, Uuid, Time, Recruiter, RecruiterToken, Exec, gets, pure, modify, find, update_where, ◌>>=◌,
  ◌>>◌,
}
use i_bot_core_api_service.Repositories.Env.{Env}

abbrev pub has_email : String → Recruiter → Bool
has_email email r = r.email == email

abbrev pub has_hash : String → RecruiterToken → Bool
has_hash token_hash t = t.token_hash == token_hash

abbrev pub is_open_token_of : Uuid → RecruiterToken → Bool
is_open_token_of recruiter_id t = t.recruiter_id == recruiter_id && not t.is_revoked

unfoldable pub get_recruiter_by_email : String → Exec Db (Option Recruiter)
get_recruiter_by_email email = gets λ db. find (has_email email) db.recruiters

unfoldable pub get_recruiter_by_id : Uuid → Exec Db (Option Recruiter)
get_recruiter_by_id recruiter_id = gets λ db. find (λ r. r.id == recruiter_id) db.recruiters

unfoldable pub create_recruiter : Env → String → String → String → String → Exec Db Recruiter
create_recruiter env full_name email hashed_password company_name = do
  let recruiter : Recruiter = record {
    id = env.fresh_id;
    full_name = full_name;
    email = email;
    hashed_password = hashed_password;
    company_name = company_name;
    is_active = true;
  }
  modify λ db. record db { recruiters = recruiter ∷ db.recruiters }
  pure recruiter

abbrev pub new_token : Uuid → String → Time → Option String → Option String → RecruiterToken
new_token recruiter_id token_hash expires_at user_agent ip_address = record {
  recruiter_id = recruiter_id;
  token_hash = token_hash;
  expires_at = expires_at;
  is_revoked = false;
  user_agent = user_agent;
  ip_address = ip_address;
}

unfoldable pub create_refresh_token : RecruiterToken → Exec Db Unit
create_refresh_token token =
    modify λ db. record db { recruiter_tokens = token ∷ db.recruiter_tokens }

unfoldable pub get_refresh_token_by_hash : String → Exec Db (Option RecruiterToken)
get_refresh_token_by_hash token_hash = gets λ db. find (has_hash token_hash) db.recruiter_tokens

abbrev pub revoked : RecruiterToken → RecruiterToken
revoked t = record t { is_revoked = true }

-- `result.rowcount > 0`
abbrev pub any_row : {A : Type 0} → Option A → Bool
any_row none = false
any_row (some _) = true

unfoldable pub revoke_refresh_token : String → Exec Db Bool
revoke_refresh_token token_hash = do
  matched ← gets (λ db. any_row (find (has_hash token_hash) db.recruiter_tokens))
  modify λ db. record db {
    recruiter_tokens = update_where (has_hash token_hash) revoked db.recruiter_tokens;
  }
  pure matched

unfoldable pub revoke_all_recruiter_tokens : Uuid → Exec Db Unit
revoke_all_recruiter_tokens recruiter_id = modify λ db. record db {
  recruiter_tokens = update_where (is_open_token_of recruiter_id) revoked db.recruiter_tokens;
}

unfoldable pub update_password : String → String → Exec Db Bool
update_password email hashed_password = do
  matched ← gets (λ db. any_row (find (has_email email) db.recruiters))
  modify λ db. record db {
    recruiters =
        update_where (has_email email) (λ r. record r { hashed_password = hashed_password })
          db.recruiters;
  }
  pure matched
