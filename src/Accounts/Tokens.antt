-- ===== src/Accounts/Tokens.antt =====
-- The refresh tokens that a login, a refresh and a logout leave usable.
use mathlib.Core.Option
use i_bot_core_api_service.Prelude.{
  ◌+◌, ◌*◌, ◌≡◌, refl, ap, String, true, false, not, Option, some, [], ◌∷◌, filter, ltb, ◌==◌,
  ==_self, nat_eq, string_eq, Option-cases, inl, inr, arith,
}
use i_bot_core_api_service.Db.{
  Db, Recruiter, RecruiterToken, ok, err, invalid_refresh_token, find, filter-update_where,
  filter-updated, find-updated, update_where, ◌>>=◌,
}
use i_bot_core_api_service.Repositories.Env.{minutes}
use i_bot_core_api_service.Accounts.Security.{Security, Draws}
use i_bot_core_api_service.Accounts.Repository.{
  has_email, has_hash, is_open_token_of, revoked, new_token, get_recruiter_by_email,
  get_recruiter_by_id, create_refresh_token, get_refresh_token_by_hash, revoke_refresh_token,
  revoke_all_recruiter_tokens,
}
use i_bot_core_api_service.Accounts.Login.{
  Credentials, days, issue_tokens, login, refresh_token, logout,
}

find-revoked :
    (token_hash : String) (db : Db)
    → find (has_hash token_hash) (update_where (has_hash token_hash) revoked db.recruiter_tokens)
      ≡ Option.map revoked (find (has_hash token_hash) db.recruiter_tokens)
find-revoked token_hash db =
    find-updated (has_hash token_hash) revoked db.recruiter_tokens (λ t. refl)

refused_once_revoked :
    (security : Security) (draws : Draws) (user_agent ip_address : Option String) (token : String)
    (db : Db) (t : RecruiterToken)
    → find (has_hash (security.sha256 token)) db.recruiter_tokens ≡ some t
    → t.is_revoked ≡ true
    → refresh_token security draws token user_agent ip_address db ≡ (err invalid_refresh_token, db)
unfolding refresh_token get_refresh_token_by_hash ◌>>=◌
refused_once_revoked security draws user_agent ip_address token db t stored used =
    rw (stored, used) refl

module _ (security : Security) (draws : Draws) (db : Db) (r : Recruiter)
    (user_agent ip_address : Option String) where
  -- A login with the right password of an active account answers with a fresh refresh token, and
  -- that token is the recruiter's only one that is not revoked; the tokens of the other recruiters
  -- and the accounts are as they were.
  pub login-supersedes :
      (payload : Credentials)
      → find (has_email (security.lower payload.email)) db.recruiters ≡ some r
      → security.verify_password payload.password r.hashed_password ≡ true
      → r.is_active ≡ true
      → let (result, db') = login security draws payload user_agent ip_address db in
        (result
          ≡ ok (record {
            access_token =
                security.create_access_token r.id r.email (draws.env.utc_now 0 + minutes 15);
            refresh_token = draws.env.token_urlsafe;
            expires_in = 15 * 60;
          }))
        × (filter (is_open_token_of r.id) db'.recruiter_tokens
            ≡ new_token r.id
                (security.sha256 draws.env.token_urlsafe)
                (draws.env.utc_now 1 + days 7)
                user_agent
                ip_address
              ∷ [])
        × (filter (λ t. not (t.recruiter_id == r.id)) db'.recruiter_tokens
            ≡ filter (λ t. not (t.recruiter_id == r.id)) db.recruiter_tokens)
        × (db'.recruiters ≡ db.recruiters)
  unfolding login issue_tokens get_recruiter_by_email revoke_all_recruiter_tokens
      create_refresh_token filter ◌>>=◌
  login-supersedes payload found verified active =
      rw (found, verified, active, ==_self r.id)
        (
          refl,
          ap
              (λ ts.
                new_token r.id (security.sha256 draws.env.token_urlsafe)
                  (draws.env.utc_now 1 + days 7) user_agent ip_address
                ∷ ts)
              (filter-updated (is_open_token_of r.id) revoked db.recruiter_tokens
                (λ t h. ground arith)),
          filter-update_where (λ t. not (t.recruiter_id == r.id)) (is_open_token_of r.id) revoked
              db.recruiter_tokens (λ t h. ground arith) (λ t h. ground arith),
          refl,
        )

  module _ (token : String) (t : RecruiterToken)
      (stored : find (has_hash (security.sha256 token)) db.recruiter_tokens ≡ some t)
      (usable : t.is_revoked ≡ false) (early : ltb t.expires_at (draws.env.utc_now 0) ≡ false)
      (known : find (λ x. x.id == t.recruiter_id) db.recruiters ≡ some r)
      (active : r.is_active ≡ true)
      (fresh : (security.sha256 draws.env.token_urlsafe == security.sha256 token) ≡ false) where
    pub refresh-rotates :
        let (result, db') = refresh_token security draws token user_agent ip_address db in
        (result
          ≡ ok (record {
            access_token =
                security.create_access_token r.id r.email (draws.env.utc_now 1 + minutes 15);
            refresh_token = draws.env.token_urlsafe;
            expires_in = 15 * 60;
          }))
        × (find (has_hash (security.sha256 token)) db'.recruiter_tokens ≡ some (revoked t))
        × (find (has_hash (security.sha256 draws.env.token_urlsafe)) db'.recruiter_tokens
            ≡ some (
                new_token r.id
                  (security.sha256 draws.env.token_urlsafe)
                  (draws.env.utc_now 2 + days 7)
                  user_agent
                  ip_address))
    unfolding refresh_token issue_tokens get_refresh_token_by_hash get_recruiter_by_id
        revoke_refresh_token create_refresh_token find ◌>>=◌
    refresh-rotates =
        rw
          (
            stored,
            usable,
            early,
            known,
            active,
            fresh,
            ==_self (security.sha256 draws.env.token_urlsafe),
          )
          (refl, rw (find-revoked (security.sha256 token) db) (rw stored refl), refl)

    -- After that refresh the old token cannot be used again: every later refresh with it is refused
    -- and changes nothing.
    pub refresh-replay :
        (later : Draws) (user_agent' ip_address' : Option String)
        → let db' = (refresh_token security draws token user_agent ip_address db).1 in
          refresh_token security later token user_agent' ip_address' db'
          ≡ (err invalid_refresh_token, db')
    refresh-replay later user_agent' ip_address' =
        let (answered, old, new) = refresh-rotates in
        refused_once_revoked security later user_agent' ip_address' token
          (refresh_token security draws token user_agent ip_address db).1 (revoked t) old refl

-- After a logout the token it names is refused by every refresh, and the refusal changes nothing.
pub logout-ends :
    (security : Security) (draws : Draws) (user_agent ip_address : Option String) (token : String)
    (db : Db)
    → let db' = (logout security draws token db).1 in
      refresh_token security draws token user_agent ip_address db'
      ≡ (err invalid_refresh_token, db')
unfolding logout refresh_token get_refresh_token_by_hash revoke_refresh_token ◌>>=◌
logout-ends security draws user_agent ip_address token db =
    elim (Option-cases (find (has_hash (security.sha256 token)) db.recruiter_tokens)) [
      | inl e ↦ rw (find-revoked (security.sha256 token) db, e) refl
      | inr (t, e) ↦ rw (find-revoked (security.sha256 token) db, e) refl
    ]
