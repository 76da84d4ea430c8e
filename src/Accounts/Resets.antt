-- ===== src/Accounts/Resets.antt =====
-- A password reset from its request to its confirmation.
use i_bot_core_api_service.Prelude.{
  ◌+◌, ◌*◌, ◌≤◌, ◌<◌, ◌≡◌, refl, String, true, false, none, some, [], filter, ◌==◌, ==_self, nat_eq,
  string_eq, Bool-cases, inl, inr, arith,
}
use i_bot_core_api_service.Db.{
  Recruiter, ok, err, invalid_otp, otp_expired, otp_still_active, find, find-updated,
  filter-updated, update_where, ◌>>=◌,
}
use i_bot_core_api_service.Accounts.Security.{Security, Draws, Redis, IsRedis}
use i_bot_core_api_service.Accounts.Repository.{
  has_email, is_open_token_of, revoked, get_recruiter_by_email, update_password,
  revoke_all_recruiter_tokens,
}
use i_bot_core_api_service.Accounts.Reset.{
  World, on_db, otp_key, otp_ttl_seconds, send_otp_email, try_record_reset, initiate_password_reset,
  verify_otp, resend_otp,
}

verify-expired :
    {C : Type 0} (redis : Redis C) (security : Security) (later : Draws) (email otp : String)
    (w : World C)
    → redis.get (later.env.utc_now 0) (otp_key (security.lower email)) w.cache ≡ none
    → verify_otp (some redis) security later email otp w ≡ (err otp_expired, w)
unfolding verify_otp ◌>>=◌
verify-expired redis security later email otp w h = rw h refl

-- A code that is right, for an account that exists.
module _ {C : Type 0} (redis : Redis C) (laws : IsRedis redis) (security : Security) (later : Draws)
    (v : World C) (r : Recruiter) (email hash otp : String)
    (found : find (has_email (security.lower email)) v.db.recruiters ≡ some r)
    (stored : redis.get (later.env.utc_now 0) (otp_key (security.lower email)) v.cache
      ≡ some (record { otp = otp; new_password_hash = hash })) where
  try_record_reset-rows :
      (x : Recruiter) (u : World C)
      → let (result, u') = try_record_reset redis security later x (security.lower email) u in
        (result ≡ ok tt)
        × (u'.cache ≡ u.cache)
        × (u'.db.recruiters ≡ u.db.recruiters)
        × (u'.db.recruiter_tokens ≡ u.db.recruiter_tokens)
  unfolding try_record_reset ◌>>=◌
  try_record_reset-rows x u = elim (Bool-cases later.event_stored) [
    | inl e ↦ rw e (refl, refl, refl, refl)
    | inr e ↦ rw e (refl, refl, refl, refl)
  ]

  verify-accepted :
      let (result, w') = verify_otp (some redis) security later email otp v in
      (result ≡ ok tt)
      × (find (has_email (security.lower email)) w'.db.recruiters
          ≡ some (record r { hashed_password = hash }))
      × (filter (is_open_token_of r.id) w'.db.recruiter_tokens ≡ [])
      × (w'.cache ≡ redis.delete (otp_key (security.lower email)) v.cache)
  unfolding verify_otp update_password get_recruiter_by_email revoke_all_recruiter_tokens on_db
      ◌>>=◌
  verify-accepted =
      let (done, cache, accounts, tokens) =
        try_record_reset-rows (record r { hashed_password = hash })
          (record {
            db = record v.db {
              recruiters =
                  update_where (has_email (security.lower email))
                    (λ x. record x { hashed_password = hash }) v.db.recruiters;
              recruiter_tokens = update_where (is_open_token_of r.id) revoked v.db.recruiter_tokens;
            };
            cache = redis.delete (otp_key (security.lower email)) v.cache;
            emails = v.emails;
          }) in
      let changed =
        find-updated (has_email (security.lower email)) (λ x. record x { hashed_password = hash })
          v.db.recruiters (λ x. refl) in
      rw (stored, ==_self otp, found, changed)
        (rw (found, done, cache, accounts, tokens)
          (
            refl,
            rw changed (rw found refl),
            filter-updated (is_open_token_of r.id) revoked v.db.recruiter_tokens
                (λ t h. ground arith),
            refl,
          ))

module _ {C : Type 0} (redis : Redis C) (laws : IsRedis redis) (security : Security)
    (draws later : Draws) (w : World C) (r : Recruiter) (email new_password : String)
    (found : find (has_email (security.lower email)) w.db.recruiters ≡ some r)
    (active : r.is_active ≡ true) (accepted : draws.email_accepted ≡ true)
    (after : draws.env.utc_now 0 ≤ later.env.utc_now 0)
    (in_time : later.env.utc_now 0 < draws.env.utc_now 0 + otp_ttl_seconds * 1000000) where
  abbrev pub requested : World C
  requested = (initiate_password_reset (some redis) security draws email new_password w).1

  stored_otp :
      redis.get
        (later.env.utc_now 0)
        (otp_key (security.lower email))
        (initiate_password_reset (some redis) security draws email new_password w).1.cache
      ≡ some (record {
        otp = draws.otp;
        new_password_hash = security.hash_password draws.salt new_password;
      })
  unfolding initiate_password_reset on_db get_recruiter_by_email send_otp_email ◌>>=◌
  stored_otp = rw (found, active, accepted) (laws.get-set _ _ otp_ttl_seconds _ _ _ after in_time)

  same_db : (initiate_password_reset (some redis) security draws email new_password w).1.db ≡ w.db
  unfolding initiate_password_reset on_db get_recruiter_by_email send_otp_email ◌>>=◌
  same_db = rw (found, active, accepted) refl

  -- A reset was requested for an active account and its e-mail was accepted. Within the minute a
  -- wrong code is refused and a second code is not sent: everything is as the request left it.
  pub reset-refused :
      (otp other_password : String)
      → (draws.otp == otp) ≡ false
      → (verify_otp (some redis) security later email otp requested ≡ (err invalid_otp, requested))
        × (resend_otp (some redis) security later email other_password requested
            ≡ (err otp_still_active, requested))
  unfolding verify_otp resend_otp ◌>>=◌
  reset-refused otp other_password wrong = rw (stored_otp, wrong) (refl, refl)

  -- A reset was requested for an active account and its e-mail was accepted. The right code within
  -- the minute sets the requested password, revokes every refresh token of the account, and uses the
  -- code up: whatever code comes next is refused as expired.
  pub reset-confirmed :
      let (result, w') = verify_otp (some redis) security later email draws.otp requested in
      (result ≡ ok tt)
      × (find (has_email (security.lower email)) w'.db.recruiters
          ≡ some (record r { hashed_password = security.hash_password draws.salt new_password }))
      × (filter (is_open_token_of r.id) w'.db.recruiter_tokens ≡ [])
      × ((otp : String)
          → verify_otp (some redis) security later email otp w' ≡ (err otp_expired, w'))
  reset-confirmed =
      let (done, account, tokens, cache) =
        verify-accepted redis laws security later requested r email
          (security.hash_password draws.salt new_password) draws.otp (rw same_db found)
          stored_otp in
      (
        done,
        account,
        tokens,
        λ otp. verify-expired redis security later email otp _ (rw cache (laws.get-delete _ _ _)),
      )
