-- ===== src/Accounts/Registration.antt =====
-- Registration: one account for an address, and a login that works.

use i_bot_core_api_service.Prelude.{
  ◌+◌, ◌*◌, ◌≡◌, refl, String, true, false, Option, none, List, [], ◌∷◌, map, contains, Distinct,
  ◌==◌, ==_self, string_eq, Option-cases, Bool-cases, inl, inr,
}
use i_bot_core_api_service.Db.{Db, Recruiter, ok, find, ◌>>=◌}
use i_bot_core_api_service.Repositories.Env.{minutes}
use i_bot_core_api_service.Accounts.Security.{Security, Draws}
use i_bot_core_api_service.Accounts.Repository.{
  has_email, get_recruiter_by_email, create_recruiter, revoke_all_recruiter_tokens,
  create_refresh_token,
}
use i_bot_core_api_service.Accounts.Login.{
  Registration, Credentials, issue_tokens, register_recruiter, login,
}

abbrev pub emails : Db → List String
emails db = map (λ r. r.email) db.recruiters

find-contains :
    (email : String) (rs : List Recruiter)
    → find (has_email email) rs ≡ none
    → contains email (map (λ r. r.email) rs) ≡ false
unfolding find contains
find-contains email [] h = refl
find-contains email (r ∷ rs) h = elim (Bool-cases (r.email == email)) [
  | inl e ↦ cc (rw e at h)
  | inr e ↦ rw e (find-contains email rs (rw e at h))
]

-- Registrations keep the addresses of the accounts distinct, whether they are accepted or refused.
pub register-Distinct :
    (security : Security) (draws : Draws) (payload : Registration) (db : Db)
    → Distinct (emails db)
    → Distinct (emails (register_recruiter security draws payload db).1)
unfolding register_recruiter get_recruiter_by_email create_recruiter ◌>>=◌
register-Distinct security draws payload db distinct =
    elim (Option-cases (find (has_email (security.lower payload.email)) db.recruiters)) [
      | inl e ↦ rw e (find-contains (security.lower payload.email) db.recruiters e, distinct)
      | inr (r, e) ↦ rw e distinct
    ]

-- A registration of a new address succeeds, and a login with the same address and password is then
-- answered with tokens. (A password is verified against its own hash.)
pub register-login :
    (security : Security) (draws later : Draws) (payload : Registration)
    (user_agent ip_address : Option String) (db : Db)
    → ((salt password : String)
        → security.verify_password password (security.hash_password salt password) ≡ true)
    → find (has_email (security.lower payload.email)) db.recruiters ≡ none
    → let (result, db') = register_recruiter security draws payload db in
      let credentials : Credentials = record {
        email = payload.email;
        password = payload.password;
      } in
      (r : Recruiter) × (result ≡ ok r)
      × ((login security later credentials user_agent ip_address db').0
          ≡ ok (record {
            access_token =
                security.create_access_token r.id r.email (later.env.utc_now 0 + minutes 15);
            refresh_token = later.env.token_urlsafe;
            expires_in = 15 * 60;
          }))
unfolding register_recruiter get_recruiter_by_email create_recruiter login issue_tokens
    revoke_all_recruiter_tokens create_refresh_token find ◌>>=◌
register-login security draws later payload user_agent ip_address db verifies absent =
    rw (absent, ==_self (security.lower payload.email), verifies draws.salt payload.password)
      (_, refl, refl)
