-- ===== src/Tests/Accounts.antt =====
-- Accounts at concrete inputs.
use i_bot_core_api_service.Prelude.{
  ℕ, ◌+◌, ◌*◌, ◌<◌, ◌≡◌, refl, String, true, not, ◌&&◌, Option, none, some, [], ◌∷◌, filter, ltb,
  Distinct, contains, ◌==◌, nat_eq, string_eq, ==_self, Bool-cases, inl, inr, arith, if◌then◌else◌,
}
use i_bot_core_api_service.Db.{
  Db, Time, Recruiter, RecruiterToken, EnrollmentStatus, ok, err, invalid_refresh_token,
  invalid_otp, otp_still_active, otp_expired, find,
}
use i_bot_core_api_service.Accounts.Security.{Security, Draws, OtpData, Redis, IsRedis}
use i_bot_core_api_service.Accounts.Repository.{has_email, has_hash, is_open_token_of, new_token}
use i_bot_core_api_service.Accounts.Login.{
  Registration, Credentials, days, login, refresh_token, register_recruiter,
}
use i_bot_core_api_service.Accounts.Reset.{World, verify_otp, resend_otp}
use i_bot_core_api_service.Accounts.Tokens.{login-supersedes, refresh-replay}
use i_bot_core_api_service.Accounts.Registration.{emails, register-Distinct, register-login}
use i_bot_core_api_service.Accounts.Resets.{requested, reset-refused, reset-confirmed}
use i_bot_core_api_service.Tests.Data.{seconds, at_time, recruiter, new_interview, database}

-- A password is its own hash.
abbrev plain : Security
plain = record {
  hash_password = λ salt password. password;
  verify_password = λ password hash. password == hash;
  sha256 = λ text. text;
  create_access_token = λ id email t. email;
  lower = λ text. text;
}

abbrev drawn : Time → Draws
drawn t = record {
  env = at_time t;
  salt = "salt";
  otp = "1234";
  email_accepted = true;
  event_stored = true;
}

abbrev old_token : RecruiterToken
old_token = new_token 1 "old" (seconds 1000) none none

abbrev accounts : Db
accounts = record (database EnrollmentStatus.invited new_interview) {
  recruiter_tokens = old_token ∷ [];
}

by_email : find (has_email "rina@example.com") accounts.recruiters ≡ some recruiter
unfolding find
by_email = refl

login-supersedes_example :
    let (result, db') =
      login plain
        (drawn (seconds 10))
        (record { email = "rina@example.com"; password = "salt:secret" })
        none
        none
        accounts in
    (result
      ≡ ok (record {
        access_token = "rina@example.com";
        refresh_token = "fresh-token";
        expires_in = 15 * 60;
      }))
    × (filter (is_open_token_of 1) db'.recruiter_tokens
        ≡ new_token 1 "fresh-token" (seconds 10 + days 7) none none ∷ [])
    × (filter (λ t. not (t.recruiter_id == 1)) db'.recruiter_tokens
        ≡ filter (λ t. not (t.recruiter_id == 1)) accounts.recruiter_tokens)
    × (db'.recruiters ≡ accounts.recruiters)
login-supersedes_example =
    login-supersedes plain (drawn (seconds 10)) accounts recruiter none none
      (record { email = "rina@example.com"; password = "salt:secret" }) by_email refl refl

old_stored : find (has_hash "old") accounts.recruiter_tokens ≡ some old_token
unfolding find
old_stored = refl

known : find (λ x. x.id == 1) accounts.recruiters ≡ some recruiter
unfolding find
known = refl

refresh-replay_example :
    let db' = (refresh_token plain (drawn (seconds 10)) "old" none none accounts).1 in
    refresh_token plain (drawn (seconds 20)) "old" none none db' ≡ (err invalid_refresh_token, db')
refresh-replay_example =
    refresh-replay plain (drawn (seconds 10)) accounts recruiter none none "old" old_token
      old_stored refl refl known refl refl (drawn (seconds 20)) none none

abbrev newcomer : Registration
newcomer = record {
  full_name = "Omar";
  email = "omar@example.com";
  password = "Secret12";
  company_name = "Other";
}

absent : find (has_email "omar@example.com") accounts.recruiters ≡ none
unfolding find
absent = refl

register-login_example :
    let (result, db') = register_recruiter plain (drawn (seconds 10)) newcomer accounts in
    let credentials : Credentials = record { email = "omar@example.com"; password = "Secret12" } in
    (r : Recruiter) × (result ≡ ok r)
    × ((login plain (drawn (seconds 20)) credentials none none db').0
        ≡ ok (record {
          access_token = r.email;
          refresh_token = "fresh-token";
          expires_in = 15 * 60;
        }))
register-login_example =
    register-login plain (drawn (seconds 10)) (drawn (seconds 20)) newcomer none none accounts
      (λ salt password. ==_self password) absent

distinct : Distinct (emails accounts)
unfolding contains
distinct = (refl, tt)

register-Distinct_example :
    Distinct (emails (register_recruiter plain (drawn (seconds 10)) newcomer accounts).1)
register-Distinct_example = register-Distinct plain (drawn (seconds 10)) newcomer accounts distinct

-- A server that keeps the last key that was set, with its expiry.
abbrev Slot : Type 0
Slot = Option (String × Time × OtpData)

abbrev live_value : String → Time → Slot → Option OtpData
live_value k t none = none
live_value k t (some (key, expires_at, v)) = if key == k && ltb t expires_at then some v else none

abbrev without : String → Slot → Slot
without k none = none
without k (some (key, t, v)) = if key == k then none else some (key, t, v)

abbrev slot : Redis Slot
slot = record {
  get = λ t k c. live_value k t c;
  set = λ t ttl k v c. some (k, t + ttl * 1000000, v);
  delete = λ k c. without k c;
}

in_time : (t u : ℕ) → t < u → ltb t u ≡ true
in_time t u h = ground arith

deleted : (t : Time) (k : String) (c : Slot) → live_value k t (without k c) ≡ none
deleted t k none = refl
deleted t k (some (key, expires_at, v)) = elim (Bool-cases (key == k)) [
  | inl e ↦ rw e refl
  | inr e ↦ rw (e, e) refl
]

slot-IsRedis : IsRedis slot
slot-IsRedis = record {
  get-set = λ t u ttl k v c after before. rw (==_self k, in_time u (t + ttl * 1000000) before) refl;
  get-delete = deleted;
}

abbrev world : World Slot
world = record { db = accounts; cache = none; emails = [] }

reset-refused_example :
    let w =
      requested slot slot-IsRedis plain
        (drawn (seconds 10))
        (drawn (seconds 20))
        world
        recruiter
        "rina@example.com"
        "Changed12"
        by_email
        refl
        refl
        (omega arith)
        (omega arith) in
    (verify_otp (some slot) plain (drawn (seconds 20)) "rina@example.com" "9999" w
      ≡ (err invalid_otp, w))
    × (resend_otp (some slot) plain (drawn (seconds 20)) "rina@example.com" "Other123" w
        ≡ (err otp_still_active, w))
reset-refused_example =
    reset-refused slot slot-IsRedis plain (drawn (seconds 10)) (drawn (seconds 20)) world recruiter
      "rina@example.com" "Changed12" by_email refl refl (omega arith) (omega arith) "9999"
      "Other123" refl

reset-confirmed_example :
    let w =
      requested slot slot-IsRedis plain
        (drawn (seconds 10))
        (drawn (seconds 20))
        world
        recruiter
        "rina@example.com"
        "Changed12"
        by_email
        refl
        refl
        (omega arith)
        (omega arith) in
    let (result, w') =
      verify_otp (some slot) plain (drawn (seconds 20)) "rina@example.com" "1234" w in
    (result ≡ ok tt)
    × (find (has_email "rina@example.com") w'.db.recruiters
        ≡ some (record recruiter { hashed_password = "Changed12" }))
    × (filter (is_open_token_of 1) w'.db.recruiter_tokens ≡ [])
    × ((otp : String)
        → verify_otp (some slot) plain (drawn (seconds 20)) "rina@example.com" otp w'
          ≡ (err otp_expired, w'))
reset-confirmed_example =
    reset-confirmed slot slot-IsRedis plain (drawn (seconds 10)) (drawn (seconds 20)) world
      recruiter "rina@example.com" "Changed12" by_email refl refl (omega arith) (omega arith)
