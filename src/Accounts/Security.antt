-- ===== src/Accounts/Security.antt =====
-- What the account operations take from outside: hashes, access tokens, random draws, and Redis.
use i_bot_core_api_service.Prelude.{ℕ, ◌+◌, ◌*◌, ◌≤◌, ◌<◌, ◌≡◌, String, Bool, Option, none, some}
use i_bot_core_api_service.Db.{Uuid, Time}
use i_bot_core_api_service.Repositories.Env.{Env}

-- `hash_password` and `verify_password` (bcrypt, with the salt it draws), `sha256(...).hexdigest()`,
-- `create_access_token` at a time, and `str.lower`.
pub record Security : Type 0 where
  pub hash_password : String → String → String
  pub verify_password : String → String → Bool
  pub sha256 : String → String
  pub create_access_token : Uuid → String → Time → String
  pub lower : String → String

-- What one request draws, and whether the e-mail client and the event's own transaction succeed.
pub record Draws : Type 0 where
  pub env : Env
  pub salt : String
  pub otp : String
  pub email_accepted : Bool
  pub event_stored : Bool

-- The JSON text that Redis holds for an address: the code and the hash of the new password.
pub record OtpData : Type 0 where
  pub otp : String
  pub new_password_hash : String

-- Redis keys with an expiry, `C` being the server's state: `get` and `set(..., ex=seconds)` at a
-- time, and `delete`.
pub record Redis (C : Type 0) : Type 0 where
  pub get : Time → String → C → Option OtpData
  pub set : Time → ℕ → String → OtpData → C → C
  pub delete : String → C → C

-- What the code relies on: a key is there for its time to live, and a deleted one is not.
pub record IsRedis {C : Type 0} (redis : Redis C) : Type 0 where
  pub get-set :
      (t u : Time) (seconds : ℕ) (k : String) (v : OtpData) (c : C)
      → t ≤ u
      → u < t + seconds * 1000000
      → redis.get u k (redis.set t seconds k v c) ≡ some v
  pub get-delete : (t : Time) (k : String) (c : C) → redis.get t k (redis.delete k c) ≡ none
