-- ===== src/Repositories/Env.antt =====
-- What one request reads from outside: clocks, and fresh random values.
use i_bot_core_api_service.Prelude.{ℕ, ◌*◌, String}
use i_bot_core_api_service.Db.{Uuid, Time}

-- `db_now` is PostgreSQL's `now()`, one value for the whole transaction; `utc_now k` are the
-- readings of `datetime.now(UTC)`, one for each place in the code that takes one; the rest are the
-- random values the request may draw: `gen_random_uuid()` of a new row, `secrets.token_urlsafe`,
-- `uuid.uuid4().hex`.
pub record Env : Type 0 where
  pub db_now : Time
  pub utc_now : ℕ → Time
  pub fresh_id : Uuid
  pub token_urlsafe : String
  pub uuid4_hex : String

abbrev pub minutes : ℕ → Time
minutes n = n * 60000000
