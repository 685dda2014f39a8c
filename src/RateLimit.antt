-- ===== src/RateLimit.antt =====
-- backend/app/services/rate_limit.py: a counter of requests for each caller, kept in Redis. The store, the SHA-256 digest
-- and the setting APP_ENV are arguments. What the store's documentation says of a counter is in the child module.
pub mod Admission
use Prim.Native.String.{◌++◌}
use ai_powered_market.Prelude.{
  Bool, Option, String, false, if◌then◌else◌, ltb, nat_eq, none, some, true, ℕ, ◌==◌, ◌||◌,
}

-- The two commands that the limiter sends; `none` and `false` are a RedisError.
pub record Redis (S : Type 0) : Type 0 where
  pub incr : String → S → Option ℕ × S
  pub expire : String → ℕ → S → Bool × S

-- How `enforce` ends: it returns, or one of its three exceptions.
pub data Verdict : Type 0 where
  admitted : Verdict
  limit_exceeded : Verdict
  limit_unavailable : Verdict
  not_positive : Verdict

abbrev pub is_admitted : Verdict → Bool
is_admitted admitted = true
is_admitted _ = false

-- `key`
unfoldable pub rate_key : (String → String) → String → String → String
rate_key digest scope identifier = "rate:" ++ scope ++ ":" ++ digest identifier

-- `except RedisError`
unfoldable pub on_redis_error : Bool → Verdict
on_redis_error is_development = if is_development then admitted else limit_unavailable

-- `if count > limit`
unfoldable pub judge : ℕ → ℕ → Verdict
judge limit count = if ltb limit count then limit_exceeded else admitted

module _ {S : Type 0} (redis : Redis S) (digest : String → String) (is_development : Bool) where
  abbrev pub after_expire : ℕ → ℕ → Bool × S → Verdict × S
  after_expire limit count (true, s) = (judge limit count, s)
  after_expire limit count (false, s) = (on_redis_error is_development, s)

  abbrev pub after_incr : String → ℕ → ℕ → Option ℕ × S → Verdict × S
  after_incr key limit window (none, s) = (on_redis_error is_development, s)
  after_incr key limit window (some count, s) =
      if count == 1
      then after_expire limit count (redis.expire key window s)
      else (judge limit count, s)

  unfoldable pub enforce : String → String → ℕ → ℕ → S → Verdict × S
  enforce scope identifier limit window s =
      let key = rate_key digest scope identifier in
      if ltb limit 1 || ltb window 1
      then (not_positive, s)
      else after_incr key limit window (redis.incr key s)
