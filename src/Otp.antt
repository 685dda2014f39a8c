-- ===== src/Otp.antt =====
-- backend/app/services/otp.py: codes for signing in, with budgets kept in Redis. The store, the digest of a phone number, the
-- random code, Python's `lower` and the answers of the provider are arguments. Proofs are in the child module.
pub mod Budget
use Prim.Native.String.{◌++◌}
use Prim.Native.Char.{code}
use ai_powered_market.Prelude.{
  Bool, List, Option, String, [], false, if◌then◌else◌, is_none, leb, ltb, nat_eq, none, not, some,
  true, ℕ, ◌&&◌, ◌==◌, ◌||◌, ◌∷◌,
}
use ai_powered_market.Prelude.Text.{is_empty, string_eq}
use ai_powered_market.RateLimit.{Redis}

-- The three other commands that the service sends; `none` and `false` are a RedisError.
pub record Codes (S : Type 0) : Type 0 where
  pub setex : String → ℕ → String → S → Bool × S
  pub fetch : String → S → Option (Option String) × S
  pub delete : List String → S → Bool × S

pub record OtpSettings : Type 0 where
  pub is_development : Bool
  pub dev_otp : String
  pub otp_ttl_seconds : ℕ
  pub otp_rate_window_seconds : ℕ
  pub otp_max_requests_per_window : ℕ
  pub otp_max_verify_attempts : ℕ
  pub is_msg91 : Bool

-- What a request to the provider gives: an exception, a body that is no JSON, or a status with the body's
-- `str(payload.get("type", ""))`, where the body is an object.
pub data Answer : Type 0 where
  http_error : Answer
  not_json : Answer
  replied : ℕ → Option String → Answer

-- How `verify` ends: the Boolean it returns, a RuntimeError, or the TypeError of `compare_digest`.
pub data VerifyReply : Type 0 where
  verdict : Bool → VerifyReply
  verifier_unavailable : VerifyReply
  type_error : VerifyReply

-- How `issue` ends: the code and the seconds it is shown with, the ValueError, or a RuntimeError.
pub data IssueReply : Type 0 where
  otp_result : Option String → Option ℕ → IssueReply
  too_many_requests : IssueReply
  runtime_error : IssueReply

unfoldable pub msg91_mobile : String → String
msg91_mobile String.[] = String.[]
msg91_mobile (String.◌∷◌ c s) =
    let rest = msg91_mobile s in if code c == 43 then rest else String.◌∷◌ c s

abbrev pub is_ascii : String → Bool
is_ascii String.[] = true
is_ascii (String.◌∷◌ c s) = let rest = is_ascii s in ltb (code c) 128 && rest

abbrev pub is_rejected : ℕ → Option String → Bool
is_rejected status_code kind = ltb status_code 200 || leb 300 status_code || is_none kind

abbrev pub kind_of : Option String → String
kind_of none = ""
kind_of (some kind) = kind

unfoldable pub otp_key : (String → String) → String → String
otp_key digest phone = "auth:otp:" ++ digest phone

unfoldable pub send_key : (String → String) → String → String
send_key digest phone = "auth:otp-send:" ++ digest phone

unfoldable pub verify_key : (String → String) → String → String
verify_key digest phone = "auth:otp-verify:" ++ digest phone

-- `_msg91_send` returns or raises a RuntimeError.
unfoldable pub msg91_send : (String → String) → Answer → Bool
msg91_send lower (replied status_code kind) =
    not (is_rejected status_code kind) && lower (kind_of kind) == "success"
msg91_send lower _ = false

unfoldable pub msg91_verify : (String → String) → Answer → VerifyReply
msg91_verify lower (replied status_code kind) =
    if is_rejected status_code kind
    then verifier_unavailable
    else verdict (lower (kind_of kind) == "success")
msg91_verify lower _ = verifier_unavailable

module _ {S : Type 0} (redis : Redis S) (codes : Codes S) (settings : OtpSettings)
    (digest lower : String → String) where
  abbrev pub sends_within : ℕ → Bool × S → Option IssueReply × S
  sends_within sends (true, s) =
      (if ltb settings.otp_max_requests_per_window sends then some too_many_requests else none, s)
  sends_within sends (false, s) = (if settings.is_development then none else some runtime_error, s)

  abbrev pub after_send_incr : String → Option ℕ × S → Option IssueReply × S
  after_send_incr phone (none, s) =
      (if settings.is_development then none else some runtime_error, s)
  after_send_incr phone (some sends, s) =
      if sends == 1
      then sends_within sends
          (redis.expire (send_key digest phone) settings.otp_rate_window_seconds s)
      else sends_within sends (true, s)

  -- `none` is a return, `some` an exception.
  unfoldable pub check_send_rate : String → S → Option IssueReply × S
  check_send_rate phone s = after_send_incr phone (redis.incr (send_key digest phone) s)

  abbrev pub attempts_within : ℕ → Bool × S → Bool × S
  attempts_within attempts (true, s) = (leb attempts settings.otp_max_verify_attempts, s)
  attempts_within attempts (false, s) = (settings.is_development, s)

  abbrev pub after_verify_incr : String → Option ℕ × S → Bool × S
  after_verify_incr phone (none, s) = (settings.is_development, s)
  after_verify_incr phone (some attempts, s) =
      if attempts == 1
      then attempts_within attempts
          (redis.expire (verify_key digest phone) settings.otp_ttl_seconds s)
      else attempts_within attempts (true, s)

  unfoldable pub check_verify_rate : String → S → Bool × S
  check_verify_rate phone s = after_verify_incr phone (redis.incr (verify_key digest phone) s)

  abbrev pub issue_dev : String → String → S → IssueReply × S
  issue_dev phone otp s = (
    otp_result (some otp) (some settings.otp_ttl_seconds),
    (codes.setex (otp_key digest phone) settings.otp_ttl_seconds otp s).1,
  )

  abbrev pub issue_allowed :
      String → (String → Answer) → String → Option IssueReply × S → IssueReply × S
  issue_allowed random_otp provider phone (some e, s) = (e, s)
  issue_allowed random_otp provider phone (none, s) =
      if settings.is_development
      then issue_dev phone (if is_empty settings.dev_otp then random_otp else settings.dev_otp) s
      else (
        if settings.is_msg91 && msg91_send lower (provider (msg91_mobile phone))
            then otp_result none none
            else runtime_error,
        s,
      )

  unfoldable pub issue : String → (String → Answer) → String → S → IssueReply × S
  issue random_otp provider phone s =
      issue_allowed random_otp provider phone (check_send_rate phone s)

  abbrev pub cleared : String → Bool × S → VerifyReply × S
  cleared phone (b, s) = (verdict b, s)

  abbrev pub compare_code : String → String → Option (Option String) × S → VerifyReply × S
  compare_code phone supplied_otp (some (some expected), s) =
      if is_empty expected
      then (verdict false, s)
      else (if not (is_ascii expected && is_ascii supplied_otp)
          then (type_error, s)
          else (if expected == supplied_otp
              then cleared phone
                  (codes.delete (otp_key digest phone ∷ verify_key digest phone ∷ []) s)
              else (verdict false, s)))
  compare_code phone supplied_otp (_, s) = (verdict false, s)

  abbrev pub verify_dev : String → String → S → VerifyReply × S
  verify_dev phone supplied_otp s =
      if supplied_otp == settings.dev_otp
      then (verdict true, (codes.delete (otp_key digest phone ∷ verify_key digest phone ∷ []) s).1)
      else compare_code phone supplied_otp (codes.fetch (otp_key digest phone) s)

  abbrev pub verify_msg91 : String → VerifyReply → S → VerifyReply × S
  verify_msg91 phone (verdict true) s =
      (verdict true, (codes.delete (verify_key digest phone ∷ []) s).1)
  verify_msg91 phone reply s = (reply, s)

  abbrev pub verify_allowed :
      (String → String → Answer) → String → String → Bool × S → VerifyReply × S
  verify_allowed provider phone supplied_otp (false, s) = (verdict false, s)
  verify_allowed provider phone supplied_otp (true, s) =
      if settings.is_development
      then verify_dev phone supplied_otp s
      else (if settings.is_msg91
          then verify_msg91 phone (msg91_verify lower (provider supplied_otp (msg91_mobile phone)))
              s
          else (verdict false, s))

  unfoldable pub verify : (String → String → Answer) → String → String → S → VerifyReply × S
  verify provider phone supplied_otp s =
      verify_allowed provider phone supplied_otp (check_verify_rate phone s)
