-- ===== src/Examples/SignIn.antt =====
-- The theorems on sign-in codes at a concrete store.
use ai_powered_market.Otp.{Codes, OtpSettings, http_error, issue, otp_result, verdict, verify}
use ai_powered_market.Otp.Budget.{Keeps, verify-issue, verify_spent}
use ai_powered_market.Prelude.{
  Option, String, arith, contains, false, if◌then◌else◌, none, refl, some, true, ℕ, ◌+◌, ◌==◌, ◌≡◌,
}
use ai_powered_market.Prelude.Text.{string_eq, string_eq_refl}
use ai_powered_market.RateLimit.{Redis}
use ai_powered_market.RateLimit.Admission.{Counts}

-- Counters, and texts.
abbrev Memory : Type 0
Memory = (String → ℕ) × (String → Option String)

abbrev memory_redis : Redis Memory
memory_redis = record {
  incr = λ k s. (some (s.0 k + 1), ((λ j. if k == j then s.0 k + 1 else s.0 j), s.1));
  expire = λ k window s. (true, s);
}

abbrev memory_codes : Codes Memory
memory_codes = record {
  setex = λ k window v s. (true, (s.0, (λ j. if k == j then some v else s.1 j)));
  fetch = λ k s. (some (s.1 k), s);
  delete = λ ks s. (
    true,
    ((λ j. if contains ks j then 0 else s.0 j), (λ j. if contains ks j then none else s.1 j)),
  );
}

abbrev memory_value : String → Memory → ℕ
memory_value k s = s.0 k

abbrev memory_stored : String → Memory → Option String
memory_stored k s = s.1 k

memory-Counts : Counts memory_redis memory_value
memory-Counts = record {
  answers = λ k s. refl;
  adds = λ k s. ground (arith, string_eq_refl k);
  keeps = λ k other s h. ground arith;
  expires = λ k window s. refl;
  stays = λ k other window s. refl;
}

memory-Keeps : Keeps memory_redis memory_codes memory_value memory_stored
memory-Keeps = record {
  sets = λ k v window s. ground (arith, string_eq_refl k);
  spares = λ k other v window s h. refl;
  fetches = λ k s. refl;
  counts_apart = λ k other s h. refl;
  lasts = λ k other window s. refl;
  deletes = λ ks s. refl;
}

abbrev local_settings : OtpSettings
local_settings = record {
  is_development = true;
  dev_otp = "123456";
  otp_ttl_seconds = 300;
  otp_rate_window_seconds = 900;
  otp_max_requests_per_window = 5;
  otp_max_verify_attempts = 6;
  is_msg91 = false;
}

abbrev unseen : Memory
unseen = ((λ k. 0), (λ k. none))

abbrev guessed : Memory
guessed = ((λ k. 6), (λ k. some "123456"))

verify-issue_example :
    let (reply, s') =
      issue memory_redis memory_codes local_settings
        (λ p. p)
        (λ t. t)
        "000000"
        (λ p. http_error)
        "+911"
        unseen in
    (otp : String) × (reply ≡ otp_result (some otp) (some 300))
    × ((verify memory_redis memory_codes local_settings
          (λ p. p)
          (λ t. t)
          (λ c p. http_error)
          "+911"
          otp
          s').0
        ≡ verdict true)
verify-issue_example =
    verify-issue memory_redis memory_codes local_settings (λ p. p) (λ t. t) memory_value
      memory_stored memory-Counts memory-Keeps "000000" "+911" (λ p. http_error) (λ c p. http_error)
      unseen refl (refl, refl) (omega arith) (omega arith)

verify_spent_example :
    (verify memory_redis memory_codes local_settings
      (λ p. p)
      (λ t. t)
      (λ c p. http_error)
      "+911"
      "123456"
      guessed).0
    ≡ verdict false
verify_spent_example =
    verify_spent memory_redis memory_codes local_settings (λ p. p) (λ t. t) memory_value
      memory-Counts (λ c p. http_error) "+911" "123456" guessed (omega arith)
