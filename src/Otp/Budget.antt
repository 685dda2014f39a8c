-- ===== src/Otp/Budget.antt =====
-- The budget of guesses of backend/app/services/otp.py, and that an issued code is accepted.
use Prim.Native.Char.{code}
use Prim.Native.String.{◌++◌}
use text.Mathlib.TextLemmas.{cons-append, length-cons, length-nil}
use ai_powered_market.Otp.{
  Answer, Codes, OtpSettings, check_send_rate, check_verify_rate, is_ascii, issue, otp_key,
  otp_result, send_key, verdict, verify, verify_key,
}
use ai_powered_market.Prelude.{
  Bool-cases, List, Option, String, [], ap, arith, false, if◌then◌else◌, inl, inr, refl, some,
  subst, suc, sym, true, zero, ℕ, ◌<◌, ◌==◌, ◌∙◌, ◌∷◌, ◌≡◌, ◌≢◌, ◌≤◌,
}
use ai_powered_market.Prelude.Text.{
  is_empty, string_eq, string_eq_refl, string_eq_sound, text_length,
}
use ai_powered_market.RateLimit.{Redis}
use ai_powered_market.RateLimit.Admission.{Counts}

-- The rest of Redis within one window, beside the counters of `Counts`: SETEX stores a text that GET reads
-- until it is deleted, commands on one key leave the others, and nothing fails.
pub record Keeps {S : Type 0} (redis : Redis S) (codes : Codes S) (value : String → S → ℕ)
    (stored : String → S → Option String) : Type 0 where
  pub sets : (k v : String) (w : ℕ) (s : S) → stored k (codes.setex k w v s).1 ≡ some v
  pub spares :
      (k k' v : String) (w : ℕ) (s : S)
      → (k == k') ≡ false
      → value k' (codes.setex k w v s).1 ≡ value k' s
  pub fetches : (k : String) (s : S) → (codes.fetch k s).0 ≡ some (stored k s)
  pub counts_apart :
      (k k' : String) (s : S) → (k == k') ≡ false → stored k' (redis.incr k s).1 ≡ stored k' s
  pub lasts : (k k' : String) (w : ℕ) (s : S) → stored k' (redis.expire k w s).1 ≡ stored k' s
  pub deletes : (ks : List String) (s : S) → (codes.delete ks s).0 ≡ true

module _ {S : Type 0} (redis : Redis S) (codes : Codes S) (settings : OtpSettings)
    (digest lower : String → String) (value : String → S → ℕ) (counts : Counts redis value) where
  -- Where Redis counts as documented and as many codes have been tried within the window as the settings allow, no code is accepted any more, the right
  -- one and the development code included, whatever the provider says.
  pub verify_spent :
      (provider : String → String → Answer) (phone supplied_otp : String) (s : S)
      → settings.otp_max_verify_attempts ≤ value (verify_key digest phone) s
      → (verify redis codes settings digest lower provider phone supplied_otp s).0 ≡ verdict false
  unfolding verify check_verify_rate
  verify_spent provider phone supplied_otp s used =
      let key = verify_key digest phone in
      let s1 : S = (redis.incr key s).1 in
      ground (arith, counts.answers key s, counts.expires key settings.otp_ttl_seconds s1)

-- A code that `compare_digest` compares.
abbrev pub IsUsable : String → Type 0
IsUsable otp = (is_empty otp ≡ false) × (is_ascii otp ≡ true)

abbrev char_at : ℕ → String → ℕ
char_at n String.[] = 0
char_at zero (String.◌∷◌ c s) = code c
char_at (suc n) (String.◌∷◌ c s) = char_at n s

char_at-append : (n : ℕ) (s t : String) → n < text_length s → char_at n (s ++ t) ≡ char_at n s
char_at-append n String.[] t h = ground (arith, length-nil)
char_at-append zero (String.◌∷◌ c s) t h = ap (char_at 0) (cons-append c s t)
char_at-append (suc n) (String.◌∷◌ c s) t h =
    ap (char_at (suc n)) (cons-append c s t)
    ∙ char_at-append n s t (ground (arith, length-cons c s))

differ : (n : ℕ) (s t : String) → char_at n s ≢ char_at n t → (s == t) ≡ false
differ n s t apart = elim (Bool-cases (s == t)) [
  | inl same ↦
      let one : char_at n s ≡ char_at n t = ap (char_at n) (string_eq_sound s t same) in
      elim (apart one) [ ]
  | inr other ↦ other
]

prefixes_apart :
    (n : ℕ) (p q t : String)
    → n < text_length p
    → n < text_length q
    → char_at n p ≢ char_at n q
    → (p ++ t == q ++ t) ≡ false
prefixes_apart n p q t in_p in_q apart =
    differ n (p ++ t) (q ++ t)
      (λ e. apart (sym (char_at-append n p t in_p) ∙ (e ∙ char_at-append n q t in_q)))

keys_apart :
    (digest : String → String) (phone : String)
    → ((send_key digest phone == otp_key digest phone) ≡ false)
      × ((send_key digest phone == verify_key digest phone) ≡ false)
      × ((otp_key digest phone == verify_key digest phone) ≡ false)
      × ((verify_key digest phone == otp_key digest phone) ≡ false)
unfolding send_key otp_key verify_key
keys_apart digest phone =
    let h = digest phone in
    (
      prefixes_apart 8 "auth:otp-send:" "auth:otp:" h (omega arith) (omega arith) (omega arith),
      prefixes_apart 9 "auth:otp-send:" "auth:otp-verify:" h (omega arith) (omega arith)
          (omega arith),
      prefixes_apart 8 "auth:otp:" "auth:otp-verify:" h (omega arith) (omega arith) (omega arith),
      prefixes_apart 8 "auth:otp-verify:" "auth:otp:" h (omega arith) (omega arith) (omega arith),
    )

module _ {S : Type 0} (redis : Redis S) (codes : Codes S) (settings : OtpSettings)
    (digest lower : String → String) (value : String → S → ℕ) (stored : String → S → Option String)
    (counts : Counts redis value) (keeps : Keeps redis codes value stored) where
  issue_leaves :
      (drawn phone otp : String) (send : String → Answer) (s : S)
      → settings.is_development ≡ true
      → otp ≡ (if is_empty settings.dev_otp then drawn else settings.dev_otp)
      → value (send_key digest phone) s < settings.otp_max_requests_per_window
      → let (reply, s') = issue redis codes settings digest lower drawn send phone s in
        (reply ≡ otp_result (some otp) (some settings.otp_ttl_seconds))
        × (stored (otp_key digest phone) s' ≡ some otp)
        × (value (verify_key digest phone) s' ≡ value (verify_key digest phone) s)
  unfolding issue check_send_rate
  issue_leaves drawn phone otp send s dev chosen may_send =
      let (a, b, c, d) = keys_apart digest phone in
      let sends = send_key digest phone in
      let at = otp_key digest phone in
      let tries = verify_key digest phone in
      let ttl = settings.otp_ttl_seconds in
      let window = settings.otp_rate_window_seconds in
      let s1 : S = (redis.incr sends s).1 in
      let s2 : S = (redis.expire sends window s1).1 in
      (
        ground (arith, counts.answers sends s, counts.expires sends window s1),
        ground (
          arith,
          counts.answers sends s,
          counts.expires sends window s1,
          keeps.sets at otp ttl s1,
          keeps.sets at otp ttl s2,
        ),
        ground (
          arith,
          counts.answers sends s,
          counts.expires sends window s1,
          keeps.spares at tries otp ttl s1 c,
          keeps.spares at tries otp ttl s2 c,
          counts.keeps sends tries s b,
          counts.stays sends tries window s1,
        ),
      )

  verify_accepts :
      (phone otp : String) (check : String → String → Answer) (s : S)
      → settings.is_development ≡ true
      → IsUsable otp
      → stored (otp_key digest phone) s ≡ some otp
      → value (verify_key digest phone) s < settings.otp_max_verify_attempts
      → (verify redis codes settings digest lower check phone otp s).0 ≡ verdict true
  unfolding verify check_verify_rate
  verify_accepts phone otp check s dev (filled, ascii) remembered may_try =
      let (a, b, c, d) = keys_apart digest phone in
      let at = otp_key digest phone in
      let tries = verify_key digest phone in
      let ttl = settings.otp_ttl_seconds in
      let s1 : S = (redis.incr tries s).1 in
      let s2 : S = (redis.expire tries ttl s1).1 in
      ground (
        arith,
        counts.answers tries s,
        counts.expires tries ttl s1,
        keeps.counts_apart tries at s d,
        keeps.lasts tries at ttl s1,
        keeps.fetches at s1,
        keeps.fetches at s2,
        keeps.deletes (at ∷ tries ∷ []) (codes.fetch at s1).1,
        keeps.deletes (at ∷ tries ∷ []) (codes.fetch at s2).1,
        string_eq_refl otp,
      )

  -- In development `issue` answers with a code that the next `verify` of the same phone accepts, where both budgets have
  -- room, Redis works as documented, and the code, the configured one or else a drawn one, is not empty and in ASCII.
  pub verify-issue :
      (drawn phone : String) (send : String → Answer) (check : String → String → Answer) (s : S)
      → settings.is_development ≡ true
      → IsUsable (if is_empty settings.dev_otp then drawn else settings.dev_otp)
      → value (send_key digest phone) s < settings.otp_max_requests_per_window
      → value (verify_key digest phone) s < settings.otp_max_verify_attempts
      → let (reply, s') = issue redis codes settings digest lower drawn send phone s in
        (otp : String) × (reply ≡ otp_result (some otp) (some settings.otp_ttl_seconds))
        × ((verify redis codes settings digest lower check phone otp s').0 ≡ verdict true)
  verify-issue drawn phone send check s dev usable may_send may_try =
      let otp : String = if is_empty settings.dev_otp then drawn else settings.dev_otp in
      let s1 : S = (issue redis codes settings digest lower drawn send phone s).1 in
      let (issued, remembered, untried) = issue_leaves drawn phone otp send s dev refl may_send in
      (
        otp,
        issued,
        verify_accepts phone otp check s1 dev usable remembered
            (subst (λ n. n < settings.otp_max_verify_attempts) (sym untried) may_try),
      )
