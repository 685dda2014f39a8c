-- ===== src/Examples/Limits.antt =====
-- The theorem on the rate limiter at a concrete store.
use ai_powered_market.Prelude.{
  List, String, [], arith, count_where, false, if◌then◌else◌, min, refl, some, true, ℕ, ◌+◌, ◌==◌,
  ◌∷◌, ◌≡◌,
}
use ai_powered_market.Prelude.Text.{string_eq, string_eq_refl}
use ai_powered_market.RateLimit.{Redis, rate_key}
use ai_powered_market.RateLimit.Admission.{Counts, admissions, admissions_lem}

abbrev counter : Redis (String → ℕ)
counter = record {
  incr = λ k s. (some (s k + 1), λ j. if k == j then s k + 1 else s j);
  expire = λ k window s. (true, s);
}

abbrev counter_value : String → (String → ℕ) → ℕ
counter_value k s = s k

counter-Counts : Counts counter counter_value
counter-Counts = record {
  answers = λ k s. refl;
  adds = λ k s. ground (arith, string_eq_refl k);
  keeps = λ k other s h. ground arith;
  expires = λ k window s. refl;
  stays = λ k other window s. refl;
}

abbrev callers : List String
callers = "asha" ∷ "ravi" ∷ "asha" ∷ "asha" ∷ "ravi" ∷ []

abbrev unused : String → ℕ
unused k = 0

admissions_lem_example :
    admissions counter (λ i. i) false "rate:maps-route:asha" "maps-route" 2 60 callers unused
      + min 0 2
    ≡ min
        (0 + count_where (λ i. rate_key (λ j. j) "maps-route" i == "rate:maps-route:asha") callers)
        2
admissions_lem_example =
    admissions_lem counter (λ i. i) false counter_value counter-Counts "rate:maps-route:asha"
      "maps-route" 2 60 callers unused (omega arith) (omega arith)
