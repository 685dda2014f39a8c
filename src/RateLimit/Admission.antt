-- ===== src/RateLimit/Admission.antt =====
-- How many requests the limiter of backend/app/services/rate_limit.py admits within one window.
use ai_powered_market.Prelude.{
  Bool, Bool-cases, List, String, [], ap, arith, count_where, false, if◌then◌else◌, inl, inr, ltb,
  min, some, suc, true, ℕ, ◌&&◌, ◌+◌, ◌<◌, ◌==◌, ◌∷◌, ◌≡◌,
}
use ai_powered_market.Prelude.Text.{string_eq, string_eq_sound}
use ai_powered_market.RateLimit.{Redis, Verdict, enforce, is_admitted, judge, rate_key}

-- Redis within one window: INCR adds one to the key's own counter and answers with it, EXPIRE keeps every value,
-- and neither fails.
pub record Counts {S : Type 0} (redis : Redis S) (value : String → S → ℕ) : Type 0 where
  pub answers : (k : String) (s : S) → (redis.incr k s).0 ≡ some (value k s + 1)
  pub adds : (k : String) (s : S) → value k (redis.incr k s).1 ≡ value k s + 1
  pub keeps : (k k' : String) (s : S) → (k == k') ≡ false → value k' (redis.incr k s).1 ≡ value k' s
  pub expires : (k : String) (w : ℕ) (s : S) → (redis.expire k w s).0 ≡ true
  pub stays : (k k' : String) (w : ℕ) (s : S) → value k' (redis.expire k w s).1 ≡ value k' s

-- One more request on the key, added up.
next_request :
    (v limit rest n : ℕ) (verdict : Verdict)
    → verdict ≡ judge limit (v + 1)
    → rest + min (v + 1) limit ≡ min (v + 1 + n) limit
    → (if is_admitted verdict then suc rest else rest) + min v limit ≡ min (v + suc n) limit
unfolding judge
next_request v limit rest n verdict e sum = elim (Bool-cases (ltb limit (v + 1))) [
  | inl h ↦ ground arith
  | inr h ↦ ground arith
]

module _ {S : Type 0} (redis : Redis S) (digest : String → String) (is_development : Bool) where
  -- Of a sequence of requests, how many of those that count on a key are admitted.
  abbrev pub admissions : String → String → ℕ → ℕ → List String → S → ℕ
  admissions key scope limit window [] s = 0
  admissions key scope limit window (identifier ∷ ids) s =
      let reply = enforce redis digest is_development scope identifier limit window s in
      let rest = admissions key scope limit window ids reply.1 in
      if rate_key digest scope identifier == key && is_admitted reply.0 then suc rest else rest

module _ {S : Type 0} (redis : Redis S) (digest : String → String) (is_development : Bool)
    (value : String → S → ℕ) (counts : Counts redis value) where
  enforce_counts :
      (scope identifier : String) (limit window : ℕ) (s : S)
      → 0 < limit
      → 0 < window
      → let key = rate_key digest scope identifier in
        let reply = enforce redis digest is_development scope identifier limit window s in
        (reply.0 ≡ judge limit (value key s + 1))
        × (value key reply.1 ≡ value key s + 1)
        × ((key' : String) → (key == key') ≡ false → value key' reply.1 ≡ value key' s)
  unfolding enforce
  enforce_counts scope identifier limit window s some_limit some_window =
      let key = rate_key digest scope identifier in
      let s1 : S = (redis.incr key s).1 in
      (
        ground (arith, counts.answers key s, counts.expires key window s1),
        ground (
          arith,
          counts.answers key s,
          counts.adds key s,
          counts.expires key window s1,
          counts.stays key key window s1,
        ),
        λ key' other. ground (
          arith,
          counts.answers key s,
          counts.keeps key key' s other,
          counts.expires key window s1,
          counts.stays key key' window s1,
        ),
      )

  -- Within one window, whatever the order of the requests and whatever counts on other keys, the requests that count on a
  -- key are admitted until its counter reaches the limit, and no further.
  pub admissions_lem :
      (key scope : String) (limit window : ℕ) (ids : List String) (s : S)
      → 0 < limit
      → 0 < window
      → admissions redis digest is_development key scope limit window ids s
          + min (value key s) limit
        ≡ min (value key s + count_where (λ i. rate_key digest scope i == key) ids) limit
  admissions_lem key scope limit window [] s some_limit some_window = ground arith
  admissions_lem key scope limit window (identifier ∷ ids) s some_limit some_window =
      let own = rate_key digest scope identifier in
      let s1 : S = (enforce redis digest is_development scope identifier limit window s).1 in
      let (decided, counted, others) =
        enforce_counts scope identifier limit window s some_limit some_window in
      let later = admissions_lem key scope limit window ids s1 some_limit some_window in
      elim (Bool-cases (own == key)) [
        | inl same ↦
            let own_key : own ≡ key = string_eq_sound own key same in
            let before : value own s ≡ value key s = ap (λ k. value k s) own_key in
            let after : value own s1 ≡ value key s1 = ap (λ k. value k s1) own_key in
            let step =
              next_request (value key s) limit
                (admissions redis digest is_development key scope limit window ids s1)
                (count_where (λ i. rate_key digest scope i == key) ids)
                (enforce redis digest is_development scope identifier limit window s).0
                (ground arith) (ground arith) in
            ground arith
        | inr other ↦ let kept = others key other in ground arith
      ]
