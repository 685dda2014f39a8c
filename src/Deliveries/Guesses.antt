-- ===== src/Deliveries/Guesses.antt =====
-- How many guesses of a delivery code there are.
use ai_powered_market.Capabilities.{require_roles}
use ai_powered_market.Deliveries.{locked_delivery_order}
use ai_powered_market.Deliveries.Proofs.{
  Limit, ProofSubmit, check_guess, is_locked, issue_delivery_proof_challenge, locked_error,
  otp_max_challenges, otp_max_verification_attempts, proves, save_proof,
}
use ai_powered_market.Effects.{enqueue_notification, record_admin_action}
use ai_powered_market.Model.Db.{Db}
use ai_powered_market.Model.Keys.{delivery_key, order_key, proof_key}
use ai_powered_market.Model.Market.{User}
use ai_powered_market.Model.Orders.{Delivery, DeliveryProof}
use ai_powered_market.Model.Status.{delivery_financial_write}
use ai_powered_market.Prelude.{
  Bool-cases, IsKeyed, Option-cases, arith, find_by, find_by-put_same, find_by_passes, get,
  if◌then◌else◌, inl, inr, is_some, leb, nat_eq, none, some, true, ℕ, ◌+◌, ◌<◌, ◌==◌, ◌≡◌, ◌≢◌, ◌≤◌,
}
use ai_powered_market.Riders.{require_assigned_rider, require_assigned_rider_lem}
use ai_powered_market.Session.{Error, Result, Result-cases, err, ok}

abbrev pub WithinBudget : DeliveryProof → Type 0
WithinBudget p = p.verification_attempt_count ≤ otp_max_verification_attempts

abbrev guessed : ℕ → DeliveryProof → DeliveryProof
guessed now p =
    let attempts = p.verification_attempt_count + 1 in
    record p {
      verification_attempt_count = attempts;
      verification_locked_at =
          if leb otp_max_verification_attempts attempts then some now else p.verification_locked_at;
      updated_at = now;
    }

abbrev proven : ℕ → ProofSubmit → DeliveryProof → DeliveryProof
proven now payload p = record p {
  verified_at = some now;
  evidence_url = payload.evidence_url;
  recipient_name = payload.recipient_name;
  notes = payload.notes;
  updated_at = now;
}

-- A guess at the delivery's stored code, the only row of its key. Whatever it returns, the count of
-- failed guesses does not fall and stays within five. The proof becomes verified only where the
-- code is right and not expired and fewer than five guesses had failed; a wrong code on an
-- unverified proof takes one guess away, and the answer to it is an error.
pub check_guess_lem :
    (limit : Limit) (sha256 : ℕ → ℕ) (now : ℕ) (payload : ProofSubmit) (user : User) (d : Delivery)
    (p : DeliveryProof) (db : Db) {r : Result DeliveryProof} {db' : Db}
    → IsKeyed proof_key db.proofs
    → find_by (proves d.id) db.proofs ≡ some p
    → WithinBudget p
    → check_guess limit sha256 now payload user d p db ≡ ok (r, db')
    → (p' : DeliveryProof) × (find_by (proves d.id) db'.proofs ≡ some p')
      × (p.verification_attempt_count ≤ p'.verification_attempt_count)
      × WithinBudget p'
      × (p.verified_at ≡ none
          → p'.verified_at ≢ none
          → (p.otp_hash ≡ sha256 payload.otp)
            × (now < p.otp_expires_at)
            × (p.verification_attempt_count < otp_max_verification_attempts))
      × (p.verified_at ≡ none
          → p.otp_hash ≢ sha256 payload.otp
          → (p'.verification_attempt_count ≡ p.verification_attempt_count + 1)
            × ((e : Error) × (r ≡ err e)))
unfolding check_guess save_proof record_admin_action
check_guess_lem limit sha256 now payload user d p db {r} {db'} k f w h =
    let passes = find_by_passes (proves d.id) db.proofs p f in
    let wrong = guessed now p in
    let right = proven now payload p in
    let same = find_by-put_same proof_key (proves d.id) p in
    elim (Bool-cases (is_some p.verified_at)) [
      | inl v ↦ (p, ground arith, ground arith, ground arith, ground arith, ground arith)
      | inr v ↦ elim (Bool-cases (p.otp_hash == sha256 payload.otp)) [
        | inl e ↦ (
          right,
          ground (arith, same right db.proofs k f, passes),
          ground arith,
          ground arith,
          ground arith,
          ground arith,
        )
        | inr e ↦ (
          wrong,
          ground (arith, same wrong db.proofs k f, passes),
          ground arith,
          ground arith,
          ground arith,
          ground arith,
        )
      ]
    ]

-- Once five guesses have failed, or the lock is set, no further guess at an unverified proof is looked at,
-- a right one neither.
pub locked_stays_locked :
    (limit : Limit) (sha256 : ℕ → ℕ) (now : ℕ) (payload : ProofSubmit) (user : User) (d : Delivery)
    (p : DeliveryProof) (db : Db)
    → p.verified_at ≡ none
    → is_locked p ≡ true
    → check_guess limit sha256 now payload user d p db ≡ err locked_error
unfolding check_guess
locked_stays_locked limit sha256 now payload user d p db v l = ground arith

-- A new code never gives guesses back: the count of failed guesses and the lock stay, and a sixth code is
-- never sent.
pub challenge_keeps_guesses :
    (limit : Limit) (sha256 : ℕ → ℕ) (otp now delivery_id : ℕ) (user : User) (d : Delivery)
    (p : DeliveryProof) (db : Db) {p' : DeliveryProof} {db' : Db}
    → get delivery_key delivery_id db.deliveries ≡ some d
    → find_by (proves d.id) db.proofs ≡ some p
    → issue_delivery_proof_challenge limit sha256 otp now delivery_id user db ≡ ok (p', db')
    → (p'.verification_attempt_count ≡ p.verification_attempt_count)
      × (p'.verification_locked_at ≡ none)
      × (p'.challenge_count ≡ p.challenge_count + 1)
      × (p'.challenge_count ≤ otp_max_challenges)
      × (p.verified_at ≡ none)
unfolding issue_delivery_proof_challenge locked_delivery_order require_roles save_proof
    enqueue_notification record_admin_action
challenge_keeps_guesses limit sha256 otp now delivery_id user d p db s f h =
    elim (Option-cases (get order_key d.order_id db.orders)) [
      | inl absent ↦ absurd (ground arith)
      | inr (o, ordered) ↦
          elim (Result-cases (require_assigned_rider d user delivery_financial_write db)) [
            | inl (u, db1, passed) ↦
                ground (arith, require_assigned_rider_lem d user delivery_financial_write db passed)
            | inr (x, raised) ↦ absurd (ground arith)
          ]
    ]
