-- ===== src/Deliveries/Proofs.antt =====
-- backend/app/api/v1/routes/delivery_operations.py, the one-time code that proves a delivery: a code is
-- sent, and guesses are counted. The rate limiter's answer, the random code and the SHA-256 digest
-- are parameters; codes and digests are numbers. A handler that raises after its own commit returns
-- the error as a value.
use ai_powered_market.Capabilities.{require_roles}
use ai_powered_market.Deliveries.{locked_delivery_order}
use ai_powered_market.Effects.{enqueue_notification, record_admin_action}
use ai_powered_market.Model.Keys.{proof_key}
use ai_powered_market.Model.Market.{User}
use ai_powered_market.Model.Orders.{Delivery, DeliveryProof, Order}
use ai_powered_market.Model.Status.{
  UserRole, admin, delivery_financial_write, delivery_status_eq, order_status_eq, out_for_delivery,
  picked_up, role_eq,
}
use ai_powered_market.Prelude.{
  Bool, Option, String, [], find_by, if◌then◌else◌, insert, is_some, leb, ltb, nat_eq, none, not,
  put, some, suc, ℕ, ◌!=◌, ◌&&◌, ◌*◌, ◌+◌, ◌==◌, ◌||◌, ◌∷◌,
}
use ai_powered_market.Riders.{require_assigned_rider}
use ai_powered_market.Session.{
  Action, Error, Result, err, gets, http, modify, ok, or_raise, pure, raise, raise_if, when, ◌>>=◌,
  ◌>>◌,
}

abbrev pub otp_ttl_seconds : ℕ
otp_ttl_seconds = 15 * 60

abbrev pub otp_resend_cooldown_seconds : ℕ
otp_resend_cooldown_seconds = 60

abbrev pub otp_max_challenges : ℕ
otp_max_challenges = 5

abbrev pub otp_max_verification_attempts : ℕ
otp_max_verification_attempts = 5

-- What `rate_limiter.enforce` does.
pub data Limit : Type 0 where
  allowed exceeded unavailable : Limit

-- `_limit_proof_requests`
abbrev limit_proof_requests : Limit → Action (Unit {0})
limit_proof_requests allowed db = pure tt db
limit_proof_requests exceeded db =
    raise (http 429 "Too many delivery code requests. Try again later.") db
limit_proof_requests unavailable db =
    raise (http 503 "Delivery code service is temporarily unavailable.") db

abbrev pub is_locked : DeliveryProof → Bool
is_locked proof =
    is_some proof.verification_locked_at
    || leb otp_max_verification_attempts proof.verification_attempt_count

abbrev pub locked_error : Error
locked_error = http 429 "Delivery code verification is locked. Contact support."

-- `_require_unlocked_proof`
abbrev require_unlocked_proof : DeliveryProof → Action (Unit {0})
require_unlocked_proof proof = raise_if (is_locked proof) locked_error

abbrev pub proves : ℕ → DeliveryProof → Bool
proves delivery_id p = p.delivery_id == delivery_id

abbrev last_challenge : DeliveryProof → ℕ
last_challenge proof = elim proof.last_challenge_at [ some t ↦ t | none ↦ proof.updated_at ]

abbrev require_new_challenge : ℕ → Option DeliveryProof → Action (Unit {0})
require_new_challenge now none db = pure tt db
require_new_challenge now (some proof) db =
    (do
      raise_if (is_some proof.verified_at)
          (http 409 "Delivery proof is already verified. Continue completion.")
      require_unlocked_proof proof
      raise_if (leb otp_max_challenges proof.challenge_count)
          (http 429 "Delivery code request limit reached. Contact support.")
      raise_if (ltb now (last_challenge proof + otp_resend_cooldown_seconds))
          (http 429 "Wait before requesting another delivery code."))
      db

unfoldable pub save_proof : ℕ → DeliveryProof → Action DeliveryProof
save_proof now proof = do
  let row = record proof { updated_at = now }
  modify (λ db. record db { proofs = put proof_key row db.proofs })
  pure row

abbrev new_proof : ℕ → ℕ → ℕ → ℕ → DeliveryProof
new_proof id now delivery_id digest = record {
  id = id;
  delivery_id = delivery_id;
  otp_hash = digest;
  otp_expires_at = now + otp_ttl_seconds;
  last_challenge_at = some now;
  challenge_count = 1;
  verification_attempt_count = 0;
  verification_locked_at = none;
  verified_at = none;
  evidence_url = none;
  recipient_name = none;
  notes = none;
  updated_at = now;
}

-- A new code for the delivery; the count of failed guesses is kept.
abbrev store_challenge : ℕ → ℕ → ℕ → Option DeliveryProof → Action DeliveryProof
store_challenge now delivery_id digest none db =
    (do
      id ← gets (λ db. db.next_id)
      let proof = new_proof id now delivery_id digest
      modify (λ db. record db { next_id = suc db.next_id; proofs = insert proof db.proofs })
      pure proof)
      db
store_challenge now delivery_id digest (some proof) db =
    save_proof now
      (record proof {
        otp_hash = digest;
        otp_expires_at = now + otp_ttl_seconds;
        last_challenge_at = some now;
        challenge_count = proof.challenge_count + 1;
      })
      db

abbrev awaits_proof : Delivery × Order → Bool
awaits_proof both = both.0.status == picked_up && both.1.status == out_for_delivery

unfoldable pub issue_delivery_proof_challenge :
    Limit → (ℕ → ℕ) → ℕ → ℕ → ℕ → User → Action DeliveryProof
issue_delivery_proof_challenge limit sha256 otp now delivery_id user = do
  require_roles (UserRole.delivery ∷ admin ∷ []) user
  both ← locked_delivery_order delivery_id
  require_assigned_rider both.0 user delivery_financial_write
  raise_if (not (awaits_proof both)) (http 409 "Proof challenge is available only after pickup")
  found ← gets (λ db. find_by (proves both.0.id) db.proofs)
  require_new_challenge now found
  limit_proof_requests limit
  proof ← store_challenge now both.0.id (sha256 otp) found
  enqueue_notification both.1.user_id "delivery.otp"
  when (user.role == admin) (
      record_admin_action user "delivery.proof_challenge_issued" delivery_financial_write both.0.id
        (some "privileged_delivery_proof_challenge"))
  pure proof

-- `DeliveryProofSubmit`
pub record ProofSubmit : Type 0 where
  pub otp : ℕ
  pub evidence_url : Option String
  pub recipient_name : Option String
  pub notes : Option String

-- A wrong code is counted and committed, and the error is raised after that.
abbrev count_guess : ℕ → DeliveryProof → Action (Result DeliveryProof)
count_guess now proof db =
    (do
      let attempts = proof.verification_attempt_count + 1
      let locked = leb otp_max_verification_attempts attempts
      save_proof now (record proof {
        verification_attempt_count = attempts;
        verification_locked_at = if locked then some now else proof.verification_locked_at;
      })
      pure (err (if locked then locked_error else http 422 "Invalid delivery verification code")))
      db

abbrev pub accept_proof :
    ℕ → ProofSubmit → User → Delivery → DeliveryProof → Action (Result DeliveryProof)
accept_proof now payload user delivery proof db =
    (do
      verified ← save_proof now (record proof {
        verified_at = some now;
        evidence_url = payload.evidence_url;
        recipient_name = payload.recipient_name;
        notes = payload.notes;
      })
      when (user.role == admin) (
          record_admin_action user "delivery.proof_verified" delivery_financial_write delivery.id
            (some "privileged_delivery_proof_verification"))
      pure (ok verified))
      db

-- From the look at the proof on.
unfoldable pub check_guess :
    Limit
    → (ℕ → ℕ)
    → ℕ
    → ProofSubmit
    → User
    → Delivery
    → DeliveryProof
    → Action (Result DeliveryProof)
check_guess limit sha256 now payload user delivery proof =
    if is_some proof.verified_at then pure (ok proof) else (do
      require_unlocked_proof proof
      limit_proof_requests limit
      raise_if (leb proof.otp_expires_at now) (http 409 "Delivery verification code expired")
      if proof.otp_hash != sha256 payload.otp
          then count_guess now proof
          else accept_proof now payload user delivery proof)

unfoldable pub verify_delivery_proof :
    Limit → (ℕ → ℕ) → ℕ → ℕ → ProofSubmit → User → Action (Result DeliveryProof)
verify_delivery_proof limit sha256 now delivery_id payload user = do
  require_roles (UserRole.delivery ∷ admin ∷ []) user
  both ← locked_delivery_order delivery_id
  require_assigned_rider both.0 user delivery_financial_write
  raise_if (not (awaits_proof both)) (http 409 "Delivery proof can only be verified after pickup")
  found ← gets (λ db. find_by (proves both.0.id) db.proofs)
  proof ← or_raise found (http 409 "Generate a delivery verification challenge first")
  check_guess limit sha256 now payload user both.0 proof
