-- ===== src/Webhooks/Delivery.antt =====
-- What a round of the webhook worker does: claim order, backoff, dead letters.
use agenticops.Prelude.{
  ℕ, zero, suc, ◌+◌, ◌-◌, ◌^◌, ◌≤◌, ◌<◌, ◌≡◌, ◌≢◌, subst, inl, inr, Bool, true, ◌&&◌, Option, none,
  some, List, [], ◌∷◌, arith, find?, All, String, Option-cases, Bool-cases,
}
use agenticops.Webhooks.Store.{WebhookEndpoint, DeliveryStatus, WebhookDelivery, is_delivery}
use agenticops.Webhooks.Worker.{claimable, before, first_due, backoff, failed}

power_pos : (n : ℕ) → 1 ≤ 2 ^ n
power_pos zero = omega arith
power_pos (suc n) = omega (arith, power_pos n)

power_mono : (n k : ℕ) → n ≤ k → 2 ^ n ≤ 2 ^ k
power_mono zero k h = power_pos k
power_mono (suc n) zero h = absurd (omega (arith, h))
power_mono (suc n) (suc k) h = omega (arith, power_mono n k (omega (arith, h)))

-- The delay before a retry lies between 5 seconds and an hour and is no shorter after more
-- attempts.
pub backoff_bounds :
    (n k : ℕ) → n ≤ k → (5 ≤ backoff n) × (backoff n ≤ 3600) × (backoff n ≤ backoff k)
unfolding backoff
backoff_bounds n k h = ground (arith, power_pos (n - 1), power_mono (n - 1) (k - 1))

-- Every row is found under its identifier.
unfoldable pub IsKeyed : List WebhookDelivery → Type 0
IsKeyed [] = Unit
IsKeyed (d ∷ ds) = (find? (is_delivery d.id) ds ≡ none) × IsKeyed ds

pub first_due-listed :
    (now : ℕ) (ds : List WebhookDelivery) (d : WebhookDelivery)
    → IsKeyed ds
    → first_due now ds ≡ some d
    → find? (is_delivery d.id) ds ≡ some d
unfolding first_due find? IsKeyed
first_due-listed now [] d k h = ground arith
first_due-listed now (e ∷ es) d k h = ground (arith, first_due-listed now es d)

IsLeast : ℕ → WebhookDelivery → List WebhookDelivery → Type 0
IsLeast now d ds = All (λ e. claimable now e ≡ true → before d e ≡ true) ds

IsLeast-of_none :
    (now : ℕ) (d : WebhookDelivery) (ds : List WebhookDelivery)
    → first_due now ds ≡ none
    → IsLeast now d ds
unfolding first_due IsLeast
IsLeast-of_none now d [] h = tt
IsLeast-of_none now d (e ∷ es) h = (ground arith, IsLeast-of_none now d es (ground arith))

IsLeast-before :
    (now : ℕ) (c d : WebhookDelivery) (ds : List WebhookDelivery)
    → before c d ≡ true
    → IsLeast now d ds
    → IsLeast now c ds
unfolding IsLeast before
IsLeast-before now c d [] h l = tt
IsLeast-before now c d (e ∷ es) h l = (ground arith, IsLeast-before now c d es h l.1)

-- The delivery that is claimed is due, and no other that is due comes before it.
pub first_due_least :
    (now : ℕ) (ds : List WebhookDelivery) (d : WebhookDelivery)
    → first_due now ds ≡ some d
    → (claimable now d ≡ true) × All (λ e. claimable now e ≡ true → before d e ≡ true) ds
unfolding first_due before IsLeast
first_due_least now [] d h = absurd (ground arith)
first_due_least now (e ∷ es) d h = elim (Option-cases (first_due now es)) [
  | inl empty ↦ (ground arith, (ground arith, IsLeast-of_none now d es empty))
  | inr (c, found) ↦
      let ih = first_due_least now es c found in
      elim (Bool-cases (claimable now e && before e c)) [
        | inl first ↦ (ground arith, (ground arith, IsLeast-before now d c es (ground arith) ih.1))
        | inr later ↦
            let same : c ≡ d = ground arith in
            (ground (arith, ih.0), (ground arith, subst (λ x. IsLeast now x es) same ih.1))
      ]
]

-- What an attempt leaves of a delivery: it is delivered, dead, or to be tried again; the lease is
-- given back; a retry has attempts left and waits for the backoff.
pub record IsSettled (now : ℕ) (allowed : ℕ) (old new : WebhookDelivery) : Type 0 where
  pub decided : (new.status ≢ DeliveryStatus.pending) × (new.status ≢ DeliveryStatus.delivering)
  pub released : new.lease_expires_at ≡ none
  pub attempts_left : new.status ≡ DeliveryStatus.retry → old.attempt_count < allowed
  pub waits :
      new.status ≡ DeliveryStatus.retry → new.next_attempt_at ≡ now + backoff old.attempt_count
  pub counted : new.attempt_count ≡ old.attempt_count
  pub same_id : new.id ≡ old.id

abbrev pub allowed_attempts : Option WebhookEndpoint → ℕ
allowed_attempts none = 1
allowed_attempts (some e) = e.max_attempts

pub failed-IsSettled :
    (now : ℕ) (endpoint : Option WebhookEndpoint) (code : String) (retryable : Bool)
    (old d : WebhookDelivery)
    → d.attempt_count ≡ old.attempt_count
    → d.id ≡ old.id
    → IsSettled now (allowed_attempts endpoint) old (failed now endpoint code retryable d)
unfolding failed
failed-IsSettled now none code retryable old d h i = ground arith
failed-IsSettled now (some e) code retryable old d h i = ground arith
