-- ===== src/Webhooks/Worker.antt =====
-- `WebhookWorker`: a claim of the delivery that is due first, its sending, and what a failure
-- leaves. `Post` stands for the decryption of the secret, the signing and the HTTP client.
use agenticops.Prelude.{
  ℕ, ◌+◌, ◌-◌, ◌*◌, ◌^◌, min, String, Bool, true, false, not, ◌&&◌, ◌||◌, Option, none, some, List,
  [], ◌∷◌, ltb, leb, ◌==◌, find?, update_first, format, str, take_text, if◌then◌else◌,
}
use agenticops.Prelude.Exec.{Result, ok, err}
use agenticops.Webhooks.Store.{
  WebhookEndpoint, OutboxEvent, DeliveryStatus, WebhookDelivery, WebhookDb, is_endpoint, is_event,
  is_delivery,
}
use agenticops.Webhooks.Security.{Net, ValidatedWebhookUrl, validate_webhook_url}

-- A response with its status code and the digest of its body, or an exception by its type's name:
-- `raised` if it is an `httpx.HTTPError`, an `OSError` or a `ValueError`, which the worker catches,
-- `escaped` if it is any other, such as the `InvalidToken` of a secret that cannot be decrypted.
pub data Sent : Type 0 where
  response : ℕ → String → Sent
  raised : String → Sent
  escaped : String → Sent

abbrev pub Post : Type 0
Post = WebhookEndpoint → OutboxEvent → ValidatedWebhookUrl → ℕ → Sent

-- `settings.webhook_lease_seconds` and `settings.webhook_allow_http`
pub record WebhookSettings : Type 0 where
  pub webhook_lease_seconds : ℕ
  pub webhook_allow_http : Bool

expired : ℕ → Option ℕ → Bool
expired now none = false
expired now (some t) = ltb t now

-- The filter of the claim: due, or sent by a worker whose lease ran out.
unfoldable pub claimable : ℕ → WebhookDelivery → Bool
unfolding expired
claimable now d = elim d.status [
  | DeliveryStatus.pending ↦ leb d.next_attempt_at now
  | DeliveryStatus.retry ↦ leb d.next_attempt_at now
  | DeliveryStatus.delivering ↦ expired now d.lease_expires_at
  | DeliveryStatus.delivered ↦ false
  | DeliveryStatus.dead ↦ false
]

-- `order_by(next_attempt_at, id)`
unfoldable pub before : WebhookDelivery → WebhookDelivery → Bool
before a b =
    ltb a.next_attempt_at b.next_attempt_at
    || ((a.next_attempt_at == b.next_attempt_at) && leb a.id b.id)

earlier : WebhookDelivery → Option WebhookDelivery → WebhookDelivery
unfolding before
earlier d none = d
earlier d (some e) = if before d e then d else e

unfoldable pub first_due : ℕ → List WebhookDelivery → Option WebhookDelivery
unfolding claimable earlier
first_due now [] = none
first_due now (d ∷ ds) =
    let rest = first_due now ds in if claimable now d then some (earlier d rest) else rest

unfoldable pub claimed : WebhookSettings → ℕ → WebhookDelivery → WebhookDelivery
claimed settings now d = record d {
  status = DeliveryStatus.delivering;
  attempt_count = d.attempt_count + 1;
  lease_expires_at = some (now + settings.webhook_lease_seconds);
}

-- `min(3600, 5 * (2 ** max(0, attempt_count - 1)))`
unfoldable pub backoff : ℕ → ℕ
backoff attempt_count = min 3600 (5 * 2 ^ (attempt_count - 1))

attempts_allowed : Option WebhookEndpoint → ℕ
attempts_allowed none = 1
attempts_allowed (some endpoint) = endpoint.max_attempts

-- `_fail`
unfoldable pub failed :
    ℕ → Option WebhookEndpoint → String → Bool → WebhookDelivery → WebhookDelivery
unfolding attempts_allowed backoff
failed now endpoint error_code retryable d =
    let exhausted = leb (attempts_allowed endpoint) d.attempt_count in
    if retryable && not exhausted
    then record d {
      status = DeliveryStatus.retry;
      last_error_code = some (take_text 120 error_code);
      lease_expires_at = none;
      next_attempt_at = now + backoff d.attempt_count;
    }
    else record d {
      status = DeliveryStatus.dead;
      last_error_code = some (take_text 120 error_code);
      lease_expires_at = none;
    }

unfoldable pub succeeded : ℕ → ℕ → String → WebhookDelivery → WebhookDelivery
succeeded now code digest d = record d {
  status = DeliveryStatus.delivered;
  last_http_status = some code;
  response_digest = some digest;
  delivered_at = some now;
  lease_expires_at = none;
  last_error_code = none;
}

unfoldable pub retryable_code : ℕ → Bool
retryable_code code = (code == 408) || ((code == 425) || ((code == 429) || leb 500 code))

-- How an attempt ends: the exception that leaves the worker, if any, and the delivery's row.
abbrev pub Attempt : Type 0
Attempt = Option String × WebhookDelivery

unfoldable pub answered : ℕ → WebhookEndpoint → Sent → WebhookDelivery → Attempt
unfolding succeeded failed retryable_code
answered now endpoint (response code digest) d =
    if leb 200 code && ltb code 300 then (none, succeeded now code digest d) else (
      none,
      failed now (some endpoint) (format ("http_" ∷ str code ∷ [])) (retryable_code code)
          (record d { last_http_status = some code; response_digest = some digest }),
    )
answered now endpoint (raised name) d = (none, failed now (some endpoint) name true d)
answered now endpoint (escaped name) d = (some name, d)

-- What `run_once` comes to: its answer, or an exception.
pub data Round : Type 0 where
  returned : Bool → Round
  round_raised : String → Round

unfoldable pub round_of : Option String → Round
round_of none = returned true
round_of (some name) = round_raised name

module _ (net : Net) (post : Post) (settings : WebhookSettings) (now : ℕ) where
  -- `validate_webhook_url` raises `UnsafeWebhookURL`, a `ValueError`, which is caught.
  unfoldable pub send : WebhookEndpoint → OutboxEvent → Result ValidatedWebhookUrl → Sent
  send endpoint event (err e) = raised "UnsafeWebhookURL"
  send endpoint event (ok v) = post endpoint event v now

  unfoldable pub attempted : Option WebhookEndpoint → Option OutboxEvent → WebhookDelivery → Attempt
  unfolding send answered failed validate_webhook_url
  attempted none event d = (none, failed now none "endpoint_unavailable" false d)
  attempted (some endpoint) none d =
      (none, failed now (some endpoint) "endpoint_unavailable" false d)
  attempted (some endpoint) (some event) d =
      if endpoint.enabled
      then answered now endpoint
          (send endpoint event (validate_webhook_url net endpoint.url settings.webhook_allow_http))
          d
      else (none, failed now (some endpoint) "endpoint_unavailable" false d)

  unfoldable pub delivering_now : WebhookDelivery → Bool
  delivering_now d = elim d.status [ DeliveryStatus.delivering ↦ true | _ ↦ false ]

  unfoldable pub delivered_row : WebhookDb → WebhookDelivery → Attempt
  unfolding attempted delivering_now
  delivered_row db d =
      if delivering_now d
      then attempted (find? (is_endpoint d.endpoint_id) db.endpoints)
          (find? (is_event d.outbox_event_id) db.events) d
      else (none, d)

  -- The exception that leaves `_deliver` for the row that it finds.
  unfoldable pub escape_of : WebhookDb → Option WebhookDelivery → Option String
  unfolding delivered_row
  escape_of db none = none
  escape_of db (some d) = (delivered_row db d).0

  -- `_deliver`: the exception that leaves it, if any, with the changed store.
  unfoldable pub deliver : ℕ → WebhookDb → Option String × WebhookDb
  unfolding delivered_row escape_of
  deliver delivery_id db = (
    escape_of db (find? (is_delivery delivery_id) db.deliveries),
    record db {
      deliveries =
          update_first (is_delivery delivery_id) (λ d. (delivered_row db d).1) db.deliveries;
    },
  )

  unfoldable pub run_claimed : Option WebhookDelivery → WebhookDb → Round × WebhookDb
  unfolding claimed deliver round_of
  run_claimed none db = (returned false, db)
  run_claimed (some d) db =
      let r = deliver d.id (record db {
        deliveries = update_first (is_delivery d.id) (claimed settings now) db.deliveries;
      }) in
      (round_of r.0, r.1)

  -- `run_once`
  unfoldable pub run_once : WebhookDb → Round × WebhookDb
  unfolding run_claimed first_due
  run_once db = run_claimed (first_due now db.deliveries) db
