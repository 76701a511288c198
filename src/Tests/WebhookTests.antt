-- ===== src/Tests/WebhookTests.antt =====
-- One endpoint, two deliveries of which one is due, and a payload with a password.
use agenticops.Prelude.{
  ℕ, zero, suc, ◌≤◌, ◌<◌, ◌≡◌, ◌≢◌, refl, arith, ◌⊎◌, map, where_all, Bool, true, false, Option,
  none, some, List, [], ◌∷◌, All, find?, String, any,
}
use agenticops.Prelude.Exec.{ok}
use agenticops.Prelude.Json.{Fields, text, obj, end, field}
use agenticops.Webhooks.Store.{
  WebhookEndpoint, OutboxEvent, DeliveryStatus, WebhookDelivery, WebhookDb, is_delivery, is_open,
}
use agenticops.Webhooks.Security.{
  Net, ValidatedWebhookUrl, IsPublic, validate_webhook_url, validate_webhook_url-IsPublic,
}
use agenticops.Webhooks.Worker.{
  Post, response, WebhookSettings, returned, claimable, first_due, run_once,
}
use agenticops.Webhooks.Delivery.{IsKeyed}
use agenticops.Webhooks.Rounds.{IsRound, run_once_cases, closed_stays}
use agenticops.Webhooks.Enqueue.{EventRequest, enqueue, is_wanted, is_sensitive, sanitize}
use agenticops.Webhooks.Secrets.{SameFields, no_fields, hidden, shown, alike, sanitize-same}
use agenticops.Webhooks.Fanout.{IsWellFormed, of_event, enqueue_fanout}

abbrev net : Net
net = record {
  urlsplit = λ url. record {
    scheme = "https";
    hostname = some "hooks.example.com";
    username = none;
    password = none;
    fragment = "";
    port = none;
  };
  geturl = λ parsed. "https://hooks.example.com/";
  getaddrinfo = λ host port. some ("93.184.216.34" ∷ []);
  is_global = λ address. true;
}

abbrev unavailable_post : Post
unavailable_post endpoint event url now = response 503 "d"

abbrev settings : WebhookSettings
settings = record { webhook_lease_seconds = 60; webhook_allow_http = false }

abbrev endpoint : WebhookEndpoint
endpoint = record {
  id = 1;
  url = "https://hooks.example.com/";
  enabled = true;
  event_types = "*" ∷ [];
  secret_encrypted = "s";
  timeout_seconds = 10;
  max_attempts = 8;
}

abbrev event : OutboxEvent
event = record {
  id = 1;
  event_id = "e-1";
  event_type = "case.opened";
  payload_version = 1;
  aggregate_type = "case";
  aggregate_id = "7";
  payload = obj end;
}

abbrev delivery : ℕ → DeliveryStatus → ℕ → WebhookDelivery
delivery id status at_time = record {
  id = id;
  outbox_event_id = 1;
  endpoint_id = 1;
  status = status;
  attempt_count = 0;
  next_attempt_at = at_time;
  lease_expires_at = none;
  last_http_status = none;
  last_error_code = none;
  response_digest = none;
  delivered_at = none;
}

abbrev deliveries : List WebhookDelivery
deliveries = delivery 1 DeliveryStatus.dead 10 ∷ delivery 2 DeliveryStatus.pending 20 ∷ []

abbrev webhook_db : WebhookDb
webhook_db = record {
  endpoints = endpoint ∷ [];
  events = event ∷ [];
  deliveries = deliveries;
  next_event_id = 2;
  next_delivery_id = 3;
}

deliveries-IsKeyed : IsKeyed deliveries
unfolding IsKeyed find?
deliveries-IsKeyed = (refl, (refl, tt))

second_due : first_due 100 deliveries ≡ some (delivery 2 DeliveryStatus.pending 20)
unfolding first_due claimable
second_due = refl

first_dead : find? (is_delivery 1) deliveries ≡ some (delivery 1 DeliveryStatus.dead 10)
unfolding find?
first_dead = refl

dead_closed : is_open DeliveryStatus.dead ≡ false
unfolding is_open
dead_closed = refl

run_once_cases_example :
    ((first_due 100 deliveries ≡ none)
      × (run_once net unavailable_post settings 100 webhook_db ≡ (returned false, webhook_db)))
    ⊎ ((d : WebhookDelivery) × (first_due 100 deliveries ≡ some d)
        × IsRound net unavailable_post settings 100 webhook_db d
            (run_once net unavailable_post settings 100 webhook_db))
run_once_cases_example =
    run_once_cases net unavailable_post settings 100 webhook_db deliveries-IsKeyed

closed_stays_example :
    find? (is_delivery 1) (run_once net unavailable_post settings 100 webhook_db).1.deliveries
    ≡ some (delivery 1 DeliveryStatus.dead 10)
closed_stays_example =
    closed_stays net unavailable_post settings 100 webhook_db (delivery 1 DeliveryStatus.dead 10)
      deliveries-IsKeyed first_dead dead_closed

abbrev event_request : EventRequest
event_request = record {
  event_id = "e-2";
  event_type = "approval.requested";
  aggregate_type = "remediation_plan";
  aggregate_id = "3";
  payload = end;
  endpoint_ids = none;
}

webhook_db-IsWellFormed : IsWellFormed webhook_db
webhook_db-IsWellFormed = record {
  keyed = deliveries-IsKeyed;
  fresh_deliveries = (omega arith, (omega arith, tt));
  fresh_events = (omega arith, (omega arith, tt));
}

enqueue_fanout_example :
    map
      (λ d. d.endpoint_id)
      (where_all (of_event 2) (enqueue 100 event_request webhook_db).deliveries)
    ≡ map (λ e. e.id) (where_all (is_wanted none "approval.requested") (endpoint ∷ []))
enqueue_fanout_example = enqueue_fanout 100 event_request webhook_db webhook_db-IsWellFormed

password_sensitive : is_sensitive "Password" ≡ true
unfolding is_sensitive
password_sensitive = refl

abbrev with_password : String → Fields
with_password p = field "Password" (text p) (field "host" (text "sw-1") end)

passwords_apart : SameFields (with_password "hunter2") (with_password "swordfish")
passwords_apart = hidden password_sensitive (shown (alike (text "sw-1")) no_fields)

sanitize-same_example : sanitize (with_password "hunter2") ≡ sanitize (with_password "swordfish")
sanitize-same_example =
    sanitize-same (with_password "hunter2") (with_password "swordfish") passwords_apart

abbrev checked_url : ValidatedWebhookUrl
checked_url = record {
  url = "https://hooks.example.com/";
  hostname = "hooks.example.com";
  addresses = "93.184.216.34" ∷ [];
}

url_passes : validate_webhook_url net "https://hooks.example.com/" false ≡ ok checked_url
unfolding validate_webhook_url agenticops.Prelude.all
url_passes = refl

validate_webhook_url-IsPublic_example : IsPublic net false "https://hooks.example.com/" checked_url
validate_webhook_url-IsPublic_example =
    validate_webhook_url-IsPublic net "https://hooks.example.com/" false checked_url url_passes
