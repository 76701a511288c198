-- ===== src/Webhooks/Store.antt =====
-- The tables of backend/models/webhook.py. `created_at` and `updated_at` are the database's own.
use agenticops.Prelude.{ℕ, String, Bool, true, false, Option, List, ◌==◌}
use agenticops.Prelude.Json.{Json}

pub record WebhookEndpoint : Type 0 where
  pub id : ℕ
  pub url : String
  pub enabled : Bool
  pub event_types : List String
  pub secret_encrypted : String
  pub timeout_seconds : ℕ
  pub max_attempts : ℕ

pub record OutboxEvent : Type 0 where
  pub id : ℕ
  pub event_id : String
  pub event_type : String
  pub payload_version : ℕ
  pub aggregate_type : String
  pub aggregate_id : String
  pub payload : Json

-- The texts that the status column takes.
pub data DeliveryStatus : Type 0 where
  pending delivering delivered retry dead : DeliveryStatus

pub record WebhookDelivery : Type 0 where
  pub id : ℕ
  pub outbox_event_id : ℕ
  pub endpoint_id : ℕ
  pub status : DeliveryStatus
  pub attempt_count : ℕ
  pub next_attempt_at : ℕ
  pub lease_expires_at : Option ℕ
  pub last_http_status : Option ℕ
  pub last_error_code : Option String
  pub response_digest : Option String
  pub delivered_at : Option ℕ

-- The tables, and the identifiers that the database gives out next.
pub record WebhookDb : Type 0 where
  pub endpoints : List WebhookEndpoint
  pub events : List OutboxEvent
  pub deliveries : List WebhookDelivery
  pub next_event_id : ℕ
  pub next_delivery_id : ℕ

-- The queries by primary key.
abbrev pub is_endpoint : ℕ → WebhookEndpoint → Bool
is_endpoint n e = e.id == n

abbrev pub is_event : ℕ → OutboxEvent → Bool
is_event n e = e.id == n

abbrev pub is_delivery : ℕ → WebhookDelivery → Bool
is_delivery n d = d.id == n

-- The statuses from which a delivery is sent.
unfoldable pub is_open : DeliveryStatus → Bool
is_open pending = true
is_open retry = true
is_open delivering = true
is_open delivered = false
is_open dead = false
