-- ===== src/Webhooks/Enqueue.antt =====
-- `WebhookService`: an event with its payload cleaned, and a delivery for each endpoint that
-- wants it. The event's uuid is drawn by the caller.
use agenticops.Prelude.{
  ℕ, zero, suc, ◌+◌, String, Bool, false, ◌&&◌, ◌||◌, Option, none, some, List, [], ◌∷◌, ◌++◌, any,
  ◌==◌, where_all, contains_text, lower, take_text, str_mem, if◌then◌else◌,
}
use agenticops.Prelude.Json.{
  Json, Items, Fields, null, bool, num, text, arr, obj, nil, cons, end, field, put_field,
}
use agenticops.Webhooks.Store.{
  WebhookEndpoint, OutboxEvent, DeliveryStatus, WebhookDelivery, WebhookDb,
}

abbrev sensitive_words : List String
sensitive_words = "password" ∷ "secret" ∷ "token" ∷ "credential" ∷ "private_key" ∷ []

unfoldable pub is_sensitive : String → Bool
unfolding any contains_text lower
is_sensitive key = any (λ item. contains_text item (lower key)) sensitive_words

-- `clean`: a value under a sensitive key is redacted; lists and dicts keep 200 entries, texts 4096
-- characters, keys 120. Two keys that agree that far become one.
unfoldable pub redacted_or : String → Json → Json
unfolding is_sensitive
redacted_or key v = if is_sensitive key then text "<redacted>" else v

unfoldable mutual
  unfolding redacted_or

  pub clean_value : Json → Json
  clean_value null = null
  clean_value (bool b) = bool b
  clean_value (num n) = num n
  clean_value (text s) = text (take_text 4096 s)
  clean_value (arr vs) = arr (clean_items 200 vs)
  clean_value (obj fs) = obj (clean_fields 200 fs end)

  pub clean_items : ℕ → Items → Items
  clean_items zero vs = nil
  clean_items (suc n) nil = nil
  clean_items (suc n) (cons v vs) = cons (redacted_or "" (clean_value v)) (clean_items n vs)

  pub clean_fields : ℕ → Fields → Fields → Fields
  clean_fields zero fs acc = acc
  clean_fields (suc n) end acc = acc
  clean_fields (suc n) (field k v fs) acc =
      clean_fields n fs (put_field (take_text 120 k) (redacted_or k (clean_value v)) acc)

unfoldable pub clean : String → Json → Json
unfolding redacted_or clean_value
clean key v = redacted_or key (clean_value v)

-- `_sanitize`
unfoldable pub sanitize : Fields → Json
unfolding clean
sanitize payload = clean "" (obj payload)

id_mem : ℕ → List ℕ → Bool
id_mem n [] = false
id_mem n (k ∷ ks) = (n == k) || id_mem n ks

-- Whether an endpoint gets the event: it is enabled and named, or no endpoint is named and it
-- subscribes to the event's type or to all.
unfoldable pub is_wanted : Option (List ℕ) → String → WebhookEndpoint → Bool
unfolding id_mem
is_wanted none event_type e =
    e.enabled && (str_mem "*" e.event_types || str_mem event_type e.event_types)
is_wanted (some ids) event_type e = e.enabled && id_mem e.id ids

-- A new row of the delivery table, with the column defaults.
unfoldable pub new_delivery : ℕ → ℕ → ℕ → ℕ → WebhookDelivery
new_delivery now id event_id endpoint_id = record {
  id = id;
  outbox_event_id = event_id;
  endpoint_id = endpoint_id;
  status = DeliveryStatus.pending;
  attempt_count = 0;
  next_attempt_at = now;
  lease_expires_at = none;
  last_http_status = none;
  last_error_code = none;
  response_digest = none;
  delivered_at = none;
}

unfoldable pub add_delivery : ℕ → ℕ → WebhookEndpoint → WebhookDb → WebhookDb
unfolding new_delivery
add_delivery now event_id e db = record db {
  deliveries = db.deliveries ++ new_delivery now db.next_delivery_id event_id e.id ∷ [];
  next_delivery_id = db.next_delivery_id + 1;
}

unfoldable pub add_deliveries : ℕ → ℕ → List WebhookEndpoint → WebhookDb → WebhookDb
unfolding add_delivery
add_deliveries now event_id [] db = db
add_deliveries now event_id (e ∷ es) db =
    add_deliveries now event_id es (add_delivery now event_id e db)

pub record EventRequest : Type 0 where
  pub event_id : String
  pub event_type : String
  pub aggregate_type : String
  pub aggregate_id : String
  pub payload : Fields
  pub endpoint_ids : Option (List ℕ)

unfoldable pub new_event : ℕ → EventRequest → OutboxEvent
unfolding sanitize
new_event id r = record {
  id = id;
  event_id = r.event_id;
  event_type = r.event_type;
  payload_version = 1;
  aggregate_type = r.aggregate_type;
  aggregate_id = r.aggregate_id;
  payload = sanitize r.payload;
}

unfoldable pub enqueue : ℕ → EventRequest → WebhookDb → WebhookDb
unfolding new_event add_deliveries is_wanted where_all
enqueue now r db =
    add_deliveries now db.next_event_id
      (where_all (is_wanted r.endpoint_ids r.event_type) db.endpoints)
      (record db {
        events = db.events ++ new_event db.next_event_id r ∷ [];
        next_event_id = db.next_event_id + 1;
      })
