-- ===== src/Webhooks/Fanout.antt =====
-- Which deliveries `enqueue` adds, and that they keep the tables well formed.
use agenticops.Prelude.{
  ℕ, ◌+◌, ◌<◌, ◌≡◌, refl, sym, ◌∙◌, Bool, List, [], ◌∷◌, ◌++◌, map, arith, ◌==◌, find?, where_all,
  where_all-append, All, All-append, ap, find?-append_none,
}
use mathlib.Core.List.{append-nil}
use agenticops.Webhooks.Store.{WebhookEndpoint, WebhookDelivery, WebhookDb, is_delivery}
use agenticops.Webhooks.Enqueue.{
  EventRequest, new_delivery, add_delivery, add_deliveries, is_wanted, enqueue,
}
use agenticops.Webhooks.Delivery.{IsKeyed}

-- The identifiers in use are below those to be given out, and no two deliveries share one.
pub record IsWellFormed (db : WebhookDb) : Type 0 where
  pub keyed : IsKeyed db.deliveries
  pub fresh_deliveries : All (λ d. d.id < db.next_delivery_id) db.deliveries
  pub fresh_events : All (λ d. d.outbox_event_id < db.next_event_id) db.deliveries

unfoldable pub of_event : ℕ → WebhookDelivery → Bool
of_event n d = d.outbox_event_id == n

IsKeyed-snoc :
    (ds : List WebhookDelivery) (d : WebhookDelivery) (n : ℕ)
    → IsKeyed ds
    → All (λ x. x.id < n) ds
    → d.id ≡ n
    → IsKeyed (ds ++ d ∷ [])
unfolding IsKeyed find?
IsKeyed-snoc [] d n k a e = (refl, tt)
IsKeyed-snoc (x ∷ xs) d n k a e = (
  find?-append_none (is_delivery x.id) xs d (ground (arith, a.0)) ∙ k.0,
  IsKeyed-snoc xs d n k.1 a.1 e,
)

below_suc :
    (ds : List WebhookDelivery) (n : ℕ) → All (λ x. x.id < n) ds → All (λ x. x.id < n + 1) ds
below_suc [] n a = tt
below_suc (x ∷ xs) n a = (omega (arith, a.0), below_suc xs n a.1)

events_below_suc :
    (ds : List WebhookDelivery) (n : ℕ)
    → All (λ x. x.outbox_event_id < n) ds
    → All (λ x. x.outbox_event_id < n + 1) ds
events_below_suc [] n a = tt
events_below_suc (x ∷ xs) n a = (omega (arith, a.0), events_below_suc xs n a.1)

add_deliveries-IsWellFormed :
    (now event_id : ℕ) (es : List WebhookEndpoint) (db : WebhookDb)
    → event_id < db.next_event_id
    → IsWellFormed db
    → IsWellFormed (add_deliveries now event_id es db)
unfolding add_deliveries add_delivery new_delivery
add_deliveries-IsWellFormed now event_id [] db b w = w
add_deliveries-IsWellFormed now event_id (e ∷ es) db b w =
    add_deliveries-IsWellFormed now event_id es (add_delivery now event_id e db) b (record {
      keyed = IsKeyed-snoc db.deliveries _ db.next_delivery_id w.keyed w.fresh_deliveries refl;
      fresh_deliveries =
          All-append (λ x. x.id < db.next_delivery_id + 1) db.deliveries _
            (below_suc db.deliveries db.next_delivery_id w.fresh_deliveries) (omega arith, tt);
      fresh_events =
          All-append (λ x. x.outbox_event_id < db.next_event_id) db.deliveries _ w.fresh_events
            (b, tt);
    })

-- If deliveries do not share identifiers and those in use are below those to be given out, then
-- so it is after an event was queued.
pub enqueue-IsWellFormed :
    (now : ℕ) (r : EventRequest) (db : WebhookDb)
    → IsWellFormed db
    → IsWellFormed (enqueue now r db)
unfolding enqueue
enqueue-IsWellFormed now r db w =
    add_deliveries-IsWellFormed now db.next_event_id
      (where_all (is_wanted r.endpoint_ids r.event_type) db.endpoints) _ (omega arith)
      (record {
        keyed = w.keyed;
        fresh_deliveries = w.fresh_deliveries;
        fresh_events = events_below_suc db.deliveries db.next_event_id w.fresh_events;
      })

none_of_event :
    (ds : List WebhookDelivery) (n : ℕ)
    → All (λ x. x.outbox_event_id < n) ds
    → where_all (of_event n) ds ≡ []
unfolding where_all of_event
none_of_event [] n a = refl
none_of_event (x ∷ xs) n a = ground (arith, a.0, none_of_event xs n a.1)

map_snoc {ℓ κ} :
    {A : Type ℓ} {B : Type κ} (f : A → B) (xs : List A) (x : A) (ys : List B)
    → map f (xs ++ x ∷ []) ++ ys ≡ map f xs ++ f x ∷ ys
map_snoc f [] x ys = refl
map_snoc f (z ∷ zs) x ys = ap (λ t. f z ∷ t) (map_snoc f zs x ys)

only_row :
    (event_id : ℕ) (d : WebhookDelivery)
    → d.outbox_event_id ≡ event_id
    → where_all (of_event event_id) (d ∷ []) ≡ d ∷ []
unfolding where_all of_event
only_row event_id d h = ground arith

add_deliveries_rows :
    (now event_id : ℕ) (es : List WebhookEndpoint) (db : WebhookDb)
    → map
        (λ d. d.endpoint_id)
        (where_all (of_event event_id) (add_deliveries now event_id es db).deliveries)
      ≡ map (λ d. d.endpoint_id) (where_all (of_event event_id) db.deliveries) ++ map (λ e. e.id) es
unfolding add_deliveries add_delivery new_delivery of_event where_all
add_deliveries_rows now event_id [] db =
    sym (append-nil (map (λ d. d.endpoint_id) (where_all (of_event event_id) db.deliveries)))
add_deliveries_rows now event_id (e ∷ es) db =
    let new = new_delivery now db.next_delivery_id event_id e.id in
    add_deliveries_rows now event_id es (add_delivery now event_id e db)
    ∙ ap (λ xs. map (λ d. d.endpoint_id) xs ++ map (λ x. x.id) es)
        (where_all-append (of_event event_id) db.deliveries (new ∷ [])
          ∙ ap (λ xs. where_all (of_event event_id) db.deliveries ++ xs)
              (only_row event_id new refl))
    ∙ map_snoc (λ d. d.endpoint_id) (where_all (of_event event_id) db.deliveries) new
        (map (λ x. x.id) es)

-- In well-formed tables, each endpoint that wants a queued event gets one delivery of it, in the
-- endpoints' order, and no other endpoint gets one.
pub enqueue_fanout :
    (now : ℕ) (r : EventRequest) (db : WebhookDb)
    → IsWellFormed db
    → map (λ d. d.endpoint_id) (where_all (of_event db.next_event_id) (enqueue now r db).deliveries)
      ≡ map (λ e. e.id) (where_all (is_wanted r.endpoint_ids r.event_type) db.endpoints)
unfolding enqueue
enqueue_fanout now r db w =
    add_deliveries_rows now db.next_event_id
      (where_all (is_wanted r.endpoint_ids r.event_type) db.endpoints) _
    ∙ ap
        (λ xs.
          map (λ d. d.endpoint_id) xs
          ++ map (λ e. e.id) (where_all (is_wanted r.endpoint_ids r.event_type) db.endpoints))
        (none_of_event db.deliveries db.next_event_id w.fresh_events)
