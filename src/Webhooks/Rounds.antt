-- ===== src/Webhooks/Rounds.antt =====
-- A round of the webhook worker: which delivery it sends, what it leaves of it, and what stays.
use agenticops.Prelude.{
  ℕ, String, ◌≡◌, ◌≢◌, sym, subst, ◌∙◌, refl, ◌⊎◌, inl, inr, true, false, Option, none, some, [],
  ◌∷◌, arith, find?, ==_refl, List, update_first, find?-update_self, find?-update_other,
  Option-cases, update_first_twice, if-both, leb, ltb, ◌&&◌, format, str, ap,
}
use agenticops.Webhooks.Store.{
  WebhookEndpoint, OutboxEvent, WebhookDelivery, WebhookDb, is_endpoint, is_event, is_delivery,
  is_open,
}
use agenticops.Webhooks.Security.{Net, validate_webhook_url}
use agenticops.Webhooks.Worker.{
  Attempt, Round, returned, round_of, escaped, escape_of, retryable_code, succeeded, Post,
  WebhookSettings, Sent, response, raised, claimable, first_due, claimed, answered, send, attempted,
  delivering_now, deliver, delivered_row, run_claimed, run_once,
}
use agenticops.Webhooks.Delivery.{
  IsKeyed, IsSettled, allowed_attempts, failed-IsSettled, first_due-listed, first_due_least,
}

-- How an attempt at a delivery may end: settled, or, where an exception leaves the worker, with the
-- row as it was claimed.
abbrev pub IsEnded : ℕ → ℕ → WebhookDelivery → Attempt → Type 0
IsEnded now allowed d a =
    ((a.0 ≡ none) × IsSettled now allowed d a.1) ⊎ ((name : String) × (a.0 ≡ some name) × (a.1 ≡ d))

answered-IsEnded :
    (now : ℕ) (e : WebhookEndpoint) (sent : Sent) (d : WebhookDelivery)
    → IsEnded now e.max_attempts d (answered now e sent d)
unfolding answered succeeded
answered-IsEnded now e (response code digest) d =
    if-both (IsEnded now e.max_attempts d) (leb 200 code && ltb code 300) (inl (refl, ground arith))
      (inl (
        refl,
        failed-IsSettled now (some e) (format ("http_" ∷ str code ∷ [])) (retryable_code code) d
            (record d { last_http_status = some code; response_digest = some digest }) refl refl,
      ))
answered-IsEnded now e (raised name) d =
    inl (refl, failed-IsSettled now (some e) name true d d refl refl)
answered-IsEnded now e (escaped name) d = inr (name, refl, refl)

module _ (net : Net) (post : Post) (settings : WebhookSettings) (now : ℕ) where
  attempted-IsEnded :
      (endpoint : Option WebhookEndpoint) (event : Option OutboxEvent) (d : WebhookDelivery)
      → IsEnded now (allowed_attempts endpoint) d (attempted net post settings now endpoint event d)
  unfolding attempted
  attempted-IsEnded none event d =
      inl (refl, failed-IsSettled now none "endpoint_unavailable" false d d refl refl)
  attempted-IsEnded (some e) none d =
      inl (refl, failed-IsSettled now (some e) "endpoint_unavailable" false d d refl refl)
  attempted-IsEnded (some e) (some event) d =
      if-both (IsEnded now e.max_attempts d) e.enabled
        (answered-IsEnded now e
          (send net post settings now e event
            (validate_webhook_url net e.url settings.webhook_allow_http))
          d)
        (inl (refl, failed-IsSettled now (some e) "endpoint_unavailable" false d d refl refl))

  abbrev pub endpoint_of : WebhookDb → WebhookDelivery → Option WebhookEndpoint
  endpoint_of db d = find? (is_endpoint d.endpoint_id) db.endpoints

  -- How the attempt at the delivery that a round claims ends.
  abbrev pub sent_row : WebhookDb → WebhookDelivery → Attempt
  sent_row db d =
      attempted net post settings now (endpoint_of db d)
        (find? (is_event d.outbox_event_id) db.events) (claimed settings now d)

  delivered_row-claimed :
      (db : WebhookDb) (d : WebhookDelivery)
      → delivered_row net post settings now db (claimed settings now d) ≡ sent_row db d
  unfolding claimed delivered_row delivering_now
  delivered_row-claimed db d = refl

  -- A round with something due sends one delivery.
  run_once_rows :
      (db : WebhookDb) (d : WebhookDelivery)
      → IsKeyed db.deliveries
      → first_due now db.deliveries ≡ some d
      → run_once net post settings now db ≡ (
        round_of (sent_row db d).0,
        record db {
          deliveries =
              update_first
                (is_delivery d.id)
                (λ x. (delivered_row net post settings now db (claimed settings now x)).1)
                db.deliveries;
        },
      )
  unfolding run_once deliver run_claimed delivered_row delivering_now escape_of claimed
  run_once_rows db d k h =
      let rows = update_first (is_delivery d.id) (claimed settings now) db.deliveries in
      let found : find? (is_delivery d.id) rows ≡ some (claimed settings now d) =
        find?-update_self (is_delivery d.id) (claimed settings now) db.deliveries
          (first_due-listed now db.deliveries d k h) (==_refl d.id) in
      let left : ◌≡◌ {A = List WebhookDelivery} _ _ =
        update_first_twice (is_delivery d.id) (claimed settings now)
          (λ x. (delivered_row net post settings now db x).1) db.deliveries (λ x e. e) in
      rw h (
        ap
          (λ o. (
            round_of (escape_of net post settings now db o),
            record db {
              deliveries =
                  update_first (is_delivery d.id)
                    (λ x. (delivered_row net post settings now db x).1) rows;
            },
          ))
          found
        ∙ ap (λ x. (round_of (sent_row db d).0, record db { deliveries = x })) left)

  ended :
      (db : WebhookDb) (d : WebhookDelivery)
      → IsEnded now (allowed_attempts (endpoint_of db d)) (claimed settings now d) (sent_row db d)
  ended db d =
      attempted-IsEnded (endpoint_of db d) (find? (is_event d.outbox_event_id) db.events)
        (claimed settings now d)

  sent_row-same_id : (db : WebhookDb) (d : WebhookDelivery) → (sent_row db d).1.id ≡ d.id
  unfolding claimed
  sent_row-same_id db d = elim (ended db d) [
    | inl (quiet, s) ↦ s.same_id
    | inr (name, raised_, same) ↦ ap (λ x. x.id) same
  ]

  -- What a round that claims a delivery does: it sends the delivery and leaves it settled for its
  -- endpoint's attempts, or, where an exception leaves the round, as it was claimed; every other
  -- delivery, the endpoints and the events stay.
  pub record IsRound (db : WebhookDb) (d : WebhookDelivery) (after : Round × WebhookDb)
      : Type 0 where
    pub worked : after.0 ≡ round_of (sent_row db d).0
    pub sent : find? (is_delivery d.id) after.1.deliveries ≡ some (sent_row db d).1
    pub settled :
        IsEnded now (allowed_attempts (endpoint_of db d)) (claimed settings now d) (sent_row db d)
    pub others :
        (n : ℕ)
        → n ≢ d.id
        → find? (is_delivery n) after.1.deliveries ≡ find? (is_delivery n) db.deliveries
    pub same_endpoints : after.1.endpoints ≡ db.endpoints
    pub same_events : after.1.events ≡ db.events

  other_rows :
      (db : WebhookDb) (d : WebhookDelivery) (n : ℕ)
      → n ≢ d.id
      → (x : WebhookDelivery) → is_delivery d.id x ≡ true
      → (is_delivery n x ≡ false)
        × (is_delivery n (delivered_row net post settings now db (claimed settings now x)).1
            ≡ false)
  other_rows db d n ne x e = ground (arith, sent_row-same_id db x, delivered_row-claimed db x)

  -- Where deliveries do not share identifiers, a round of the worker with nothing due changes
  -- nothing; otherwise it claims the delivery that is due first and returns True with it
  -- delivered, dead, or to be retried with attempts left and after the backoff, or raises an
  -- exception that is not caught with it as it was claimed; every other delivery, the endpoints
  -- and the events stay as they were.
  pub run_once_cases :
      (db : WebhookDb)
      → IsKeyed db.deliveries
      → ((first_due now db.deliveries ≡ none)
          × (run_once net post settings now db ≡ (returned false, db)))
        ⊎ ((d : WebhookDelivery) × (first_due now db.deliveries ≡ some d)
            × IsRound db d (run_once net post settings now db))
  unfolding run_once run_claimed
  run_once_cases db k = elim (Option-cases (first_due now db.deliveries)) [
    | inl empty ↦ inl (empty, ground arith)
    | inr (d, due) ↦ inr (
      d,
      due,
      subst (IsRound db d) (sym (run_once_rows db d k due)) (record {
        worked = refl;
        sent =
            find?-update_self (is_delivery d.id)
              (λ x. (delivered_row net post settings now db (claimed settings now x)).1)
              db.deliveries (first_due-listed now db.deliveries d k due)
              (ground (arith, sent_row-same_id db d));
        settled = ended db d;
        others = λ n ne.
            find?-update_other (is_delivery d.id) (is_delivery n)
              (λ x. (delivered_row net post settings now db (claimed settings now x)).1)
              db.deliveries (other_rows db d n ne);
        same_endpoints = refl;
        same_events = refl;
      }),
    )
  ]

  claimable-is_open : (d : WebhookDelivery) → claimable now d ≡ true → is_open d.status ≡ true
  unfolding claimable is_open
  claimable-is_open d h = ground arith

  closed_not_claimed :
      (db : WebhookDb) (d e : WebhookDelivery)
      → IsKeyed db.deliveries
      → find? (is_delivery d.id) db.deliveries ≡ some d
      → is_open d.status ≡ false
      → first_due now db.deliveries ≡ some e
      → d.id ≢ e.id
  closed_not_claimed db d e k h c due eq =
      let listed = first_due-listed now db.deliveries e k due in
      let open_ = claimable-is_open e (first_due_least now db.deliveries e due).0 in
      let same : d ≡ e =
        ground (arith, subst (λ n. find? (is_delivery n) db.deliveries ≡ some e) (sym eq) listed) in
      ground (arith, subst (λ x. is_open x.status ≡ false) same c)

  -- Where deliveries do not share identifiers, a delivery that was delivered or is dead is as it
  -- was after a round of the worker.
  pub closed_stays :
      (db : WebhookDb) (d : WebhookDelivery)
      → IsKeyed db.deliveries
      → find? (is_delivery d.id) db.deliveries ≡ some d
      → is_open d.status ≡ false
      → find? (is_delivery d.id) (run_once net post settings now db).1.deliveries ≡ some d
  closed_stays db d k h c = elim (run_once_cases db k) [
    | inl (empty, same) ↦ ground arith
    | inr (e, due, round) ↦ round.others d.id (λ eq. closed_not_claimed db d e k h c due eq) ∙ h
  ]
