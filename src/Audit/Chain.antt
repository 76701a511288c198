-- ===== src/Audit/Chain.antt =====
-- The hash chain of the audit log.
use agenticops.Prelude.{String, ◌≡◌, refl, Option, none, some, List, [], ◌∷◌, ◌++◌, ◌∙◌, ap}
use agenticops.Audit.Log.{
  AuditPayload, SecurityAuditEvent, Hashing, calculate_event_hash, last_hash, next_event,
  append_event,
}

module _ (h : Hashing) where
  -- Each event holds the hash of the one before it and the hash of itself after that.
  unfoldable pub IsChained : Option String → List SecurityAuditEvent → Type 0
  IsChained previous [] = Unit
  IsChained previous (e ∷ es) =
      (e.previous_event_hash ≡ previous)
      × (e.event_hash ≡ calculate_event_hash h previous e.payload)
      × IsChained (some e.event_hash) es

  IsChained-snoc :
      (previous : Option String) (es : List SecurityAuditEvent) (p : AuditPayload)
      → IsChained previous es
      → IsChained previous (es ++ next_event h (last_hash h previous es) p ∷ [])
  unfolding IsChained last_hash next_event
  IsChained-snoc previous [] p c = (refl, refl, tt)
  IsChained-snoc previous (e ∷ es) p c = (c.0, c.1, IsChained-snoc (some e.event_hash) es p c.2)

  -- If each event of the audit log holds the hash of the one before and the hash of itself after
  -- that, then so it is after an append.
  pub append_event-IsChained :
      (request : AuditPayload) (events : List SecurityAuditEvent)
      → IsChained none events
      → IsChained none (append_event h request events)
  unfolding append_event
  append_event-IsChained request events c = IsChained-snoc none events _ c

  -- In a chain, the hash of the newest event follows from the payloads alone: no stored hash can
  -- be chosen.
  unfoldable pub rehash : Option String → List SecurityAuditEvent → Option String
  rehash previous [] = previous
  rehash previous (e ∷ es) = rehash (some (calculate_event_hash h previous e.payload)) es

  pub last_hash-rehash :
      (previous : Option String) (events : List SecurityAuditEvent)
      → IsChained previous events
      → last_hash h previous events ≡ rehash previous events
  unfolding IsChained last_hash rehash
  last_hash-rehash previous [] c = refl
  last_hash-rehash previous (e ∷ es) c =
      last_hash-rehash (some e.event_hash) es c.2 ∙ ap (λ x. rehash (some x) es) c.1
