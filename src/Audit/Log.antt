-- ===== src/Audit/Log.antt =====
-- `SecurityAuditService.append`. SHA-256 and Python's canonical `json.dumps` of a payload are
-- parameters; no caller in the model passes a request or a source address.
use agenticops.Prelude.{
  ℕ, zero, suc, String, Bool, Option, none, some, List, [], ◌∷◌, ◌++◌, any, contains_text, lower,
  take_text, text_or, format, if◌then◌else◌,
}
use agenticops.Prelude.Json.{
  Json, Items, Fields, null, bool, num, text, arr, obj, nil, cons, end, field,
}

abbrev redacted_key_parts : List String
redacted_key_parts =
    "authorization" ∷ "cookie" ∷ "credential" ∷ "password" ∷ "private_key" ∷ "saml_response"
    ∷ "secret" ∷ "token" ∷ []

unfoldable pub is_redacted_key : String → Bool
unfolding any contains_text lower
is_redacted_key key = any (λ part. contains_text part (lower key)) redacted_key_parts

unfoldable pub hidden_or : String → Json → Json
unfolding is_redacted_key
hidden_or key v = if is_redacted_key key then text "<redacted>" else v

-- `sanitize_audit_value`, by the levels that are left of the six: 100 entries of a list or a dict,
-- 4096 characters of a text, nothing under a redacted key.
unfoldable mutual
  unfolding hidden_or

  pub sanitize_audit_value : ℕ → Json → Json
  sanitize_audit_value zero v = text "<max-depth>"
  sanitize_audit_value (suc n) null = null
  sanitize_audit_value (suc n) (bool b) = bool b
  sanitize_audit_value (suc n) (num k) = num k
  sanitize_audit_value (suc n) (text s) = text (take_text 4096 s)
  sanitize_audit_value (suc n) (arr vs) = arr (sanitize_items n 100 vs)
  sanitize_audit_value (suc n) (obj fs) = obj (sanitize_fields n 100 fs)

  pub sanitize_items : ℕ → ℕ → Items → Items
  sanitize_items n zero vs = nil
  sanitize_items n (suc m) nil = nil
  sanitize_items n (suc m) (cons v vs) = cons (sanitize_audit_value n v) (sanitize_items n m vs)

  pub sanitize_fields : ℕ → ℕ → Fields → Fields
  sanitize_fields n zero fs = end
  sanitize_fields n (suc m) end = end
  sanitize_fields n (suc m) (field k v fs) =
      field k (hidden_or k (sanitize_audit_value n v)) (sanitize_fields n m fs)

-- The payload that is hashed, the time of creation included.
pub record AuditPayload : Type 0 where
  pub event_type : String
  pub outcome : String
  pub actor_user_id : Option ℕ
  pub actor_session_id : Option String
  pub target_type : Option String
  pub target_id : Option String
  pub details : Json
  pub created_at : ℕ

pub record SecurityAuditEvent : Type 0 where
  pub payload : AuditPayload
  pub previous_event_hash : Option String
  pub event_hash : String

pub record Hashing : Type 0 where
  pub sha256 : String → String
  pub canonical_json : AuditPayload → String

module _ (h : Hashing) where
  unfoldable pub calculate_event_hash : Option String → AuditPayload → String
  unfolding format
  calculate_event_hash previous_hash payload =
      h.sha256 (format (text_or previous_hash "" ∷ "\n" ∷ h.canonical_json payload ∷ []))

  -- The hash of the newest event, `previous` if there is none.
  unfoldable pub last_hash : Option String → List SecurityAuditEvent → Option String
  last_hash previous [] = previous
  last_hash previous (e ∷ es) = last_hash (some e.event_hash) es

  unfoldable pub next_event : Option String → AuditPayload → SecurityAuditEvent
  unfolding calculate_event_hash
  next_event previous_hash payload = record {
    payload = payload;
    previous_event_hash = previous_hash;
    event_hash = calculate_event_hash previous_hash payload;
  }

  unfoldable pub append_event : AuditPayload → List SecurityAuditEvent → List SecurityAuditEvent
  unfolding last_hash next_event sanitize_audit_value
  append_event request events =
      events
      ++ next_event (last_hash none events)
          (record request { details = sanitize_audit_value 6 request.details })
        ∷ []
