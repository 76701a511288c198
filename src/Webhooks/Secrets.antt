-- ===== src/Webhooks/Secrets.antt =====
-- What the outbox may learn of a payload.
use agenticops.Prelude.{ℕ, zero, suc, String, ◌≡◌, refl, true, arith, take_text, ap}
use agenticops.Prelude.Json.{Json, Items, Fields, arr, obj, nil, cons, end, field, put_field}
use agenticops.Webhooks.Enqueue.{
  redacted_or, is_sensitive, clean, clean_value, clean_items, clean_fields, sanitize,
}

-- Two values that differ at most in what stands under sensitive keys.
mutual
  pub data SameJson : Json → Json → Type 0 where
    alike : (v : Json) → SameJson v v
    arrays : {xs ys : Items} → SameItems xs ys → SameJson (arr xs) (arr ys)
    objects : {fs gs : Fields} → SameFields fs gs → SameJson (obj fs) (obj gs)

  pub data SameItems : Items → Items → Type 0 where
    no_items : SameItems nil nil
    both :
        {v w : Json} {xs ys : Items}
        → SameJson v w
        → SameItems xs ys
        → SameItems (cons v xs) (cons w ys)

  pub data SameFields : Fields → Fields → Type 0 where
    no_fields : SameFields end end
    hidden :
        {k : String} {v w : Json} {fs gs : Fields}
        → is_sensitive k ≡ true
        → SameFields fs gs
        → SameFields (field k v fs) (field k w gs)
    shown :
        {k : String} {v w : Json} {fs gs : Fields}
        → SameJson v w
        → SameFields fs gs
        → SameFields (field k v fs) (field k w gs)

redacted : (k : String) (v w : Json) → is_sensitive k ≡ true → redacted_or k v ≡ redacted_or k w
unfolding redacted_or
redacted k v w h = ground arith

mutual
  unfolding clean_value clean_items clean_fields

  value-same : {v w : Json} → SameJson v w → clean_value v ≡ clean_value w
  value-same (alike v) = refl
  value-same (arrays s) = ap arr (items-same 200 s)
  value-same (objects s) = ap obj (fields-same 200 end s)

  items-same : {xs ys : Items} (n : ℕ) → SameItems xs ys → clean_items n xs ≡ clean_items n ys
  items-same zero s = refl
  items-same (suc n) no_items = refl
  items-same (suc n) (both h s) = cc (value-same h, items-same n s)

  fields-same :
      {fs gs : Fields} (n : ℕ) (acc : Fields)
      → SameFields fs gs
      → clean_fields n fs acc ≡ clean_fields n gs acc
  fields-same zero acc s = refl
  fields-same (suc n) acc no_fields = refl
  fields-same (suc n) acc (hidden {k} {v} {w} h s) =
      rw (redacted k (clean_value v) (clean_value w) h)
        (fields-same n (put_field (take_text 120 k) (redacted_or k (clean_value w)) acc) s)
  fields-same (suc n) acc (shown {k} {v} {w} h s) =
      rw (value-same h)
        (fields-same n (put_field (take_text 120 k) (redacted_or k (clean_value w)) acc) s)

-- Two payloads that differ only under sensitive keys, at any depth, are stored as the same event
-- payload.
pub sanitize-same : (fs gs : Fields) → SameFields fs gs → sanitize fs ≡ sanitize gs
unfolding sanitize clean
sanitize-same fs gs s = ap (redacted_or "") (value-same (objects s))
