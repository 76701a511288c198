-- ===== src/Cache/Store.antt =====
-- `SimpleCache`: a dict from keys to data with an expiry. The digest of the parameters, SHA-256 of
-- their sorted JSON, is a parameter; times are whole seconds.
use agenticops.Prelude.{
  ℕ, ◌+◌, String, Bool, not, Option, none, some, List, [], ◌∷◌, ltb, find?, where_all, or_else,
  str_eq, prefixed, format, if◌then◌else◌,
}
use agenticops.Prelude.Json.{Json, Fields}

pub record CacheItem : Type 0 where
  pub key : String
  pub «data» : Json
  pub expires : ℕ

pub record SimpleCache : Type 0 where
  pub items : List CacheItem
  pub default_ttl : ℕ

unfoldable pub has_cache_key : String → CacheItem → Bool
has_cache_key k x = str_eq x.key k

-- `time.time() > item['expires']`
unfoldable pub is_expired : ℕ → CacheItem → Bool
is_expired now x = ltb x.expires now

-- `del self.cache[key]`
unfoldable pub remove : String → SimpleCache → SimpleCache
unfolding has_cache_key where_all
remove k c = record c { items = where_all (λ x. not (has_cache_key k x)) c.items }

unfoldable pub get_found : ℕ → String → Option CacheItem → SimpleCache → Option Json × SimpleCache
unfolding is_expired remove
get_found now k none c = (none, c)
get_found now k (some x) c = if is_expired now x then (none, remove k c) else (some x.«data», c)

-- `self.cache[key] = item` keeps the place of a key that is there.
unfoldable pub put_item : CacheItem → List CacheItem → List CacheItem
unfolding has_cache_key
put_item x [] = x ∷ []
put_item x (y ∷ ys) = if has_cache_key x.key y then x ∷ ys else y ∷ put_item x ys

module _ (digest : Fields → String) where
  -- `_generate_key`
  unfoldable pub generate_key : String → Fields → String
  unfolding format
  generate_key prefix params = format (prefix ∷ ":" ∷ digest params ∷ [])

  unfoldable pub get : ℕ → String → Fields → SimpleCache → Option Json × SimpleCache
  unfolding get_found generate_key
  get now prefix params c =
      let k = generate_key prefix params in get_found now k (find? (has_cache_key k) c.items) c

  unfoldable pub set : ℕ → String → Fields → Json → Option ℕ → SimpleCache → SimpleCache
  unfolding put_item generate_key
  set now prefix params value ttl c = record c {
    items =
        put_item
          (record {
            key = generate_key prefix params;
            «data» = value;
            expires = now + or_else ttl c.default_ttl;
          })
          c.items;
  }

unfoldable pub clear : Option String → SimpleCache → SimpleCache
clear none c = record c { items = [] }
clear (some prefix) c = record c {
  items = where_all (λ x. not (prefixed x.key (format (prefix ∷ ":" ∷ []) ∷ []))) c.items;
}

-- The keys that are deleted are those of expired items.
unfoldable pub cleanup_expired : ℕ → SimpleCache → SimpleCache
unfolding is_expired
cleanup_expired now c = record c { items = where_all (λ x. not (is_expired now x)) c.items }
