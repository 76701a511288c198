-- ===== src/Cache/View.antt =====
-- What a cache holds under a key at a time, and how the dict's operations change it.
use agenticops.Prelude.{
  ℕ, String, ◌≡◌, refl, ◌∙◌, Bool, false, Option, none, some, List, [], ◌∷◌, arith, find?,
  where_all, str_eq, eq_iff, eq_refl, Bool-cases, inl, inr, if◌then◌else◌,
}
use agenticops.Prelude.Json.{Json}
use agenticops.Cache.Store.{CacheItem, SimpleCache, has_cache_key, is_expired, put_item}

-- No two items share a key.
unfoldable pub IsDict : List CacheItem → Type 0
IsDict [] = Unit
IsDict (x ∷ xs) = (find? (has_cache_key x.key) xs ≡ none) × IsDict xs

unfoldable pub live : ℕ → Option CacheItem → Option Json
unfolding is_expired
live t none = none
live t (some x) = if is_expired t x then none else some x.«data»

-- The data under a key that has not expired.
unfoldable pub view : ℕ → SimpleCache → String → Option Json
unfolding live has_cache_key
view t c k = live t (find? (has_cache_key k) c.items)

unfoldable pub keep_if : (CacheItem → Bool) → Option CacheItem → Option CacheItem
keep_if p none = none
keep_if p (some x) = if p x then some x else none

where_none :
    (p : CacheItem → Bool) (k : String) (xs : List CacheItem)
    → find? (has_cache_key k) xs ≡ none
    → find? (has_cache_key k) (where_all p xs) ≡ none
unfolding find? where_all
where_none p k [] h = refl
where_none p k (x ∷ xs) h = ground (arith, where_none p k xs)

-- Filtering a dict filters each look-up.
pub find?-where_all :
    (p : CacheItem → Bool) (k : String) (xs : List CacheItem)
    → IsDict xs
    → find? (has_cache_key k) (where_all p xs) ≡ keep_if p (find? (has_cache_key k) xs)
unfolding IsDict find? where_all keep_if has_cache_key
find?-where_all p k [] h = refl
find?-where_all p k (x ∷ xs) h = elim (Bool-cases (str_eq x.key k)) [
  | inl own ↦
      let same = (eq_iff x.key k).0 own in ground (arith, own, where_none p k xs (rw (← same) h.0))
  | inr other ↦ ground (arith, other, find?-where_all p k xs h.1)
]

pub where_all-IsDict :
    (p : CacheItem → Bool) (xs : List CacheItem) → IsDict xs → IsDict (where_all p xs)
unfolding IsDict where_all
where_all-IsDict p [] h = tt
where_all-IsDict p (x ∷ xs) h = elim (Bool-cases (p x)) [
  | inl kept ↦ rw kept (where_none p x.key xs h.0, where_all-IsDict p xs h.1)
  | inr dropped ↦ rw dropped (where_all-IsDict p xs h.1)
]

-- What is put under a key is found there.
pub find?-put_self :
    (x : CacheItem) (xs : List CacheItem) → find? (has_cache_key x.key) (put_item x xs) ≡ some x
unfolding find? put_item has_cache_key
find?-put_self x [] = ground (arith, eq_refl x.key)
find?-put_self x (y ∷ ys) = ground (arith, eq_refl x.key, find?-put_self x ys)

-- What is put under one key leaves the others.
pub find?-put_other :
    (x : CacheItem) (k : String) (xs : List CacheItem)
    → str_eq x.key k ≡ false
    → find? (has_cache_key k) (put_item x xs) ≡ find? (has_cache_key k) xs
unfolding find? put_item has_cache_key
find?-put_other x k [] h = ground arith
find?-put_other x k (y ∷ ys) h = elim (Bool-cases (str_eq y.key x.key)) [
  | inl own ↦
      let same = (eq_iff y.key x.key).0 own in
      let miss : str_eq y.key k ≡ false = rw same h in ground (arith, own, miss)
  | inr other ↦ ground (arith, other, find?-put_other x k ys h)
]

apart_sym : (a b : String) → str_eq a b ≡ false → str_eq b a ≡ false
apart_sym a b h = elim (Bool-cases (str_eq b a)) [
  | inl same ↦ absurd (ground (arith, h, eq_iff b a, eq_iff a b))
  | inr other ↦ other
]

pub put_item-IsDict : (x : CacheItem) (xs : List CacheItem) → IsDict xs → IsDict (put_item x xs)
unfolding IsDict put_item has_cache_key find?
put_item-IsDict x [] h = (refl, tt)
put_item-IsDict x (y ∷ ys) h = elim (Bool-cases (str_eq y.key x.key)) [
  | inl own ↦ let same = (eq_iff y.key x.key).0 own in rw own (rw same at h.0, h.1)
  | inr other ↦
      rw other
        (find?-put_other x y.key ys (apart_sym y.key x.key other) ∙ h.0, put_item-IsDict x ys h.1)
]
