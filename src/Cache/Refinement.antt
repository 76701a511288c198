-- ===== src/Cache/Refinement.antt =====
-- The cache against an ideal one, which never deletes: what it holds is a function of the time and
-- the key.
use agenticops.Prelude.{
  ℕ, ◌+◌, ◌≤◌, String, ◌≡◌, refl, sym, ◌∙◌, ap, Bool, true, not, Option, none, some, List, [], ◌∷◌,
  arith, ltb, find?, find?-holds, where_all, str_eq, eq_iff, prefixed, format, Bool-cases,
  Option-cases, inl, inr, if◌then◌else◌,
}
use agenticops.Prelude.Json.{Json}
use agenticops.Cache.Store.{
  CacheItem, SimpleCache, has_cache_key, is_expired, put_item, remove, get_found, clear,
  cleanup_expired,
}
use agenticops.Cache.View.{
  IsDict, live, view, keep_if, find?-where_all, where_all-IsDict, find?-put_self, find?-put_other,
}

abbrev pub Ideal : Type 0
Ideal = ℕ → String → Option Json

unfoldable pub ideal_set : ℕ → String → Json → ℕ → Ideal → Ideal
ideal_set now k value ttl m t j =
    if str_eq k j then (if ltb (now + ttl) t then none else some value) else m t j

unfoldable pub ideal_clear : Option String → Ideal → Ideal
ideal_clear none m t j = none
ideal_clear (some prefix) m t j =
    if prefixed j (format (prefix ∷ ":" ∷ []) ∷ []) then none else m t j

-- From the time `now` on, the cache shows under each key what the ideal cache holds.
pub record Refines (now ttl : ℕ) (c : SimpleCache) (m : Ideal) : Type 0 where
  pub dict : IsDict c.items
  pub same_ttl : c.default_ttl ≡ ttl
  pub shows : (t : ℕ) (k : String) → now ≤ t → view t c k ≡ m t k

view_filtered :
    (p : CacheItem → Bool) (c : SimpleCache) (t : ℕ) (k : String)
    → IsDict c.items
    → view t (record c { items = where_all p c.items }) k
      ≡ live t (keep_if p (find? (has_cache_key k) c.items))
unfolding view
view_filtered p c t k d = ap (live t) (find?-where_all p k c.items d)

-- Dropping an item that has expired changes nothing that is still shown.
drop_expired :
    (now t : ℕ) (o : Option CacheItem)
    → now ≤ t
    → live t (keep_if (λ x. not (is_expired now x)) o) ≡ live t o
unfolding live keep_if is_expired
drop_expired now t none h = refl
drop_expired now t (some x) h = ground arith

found_key :
    (k : String) (xs : List CacheItem) (x : CacheItem)
    → find? (has_cache_key k) xs ≡ some x
    → x.key ≡ k
unfolding has_cache_key
found_key k xs x h = (eq_iff x.key k).0 (find?-holds (has_cache_key k) xs h)

drop_prefixed :
    (ps : List String) (t : ℕ) (k : String) (o : Option CacheItem)
    → ((x : CacheItem) → o ≡ some x → x.key ≡ k)
    → live t (keep_if (λ x. not (prefixed x.key ps)) o) ≡ (if prefixed k ps then none else live t o)
unfolding live keep_if
drop_prefixed ps t k none h = ground arith
drop_prefixed ps t k (some x) h = rw (h x refl) (ground arith)

-- Deleting the item under a key, which has expired, changes nothing that is still shown.
drop_stale :
    (now t : ℕ) (k j : String) (xs : List CacheItem) (x : CacheItem)
    → now ≤ t
    → find? (has_cache_key k) xs ≡ some x
    → is_expired now x ≡ true
    → live t (keep_if (λ y. not (has_cache_key k y)) (find? (has_cache_key j) xs))
      ≡ live t (find? (has_cache_key j) xs)
unfolding live keep_if has_cache_key is_expired
drop_stale now t k j xs x le found stale = elim (Option-cases (find? (has_cache_key j) xs)) [
  | inl missing ↦ rw missing refl
  | inr (y, hit) ↦ elim (Bool-cases (str_eq y.key k)) [
    | inr other ↦ rw (hit, other) refl
    | inl own ↦
        let same = sym (found_key j xs y hit) ∙ (eq_iff y.key k).0 own in
        let again : some x ≡ some y =
          sym found ∙ sym (ap (λ i. find? (has_cache_key i) xs) same) ∙ hit in
        let late : ltb y.expires t ≡ true = ground (arith, again, stale, le) in
        rw (hit, own, late) refl
  ]
]

module _ (now ttl : ℕ) (c : SimpleCache) (m : Ideal) (r : Refines now ttl c m) where
  pub later-Refines : (later : ℕ) → now ≤ later → Refines later ttl c m
  later-Refines later h = record {
    dict = r.dict;
    same_ttl = r.same_ttl;
    shows = λ t k le. r.shows t k (omega (arith, h, le));
  }

  pub cleanup-Refines : Refines now ttl (cleanup_expired now c) m
  unfolding cleanup_expired view
  cleanup-Refines = record {
    dict = where_all-IsDict _ c.items r.dict;
    same_ttl = r.same_ttl;
    shows = λ t k le.
        view_filtered (λ x. not (is_expired now x)) c t k r.dict
        ∙ drop_expired now t (find? (has_cache_key k) c.items) le
        ∙ r.shows t k le;
  }

  pub clear-Refines :
      (prefix : Option String) → Refines now ttl (clear prefix c) (ideal_clear prefix m)
  unfolding clear ideal_clear view live IsDict find?
  clear-Refines none = record { dict = tt; same_ttl = r.same_ttl; shows = λ t k le. refl }
  clear-Refines (some prefix) =
      let ps = format (prefix ∷ ":" ∷ []) ∷ [] in
      record {
        dict = where_all-IsDict _ c.items r.dict;
        same_ttl = r.same_ttl;
        shows = λ t k le.
            view_filtered (λ x. not (prefixed x.key ps)) c t k r.dict
            ∙ drop_prefixed ps t k (find? (has_cache_key k) c.items) (found_key k c.items)
            ∙ ap (λ o. if prefixed k ps then none else o) (r.shows t k le);
      }

  pub found-Refines :
      (k : String) (o : Option CacheItem)
      → find? (has_cache_key k) c.items ≡ o
      → ((get_found now k o c).0 ≡ m now k) × Refines now ttl (get_found now k o c).1 m
  unfolding get_found remove view live
  found-Refines k none h = (ap (live now) (sym h) ∙ r.shows now k (omega arith), r)
  found-Refines k (some x) h = elim (Bool-cases (is_expired now x)) [
    | inr fresh ↦
        let shown : live now (some x) ≡ some x.«data» = rw fresh refl in
        rw fresh (sym shown ∙ ap (live now) (sym h) ∙ r.shows now k (omega arith), r)
    | inl stale ↦
        let gone : live now (some x) ≡ none = rw stale refl in
        rw stale (
          sym gone ∙ ap (live now) (sym h) ∙ r.shows now k (omega arith),
          record {
            dict = where_all-IsDict _ c.items r.dict;
            same_ttl = r.same_ttl;
            shows = λ t j le.
                view_filtered (λ y. not (has_cache_key k y)) c t j r.dict
                ∙ drop_stale now t k j c.items x le h stale
                ∙ r.shows t j le;
          },
        )
  ]

pub set_shows :
    (now t end_at : ℕ) (k j : String) (value : Json) (xs : List CacheItem) (old : Option Json)
    → live t (find? (has_cache_key j) xs) ≡ old
    → live t (
        find?
          (has_cache_key j)
          (put_item (record { key = k; «data» = value; expires = end_at }) xs))
      ≡ (if str_eq k j then (if ltb end_at t then none else some value) else old)
unfolding live is_expired has_cache_key
set_shows now t end_at k j value xs old h = elim (Bool-cases (str_eq k j)) [
  | inl own ↦
      let same = (eq_iff k j).0 own in
      let x : CacheItem = record { key = k; «data» = value; expires = end_at } in
      rw own (
        ap (λ i. live t (find? (has_cache_key i) (put_item x xs))) (sym same)
        ∙ ap (live t) (find?-put_self x xs))
  | inr other ↦ rw other (
      ap (live t)
        (find?-put_other (record { key = k; «data» = value; expires = end_at }) j xs other)
      ∙ h)
]
