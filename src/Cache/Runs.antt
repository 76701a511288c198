-- ===== src/Cache/Runs.antt =====
-- Sequences of calls of the cache and of the ideal one, at times that do not go back.
use agenticops.Prelude.{
  ℕ, ◌+◌, ◌≤◌, String, ◌≡◌, refl, ◌∙◌, ap, Option, none, List, [], ◌∷◌, or_else, format, find?,
}
use agenticops.Prelude.Json.{Json, Fields}
use agenticops.Cache.Store.{
  SimpleCache, has_cache_key, generate_key, get, set, clear, cleanup_expired,
}
use agenticops.Cache.View.{IsDict, live, view, put_item-IsDict}
use agenticops.Cache.Refinement.{
  Ideal, ideal_set, ideal_clear, Refines, set_shows, later-Refines, cleanup-Refines, clear-Refines,
  found-Refines,
}

pub data CacheCall : Type 0 where
  getting : String → Fields → CacheCall
  setting : String → Fields → Json → Option ℕ → CacheCall
  clearing : Option String → CacheCall
  cleaning : CacheCall

-- Each call with the time at which it is made, none before the one that precedes it.
unfoldable pub InOrder : ℕ → List (ℕ × CacheCall) → Type 0
InOrder now [] = Unit
InOrder now ((t, _) ∷ r) = (now ≤ t) × InOrder t r

module _ (digest : Fields → String) where
  -- One call: the data that `get` returns, and the cache after it.
  unfoldable pub call : ℕ → CacheCall → SimpleCache → Option Json × SimpleCache
  unfolding get set clear cleanup_expired
  call now (getting prefix params) c = get digest now prefix params c
  call now (setting prefix params value ttl) c = (none, set digest now prefix params value ttl c)
  call now (clearing prefix) c = (none, clear prefix c)
  call now cleaning c = (none, cleanup_expired now c)

  unfoldable pub run : List (ℕ × CacheCall) → SimpleCache → List (Option Json)
  unfolding call
  run [] c = []
  run ((t, x) ∷ r) c = (call t x c).0 ∷ run r (call t x c).1

  -- The same call on an ideal cache, whose default lifetime is given.
  unfoldable pub ideal_call : ℕ → ℕ → CacheCall → Ideal → Option Json × Ideal
  unfolding ideal_set ideal_clear generate_key format
  ideal_call ttl now (getting prefix params) m = (m now (generate_key digest prefix params), m)
  ideal_call ttl now (setting prefix params value lifetime) m =
      (none, ideal_set now (generate_key digest prefix params) value (or_else lifetime ttl) m)
  ideal_call ttl now (clearing prefix) m = (none, ideal_clear prefix m)
  ideal_call ttl now cleaning m = (none, m)

  unfoldable pub ideal_run : ℕ → List (ℕ × CacheCall) → Ideal → List (Option Json)
  unfolding ideal_call
  ideal_run ttl [] m = []
  ideal_run ttl ((t, x) ∷ r) m = (ideal_call ttl t x m).0 ∷ ideal_run ttl r (ideal_call ttl t x m).1

  set-Refines :
      (now ttl : ℕ) (c : SimpleCache) (m : Ideal) (prefix : String) (params : Fields) (value : Json)
      (lifetime : Option ℕ)
      → Refines now ttl c m
      → Refines now ttl
          (set digest now prefix params value lifetime c)
          (ideal_set now (generate_key digest prefix params) value (or_else lifetime ttl) m)
  unfolding set ideal_set view
  set-Refines now ttl c m prefix params value lifetime r = record {
    dict = put_item-IsDict _ c.items r.dict;
    same_ttl = r.same_ttl;
    shows = λ t j le. rw (← r.same_ttl) (
        set_shows now t (now + or_else lifetime c.default_ttl) (generate_key digest prefix params) j
          value c.items (m t j) (r.shows t j le));
  }

  call-Refines :
      (now ttl : ℕ) (x : CacheCall) (c : SimpleCache) (m : Ideal)
      → Refines now ttl c m
      → ((call now x c).0 ≡ (ideal_call ttl now x m).0)
        × Refines now ttl (call now x c).1 (ideal_call ttl now x m).1
  unfolding call ideal_call get
  call-Refines now ttl (getting prefix params) c m r =
      found-Refines now ttl c m r (generate_key digest prefix params)
        (find? (has_cache_key (generate_key digest prefix params)) c.items) refl
  call-Refines now ttl (setting prefix params value lifetime) c m r =
      (refl, set-Refines now ttl c m prefix params value lifetime r)
  call-Refines now ttl (clearing prefix) c m r = (refl, clear-Refines now ttl c m r prefix)
  call-Refines now ttl cleaning c m r = (refl, cleanup-Refines now ttl c m r)

  run_related :
      (now ttl : ℕ) (calls : List (ℕ × CacheCall)) (c : SimpleCache) (m : Ideal)
      → InOrder now calls
      → Refines now ttl c m
      → run calls c ≡ ideal_run ttl calls m
  unfolding InOrder run ideal_run
  run_related now ttl [] c m h r = refl
  run_related now ttl ((t, x) ∷ rest) c m h r =
      let step = call-Refines t ttl x c m (later-Refines now ttl c m r t h.0) in
      ap (λ v. v ∷ run rest (call t x c).1) step.0
      ∙ ap (λ l. (ideal_call ttl t x m).0 ∷ l)
          (run_related t ttl rest (call t x c).1 (ideal_call ttl t x m).1 h.1 step.1)

  -- For any calls of the cache at times that do not go back, starting with an empty cache, every
  -- answer is that of an ideal cache, which deletes nothing and tells from the time whether a
  -- value still counts.
  pub run-eq-ideal_run :
      (ttl : ℕ) (calls : List (ℕ × CacheCall))
      → InOrder 0 calls
      → run calls (record { items = []; default_ttl = ttl }) ≡ ideal_run ttl calls (λ t k. none)
  unfolding IsDict view live find?
  run-eq-ideal_run ttl calls h =
      run_related 0 ttl calls (record { items = []; default_ttl = ttl }) (λ t k. none) h
        (record { dict = tt; same_ttl = refl; shows = λ t k le. refl })
