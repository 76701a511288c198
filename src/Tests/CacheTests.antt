-- ===== src/Tests/CacheTests.antt =====
-- A value that is read in time, and not after its lifetime.
use agenticops.Prelude.{ℕ, ◌≡◌, refl, arith, none, some, List, [], ◌∷◌, find?}
use agenticops.Prelude.Json.{num, end}
use agenticops.Cache.Runs.{
  CacheCall, getting, setting, cleaning, InOrder, run, ideal_run, run-eq-ideal_run,
}

abbrev calls : List (ℕ × CacheCall)
calls =
    (1, setting "devices" end (num 5) none)
    ∷ (9, getting "devices" end)
    ∷ (11, cleaning)
    ∷ (12, getting "devices" end)
    ∷ []

calls-InOrder : InOrder 0 calls
unfolding InOrder
calls-InOrder = omega arith

answers :
    run (λ params. "") calls (record { items = []; default_ttl = 10 })
    ≡ none ∷ some (num 5) ∷ none ∷ none ∷ []
unfolding run find?
answers = refl

run-eq-ideal_run_example :
    run (λ params. "") calls (record { items = []; default_ttl = 10 })
    ≡ ideal_run (λ params. "") 10 calls (λ t k. none)
run-eq-ideal_run_example = run-eq-ideal_run (λ params. "") 10 calls calls-InOrder
