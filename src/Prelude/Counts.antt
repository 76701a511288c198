-- ===== src/Prelude/Counts.antt =====
-- How many rows of a table satisfy a test, and tables in which a row is found under its own key.
use Prim.Native.Nat.{ℕ, ◌+◌, ◌≤◌, ◌<◌}
use mathlib.Core.Path.{◌≡◌, refl, ◌∙◌}
use mathlib.Core.Bool.{Bool, true, false}
use mathlib.Core.Option.{none, some}
use mathlib.Core.List.{List, [], ◌∷◌, ◌++◌}
use native.Mathlib.Omega.{arith}
use mathlib.Core.Logic.{inl, inr}
use agenticops.Prelude.Tests.{if◌then◌else◌, Bool-cases, ◌==◌}
use agenticops.Prelude.Lists.{length, find?, where_all, update_first, update_all, find?-append_none}

module _ {ℓ} {A : Type ℓ} where
  unfoldable pub count : (A → Bool) → List A → ℕ
  unfolding where_all
  count p xs = length (where_all p xs)

  count_cons :
      (p : A → Bool) (x : A) (xs : List A) → count p (x ∷ xs) ≡ (if p x then 1 else 0) + count p xs
  unfolding count where_all
  count_cons p x xs = ground arith

  pub count_snoc :
      (p : A → Bool) (xs : List A) (x : A)
      → count p (xs ++ x ∷ []) ≡ count p xs + (if p x then 1 else 0)
  unfolding count where_all
  count_snoc p [] x = ground arith
  count_snoc p (y ∷ ys) x = ground (arith, count_snoc p ys x)

  -- The row that is found counts after the change only if it counted before.
  pub count-update_found :
      (p q : A → Bool) (f : A → A) (xs : List A) (b : A)
      → find? q xs ≡ some b
      → (p (f b) ≡ true → p b ≡ true)
      → count p (update_first q f xs) ≤ count p xs
  unfolding count where_all find? update_first
  count-update_found p q f [] b h k = ground arith
  count-update_found p q f (x ∷ xs) b h k = ground (arith, count-update_found p q f xs b)

  -- A change of all that count, to what does not, leaves nothing that counts.
  pub count-update_none :
      (p : A → Bool) (f : A → A) (xs : List A)
      → ((x : A) → p (f x) ≡ false)
      → count p (update_all p f xs) ≡ 0
  unfolding count where_all update_all
  count-update_none p f [] h = ground arith
  count-update_none p f (x ∷ xs) h = ground (arith, h x, count-update_none p f xs h)

  pub count-update_other :
      (p q : A → Bool) (f : A → A) (xs : List A)
      → ((x : A) → q x ≡ true → (p x ≡ false) × (p (f x) ≡ false))
      → count p (update_all q f xs) ≡ count p xs
  unfolding count where_all update_all
  count-update_other p q f [] h = ground arith
  count-update_other p q f (x ∷ xs) h = ground (arith, h x, count-update_other p q f xs h)

  module _ (key : A → ℕ) where
    -- No two rows share a key, and all keys are below `n`.
    unfoldable pub IsKeyedBelow : ℕ → List A → Type ℓ
    IsKeyedBelow n [] = Unit
    IsKeyedBelow n (x ∷ xs) =
        (key x < n) × (find? (λ y. key y == key x) xs ≡ none) × IsKeyedBelow n xs

    pub keyed_snoc :
        (n : ℕ) (xs : List A) (x : A)
        → IsKeyedBelow n xs
        → key x ≡ n
        → IsKeyedBelow (n + 1) (xs ++ x ∷ [])
    unfolding IsKeyedBelow find?
    keyed_snoc n [] x k e = (omega (arith, e), refl, tt)
    keyed_snoc n (y ∷ ys) x k e = (
      omega (arith, k.0),
      find?-append_none (λ z. key z == key y) ys x (ground (arith, k.0)) ∙ k.1,
      keyed_snoc n ys x k.2 e,
    )

    none-update_first :
        (q : A → Bool) (f : A → A) (xs : List A) (i : ℕ)
        → ((x : A) → key (f x) ≡ key x)
        → find? (λ y. key y == i) xs ≡ none
        → find? (λ y. key y == i) (update_first q f xs) ≡ none
    unfolding find? update_first
    none-update_first q f [] i h k = refl
    none-update_first q f (x ∷ xs) i h k = ground (arith, h x, none-update_first q f xs i h)

    none-update_all :
        (q : A → Bool) (f : A → A) (xs : List A) (i : ℕ)
        → ((x : A) → key (f x) ≡ key x)
        → find? (λ y. key y == i) xs ≡ none
        → find? (λ y. key y == i) (update_all q f xs) ≡ none
    unfolding find? update_all
    none-update_all q f [] i h k = refl
    none-update_all q f (x ∷ xs) i h k = ground (arith, h x, none-update_all q f xs i h)

    pub keyed-update_first :
        (n : ℕ) (q : A → Bool) (f : A → A) (xs : List A)
        → ((x : A) → key (f x) ≡ key x)
        → IsKeyedBelow n xs
        → IsKeyedBelow n (update_first q f xs)
    unfolding IsKeyedBelow update_first
    keyed-update_first n q f [] h k = tt
    keyed-update_first n q f (x ∷ xs) h k = elim (Bool-cases (q x)) [
      | inl hit ↦ rw hit (ground (arith, h x, k.0), ground (arith, h x, k.1), k.2)
      | inr miss ↦
          rw miss (k.0, none-update_first q f xs (key x) h k.1, keyed-update_first n q f xs h k.2)
    ]

    pub keyed-update_all :
        (n : ℕ) (q : A → Bool) (f : A → A) (xs : List A)
        → ((x : A) → key (f x) ≡ key x)
        → IsKeyedBelow n xs
        → IsKeyedBelow n (update_all q f xs)
    unfolding IsKeyedBelow update_all
    keyed-update_all n q f [] h k = tt
    keyed-update_all n q f (x ∷ xs) h k =
        let same : key (if q x then f x else x) ≡ key x = ground (arith, h x) in
        rw same (k.0, none-update_all q f xs (key x) h k.1, keyed-update_all n q f xs h k.2)
