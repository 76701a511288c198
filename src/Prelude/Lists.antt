-- ===== src/Prelude/Lists.antt =====
-- Lists as the tables of a database and as the sequences of a program.
use Prim.Native.Nat.{ℕ, suc, ◌+◌}
use mathlib.Core.Path.{◌≡◌, refl}
use mathlib.Core.Bool.{Bool, true, false, ◌&&◌, ◌||◌}
use mathlib.Core.Option.{Option, none, some}
use mathlib.Core.List.{List, [], ◌∷◌, ◌++◌}
use native.Mathlib.Omega.{arith}
use mathlib.Core.Logic.{inl, inr}
use agenticops.Prelude.Tests.{if◌then◌else◌, Bool-cases}

module _ {ℓ} {A : Type ℓ} where
  abbrev pub length : List A → ℕ
  length [] = 0
  length (x ∷ xs) = suc (length xs)

  pub length-append : (xs ys : List A) → length (xs ++ ys) ≡ length xs + length ys
  length-append [] ys = omega arith
  length-append (x ∷ xs) ys = omega (arith, length-append xs ys)

  -- `query.filter(p).first()`
  unfoldable pub find? : (A → Bool) → List A → Option A
  find? p [] = none
  find? p (x ∷ xs) = if p x then some x else find? p xs

  -- `query.filter(p).all()`
  unfoldable pub where_all : (A → Bool) → List A → List A
  where_all p [] = []
  where_all p (x ∷ xs) = let rest = where_all p xs in if p x then x ∷ rest else rest

  -- The row that `find?` returns, changed in place.
  unfoldable pub update_first : (A → Bool) → (A → A) → List A → List A
  update_first p f [] = []
  update_first p f (x ∷ xs) = if p x then f x ∷ xs else x ∷ update_first p f xs

  -- `query.filter(p).update(...)`
  unfoldable pub update_all : (A → Bool) → (A → A) → List A → List A
  update_all p f [] = []
  update_all p f (x ∷ xs) = (if p x then f x else x) ∷ update_all p f xs

  unfoldable pub any : (A → Bool) → List A → Bool
  any p [] = false
  any p (x ∷ xs) = p x || any p xs

  unfoldable pub all : (A → Bool) → List A → Bool
  all p [] = true
  all p (x ∷ xs) = p x && all p xs

  abbrev pub All {κ} : (A → Type κ) → List A → Type κ
  All P [] = Unit
  All P (x ∷ xs) = P x × All P xs

module _ {ℓ} {A : Type ℓ} where
  pub find?-holds : (p : A → Bool) (xs : List A) {x : A} → find? p xs ≡ some x → p x ≡ true
  unfolding find?
  find?-holds p [] h = ground arith
  find?-holds p (y ∷ ys) {x} h = ground (arith, find?-holds p ys {x = x})

  -- A row that is appended is found, when no earlier row is.
  pub find?-append_new :
      (p : A → Bool) (xs : List A) (x : A)
      → find? p xs ≡ none
      → p x ≡ true
      → find? p (xs ++ x ∷ []) ≡ some x
  unfolding find?
  find?-append_new p [] x h k = ground arith
  find?-append_new p (y ∷ ys) x h k = ground (arith, find?-append_new p ys x)

  -- An appended row never hides an earlier one.
  pub find?-append_old :
      (p : A → Bool) (xs ys : List A) {x : A} → find? p xs ≡ some x → find? p (xs ++ ys) ≡ some x
  unfolding find?
  find?-append_old p [] ys h = ground arith
  find?-append_old p (z ∷ zs) ys {x} h = ground (arith, find?-append_old p zs ys {x = x})

  pub find?-append_none :
      (p : A → Bool) (xs : List A) (x : A) → p x ≡ false → find? p (xs ++ x ∷ []) ≡ find? p xs
  unfolding find?
  find?-append_none p [] x h = ground arith
  find?-append_none p (y ∷ ys) x h = ground (arith, find?-append_none p ys x)

  pub find?-update_self :
      (p : A → Bool) (f : A → A) (xs : List A) {x : A}
      → find? p xs ≡ some x
      → p (f x) ≡ true
      → find? p (update_first p f xs) ≡ some (f x)
  unfolding find? update_first
  find?-update_self p f [] h k = ground arith
  find?-update_self p f (y ∷ ys) {x} h k = ground (arith, find?-update_self p f ys {x = x})

  -- A change that `q` does not see, at a row that `q` does not select.
  pub find?-update_other :
      (p q : A → Bool) (f : A → A) (xs : List A)
      → ((x : A) → p x ≡ true → (q x ≡ false) × (q (f x) ≡ false))
      → find? q (update_first p f xs) ≡ find? q xs
  unfolding find? update_first
  find?-update_other p q f [] h = refl
  find?-update_other p q f (y ∷ ys) h = ground (arith, h y, find?-update_other p q f ys h)

  pub length-update_first :
      (p : A → Bool) (f : A → A) (xs : List A) → length (update_first p f xs) ≡ length xs
  unfolding update_first
  length-update_first p f [] = refl
  length-update_first p f (y ∷ ys) = ground (arith, length-update_first p f ys)

  pub where_all-append :
      (p : A → Bool) (xs ys : List A) → where_all p (xs ++ ys) ≡ where_all p xs ++ where_all p ys
  unfolding where_all
  where_all-append p [] ys = refl
  where_all-append p (x ∷ xs) ys = ground (arith, where_all-append p xs ys)

  pub All-append {κ} : (P : A → Type κ) (xs ys : List A) → All P xs → All P ys → All P (xs ++ ys)
  All-append P [] ys hx hy = hy
  All-append P (x ∷ xs) ys hx hy = (hx.0, All-append P xs ys hx.1 hy)

  pub all-append : (p : A → Bool) (xs ys : List A) → all p (xs ++ ys) ≡ (all p xs && all p ys)
  unfolding all
  all-append p [] ys = refl
  all-append p (x ∷ xs) ys = ground (arith, all-append p xs ys)

  pub where_all_of_none : (p : A → Bool) (xs : List A) → find? p xs ≡ none → where_all p xs ≡ []
  unfolding find? where_all
  where_all_of_none p [] h = refl
  where_all_of_none p (x ∷ xs) h = ground (arith, where_all_of_none p xs)

  found_here :
      (p : A → Bool) (x : A) (xs : List A) (b : A)
      → p x ≡ true
      → (if p x then some x else find? p xs) ≡ some b
      → x ≡ b
  found_here p x xs b hit e = ground arith

  -- A property of every row survives a change of the row that was found.
  pub All-update_found {κ} :
      (P : A → Type κ) (p : A → Bool) (f : A → A) (xs : List A) (b : A)
      → find? p xs ≡ some b
      → P (f b)
      → All P xs
      → All P (update_first p f xs)
  unfolding find? update_first
  All-update_found P p f [] b e h hs = tt
  All-update_found P p f (x ∷ xs) b e h hs = elim (Bool-cases (p x)) [
    | inl hit ↦ rw hit (rw (found_here p x xs b hit e) h, hs.1)
    | inr miss ↦ rw miss (hs.0, All-update_found P p f xs b (rw miss at e) h hs.1)
  ]

  pub All-found {κ} :
      (P : A → Type κ) (p : A → Bool) (xs : List A) (b : A) → find? p xs ≡ some b → All P xs → P b
  unfolding find?
  All-found P p [] b e h = absurd (ground arith)
  All-found P p (x ∷ xs) b e h = elim (Bool-cases (p x)) [
    | inl hit ↦ rw (← found_here p x xs b hit e) h.0
    | inr miss ↦ All-found P p xs b (rw miss at e) h.1
  ]

  -- Two changes of one row, the first of which leaves it found, are one change.
  pub update_first_twice :
      (p : A → Bool) (f g : A → A) (xs : List A)
      → ((x : A) → p x ≡ true → p (f x) ≡ true)
      → update_first p g (update_first p f xs) ≡ update_first p (λ x. g (f x)) xs
  unfolding update_first
  update_first_twice p f g [] h = refl
  update_first_twice p f g (x ∷ xs) h = ground (arith, h x, update_first_twice p f g xs h)
