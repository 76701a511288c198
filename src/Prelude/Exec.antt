-- ===== src/Prelude/Exec.antt =====
-- Methods that change a store and may raise. What was written before a raise stays written (the
-- caller decides whether to roll back), so the store comes back beside the error.
use agenticops.Prelude.{String, ◌≡◌, Bool, true, false, Option, none, some}

-- The exceptions of the services; the text is the exception's message.
pub data Error : Type 0 where
  lookup_error value_error : String → Error
  invalid_case_transition : String → Error
  budget_exhausted : String → Error
  type_error key_error : String → Error
  lease_unavailable : String → Error

pub data Result {ℓ} (A : Type ℓ) : Type ℓ where
  ok : A → Result A
  err : Error → Result A

abbrev pub Exec {ℓ} : Type ℓ → Type ℓ → Type ℓ
Exec S A = S → Result A × S

module _ {ℓ} {S A : Type ℓ} where
  abbrev pub pure : A → Exec S A
  pure a s = (ok a, s)

  abbrev pub raise : Error → Exec S A
  raise e s = (err e, s)

  abbrev pub gets : (S → A) → Exec S A
  gets f s = (ok (f s), s)

abbrev pub modify : {S : Type 0} → (S → S) → Exec S Unit
modify f s = (ok tt, f s)

abbrev pub require : {S : Type 0} → Bool → Error → Exec S Unit
require true e s = (ok tt, s)
require false e s = (err e, s)

abbrev pub some_or : {S A : Type 0} → Option A → Error → Exec S A
some_or none e s = (err e, s)
some_or (some a) e s = (ok a, s)

abbrev pub continue : {S A B : Type 0} → (A → Exec S B) → Result A × S → Result B × S
continue f (ok a, s) = f a s
continue f (err e, s) = (err e, s)

infixl 5 ◌>>=◌ ◌>>◌
abbrev pub ◌>>=◌ : {S A B : Type 0} → Exec S A → (A → Exec S B) → Exec S B
◌>>=◌ m f s = continue f (m s)

abbrev pub ◌>>◌ : {S B : Type 0} → Exec S Unit → Exec S B → Exec S B
m >> k = m >>= λ _. k

-- An action on a part of a larger store.
abbrev pub zoom : {S T A : Type 0} → (S → T) → (T → S → S) → Exec T A → Exec S A
zoom get put m s = let r = m (get s) in (r.0, put r.1 s)

-- An action that raises leaves no trace.
abbrev pub Atomic : {S A : Type 0} → Exec S A → Type 0
Atomic {S} m = (s : S) (e : Error) → (m s).0 ≡ err e → (m s).1 ≡ s
