-- ===== src/Prelude/Outcome.antt =====
-- Results of Go functions that return a value or an error, and actions on a state that do so.
use mathlib.Core.Path.{◌≡◌, refl}
use mathlib.Core.Bool.{Bool, true, false}
use ani_session_gateway.Prelude.Tests.{if◌then◌else◌}

pub data Result {ℓ} (E A : Type ℓ) : Type ℓ where
  ok : A → Result E A
  err : E → Result E A

abbrev pub and_then {ℓ} : {E A B : Type ℓ} → Result E A → (A → Result E B) → Result E B
and_then (ok a) f = f a
and_then (err e) f = err e

-- What is written before an error stays written: the state comes back with the error too.
abbrev pub Op {ℓ} : Type ℓ → Type ℓ → Type ℓ → Type ℓ
Op E S A = S → Result E A × S

module _ {ℓ} {E S A B : Type ℓ} where
  abbrev pub continue : Result E A → (A → Op E S B) → Op E S B
  continue (ok a) f s = f a s
  continue (err e) f s = (err e, s)

module _ {ℓ} {E S A B : Type ℓ} where
  infixl 5 ◌>>=◌
  abbrev pub ◌>>=◌ : Op E S A → (A → Op E S B) → Op E S B
  ◌>>=◌ m f s = let (r, t) = m s in continue r f t

abbrev pub pure {ℓ} : {E S A : Type ℓ} → A → Op E S A
pure a s = (ok a, s)

abbrev pub raise {ℓ} : {E S A : Type ℓ} → E → Op E S A
raise e s = (err e, s)

abbrev pub map_err {ℓ} : {E F A : Type ℓ} → (E → F) → Result E A → Result F A
map_err f (ok a) = ok a
map_err f (err e) = err (f e)

module _ {ℓ} {E S A B : Type ℓ} where
  continue-eq-ok :
      (r : Result E A) (f : A → Op E S B) (t : S) {b : B}
      → (continue r f t).0 ≡ ok b
      → (a : A) × (r ≡ ok a) × ((f a t).0 ≡ ok b)
  continue-eq-ok (ok a) f t h = (a, refl, h)
  continue-eq-ok (err e) f t h = cc

  -- Inversion of an action that returns a value.
  pub >>=-eq-ok :
      (m : Op E S A) (f : A → Op E S B) (s : S) {b : B}
      → ((m >>= f) s).0 ≡ ok b
      → (a : A) × ((m s).0 ≡ ok a) × ((f a (m s).1).0 ≡ ok b)
  >>=-eq-ok m f s h = continue-eq-ok (m s).0 f (m s).1 h

pub ok-injective {ℓ} : {E A : Type ℓ} {a b : A} → ◌≡◌ {A = Result E A} (ok a) (ok b) → a ≡ b
ok-injective h = cc

-- A guard that refuses let a result through.
pub guard-eq-ok {ℓ} :
    {E A : Type ℓ} (b : Bool) (e : E) {r : Result E A} {a : A}
    → (if b then err e else r) ≡ ok a
    → (b ≡ false) × (r ≡ ok a)
guard-eq-ok true e h = cc
guard-eq-ok false e h = (refl, h)

-- Inversion of a chain of results.
pub and_then-eq-ok {ℓ} :
    {E A B : Type ℓ} (r : Result E A) (f : A → Result E B) {b : B}
    → and_then r f ≡ ok b
    → (a : A) × (r ≡ ok a) × (f a ≡ ok b)
and_then-eq-ok (ok a) f h = (a, refl, h)
and_then-eq-ok (err e) f h = cc
