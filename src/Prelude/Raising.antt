-- ===== src/Prelude/Raising.antt =====
-- Functions that may raise: a value or the exception, and the guards `if not test: raise`.
use mathlib.Core.Path.{◌≡◌, refl, ap}
use mathlib.Core.Bool.{Bool, true, false}
use mathlib.Core.Option.{Option, none, some}
use seed_mg.Prelude.Tests.{if◌then◌else◌}

pub data Result (E A : Type 0) : Type 0 where
  ok : A → Result E A
  err : E → Result E A

infixl 5 ◌>>=◌ ◌>>◌
abbrev pub ◌>>=◌ : {E A B : Type 0} → Result E A → (A → Result E B) → Result E B
ok a >>= f = f a
err e >>= f = err e

abbrev pub ◌>>◌ : {E B : Type 0} → Result E (Unit {0}) → Result E B → Result E B
m >> k = m >>= λ _. k

-- `if not b: raise e`
abbrev pub require : {E : Type 0} → Bool → E → Result E (Unit {0})
require true e = ok tt
require false e = err e

-- `if o is None: raise e`, and the value of `o` otherwise.
abbrev pub require_some : {E A : Type 0} → Option A → E → Result E A
require_some none e = err e
require_some (some a) e = ok a

-- A chain of guards that returns has passed its first guard, and its rest returns.
pub require-bind-eq_ok :
    {E B : Type 0} (b : Bool) (e : E) (k : Result E B) {x : B}
    → (require b e >> k) ≡ ok x
    → (b ≡ true) × (k ≡ ok x)
require-bind-eq_ok true e k h = (refl, h)
require-bind-eq_ok false e k h = cc

pub require_some-bind-eq_ok :
    {E A B : Type 0} (o : Option A) (e : E) (f : A → Result E B) {x : B}
    → (require_some o e >>= f) ≡ ok x
    → (a : A) × (o ≡ some a) × (f a ≡ ok x)
require_some-bind-eq_ok none e f h = cc
require_some-bind-eq_ok (some a) e f h = (a, refl, h)

pub unit-bind-eq_ok :
    {E B : Type 0} (m : Result E (Unit {0})) (k : Result E B) {x : B}
    → (m >> k) ≡ ok x
    → (m ≡ ok tt) × (k ≡ ok x)
unit-bind-eq_ok (ok u) k h = (refl, h)
unit-bind-eq_ok (err e) k h = cc

-- `ok` is injective; the common value is given apart, since a bare `ok` fixes no error type.
pub ok-injective : {E A : Type 0} {a b : A} {m : Result E A} → m ≡ ok a → m ≡ ok b → a ≡ b
ok-injective h k = cc

pub bind-eq_ok :
    {E A B : Type 0} (m : Result E A) (f : A → Result E B) {x : B}
    → (m >>= f) ≡ ok x
    → (a : A) × (m ≡ ok a) × (f a ≡ ok x)
bind-eq_ok (ok a) f h = (a, refl, h)
bind-eq_ok (err e) f h = cc

-- A method that raised in neither branch took the one that does not raise.
module _ {E S A : Type 0} (b : Bool) (e : E) (s : S) (m : Result E A × S) {a : A} {t : S} where
  pub if_err-eq_ok : (if b then (err e, s) else m) ≡ (ok a, t) → (b ≡ false) × (m ≡ (ok a, t))
  if_err-eq_ok h = split b h
    where
      split : (c : Bool) → (if c then (err e, s) else m) ≡ (ok a, t) → (c ≡ false) × (m ≡ (ok a, t))
      split true k = cc (ap (λ x. x.0) k)
      split false k = (refl, k)

  pub if_else_err-eq_ok : (if b then m else (err e, s)) ≡ (ok a, t) → (b ≡ true) × (m ≡ (ok a, t))
  if_else_err-eq_ok h = split b h
    where
      split : (c : Bool) → (if c then m else (err e, s)) ≡ (ok a, t) → (c ≡ true) × (m ≡ (ok a, t))
      split true k = (refl, k)
      split false k = cc (ap (λ x. x.0) k)
