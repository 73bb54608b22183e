-- ===== src/Ble/Task.antt =====
-- The steps of a conversation with a node: each may raise, and each changes what the task has seen.
pub mod Keeps
use seed_mg.Prelude.{ℕ, Bool, true, false, Option, none, some, Result, ok, err, ◌≡◌, refl, ap}

pub record Task (E S A : Type 0) : Type 0 where
  pub run : S → Result E A × S

module _ {E S : Type 0} where
  infixl 5 ◌>>=◌ ◌>>◌
  abbrev pub continue : {A B : Type 0} → (A → Task E S B) → Result E A × S → Result E B × S
  continue f (ok a, s) = (f a).run s
  continue f (err e, s) = (err e, s)

  abbrev pub ◌>>=◌ : {A B : Type 0} → Task E S A → (A → Task E S B) → Task E S B
  m >>= f = record { run = λ s. continue f (m.run s) }

  abbrev pub ◌>>◌ : {B : Type 0} → Task E S (Unit {0}) → Task E S B → Task E S B
  m >> k = m >>= λ _. k

  abbrev pub pure : {A : Type 0} → A → Task E S A
  pure a = record { run = λ s. (ok a, s) }

  abbrev pub lift : {A : Type 0} → Result E A → Task E S A
  lift r = record { run = λ s. (r, s) }

  abbrev pub raise : {A : Type 0} → E → Task E S A
  raise e = record { run = λ s. (err e, s) }

  -- `if not b: raise e`
  abbrev pub demand : Bool → E → Task E S (Unit {0})
  demand true e = pure tt
  demand false e = raise e

  -- `if o is None: raise e`, and the value of `o` otherwise.
  abbrev pub demand_some : {A : Type 0} → Option A → E → Task E S A
  demand_some none e = raise e
  demand_some (some a) e = pure a

  -- A chain that returns has passed its first step, and goes on from what that step left.
  pub continue-eq_ok :
      {A B : Type 0} (f : A → Task E S B) (x : Result E A × S) {b : B} {t : S}
      → continue f x ≡ (ok b, t)
      → (a : A) × (u : S) × (x ≡ (ok a, u)) × ((f a).run u ≡ (ok b, t))
  continue-eq_ok f (ok a, u) h = (a, u, refl, h)
  continue-eq_ok f (err e, u) h = cc (ap (λ y. y.0) h)

  pub demand-eq_ok :
      {B : Type 0} (c : Bool) (e : E) (k : Task E S B) (s : S) {b : B} {t : S}
      → (demand c e >> k).run s ≡ (ok b, t)
      → (c ≡ true) × (k.run s ≡ (ok b, t))
  demand-eq_ok true e k s h = (refl, h)
  demand-eq_ok false e k s h = cc (ap (λ y. y.0) h)
