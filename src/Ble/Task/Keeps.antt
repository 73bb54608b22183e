-- ===== src/Ble/Task/Keeps.antt =====
-- Conversations that keep an invariant of what the task has seen.
use seed_mg.Prelude.{if◌then◌else◌, ◌≡◌, refl, subst, Bool, true, false, Result, ok, err}
use seed_mg.Ble.Task.{Task, ◌>>=◌, ◌>>◌, pure, raise, lift, demand, continue}

abbrev pub WhenOk : {E A : Type 0} → (A → Type 0) → Result E A → Type 0
WhenOk P (ok a) = P a
WhenOk P (err e) = Unit

-- Any value will do.
abbrev pub Any : {A : Type 0} → A → Type 0
Any a = Unit

pub Any-WhenOk : {E A : Type 0} (r : Result E A) → WhenOk Any r
Any-WhenOk (ok a) = tt
Any-WhenOk (err e) = tt

-- A conversation keeps `I`, whether it returns or raises, and what it returns has `P`.
module _ {E S : Type 0} (I : S → Type 0) where
  unfoldable pub Keeps : {A : Type 0} → (A → Type 0) → Task E S A → Type 0
  Keeps P m = (s : S) → I s → I ((m.run s).1) × WhenOk P ((m.run s).0)

  pub continue-Keeps :
      {A B : Type 0} (P : A → Type 0) (R : B → Type 0) (f : A → Task E S B) (x : Result E A × S)
      → ((a : A) → P a → Keeps R (f a))
      → I x.1
      → WhenOk P x.0
      → I ((continue f x).1) × WhenOk R ((continue f x).0)
  unfolding Keeps
  continue-Keeps P R f (ok a, s) each i p = each a p s i
  continue-Keeps P R f (err e, s) each i p = (i, tt)

  pub bind-Keeps :
      {A B : Type 0} (P : A → Type 0) (R : B → Type 0) (m : Task E S A) (f : A → Task E S B)
      → Keeps P m
      → ((a : A) → P a → Keeps R (f a))
      → Keeps R (m >>= f)
  unfolding Keeps
  bind-Keeps P R m f k each s i = let (j, p) = k s i in continue-Keeps P R f (m.run s) each j p

  -- What follows a conversation whose value does not matter.
  pub then-Keeps :
      {A B : Type 0} (R : B → Type 0) (m : Task E S A) (f : A → Task E S B)
      → Keeps Any m
      → ((a : A) → Keeps R (f a))
      → Keeps R (m >>= f)
  then-Keeps R m f k each = bind-Keeps Any R m f k (λ a _. each a)

  pub demand-Keeps :
      {B : Type 0} (R : B → Type 0) (c : Bool) (e : E) (k : Task E S B)
      → Keeps R k
      → Keeps R (demand c e >> k)
  unfolding Keeps
  demand-Keeps R true e k keep s i = keep s i
  demand-Keeps R false e k keep s i = (i, tt)

  -- What follows a guard may rely on it.
  pub demanded-Keeps :
      {B : Type 0} (R : B → Type 0) (c : Bool) (e : E) (k : Task E S B)
      → (c ≡ true → Keeps R k)
      → Keeps R (demand c e >> k)
  unfolding Keeps
  demanded-Keeps R true e k keep s i = keep refl s i
  demanded-Keeps R false e k keep s i = (i, tt)

  pub lift-Keeps : {A : Type 0} (P : A → Type 0) (r : Result E A) → WhenOk P r → Keeps P (lift r)
  unfolding Keeps
  lift-Keeps P r p s i = (i, p)

  pub branch-Keeps :
      {A : Type 0} (P : A → Type 0) (b : Bool) (m k : Task E S A)
      → Keeps P m
      → Keeps P k
      → Keeps P (if b then m else k)
  branch-Keeps P true m k i j = i
  branch-Keeps P false m k i j = j

  pub raise-Keeps : {A : Type 0} (P : A → Type 0) (e : E) → Keeps P (raise e)
  unfolding Keeps
  raise-Keeps P e s i = (i, tt)

pub pure-Keeps :
    (E : Type 0) {S A : Type 0} (I : S → Type 0) (P : A → Type 0) (a : A)
    → P a
    → Keeps I P (pure {E = E} a)
unfolding Keeps
pure-Keeps E I P a p s i = (i, p)

-- What a conversation that keeps `P` returns has `P`.
module _ {E S A : Type 0} (P : A → Type 0) (m : Task E S A) where
  pub Any-Keeps : Keeps Any Any m
  unfolding Keeps
  Any-Keeps s i = (tt, Any-WhenOk ((m.run s).0))

  pub eq_ok-Keeps : ((s : S) (a : A) (t : S) → m.run s ≡ (ok a, t) → P a) → Keeps Any P m
  unfolding Keeps
  eq_ok-Keeps each s i = (tt, of_run (m.run s) refl)
    where
      of_run : (x : Result E A × S) → m.run s ≡ x → WhenOk P x.0
      of_run (ok a, t) e = each s a t e
      of_run (err e, t) h = tt

  pub Keeps-eq_ok : Keeps Any P m → (s : S) (a : A) (t : S) → m.run s ≡ (ok a, t) → P a
  unfolding Keeps
  Keeps-eq_ok k s a t h = subst (λ x. WhenOk P x.0) h (k s tt).1
