-- ===== src/Prelude/Table.antt =====
-- A database table as the list of its rows, with a text column as its unique key: the row with a
-- key, and the assignment to the attributes of that row.
use Prim.Native.String.{String}
use mathlib.Core.Path.{◌≡◌, refl}
use mathlib.Core.Option
use mathlib.Core.Option.{Option, none, some}
use mathlib.Core.List.{List, [], ◌∷◌}
use native.Mathlib.Omega.{arith}
use text.Mathlib.Text.{◌==◌ as str_eq}
use text.Mathlib.TextEquality.{eq_iff}
use seed_mg.Prelude.Tests.{if◌then◌else◌}
use seed_mg.Prelude.Lists.{length}

module _ {A : Type 0} (key : A → String) where
  unfoldable pub row : String → List A → Option A
  row k [] = none
  row k (r ∷ rs) = if str_eq (key r) k then some r else row k rs

  unfoldable pub set_row : String → (A → A) → List A → List A
  set_row k f [] = []
  set_row k f (r ∷ rs) = if str_eq (key r) k then f r ∷ rs else r ∷ set_row k f rs

  pub key-row : (k : String) (rs : List A) (a : A) → row k rs ≡ some a → key a ≡ k
  unfolding row
  key-row k [] a h = cc
  key-row k (r ∷ rs) a h = ground (arith, eq_iff (key r) k, key-row k rs a)

  -- An assignment to the row with key `k` is seen under `k` and nowhere else.
  pub row-set_row :
      (k j : String) (f : A → A) (rs : List A)
      → ((a : A) → key (f a) ≡ key a)
      → row j (set_row k f rs) ≡ (if str_eq k j then Option.map f (row j rs) else row j rs)
  unfolding row set_row
  row-set_row k j f [] h = ground arith
  row-set_row k j f (r ∷ rs) h = ground (
    arith,
    h r,
    eq_iff (key r) k,
    eq_iff (key r) j,
    eq_iff (key (f r)) j,
    eq_iff k j,
    row-set_row k j f rs h,
  )

  pub length-set_row : (k : String) (f : A → A) (rs : List A) → length (set_row k f rs) ≡ length rs
  unfolding set_row
  length-set_row k f [] = refl
  length-set_row k f (r ∷ rs) = ground (arith, length-set_row k f rs)
