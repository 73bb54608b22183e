-- ===== src/Prelude/Lists.antt =====
-- Lists measured by native numbers, and the searches that the repositories make.
use Prim.Native.Nat.{ℕ, suc, ◌+◌, ◌-◌}
use mathlib.Core.Path.{◌≡◌, subst}
use mathlib.Core.Logic.{◌⊎◌, inl, inr}
use mathlib.Core.Bool.{Bool, true, false, ◌||◌, ◌&&◌}
use mathlib.Core.Option.{Option, none, some}
use mathlib.Core.List.{List, [], ◌∷◌, ◌++◌, map}
use native.Mathlib.Omega.{arith}
use Prim.Native.String.{String}
use text.Mathlib.Text.{◌==◌ as str_eq}
use seed_mg.Prelude.Tests.{ltb, if◌then◌else◌, is_some}

module _ {ℓ} {A : Type ℓ} where
  abbrev pub length : List A → ℕ
  length [] = 0
  length (x ∷ xs) = suc (length xs)

  -- `next((item for item in xs if p(item)), None)`, and `scalar(select(...).where(p))`.
  abbrev pub find : (A → Bool) → List A → Option A
  find p [] = none
  find p (x ∷ xs) = if p x then some x else find p xs

  abbrev pub any : (A → Bool) → List A → Bool
  any p [] = false
  any p (x ∷ xs) = p x || any p xs

  -- `xs[:n]`
  abbrev pub take : ℕ → List A → List A
  take n [] = []
  take n (x ∷ xs) = let rest = take (n - 1) xs in if ltb 0 n then x ∷ rest else []

  abbrev pub all : (A → Bool) → List A → Bool
  all p [] = true
  all p (x ∷ xs) = p x && all p xs

  -- `[item for item in xs if p(item)]`
  abbrev pub keep : (A → Bool) → List A → List A
  keep p [] = []
  keep p (x ∷ xs) = let rest = keep p xs in if p x then x ∷ rest else rest

  pub length-append : (xs ys : List A) → length (xs ++ ys) ≡ length xs + length ys
  length-append [] ys = omega arith
  length-append (x ∷ xs) ys = omega (arith, length-append xs ys)

  -- What a search finds passes its test.
  pub find_sound : (p : A → Bool) (xs : List A) (a : A) → find p xs ≡ some a → p a ≡ true
  find_sound p [] a h = cc
  find_sound p (x ∷ xs) a h = ground (arith, find_sound p xs a)

module _ {A B : Type 0} where
  -- The lists have one length, and the relation holds at each place.
  abbrev pub Each : (A → B → Type 0) → List A → List B → Type 0
  Each R [] [] = Unit
  Each R [] (_ ∷ _) = ⊥
  Each R (_ ∷ _) [] = ⊥
  Each R (x ∷ xs) (y ∷ ys) = R x y × Each R xs ys

  pub Each-map :
      (R : A → B → Type 0) (f : A → B)
      → ((a : A) → R a (f a))
      → (xs : List A) → Each R xs (map f xs)
  Each-map R f h [] = tt
  Each-map R f h (x ∷ xs) = (h x, Each-map R f h xs)

module _ {A : Type 0} where
  abbrev pub Member : A → List A → Type 0
  Member a [] = ⊥
  Member a (x ∷ xs) = (x ≡ a) ⊎ Member a xs

  pub Member-append :
      (a : A) (xs : List A) (x : A) → Member a (xs ++ (x ∷ [])) → Member a xs ⊎ (x ≡ a)
  Member-append a [] x (inl same) = inr same
  Member-append a [] x (inr m) = absurd m
  Member-append a (y ∷ ys) x (inl same) = inl (inl same)
  Member-append a (y ∷ ys) x (inr m) = elim (Member-append a ys x m) [
    | inl here ↦ inl (inr here)
    | inr same ↦ inr same
  ]

  pub any_complete :
      (p : A → Bool) (xs : List A) → any p xs ≡ false → (a : A) → Member a xs → p a ≡ false
  any_complete p [] h a m = absurd m
  any_complete p (x ∷ xs) h a (inl same) = subst (λ y. p y ≡ false) same (ground arith)
  any_complete p (x ∷ xs) h a (inr rest) = any_complete p xs (ground arith) a rest

  -- What a search that finds nothing says of the members.
  pub find_complete :
      (p : A → Bool) (xs : List A)
      → is_some (find p xs) ≡ false
      → (a : A) → Member a xs
      → p a ≡ false
  find_complete p [] h a m = absurd m
  find_complete p (x ∷ xs) h a (inl same) = subst (λ y. p y ≡ false) same (ground arith)
  find_complete p (x ∷ xs) h a (inr rest) = find_complete p xs (ground arith) a rest

-- `text in texts`
abbrev pub mem_text : String → List String → Bool
mem_text t = any (λ u. str_eq u t)
