-- ===== src/Lifecycle/Service/Identity.antt =====
-- device_lifecycle_service.py: what the three checks of `restore` say of the recorded identity.
use seed_mg.Prelude.{
  ℕ, String, ◌≡◌, ◌≢◌, inl, inr, refl, ap, sym, ◌∙◌, Bool, true, false, not, ◌&&◌, ◌||◌, Option,
  none, some, List, [], ◌∷◌, map, codes, str_eq, eq_iff, eq_refl, Bool-cases, and-eq_true,
  not-eq_true, not_true, arith, ◌==◌, ==_iff, opt_str_eq, opt_str_eq→eq, Member, find_complete,
}
use seed_mg.Models.Device.{RegisteredDevice}
use seed_mg.Lifecycle.Service.{
  lower, same_codes, same_folded, is_given, hardware_differs, address_differs, other_with,
  has_conflict,
}

given : (t : String) → t ≢ "" → is_given (some t) ≡ true
given t h = elim (Bool-cases (str_eq t "")) [
  | inl empty ↦ absurd (h ((eq_iff t "").0 empty))
  | inr full ↦ ap not full
]

given-ne : (t : String) → is_given (some t) ≡ true → t ≢ ""
given-ne t h e = not_true (not-eq_true _ h) ((eq_iff t "").1 e)

opt_str_eq_refl : (o : Option String) → opt_str_eq o o ≡ true
opt_str_eq_refl none = refl
opt_str_eq_refl (some t) = eq_refl t

same_codes→eq : (a b : List ℕ) → same_codes a b ≡ true → a ≡ b
same_codes→eq [] [] h = refl
same_codes→eq [] (y ∷ ys) h = cc
same_codes→eq (x ∷ xs) [] h = cc
same_codes→eq (x ∷ xs) (y ∷ ys) h =
    let (heads, tails) = and-eq_true (x == y) _ h in
    let head = (==_iff x y).0 heads in let tail = same_codes→eq xs ys tails in cc

-- A refused test after one that passed.
second_fails : (a b : Bool) → (a && b) ≡ false → a ≡ true → b ≡ false
second_fails a b h t = ground arith

not-eq_false : (b : Bool) → not b ≡ false → b ≡ true
not-eq_false b h = ground arith

pub hardware_differs-same :
    (h : String) (expected : Option String)
    → hardware_differs (some h) expected ≡ false
    → h ≢ ""
    → expected ≡ some h
hardware_differs-same h expected c full =
    opt_str_eq→eq expected (some h) (not-eq_false _ (second_fails _ _ c (given h full)))

pub address_differs-same :
    (a : String) (expected : Option String)
    → address_differs (some a) expected ≡ false
    → a ≢ ""
    → (e : String) × (expected ≡ some e) × (e ≢ "") × (map lower (codes e) ≡ map lower (codes a))
unfolding address_differs same_folded
address_differs-same a none c full = cc (second_fails _ _ c (given a full))
address_differs-same a (some e) c full =
    let (known, same) = neither _ _ (second_fails _ _ c (given a full)) in
    (e, refl, given-ne e known, same_codes→eq _ _ same)
  where
    neither : (x y : Bool) → (not x || not y) ≡ false → (x ≡ true) × (y ≡ true)
    neither x y h = ground arith

pub has_conflict_unique :
    (d : RegisteredDevice) (devices : List RegisteredDevice)
    → has_conflict d devices ≡ false
    → (h : String) → d.hardware_id ≡ some h
    → h ≢ ""
    → (other : RegisteredDevice) → Member other devices
    → other.hardware_id ≡ some h
    → other.id ≡ d.id
unfolding has_conflict
has_conflict_unique d devices c h recorded full other m same =
    let nothing = second_fails _ _ c (ap is_given recorded ∙ given h full) in
    let differs = find_complete (other_with d.hardware_id d.id) devices nothing other m in
    let alike =
      ap (λ o. opt_str_eq o d.hardware_id) (same ∙ sym recorded) ∙ opt_str_eq_refl d.hardware_id in
    (==_iff other.id d.id).0 (not-eq_false _ (second_fails _ _ differs alike))
