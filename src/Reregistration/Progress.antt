-- ===== src/Reregistration/Progress.antt =====
-- reset_reregister_workflow.py: the progress that a workflow shows is bounded and never repeats itself.
use seed_mg.Prelude.{
  and-eq_true, not-eq_true, ℕ, suc, ◌-◌, ◌≤◌, String, ◌≡◌, refl, Bool, true, false, not, ◌&&◌,
  Option, none, some, List, [], ◌∷◌, ◌++◌, arith, str_eq, ltb, ltb→lt, length, Bool-cases, inl, inr,
}
use seed_mg.Reregistration.{last, ends_with, drop, appended, progress_after}

-- No entry is the same as the one after it.
unfoldable pub is_steady : List String → Bool
is_steady [] = true
is_steady (x ∷ []) = true
is_steady (x ∷ y ∷ xs) = not (str_eq x y) && is_steady (y ∷ xs)

pub record IsTidy (entries : List String) : Type 0 where
  pub bounded : length entries ≤ 40
  pub steady : is_steady entries ≡ true

tail-steady : (x : String) (xs : List String) → is_steady (x ∷ xs) ≡ true → is_steady xs ≡ true
unfolding is_steady
tail-steady x [] h = refl
tail-steady x (y ∷ xs) h = ground arith

drop-steady : (n : ℕ) (xs : List String) → is_steady xs ≡ true → is_steady (drop n xs) ≡ true
unfolding drop
drop-steady n [] h = h
drop-steady n (x ∷ xs) h = elim (Bool-cases (ltb 0 n)) [
  | inl more ↦ rw more (drop-steady (n - 1) xs (tail-steady x xs h))
  | inr all_kept ↦ rw all_kept h
]

length-drop : (n : ℕ) (xs : List String) → length (drop n xs) ≤ length xs - n
unfolding drop
length-drop n [] = omega arith
length-drop n (x ∷ xs) = elim (Bool-cases (ltb 0 n)) [
  | inl more ↦
      let shorter : length (drop (n - 1) xs) ≤ suc (length xs) - n =
        omega (arith, ltb→lt 0 n more, length-drop (n - 1) xs) in
      rw more shorter
  | inr all_kept ↦
      let whole : suc (length xs) ≤ suc (length xs) - n = ground (arith, all_kept) in
      rw all_kept whole
]

append-steady :
    (t : String) (xs : List String)
    → is_steady xs ≡ true
    → ends_with t (last xs) ≡ false
    → is_steady (xs ++ (t ∷ [])) ≡ true
unfolding is_steady last
append-steady t [] h e = refl
append-steady t (x ∷ []) h e = rw e refl
append-steady t (x ∷ y ∷ xs) h e =
    let (differs, rest) = and-eq_true (not (str_eq x y)) (is_steady (y ∷ xs)) h in
    rw differs (append-steady t (y ∷ xs) rest e)

appended-steady :
    (p : Option String) (xs : List String) → is_steady xs ≡ true → is_steady (appended p xs) ≡ true
appended-steady none xs h = h
appended-steady (some t) xs h =
    elim (Bool-cases (not (str_eq t "") && not (ends_with t (last xs)))) [
      | inl new ↦
          let fresh = not-eq_true (ends_with t (last xs)) (and-eq_true _ _ new).1 in
          rw new (append-steady t xs h fresh)
      | inr old ↦ rw old h
    ]

-- Whatever progress is reported, a tidy list stays tidy: at most 40 entries, none of them like the one
-- before it.
pub progress_after-IsTidy :
    (p : Option String) (entries : List String) → IsTidy entries → IsTidy (progress_after p entries)
unfolding progress_after
progress_after-IsTidy p entries h = record {
  bounded = omega (arith, length-drop (length (appended p entries) - 40) (appended p entries));
  steady =
      drop-steady (length (appended p entries) - 40) (appended p entries)
        (appended-steady p entries h.steady);
}
