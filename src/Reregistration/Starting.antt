-- ===== src/Reregistration/Starting.antt =====
-- reset_reregister_workflow.py: `start` gives a running workflow of the device, and makes none beside it.
use seed_mg.Prelude.{
  ℕ, String, ◌≡◌, refl, ap, subst, ◌∙◌, Bool, true, false, Option, none, some, List, [], ◌∷◌, ◌++◌,
  arith, if◌then◌else◌, inl, inr, Bool-cases, ltb, keep, if-cases, ok, ◌>>=◌, bind-eq_ok,
  ok-injective,
}
use mathlib.Core.Option.{some-injective}
use seed_mg.Models.Device.{RegisteredDevice}
use seed_mg.Reregistration.{
  Workflow, is_active, newer, newest, active, new_workflow, started, with_hardware, start,
}

newer-all :
    (p : Workflow → Bool) (w v : Workflow) (o : Option Workflow)
    → p w ≡ true
    → ((u : Workflow) → o ≡ some u → p u ≡ true)
    → newer w o ≡ some v
    → p v ≡ true
newer-all p w v none h each e = subst (λ x. p x ≡ true) (some-injective _ _ e) h
newer-all p w v (some u) h each e = elim (if-cases (ltb w.started_at u.started_at) _ _ _ e) [
  | inl (_, k) ↦ subst (λ x. p x ≡ true) (some-injective _ _ k) (each u refl)
  | inr (_, k) ↦ subst (λ x. p x ≡ true) (some-injective _ _ k) h
]

newest-keep :
    (p : Workflow → Bool) (ws : List Workflow) (v : Workflow)
    → newest (keep p ws) ≡ some v
    → p v ≡ true
unfolding newest
newest-keep p [] v h = cc
newest-keep p (w ∷ ws) v h = of_test (newest-keep p ws) (p w) refl h
  where
    of_test :
        ((u : Workflow) → newest (keep p ws) ≡ some u → p u ≡ true)
        → (b : Bool) → p w ≡ b
        → newest (if b then w ∷ keep p ws else keep p ws) ≡ some v
        → p v ≡ true
    of_test each true e k = newer-all p w v (newest (keep p ws)) e each k
    of_test each false e k = each v k

newest-none : (ws : List Workflow) → newest ws ≡ none → ws ≡ []
unfolding newest
newest-none [] h = refl
newest-none (w ∷ ws) h = none_newer (newest ws) h
  where
    none_newer : (o : Option Workflow) → newer w o ≡ none → (w ∷ ws) ≡ []
    none_newer none k = cc
    none_newer (some v) k = elim (if-cases (ltb w.started_at v.started_at) _ _ _ k) [
      | inl (_, j) ↦ cc j
      | inr (_, j) ↦ cc j
    ]

keep-append :
    (p : Workflow → Bool) (ws vs : List Workflow) → keep p (ws ++ vs) ≡ keep p ws ++ keep p vs
keep-append p [] vs = refl
keep-append p (w ∷ ws) vs = elim (Bool-cases (p w)) [
  | inl hit ↦ rw hit (ap (λ l. w ∷ l) (keep-append p ws vs))
  | inr missed ↦ rw missed (keep-append p ws vs)
]

active-appended :
    (id : ℕ) (w : Workflow) (ws : List Workflow)
    → is_active id w ≡ true
    → active id ws ≡ none
    → active id (ws ++ (w ∷ [])) ≡ some w
unfolding newest
active-appended id w ws h e =
    let kept : keep (is_active id) (ws ++ (w ∷ [])) ≡ w ∷ [] =
      keep-append (is_active id) ws (w ∷ [])
      ∙ ap (λ l. l ++ keep (is_active id) (w ∷ [])) (newest-none (keep (is_active id) ws) e)
      ∙ ap (λ b. if b then w ∷ [] else []) h in
    ap newest kept

module _ (d : RegisteredDevice) where
  -- A running workflow of the device, which every further call of `start` gives.
  pub record IsRunning (x : Workflow × List Workflow) : Type 0 where
    pub active : is_active d.id x.0 ≡ true
    pub again :
        (id : String) (now : ℕ) (isoformat : ℕ → String) → start d id now isoformat x.1 ≡ ok x

  again-active :
      (hardware : String) (x : Workflow × List Workflow)
      → with_hardware d d.hardware_id ≡ ok hardware
      → active d.id x.1 ≡ some x.0
      → (id : String) (now : ℕ) (isoformat : ℕ → String) → start d id now isoformat x.1 ≡ ok x
  unfolding start
  again-active hardware x given e id now isoformat =
      ap (λ m. m >>= λ h. ok (started d h id now isoformat x.1 (active d.id x.1))) given
      ∙ ap (λ o. ok (started d hardware id now isoformat x.1 o)) e

  -- `start` gives a workflow of the device that has not ended; another call of it for the same device
  -- gives the same workflow and adds none.
  pub start-IsRunning :
      (id : String) (now : ℕ) (isoformat : ℕ → String) (ws : List Workflow)
      (x : Workflow × List Workflow)
      → start d id now isoformat ws ≡ ok x
      → IsRunning x
  unfolding start
  start-IsRunning id now isoformat ws x h =
      let (hardware, given, k) = bind-eq_ok (with_hardware d d.hardware_id) _ h in
      subst IsRunning (ok-injective refl k) (of_active hardware given (active d.id ws) refl)
    where
      of_active :
          (hardware : String)
          → with_hardware d d.hardware_id ≡ ok hardware
          → (o : Option Workflow) → active d.id ws ≡ o
          → IsRunning (started d hardware id now isoformat ws o)
      of_active hardware given (some v) e = record {
        active = newest-keep (is_active d.id) ws v e;
        again = again-active hardware (v, ws) given e;
      }
      of_active hardware given none e = record {
        active = of_id;
        again =
            again-active hardware (started d hardware id now isoformat ws none) given
              (active-appended d.id (new_workflow d hardware id now isoformat) ws of_id e);
      }
        where
          of_id : is_active d.id (new_workflow d hardware id now isoformat) ≡ true
          of_id = ground arith
