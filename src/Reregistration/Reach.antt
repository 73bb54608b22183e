-- ===== src/Reregistration/Reach.antt =====
-- reset_reregister_workflow.py: the tables that the service reaches.
use seed_mg.Prelude.{
  ℕ, String, ◌≡◌, refl, subst, Option, none, some, List, [], ◌∷◌, ◌++◌, arith, str_eq, inl, inr,
  Bool-cases, set_row, ok, bind-eq_ok, require_some-bind-eq_ok, ok-injective, ap,
}
use seed_mg.Models.Json.{Fields}
use seed_mg.Models.Device.{RegisteredDevice}
use seed_mg.Models.Installation.{SensorInstallation}
use seed_mg.Reregistration.{
  Workflow, invalid_state, with_hardware, started, active, start, moved, state_named, names,
  transition, backed_up, readback_of, safe_backup,
}
use seed_mg.Reregistration.Progress.{IsTidy, is_steady, progress_after-IsTidy}

-- One call of the service that does not raise.
pub data Step : List Workflow → List Workflow → Type 0 where
  by_start :
      {ws later : List Workflow} (d : RegisteredDevice) (id : String) (now : ℕ)
      (isoformat : ℕ → String) (w : Workflow)
      → start d id now isoformat ws ≡ ok (w, later)
      → Step ws later
  by_transition :
      {ws later : List Workflow} (id state : String) (progress code message : Option String)
      (now : ℕ)
      → transition id state progress code message now ws ≡ ok later
      → Step ws later
  by_backup :
      {ws later : List Workflow} (id : String) (configuration readback : Option Fields)
      (installations : List SensorInstallation) (now : ℕ)
      → safe_backup id configuration readback installations now ws ≡ ok later
      → Step ws later

-- The tables that are reached from an empty one.
pub data Reach : List Workflow → Type 0 where
  at_first : Reach []
  step : {ws ws' : List Workflow} → Reach ws → Step ws ws' → Reach ws'

unfoldable pub AllTidy : List Workflow → Type 0
AllTidy [] = Unit
AllTidy (w ∷ ws) = IsTidy w.progress_json × AllTidy ws

set_row-AllTidy :
    (id : String) (f : Workflow → Workflow) (ws : List Workflow)
    → ((w : Workflow) → IsTidy w.progress_json → IsTidy (f w).progress_json)
    → AllTidy ws
    → AllTidy (set_row (λ w. w.operation_id) id f ws)
unfolding AllTidy set_row
set_row-AllTidy id f [] each h = tt
set_row-AllTidy id f (w ∷ ws) each (h, hs) = elim (Bool-cases (str_eq w.operation_id id)) [
  | inl here ↦ rw here (each w h, hs)
  | inr elsewhere ↦ rw elsewhere (h, set_row-AllTidy id f ws each hs)
]

append-AllTidy :
    (ws : List Workflow) (w : Workflow)
    → AllTidy ws
    → IsTidy w.progress_json
    → AllTidy (ws ++ (w ∷ []))
unfolding AllTidy
append-AllTidy [] w h t = (t, tt)
append-AllTidy (v ∷ ws) w (h, hs) t = (h, append-AllTidy ws w hs t)

nothing-IsTidy : IsTidy []
unfolding is_steady
nothing-IsTidy = record { bounded = omega arith; steady = refl }

start-AllTidy :
    (d : RegisteredDevice) (id : String) (now : ℕ) (isoformat : ℕ → String) (ws : List Workflow)
    (w : Workflow) (later : List Workflow)
    → start d id now isoformat ws ≡ ok (w, later)
    → AllTidy ws
    → AllTidy later
unfolding start
start-AllTidy d id now isoformat ws w later h t =
    let (hardware, given, k) = bind-eq_ok (with_hardware d d.hardware_id) _ h in
    subst AllTidy (ap (λ x. x.1) (ok-injective refl k)) (of_active hardware (active d.id ws))
  where
    of_active :
        (hardware : String) (o : Option Workflow)
        → AllTidy ((started d hardware id now isoformat ws o).1)
    of_active hardware (some v) = t
    of_active hardware none = append-AllTidy ws _ t nothing-IsTidy

transition-AllTidy :
    (id state : String) (progress code message : Option String) (now : ℕ) (ws later : List Workflow)
    → transition id state progress code message now ws ≡ ok later
    → AllTidy ws
    → AllTidy later
unfolding transition
transition-AllTidy id state progress code message now ws later h t =
    let (s, named, k) = require_some-bind-eq_ok (state_named state names) invalid_state _ h in
    subst AllTidy (ok-injective refl k) (
      set_row-AllTidy id (moved s progress code message now) ws
        (λ w. progress_after-IsTidy progress w.progress_json) t)

backup-AllTidy :
    (id : String) (configuration readback : Option Fields) (installations : List SensorInstallation)
    (now : ℕ) (ws later : List Workflow)
    → safe_backup id configuration readback installations now ws ≡ ok later
    → AllTidy ws
    → AllTidy later
unfolding safe_backup
backup-AllTidy id configuration readback installations now ws later h t =
    transition-AllTidy id _ _ _ _ now _ later h (
      set_row-AllTidy id (backed_up (readback_of configuration readback) installations) ws
        (λ w i. i) t)

-- In every table that calls of `start`, `transition` and `safe_backup` reach, each workflow shows at
-- most 40 entries of progress, and no entry is like the one before it.
pub Reach-AllTidy : {ws : List Workflow} → Reach ws → AllTidy ws
unfolding AllTidy
Reach-AllTidy at_first = tt
Reach-AllTidy (step r (by_start d id now isoformat w h)) =
    start-AllTidy d id now isoformat _ w _ h (Reach-AllTidy r)
Reach-AllTidy (step r (by_transition id state progress code message now h)) =
    transition-AllTidy id state progress code message now _ _ h (Reach-AllTidy r)
Reach-AllTidy (step r (by_backup id configuration readback installations now h)) =
    backup-AllTidy id configuration readback installations now _ _ h (Reach-AllTidy r)
