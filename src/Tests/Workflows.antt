-- ===== src/Tests/Workflows.antt =====
-- The theorems on the workflow that resets a sensor and registers it again, at its first calls.
use seed_mg.Prelude.{ℕ, ◌≡◌, refl, String, some, none, [], ◌∷◌, ok, set_row}
use seed_mg.Models.Device.{RegisteredDevice}
use seed_mg.Reregistration.{
  Workflow, new_workflow, newest, start, transition, state_named, moved, physical_identity_verified,
}
use seed_mg.Reregistration.Reach.{AllTidy, at_first, step, by_start, by_transition, Reach-AllTidy}
use seed_mg.Reregistration.Starting.{IsRunning, start-IsRunning}
use seed_mg.Tests.Data.{node}

abbrev sensor : RegisteredDevice
sensor = record node { hardware_id = some "0x0123456789ABCDEF" }

abbrev isoformat : ℕ → String
isoformat t = "2024-01-01T00:00:00+00:00"

abbrev first : Workflow
first = new_workflow sensor "0x0123456789ABCDEF" "operation-1" 7 isoformat

start_example : start sensor "operation-1" 7 isoformat [] ≡ ok (first, first ∷ [])
unfolding start newest
start_example = refl

start-IsRunning_example : IsRunning sensor (first, first ∷ [])
start-IsRunning_example =
    start-IsRunning sensor "operation-1" 7 isoformat [] (first, first ∷ []) start_example

abbrev verified : Workflow
verified = moved physical_identity_verified (some "identity read") none none 9 first

transition_example :
    transition "operation-1" "physical_identity_verified"
      (some "identity read")
      none
      none
      9
      (first ∷ [])
    ≡ ok (verified ∷ [])
unfolding transition state_named set_row
transition_example = refl

Reach-AllTidy_example : AllTidy (verified ∷ [])
Reach-AllTidy_example = Reach-AllTidy (
    step (step at_first (by_start sensor "operation-1" 7 isoformat first start_example)) (
      by_transition "operation-1" "physical_identity_verified" (some "identity read") none none 9
        transition_example))
