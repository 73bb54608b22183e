-- ===== src/Tests/Provisioning.antt =====
-- The theorems on provisioning, at one installation of a microphone.
use mathlib.Core.Bool.{decide}
use seed_mg.Prelude.{
  ℕ_discrete, ◌≡◌, ◌≢◌, ◌↔◌, ◌⊎◌, refl, true, false, none, some, [], ◌∷◌, ok, err, ap, row, set_row,
  Result, length, arith,
}
use seed_mg.Models.States.{ProvisioningState, VerificationStatus, Message}
use seed_mg.Models.Installation.{SensorInstallation, InstallationConfiguration-discrete}
use seed_mg.Node.Capabilities.{base_capabilities, capabilities, NodeInterface, firmware_satisfies}
use seed_mg.Node.Configuration.{validate, interface_of}
use seed_mg.Node.Configuration.Accepted.{ProfileFits, ValuesFit, IsDefault, validate_iff}
use seed_mg.Provisioning.Database.{
  Database, get, occupied_interface, update, add_attempt, update_attempt, create,
}
use seed_mg.Provisioning.Validation.{Raised, provisioning, plain, ProvisioningError}
use seed_mg.Provisioning.Apply.{new_attempt, Begun, started, begin, latest, verify, apply}
use seed_mg.Provisioning.Apply.Opening.{Opened, begin-eq_started}
use seed_mg.Provisioning.Apply.Activation.{Confirmed, Activated, verify-eq_ok}
use seed_mg.Provisioning.Apply.Guards.{begin-eq_err}
use seed_mg.Provisioning.Apply.Rollback.{IsQuiet, SettledAt}
use seed_mg.Provisioning.Apply.Settling.{apply-eq_err}
use seed_mg.Provisioning.Installations.{check_request, create_draft, upgrade_profile}
use seed_mg.Provisioning.Installations.Drafts.{Stored, create_draft-eq_ok}
use seed_mg.Provisioning.Installations.Upgrade.{upgrade-apply_marks_verified}
use seed_mg.Tests.Data.{
  configuration, profile, versions, node, in_state, tables, world, silent, gateway, draft_request,
}

abbrev ready : Database
ready = tables (in_state ProvisioningState.ready_to_apply none ∷ [])

abbrev applying : Database
applying = (begin world "installation-1" "node-1" "MIC" ready).1

begin_example :
    begin world "installation-1" "node-1" "MIC" ready ≡ (ok (started configuration), applying)
unfolding begin add_attempt update occupied_interface capabilities row set_row interface_of
begin_example = refl

begin-eq_started_example : Opened world "installation-1" "node-1" "MIC" ready configuration applying
begin-eq_started_example =
    begin-eq_started world "installation-1" "node-1" "MIC" ready applying configuration
      begin_example

abbrev sent : Database
sent = record (tables (in_state ProvisioningState.verifying (some "transaction-1") ∷ [])) {
  attempts = new_attempt world "installation-1" configuration ∷ [];
}

abbrev confirmed : Database
confirmed = (verify world "installation-1" sent).1

verify_example : verify world "installation-1" sent ≡ (ok tt, confirmed)
unfolding verify update update_attempt capabilities row set_row interface_of latest
    InstallationConfiguration-discrete decide ℕ_discrete
verify_example = refl

verify-eq_ok_example :
    Confirmed world "installation-1" sent × Activated world "installation-1" sent confirmed
verify-eq_ok_example = verify-eq_ok world "installation-1" sent confirmed verify_example

-- The error that a method raised.
abbrev error_of : Result Raised Unit → ProvisioningError
error_of (err (provisioning e)) = e
error_of _ = plain Message.installation_not_found

abbrev unanswered : Database
unanswered = (apply silent "installation-1" ready).1

abbrev timeout : ProvisioningError
timeout = error_of (apply silent "installation-1" ready).0

silent-IsQuiet : IsQuiet silent
silent-IsQuiet = record { locking = λ db. refl; applying = λ db. refl; reading = λ db. refl }

found_example :
    (s : ProvisioningState)
    → get "installation-1" (tables (in_state s none ∷ [])) ≡ some (in_state s none)
unfolding row
found_example s = refl

apply_example : apply silent "installation-1" ready ≡ (err (provisioning timeout), unanswered)
unfolding apply add_attempt update update_attempt occupied_interface capabilities row set_row
    interface_of
apply_example = refl

apply-eq_err_example :
    (unanswered ≡ ready)
    ⊎ SettledAt "installation-1" (in_state ProvisioningState.ready_to_apply none) unanswered
apply-eq_err_example =
    apply-eq_err silent silent-IsQuiet refl "installation-1" timeout ready unanswered
      (in_state ProvisioningState.ready_to_apply none) (found_example _) apply_example

abbrev refused : Result Raised Begun × Database
refused =
    begin world "installation-1" "node-1" "MIC"
      (tables (in_state ProvisioningState.draft none ∷ []))

refused_example :
    begin world "installation-1" "node-1" "MIC"
      (tables (in_state ProvisioningState.draft none ∷ []))
    ≡ (err (provisioning (plain (Message.wrong_state ProvisioningState.draft))), refused.1)
unfolding begin add_attempt update occupied_interface capabilities row set_row interface_of
refused_example = refl

begin-eq_err_example : refused.1 ≡ tables (in_state ProvisioningState.draft none ∷ [])
begin-eq_err_example =
    begin-eq_err world "installation-1" "node-1" "MIC"
      (tables (in_state ProvisioningState.draft none ∷ [])) refused.1
      (provisioning (plain (Message.wrong_state ProvisioningState.draft))) refused_example

validate_iff_example :
    (validate versions profile (base_capabilities node) "MIC" configuration ≡ ok tt) ↔ (
      (i : NodeInterface) × (interface_of (base_capabilities node) "MIC" ≡ some i)
      × ProfileFits versions profile (base_capabilities node) i
      × ValuesFit profile (base_capabilities node) configuration
      × (i.configuration_supported ≡ false → IsDefault profile configuration))
validate_iff_example = validate_iff versions profile (base_capabilities node) "MIC" configuration

abbrev empty : Database
empty = tables []

abbrev drafts : Database
drafts = (create_draft gateway draft_request empty).1

create_draft_example : create_draft gateway draft_request empty ≡ (ok tt, drafts)
unfolding create_draft create occupied_interface capabilities row set_row interface_of validate
    check_request firmware_satisfies
create_draft_example = refl

create_draft-eq_ok_example : Stored gateway draft_request empty drafts
create_draft-eq_ok_example =
    create_draft-eq_ok gateway draft_request empty drafts create_draft_example

abbrev upgraded : Database
upgraded =
    (upgrade_profile gateway "installation-1" "2.0.0"
      (tables (in_state ProvisioningState.draft none ∷ []))).1

upgrade_example :
    upgrade_profile gateway "installation-1" "2.0.0"
      (tables (in_state ProvisioningState.draft none ∷ []))
    ≡ (ok tt, upgraded)
unfolding upgrade_profile update capabilities row set_row interface_of validate check_request
    firmware_satisfies
upgrade_example = refl

abbrev marked : Database
marked = (apply silent "installation-1" upgraded).1

abbrev marked_error : ProvisioningError
marked_error = error_of (apply silent "installation-1" upgraded).0

marked_example : apply silent "installation-1" upgraded ≡ (err (provisioning marked_error), marked)
unfolding apply add_attempt update update_attempt occupied_interface capabilities row set_row
    interface_of upgrade_profile validate firmware_satisfies
marked_example = refl

attempts_example : length marked.attempts ≡ 1
unfolding apply add_attempt update update_attempt occupied_interface capabilities row set_row
    interface_of upgrade_profile validate firmware_satisfies
attempts_example = refl

upgraded_example : length upgraded.attempts ≡ 0
unfolding upgrade_profile update capabilities row set_row interface_of validate check_request
    firmware_satisfies
upgraded_example = refl

marked_differs : marked ≢ upgraded
marked_differs same =
    let p = ap (λ db. length db.attempts) same in
    omega (arith, p, attempts_example, upgraded_example)

upgrade-apply_marks_verified_example :
    (j : SensorInstallation) × (get "installation-1" marked ≡ some j)
    × (j.provisioning_state ≡ ProvisioningState.active)
    × (j.enabled ≡ true)
    × (j.verification_status ≡ VerificationStatus.verified)
    × (j.configuration_json ≡ configuration)
upgrade-apply_marks_verified_example =
    upgrade-apply_marks_verified gateway silent "installation-1" "2.0.0"
      (tables (in_state ProvisioningState.draft none ∷ [])) upgraded marked
      (in_state ProvisioningState.draft none) marked_error silent-IsQuiet refl (found_example _)
      refl upgrade_example marked_example marked_differs
