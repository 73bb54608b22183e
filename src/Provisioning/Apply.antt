-- ===== src/Provisioning/Apply.antt =====
-- gateway/app/services/provisioning_service.py: `apply`, `verify`, `_fail` and `_uncertain`.
-- Where a method waits for a lock or for the device, other tasks may change the tables: the
-- method goes on from `while_locking`, `while_applying` and `while_reading` of what it left.
use mathlib.Core.Bool.{decide}
pub mod Activation
pub mod Guards
pub mod Opening
pub mod Rollback
pub mod Settling
use seed_mg.Prelude.{
  ℕ, ◌+◌, String, ◌≡◌, refl, Bool, true, false, not, ◌&&◌, ◌||◌, Option, none, some, List, [], ◌∷◌,
  ◌++◌, str_eq, is_some, find, row, set_row, if◌then◌else◌, Result, ok, err, ◌>>=◌, ◌>>◌, require,
  require_some, leb, ltb, keep, mem_text, ◌==◌,
}
use seed_mg.Models.Values.{is_usable}
use seed_mg.Models.States.{
  ProvisioningState, VerificationStatus, Failure, Message, is_active, is_ready, is_in_progress,
}
use seed_mg.Models.Device.{RegisteredDevice, Reading, CompatibilityStatus}
use seed_mg.Models.Installation.{
  InstallationConfiguration, InstallationConfiguration-discrete, SensorInstallation,
  ProvisioningAttempt,
}
use seed_mg.Node.Capabilities.{NodeInterface, NodeCapabilities, capabilities}
use seed_mg.Node.Configuration.{interface_of}
use seed_mg.Provisioning.Database.{
  Database, get_device, get, occupied_interface, update, get_attempt, add_attempt, update_attempt,
}
use seed_mg.Provisioning.Validation.{
  ErrorCode, DeviceState, NextAction, ProvisioningError, Raised, provisioning, node_missing,
  stop_iteration, attribute_error, integrity_error, other_exception, Acknowledgement, apply_escaped,
  read_escaped, acknowledged, timed_out, connection_lost, refused, Readback, returned, unread,
  World, plain, live, not_found,
}

-- `_fail`, on the row: back to the previous configuration, or failed.
abbrev pub fail_row : Failure → SensorInstallation → SensorInstallation
fail_row e r = elim r.previous_configuration_json [
  | some previous ↦ record r {
    configuration_json = previous;
    previous_configuration_json = none;
    provisioning_state = ProvisioningState.active;
    verification_status = VerificationStatus.verified;
    provisioning_error = some (Failure.replacement_failed e);
    active_transaction_id = none;
    enabled = true;
  }
  | none ↦ record r {
    provisioning_state = ProvisioningState.failed;
    verification_status = VerificationStatus.failed;
    provisioning_error = some e;
    active_transaction_id = none;
    enabled = false;
  }
]

-- `_uncertain`, on the row: the transaction stays open for a reconciliation.
abbrev pub uncertain_row : String → Failure → SensorInstallation → SensorInstallation
uncertain_row tx e r = elim r.previous_configuration_json [
  | some previous ↦ record r {
    configuration_json = previous;
    previous_configuration_json = none;
    provisioning_state = ProvisioningState.active;
    verification_status = VerificationStatus.verified;
    provisioning_error = some (Failure.replacement_uncertain e);
    active_transaction_id = some tx;
    enabled = true;
  }
  | none ↦ record r {
    provisioning_state = ProvisioningState.reconciling;
    verification_status = VerificationStatus.pending;
    provisioning_error = some e;
    active_transaction_id = some tx;
    enabled = false;
  }
]

unfoldable pub fail : String → String → Failure → ℕ → Database → Database
fail id tx e now db =
    update id (fail_row e) now (
      update_attempt tx (λ a. record a { state = ProvisioningState.failed; error = some e }) now db)

unfoldable pub uncertain : String → String → Failure → ℕ → Database → Database
uncertain id tx e now db = update id (uncertain_row tx e) now (
    update_attempt tx (λ a. record a { state = ProvisioningState.reconciling; error = some e }) now
      db)

abbrev pub is_compatible : CompatibilityStatus → Bool
is_compatible CompatibilityStatus.compatible = true
is_compatible _ = false

-- `node is None or node.compatibility_status != "compatible"`: the status that blocks.
abbrev pub blocking_status : Option RegisteredDevice → Option CompatibilityStatus
blocking_status none = some CompatibilityStatus.unknown
blocking_status (some node) =
    if is_compatible node.compatibility_status then none else some node.compatibility_status

abbrev in_progress : Option ProvisioningAttempt → Bool
in_progress none = false
in_progress (some a) = is_in_progress a.state

-- `if installation.active_transaction_id: ...` finds an attempt that is under way.
abbrev pub is_under_way : SensorInstallation → Database → Bool
is_under_way i db = elim i.active_transaction_id [
  | none ↦ false
  | some tx ↦ not (str_eq tx "") && in_progress (get_attempt tx db)
]

-- What the block under the locks comes to.
pub data Begun : Type 0 where
  finished : SensorInstallation → Begun
  started : InstallationConfiguration → Begun

abbrev pub new_attempt : World → String → InstallationConfiguration → ProvisioningAttempt
new_attempt w id requested = record {
  transaction_id = w.new_transaction;
  installation_id = id;
  requested_configuration_json = requested;
  applied_configuration_json = none;
  state = ProvisioningState.applying;
  error = none;
  created_at = w.now;
  updated_at = w.now;
}

abbrev pub set_applying : String → SensorInstallation → SensorInstallation
set_applying tx r = record r {
  provisioning_state = ProvisioningState.applying;
  active_transaction_id = some tx;
  provisioning_error = none;
  enabled = false;
}

-- `add_attempt` of the new transaction, then the state `applying`.
unfoldable pub open_transaction :
    World
    → String
    → SensorInstallation
    → Database
    → Option Database
    → Result Raised Begun × Database
open_transaction w id i db none = (err integrity_error, db)
open_transaction w id i db (some db') =
    (ok (started i.configuration_json), update id (set_applying w.new_transaction) w.now db')

-- `selected_interface.exclusive and occupied`
abbrev pub conflicting : NodeInterface → Option SensorInstallation → Option SensorInstallation
conflicting i occupied = if i.exclusive then occupied else none

-- From the look at the interface to the new transaction; the argument is the conflict found.
unfoldable pub begin_free :
    World
    → String
    → SensorInstallation
    → Database
    → Option SensorInstallation
    → Result Raised Begun × Database
unfolding open_transaction
begin_free w id i db (some other) =
    (err (provisioning (plain (Message.exclusive_interface other.device_id))), db)
begin_free w id i db none =
    if is_under_way i db
    then (ok (finished i), db)
    else if is_ready i.provisioning_state
    then open_transaction w id i db (add_attempt (new_attempt w id i.configuration_json) db)
    else (err (provisioning (plain (Message.wrong_state i.provisioning_state))), db)

unfoldable pub begin_selected :
    World
    → String
    → String
    → String
    → SensorInstallation
    → Database
    → Option NodeInterface
    → Result Raised Begun × Database
unfolding begin_free
begin_selected w id node interface i db none = (err stop_iteration, db)
begin_selected w id node interface i db (some selected) =
    begin_free w id i db (conflicting selected (occupied_interface node interface (some id) db))

unfoldable pub begin_able :
    World
    → String
    → String
    → String
    → SensorInstallation
    → Database
    → Option NodeCapabilities
    → Result Raised Begun × Database
unfolding begin_selected
begin_able w id node interface i db none = (err node_missing, db)
begin_able w id node interface i db (some able) =
    begin_selected w id node interface i db (interface_of able interface)

unfoldable pub begin_status :
    World
    → String
    → String
    → String
    → SensorInstallation
    → Database
    → Option CompatibilityStatus
    → Result Raised Begun × Database
unfolding begin_able
begin_status w id node interface i db (some status) =
    (err (provisioning (plain (Message.incompatible_node status))), db)
begin_status w id node interface i db none =
    begin_able w id node interface i db (capabilities (get_device node db) none)

unfoldable pub begin_row :
    World
    → String
    → String
    → String
    → Database
    → Option SensorInstallation
    → Result Raised Begun × Database
unfolding begin_status
begin_row w id node interface db none = (err not_found, db)
begin_row w id node interface db (some i) =
    if is_active i.provisioning_state
    then (ok (finished i), db)
    else begin_status w id node interface i db (blocking_status (get_device node db))

-- The block of `apply` under the locks of the node and of the interface.
unfoldable pub begin : World → String → String → String → Database → Result Raised Begun × Database
unfolding begin_row
begin w id node interface db = begin_row w id node interface db (live (get id db))

-- The newest of the readings that pass; the first of those of one time.
abbrev pub newer : Option Reading → Reading → Reading
newer none r = r
newer (some s) r = if ltb r.received_at s.received_at then s else r

unfoldable pub latest : (Reading → Bool) → List Reading → Option Reading
latest p [] = none
latest p (r ∷ rs) = let rest = latest p rs in if p r then some (newer rest r) else rest

-- A minute, in microseconds.
abbrev pub minute : ℕ
minute = 60000000

-- The `where` clause of `verify`; `cutoff` is a minute before `now`.
abbrev pub is_evidence : ℕ → RegisteredDevice → NodeInterface → Reading → Bool
is_evidence now device interface r =
    r.registered_device_id == device.id
    && mem_text r.channel interface.telemetry_channels
    && leb now (r.received_at + minute)
    && is_usable r.quality

abbrev pub set_active : Reading → SensorInstallation → SensorInstallation
set_active reading r = record r {
  previous_configuration_json = some r.configuration_json;
  provisioning_state = ProvisioningState.active;
  verification_status = VerificationStatus.verified;
  enabled = true;
  provisioning_error = none;
  active_transaction_id = none;
  last_seen_at = some reading.received_at;
  last_valid_reading_at = some reading.received_at;
}

unfoldable pub activate :
    World → String → String → Option Reading → Database → Result Raised Unit × Database
unfolding fail
activate w id tx none db = (
  err (provisioning (plain Message.no_telemetry)),
  fail id tx Failure.no_recent_valid_telemetry w.now db,
)
activate w id tx (some reading) db = elim (get_attempt tx db) [
  | none ↦ (err attribute_error, db)
  | some a ↦ (
    ok tt,
    update id (set_active reading) w.now
        (update_attempt tx (λ a. record a { state = ProvisioningState.active }) w.now db),
  )
]

unfoldable pub conclude_on :
    World
    → String
    → String
    → Database
    → RegisteredDevice
    → Option NodeInterface
    → Result Raised Unit × Database
unfolding activate
conclude_on w id tx db device none = (err stop_iteration, db)
conclude_on w id tx db device (some interface) =
    activate w id tx (latest (is_evidence w.now device interface) db.readings) db

unfoldable pub conclude_able :
    World
    → String
    → String
    → Database
    → SensorInstallation
    → RegisteredDevice
    → Option NodeCapabilities
    → Result Raised Unit × Database
unfolding conclude_on
conclude_able w id tx db i device none = (err node_missing, db)
conclude_able w id tx db i device (some able) =
    conclude_on w id tx db device (interface_of able i.interface_id)

unfoldable pub conclude_device :
    World
    → String
    → String
    → Database
    → SensorInstallation
    → Option RegisteredDevice
    → Result Raised Unit × Database
unfolding conclude_able
conclude_device w id tx db i none = (err node_missing, db)
conclude_device w id tx db i (some device) =
    conclude_able w id tx db i device (capabilities (some device) none)

unfoldable pub conclude_row :
    World → String → String → Database → Option SensorInstallation → Result Raised Unit × Database
unfolding conclude_device
conclude_row w id tx db none = (err attribute_error, db)
conclude_row w id tx db (some i) = conclude_device w id tx db i (get_device i.node_id db)

-- The last session of `verify`, after the read-back agreed.
unfoldable pub conclude : World → String → String → Database → Result Raised Unit × Database
unfolding conclude_row
conclude w id tx db = conclude_row w id tx db (get id db)

-- `if read_back != requested`
unfoldable pub compare_readback :
    World
    → String
    → String
    → InstallationConfiguration
    → Readback
    → Database
    → Result Raised Unit × Database
unfolding conclude fail
compare_readback w id tx requested read_escaped db = (err other_exception, db)
compare_readback w id tx requested (unread name) db = (
  err (provisioning (plain Message.readback_failed)),
  fail id tx (Failure.exception_named name) w.now db,
)
compare_readback w id tx requested (returned actual) db =
    if decide (InstallationConfiguration-discrete actual requested) then conclude w id tx db else (
      err (provisioning (plain Message.readback_mismatch)),
      fail id tx Failure.configuration_readback_mismatch w.now db,
    )

-- The rest of `verify` for a row and its `active_transaction_id`, which may be `None` or empty.
unfoldable pub verify_transaction :
    World → String → Database → SensorInstallation → Option String → Result Raised Unit × Database
unfolding compare_readback
verify_transaction w id db i none = (err (provisioning (plain Message.no_transaction)), db)
verify_transaction w id db i (some tx) =
    if str_eq tx ""
    then (err (provisioning (plain Message.no_transaction)), db)
    else compare_readback w id tx i.configuration_json (w.read_back i.node_id i.interface_id tx)
        (w.while_reading db)

unfoldable pub verify_row :
    World → String → Database → Option SensorInstallation → Result Raised Unit × Database
unfolding verify_transaction
verify_row w id db none = (err (provisioning (plain Message.no_transaction)), db)
verify_row w id db (some i) = verify_transaction w id db i i.active_transaction_id

unfoldable pub verify : World → String → Database → Result Raised Unit × Database
unfolding verify_row
verify w id db = verify_row w id db (get id db)

abbrev device_error : ErrorCode → Message → String → DeviceState → NextAction → Raised
device_error code message tx state action = provisioning (record {
  code = code;
  message = message;
  transaction_id = some tx;
  device_state = state;
  retry_allowed = false;
  next_action = action;
})

abbrev pub set_verifying : SensorInstallation → SensorInstallation
set_verifying r = record r { provisioning_state = ProvisioningState.verifying }

unfoldable pub mark_attempt : World → String → InstallationConfiguration → Database → Database
mark_attempt w tx applied db =
    update_attempt tx
      (λ a. record a {
        state = ProvisioningState.verifying;
        applied_configuration_json = some applied;
      })
      w.now db

unfoldable pub acknowledge_row :
    World → String → Database → Option SensorInstallation → Result Raised Unit × Database
unfolding verify
acknowledge_row w id db none = (err attribute_error, db)
acknowledge_row w id db (some i) = verify w id (update id set_verifying w.now db)

-- The session after the acknowledgement, and `verify`.
unfoldable pub acknowledge_attempt :
    World
    → String
    → String
    → InstallationConfiguration
    → Database
    → Option ProvisioningAttempt
    → Result Raised Unit × Database
unfolding acknowledge_row mark_attempt
acknowledge_attempt w id tx applied db none = (err attribute_error, db)
acknowledge_attempt w id tx applied db (some a) =
    let db1 = mark_attempt w tx applied db in acknowledge_row w id db1 (get id db1)

-- After `configurator.apply`: its exceptions, or the state `verifying` and `verify`. An exception of a
-- class that is not caught goes on, and leaves the row and the attempt `applying`.
unfoldable pub acknowledge :
    World → String → String → Acknowledgement → Database → Result Raised Unit × Database
unfolding acknowledge_attempt fail uncertain
acknowledge w id tx timed_out db = (
  err (
      device_error ErrorCode.acknowledgement_timeout Message.acknowledgement_missing tx
        DeviceState.unknown NextAction.authoritative_readback),
  uncertain id tx Failure.acknowledgement_timeout w.now db,
)
acknowledge w id tx connection_lost db = (
  err (
      device_error ErrorCode.transport_failure Message.transport_failed tx DeviceState.unknown
        NextAction.authoritative_readback),
  uncertain id tx Failure.transport_failure w.now db,
)
acknowledge w id tx (refused name text) db = (
  err (
      device_error ErrorCode.device_rejected (Message.rejected text) tx DeviceState.unchanged
        NextAction.revalidate),
  fail id tx (Failure.exception_named name) w.now db,
)
acknowledge w id tx apply_escaped db = (err other_exception, db)
acknowledge w id tx (acknowledged applied) db =
    acknowledge_attempt w id tx applied db (get_attempt tx db)

unfoldable pub continue_apply :
    World
    → String
    → String
    → String
    → Result Raised Begun × Database
    → Result Raised Unit × Database
unfolding acknowledge
continue_apply w id node interface (err e, db) = (err e, db)
continue_apply w id node interface (ok (finished i), db) = (ok tt, db)
continue_apply w id node interface (ok (started requested), db) =
    acknowledge w id w.new_transaction (w.apply node interface w.new_transaction requested)
      (w.while_applying db)

unfoldable pub apply_row :
    World → String → Database → Option SensorInstallation → Result Raised Unit × Database
unfolding begin continue_apply
apply_row w id db none = (err not_found, db)
apply_row w id db (some i) =
    if is_active i.provisioning_state
    then (ok tt, db)
    else continue_apply w id i.node_id i.interface_id
        (begin w id i.node_id i.interface_id (w.while_locking db))

unfoldable pub apply : World → String → Database → Result Raised Unit × Database
unfolding apply_row
apply w id db = apply_row w id db (live (get id db))
