-- ===== src/Tests/Registration.antt =====
-- The theorems on removal, restoration and their confirmations, at one node.
use seed_mg.Prelude.{
  ◌≡◌, ◌↔◌, ◌<◌, ◌+◌, refl, false, none, some, [], ◌∷◌, Result, ok, err, inl, row, set_row,
}
use seed_mg.Provisioning.Database.{Database, get_device}
use seed_mg.Lifecycle.Confirmation.{Subject, Operation, ConfirmationError, issue, consume}
use seed_mg.Lifecycle.Confirmation.Laws.{consume-consume, consume-issue}
use seed_mg.Lifecycle.Service.{
  LifecycleError, LifecycleResult, remove, restore, removed_tables, restored_tables, result,
  same_folded, has_conflict,
}
use seed_mg.Lifecycle.Service.Restoration.{Restored, restore-eq_ok}
use seed_mg.Lifecycle.Service.Tables.{Already}
use seed_mg.Lifecycle.Service.Laws.{Removed, remove-Removed, refusal_unchanged}
use seed_mg.Models.Device.{LifecycleState}
use seed_mg.Models.States.{ProvisioningState}
use seed_mg.Tests.Data.{node, in_state, tables, request}

abbrev before : Database
before = tables (in_state ProvisioningState.active none ∷ [])

abbrev after : Database
after = (remove request "node-1" before).1

found_node : get_device "node-1" before ≡ some node
unfolding row
found_node = refl

remove-Removed_example :
    Removed request "node-1" node before after
    × ((remove request "node-1" after).1 ≡ after)
    × Already (remove request "node-1" after).0
remove-Removed_example = remove-Removed request request "node-1" before node found_node refl refl

abbrev restored : Database
restored = (restore request "node-1" node.hardware_id node.ble_address after).1

abbrev result_of : Result LifecycleError LifecycleResult → LifecycleResult → LifecycleResult
result_of (ok r) other = r
result_of (err e) other = other

abbrev answered : LifecycleResult
answered =
    result_of (restore request "node-1" node.hardware_id node.ble_address after).0
      (result "" LifecycleState.active "" false)

restore_example :
    restore request "node-1" node.hardware_id node.ble_address after ≡ (ok answered, restored)
unfolding remove restore removed_tables restored_tables row set_row same_folded has_conflict
restore_example = refl

fresh_example : answered.already_applied ≡ false
unfolding remove restore removed_tables restored_tables row set_row same_folded has_conflict
fresh_example = refl

restore-eq_ok_example : Restored request "node-1" node.hardware_id node.ble_address after restored
restore-eq_ok_example =
    restore-eq_ok request "node-1" node.hardware_id node.ble_address after restored answered
      restore_example fresh_example

refused_removal :
    remove request "node-9" before
    ≡ (err LifecycleError.device_not_found, (remove request "node-9" before).1)
unfolding remove row
refused_removal = refl

refusal_unchanged_example : (remove request "node-9" before).1 ≡ before
refusal_unchanged_example =
    refusal_unchanged request "node-9" none none before (remove request "node-9" before).1
      LifecycleError.device_not_found (inl refused_removal)

abbrev subject : Subject
subject = record {
  operation = Operation.remove;
  record_id = 1;
  device_id = "node-1";
  hardware_id = node.hardware_id;
  ble_address = node.ble_address;
}

consume-issue_example :
    ((consume 130 "token" subject (issue 120 100 "token" subject [])).0 ≡ ok tt)
    ↔ ((130 < 100 + 120) × (subject ≡ subject))
consume-issue_example = consume-issue 120 100 130 "token" subject subject []

consume-consume_example :
    (consume 131 "token" subject
      (consume 130 "token" subject (issue 120 100 "token" subject [])).1).0
    ≡ err ConfirmationError.missing
consume-consume_example =
    consume-consume 130 131 "token" subject subject (issue 120 100 "token" subject [])
