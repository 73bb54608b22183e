-- ===== src/Lifecycle/Service/Laws.antt =====
-- device_lifecycle_service.py: removal keeps history and is idempotent; a refusal changes nothing.
use seed_mg.Prelude.{
  ℕ, str_eq, Each, Each-map, if◌then◌else◌, Bool-cases, eq_iff, String, ◌≡◌, ◌⊎◌, inl, inr, refl,
  sym, ap, subst, ◌∙◌, true, false, Option, none, some, ok, err, arith, if-eq_true, if-eq_false,
}
use seed_mg.Models.Device.{LifecycleState, RegisteredDevice}
use seed_mg.Provisioning.Database.{Database, get_device}
use seed_mg.Models.Device.{ConnectionStatus, LifecycleEventType}
use seed_mg.Models.States.{ProvisioningState}
use seed_mg.Models.Installation.{SensorInstallation}
use seed_mg.Lifecycle.Service.{
  removed_installation, on_node, LifecycleError, Request, removed_device, remove_installations,
  is_gone, remove_device, remove, removed_tables, result, restore_device, restore,
}
use seed_mg.Lifecycle.Service.Tables.{Already, get_device-set, get_device-set_other, Records}

-- The row `i` of an installation when its node `id` is removed at the time `now`.
pub record IsCleared (id : String) (now : ℕ) (i i' : SensorInstallation) : Type 0 where
  pub of_node :
      i.node_id ≡ id
      → i' ≡ record i {
        archived = true;
        enabled = false;
        provisioning_state = ProvisioningState.removed;
        updated_at = now;
      }
  pub of_another : (i.node_id ≡ id → ⊥) → i' ≡ i

-- What a first removal leaves.
pub record Removed (q : Request) (id : String) (d : RegisteredDevice) (db db' : Database)
    : Type 0 where
  pub device :
      get_device id db'
      ≡ some (record d {
        archived = true;
        enabled = false;
        lifecycle_state = LifecycleState.removed;
        removed_at = some q.now;
        removal_reason = q.reason;
        connection_status = ConnectionStatus.disabled;
        updated_at = q.now;
      })
  pub others :
      (other : String) → str_eq id other ≡ false → get_device other db' ≡ get_device other db
  pub installations : Each (IsCleared id q.now) db.installations db'.installations
  pub telemetry : db'.readings ≡ db.readings
  pub attempts : db'.attempts ≡ db.attempts
  pub one_event : Records q LifecycleEventType.gateway_removed d db.events db'.events

remove_found :
    (q : Request) (id : String) (db : Database) (d : RegisteredDevice)
    → get_device id db ≡ some d
    → remove q id db ≡ remove_device q id db (some d)
unfolding remove
remove_found q id db d h = ap (remove_device q id db) h

remove_first :
    (q : Request) (id : String) (db : Database) (d : RegisteredDevice)
    → get_device id db ≡ some d
    → is_gone d ≡ false
    → q.commits ≡ true
    → remove q id db
      ≡ (ok (result q.operation_id LifecycleState.removed id false), removed_tables q id d db)
unfolding remove_device
remove_first q id db d found live commits =
    remove_found q id db d found ∙ if-eq_false _ _ live ∙ if-eq_true _ _ commits

remove_again :
    (q : Request) (id : String) (db : Database) (d : RegisteredDevice)
    → get_device id db ≡ some d
    → is_gone d ≡ true
    → remove q id db ≡ (ok (result "existing" LifecycleState.removed id true), db)
unfolding remove_device
remove_again q id db d found gone = remove_found q id db d found ∙ if-eq_true _ _ gone

removed_installation-IsCleared :
    (id : String) (now : ℕ) (i : SensorInstallation)
    → IsCleared id now i (if on_node id i then removed_installation now i else i)
removed_installation-IsCleared id now i = record {
  of_node = λ same. if-eq_true _ _ ((eq_iff i.node_id id).1 same);
  of_another = λ differs. elim (Bool-cases (on_node id i)) [
    | inl same ↦ absurd (differs ((eq_iff i.node_id id).0 same))
    | inr other ↦ if-eq_false _ _ other
  ];
}

removed_tables-Removed :
    (q : Request) (id : String) (db : Database) (d : RegisteredDevice)
    → get_device id db ≡ some d
    → Removed q id d db (removed_tables q id d db)
unfolding removed_tables remove_installations
removed_tables-Removed q id db d found = record {
  device = get_device-set id (removed_device q) db.devices d (λ r. refl) found;
  others = λ other. get_device-set_other id other (removed_device q) db.devices (λ r. refl);
  installations =
      Each-map (IsCleared id q.now) _ (removed_installation-IsCleared id q.now) db.installations;
  telemetry = refl;
  attempts = refl;
  one_event = record {
    event = _;
    appended = refl;
    operation = refl;
    kind_of = refl;
    device = refl;
    hardware = refl;
    created = refl;
  };
}

-- The removal of a live node, if the database accepts it, marks the node and each of its
-- installations as removed, leaves every other node and installation as it was, keeps every reading
-- and every attempt, and adds one event of the operation to those that are there; a second removal
-- changes nothing and says that it was done already.
pub remove-Removed :
    (q later : Request) (id : String) (db : Database) (d : RegisteredDevice)
    → get_device id db ≡ some d
    → is_gone d ≡ false
    → q.commits ≡ true
    → Removed q id d db (remove q id db).1
      × ((remove later id (remove q id db).1).1 ≡ (remove q id db).1)
      × Already (remove later id (remove q id db).1).0
remove-Removed q later id db d found live commits =
    let first = remove_first q id db d found live commits in
    let left = removed_tables-Removed q id db d found in
    let again =
      remove_again later id (removed_tables q id d db) (removed_device q d) left.device refl in
    subst (λ x. Removed q id d db x × ((remove later id x).1 ≡ x) × Already (remove later id x).0)
      (sym (ap (λ r. r.1) first))
      (left, ap (λ r. r.1) again, subst Already (sym (ap (λ r. r.0) again)) refl)

-- A refused removal or restoration leaves the tables alone.
pub refusal_unchanged :
    (q : Request) (id : String) (hardware address : Option String) (db db' : Database)
    (e : LifecycleError)
    → (remove q id db ≡ (err e, db')) ⊎ (restore q id hardware address db ≡ (err e, db'))
    → db' ≡ db
unfolding remove restore
refusal_unchanged q id hardware address db db' e (inl h) = removed (get_device id db) h
  where
    removed : (o : Option RegisteredDevice) → remove_device q id db o ≡ (err e, db') → db' ≡ db
    removed none k = sym (ap (λ x. x.1) k)
    removed (some d) k = ground arith
refusal_unchanged q id hardware address db db' e (inr h) = restored (get_device id db) h
  where
    restored :
        (o : Option RegisteredDevice)
        → restore_device q id hardware address db o ≡ (err e, db')
        → db' ≡ db
    restored none k = sym (ap (λ x. x.1) k)
    restored (some d) k = ground arith
