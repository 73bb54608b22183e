-- ===== src/Lifecycle/Service/Restoration.antt =====
-- device_lifecycle_service.py: `restore` asks for the recorded identity.
use seed_mg.Prelude.{
  Bool, str_eq, Member, codes, map, ◌≢◌, String, ◌≡◌, ◌⊎◌, inl, inr, refl, ap, subst, true, false,
  not, ◌&&◌, Option, none, some, Result, ok, not_true, if-cases, if_err-eq_ok, if_else_err-eq_ok,
}
use seed_mg.Models.Device.{LifecycleState, RegisteredDevice}
use seed_mg.Provisioning.Database.{Database, get_device}
use seed_mg.Lifecycle.Service.Identity.{
  hardware_differs-same, address_differs-same, has_conflict_unique,
}
use seed_mg.Models.Device.{ConnectionStatus, LifecycleEventType}
use seed_mg.Lifecycle.Service.{
  lower, LifecycleError, LifecycleResult, Request, restored_tables, result, restored_device,
  hardware_differs, address_differs, has_conflict, restore_device, restore, is_removed,
}
use seed_mg.Lifecycle.Service.Tables.{Already, get_device-set, get_device-set_other, Records}

true_ne_already :
    (r : LifecycleResult)
    → r.already_applied ≡ false
    → (id : String)
    → ◌≡◌ {A = Result LifecycleError LifecycleResult}
        (ok (result "existing" LifecycleState.active id true))
        (ok r)
    → ⊥
true_ne_already r h id e = already_false r h (subst Already e refl)
  where
    already_false : (x : LifecycleResult) → x.already_applied ≡ false → x.already_applied ≡ true → ⊥
    already_false x f t = not_true f t

-- What `restore` has checked of the row that it makes active again, and what it leaves.
pub record Restored (q : Request) (id : String) (hardware address : Option String)
    (db db' : Database) : Type 0 where
  pub device : RegisteredDevice
  pub found : get_device id db ≡ some device
  pub was_gone : (device.archived ≡ true) ⊎ (device.lifecycle_state ≡ LifecycleState.removed)
  pub same_hardware : (h : String) → device.hardware_id ≡ some h → h ≢ "" → hardware ≡ some h
  pub same_address :
      (a : String)
      → device.ble_address ≡ some a
      → a ≢ ""
      → (e : String) × (address ≡ some e) × (e ≢ "") × (map lower (codes e) ≡ map lower (codes a))
  pub unique :
      (h : String)
      → device.hardware_id ≡ some h
      → h ≢ ""
      → (other : RegisteredDevice) → Member other db.devices
      → other.hardware_id ≡ some h
      → other.id ≡ device.id
  pub result :
      get_device id db'
      ≡ some (record device {
        archived = false;
        enabled = true;
        lifecycle_state = LifecycleState.active;
        removed_at = none;
        removal_reason = none;
        connection_status = ConnectionStatus.disconnected;
        updated_at = q.now;
      })
  pub others :
      (other : String) → str_eq id other ≡ false → get_device other db' ≡ get_device other db
  pub installations : db'.installations ≡ db.installations
  pub telemetry : db'.readings ≡ db.readings
  pub one_event : Records q LifecycleEventType.gateway_restored device db.events db'.events

was_removed :
    (archived : Bool) (state : LifecycleState)
    → (not archived && not (is_removed state)) ≡ false
    → (archived ≡ true) ⊎ (state ≡ LifecycleState.removed)
was_removed true state h = inl refl
was_removed false LifecycleState.removed h = inr refl
was_removed false LifecycleState.active h = cc

restored_tables-Restored :
    (q : Request) (id : String) (hardware address : Option String) (db : Database)
    (d : RegisteredDevice)
    → get_device id db ≡ some d
    → (not d.archived && not (is_removed d.lifecycle_state)) ≡ false
    → hardware_differs d.hardware_id hardware ≡ false
    → address_differs d.ble_address address ≡ false
    → has_conflict d db.devices ≡ false
    → Restored q id hardware address db (restored_tables q id d db)
unfolding restored_tables
restored_tables-Restored q id hardware address db d found gone h a c = record {
  device = d;
  found = found;
  was_gone = was_removed d.archived d.lifecycle_state gone;
  same_hardware = λ t r.
      hardware_differs-same t hardware (subst (λ o. hardware_differs o hardware ≡ false) r h);
  same_address =
      λ t r. address_differs-same t address (subst (λ o. address_differs o address ≡ false) r a);
  unique = has_conflict_unique d db.devices c;
  result = get_device-set id (restored_device q.now) db.devices d (λ r. refl) found;
  others = λ other. get_device-set_other id other (restored_device q.now) db.devices (λ r. refl);
  installations = refl;
  telemetry = refl;
  one_event = record {
    event = _;
    appended = refl;
    operation = refl;
    kind_of = refl;
    device = refl;
    hardware = refl;
    created = refl;
  };
}

-- A restoration that was not applied already finds a row that is archived or removed. The caller
-- gave its hardware identity, where one is recorded, and its address up to the case of ASCII
-- letters, where one is recorded, and no other record has that hardware. The row is then active
-- again, every other row, the installations and the readings are as they were, and one event of the
-- operation is added to those that are there.
pub restore-eq_ok :
    (q : Request) (id : String) (hardware address : Option String) (db db' : Database)
    (r : LifecycleResult)
    → restore q id hardware address db ≡ (ok r, db')
    → r.already_applied ≡ false
    → Restored q id hardware address db db'
unfolding restore
restore-eq_ok q id hardware address db db' r h fresh = of_row (get_device id db) refl h
  where
    of_row :
        (o : Option RegisteredDevice)
        → get_device id db ≡ o
        → restore_device q id hardware address db o ≡ (ok r, db')
        → Restored q id hardware address db db'
    of_row none found k = cc (ap (λ x. x.0) k)
    of_row (some d) found k =
        elim (if-cases (not d.archived && not (is_removed d.lifecycle_state)) _ _ _ k) [
          | inl (live, k0) ↦ absurd (true_ne_already r fresh id (ap (λ x. x.0) k0))
          | inr (gone, k0) ↦
              let (hw, k1) = if_err-eq_ok (hardware_differs d.hardware_id hardware) _ _ _ k0 in
              let (ad, k2) = if_err-eq_ok (address_differs d.ble_address address) _ _ _ k1 in
              let (un, k3) = if_err-eq_ok (has_conflict d db.devices) _ _ _ k2 in
              let (cm, k4) = if_else_err-eq_ok q.commits _ _ _ k3 in
              subst (λ x. Restored q id hardware address db x) (ap (λ x. x.1) k4)
                (restored_tables-Restored q id hardware address db d found gone hw ad un)
        ]
