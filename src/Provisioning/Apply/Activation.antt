-- ===== src/Provisioning/Apply/Activation.antt =====
-- When an installation becomes active: what `verify` has seen, and what it leaves.
use seed_mg.Prelude.{
  ◌+◌, ◌≤◌, String, ◌≡◌, refl, Bool, true, false, Option, none, some, List, [], ◌∷◌, str_eq,
  if◌then◌else◌, arith, ok, mem_text, ◌⊎◌, ap, if_err-eq_ok, if_else_err-eq_ok,
}
use mathlib.Core.Bool.{decide}
use seed_mg.Models.Values.{is_usable}
use seed_mg.Models.States.{ProvisioningState}
use seed_mg.Models.Device.{RegisteredDevice, Reading}
use seed_mg.Models.Installation.{
  InstallationConfiguration, InstallationConfiguration-discrete, SensorInstallation,
}
use seed_mg.Node.Capabilities.{
  NodeInterface, NodeCapabilities, capabilities, base_capabilities, capabilities-eq_some,
}
use seed_mg.Node.Configuration.{interface_of}
use seed_mg.Provisioning.Database.{Database, get, get_device, update_attempt, touch}
use seed_mg.Provisioning.Database.Laws.{get-update_self}
use seed_mg.Provisioning.Validation.{World, Readback, returned, unread, read_escaped}
use seed_mg.Provisioning.Apply.{
  newer, latest, is_evidence, conclude_on, conclude_able, conclude_device, conclude_row, minute,
  set_active, activate, conclude, compare_readback, verify, verify_row, verify_transaction,
}

-- The reading stands in the table.
abbrev Holds : Reading → List Reading → Type 0
Holds r [] = ⊥
Holds r (s ∷ rs) = (r ≡ s) ⊎ Holds r rs

newest :
    (p : Reading → Bool) (s : Reading) (rs : List Reading) (r : Reading) (rest : Option Reading)
    → ((x : Reading) → rest ≡ some x → Holds x rs × (p x ≡ true))
    → (if p s then some (newer rest s) else rest) ≡ some r
    → Holds r (s ∷ rs) × (p r ≡ true)
newest p s rs r none ih h = ground arith
newest p s rs r (some x) ih h = ground (arith, ih x refl)

latest-eq_some :
    (p : Reading → Bool) (rs : List Reading) (r : Reading)
    → latest p rs ≡ some r
    → Holds r rs × (p r ≡ true)
unfolding latest
latest-eq_some p [] r h = cc
latest-eq_some p (s ∷ rs) r h = newest p s rs r (latest p rs) (latest-eq_some p rs) h

activate-eq_ok :
    (w : World) (id tx : String) (o : Option Reading) (db db' : Database) (i : SensorInstallation)
    → get id db ≡ some i
    → activate w id tx o db ≡ (ok tt, db')
    → (r : Reading) × (o ≡ some r) × (get id db' ≡ some (touch w.now (set_active r) i))
unfolding activate update_attempt
activate-eq_ok w id tx none db db' i found h = cc (ap (λ x. x.0) h)
activate-eq_ok w id tx (some r) db db' i found h = (
  r,
  refl,
  ground (
    arith,
    get-update_self id (set_active r) w.now
        (update_attempt tx (λ a. record a { state = ProvisioningState.active }) w.now db)
        (λ r. refl) i found,
  ),
)

-- What the last session of `verify` has seen in the tables `before`, and the row that it left.
pub record Activated (w : World) (id : String) (before after : Database) : Type 0 where
  pub current : SensorInstallation
  pub found : get id before ≡ some current
  pub device : RegisteredDevice
  pub registered : get_device current.node_id before ≡ some device
  pub not_archived : device.archived ≡ false
  pub interface : NodeInterface
  pub named : interface_of (base_capabilities device) current.interface_id ≡ some interface
  pub reading : Reading
  pub stored : Holds reading before.readings
  pub from_device : reading.registered_device_id ≡ device.id
  pub on_channel : mem_text reading.channel interface.telemetry_channels ≡ true
  pub recent : w.now ≤ reading.received_at + minute
  pub usable : is_usable reading.quality ≡ true
  pub result : get id after ≡ some (touch w.now (set_active reading) current)

module _ (w : World) (id tx : String) (db db' : Database) (i : SensorInstallation)
    (found : get id db ≡ some i) where
  conclude_on-eq_ok :
      (device : RegisteredDevice) (o : Option NodeInterface)
      → get_device i.node_id db ≡ some device
      → device.archived ≡ false
      → interface_of (base_capabilities device) i.interface_id ≡ o
      → conclude_on w id tx db device o ≡ (ok tt, db')
      → Activated w id db db'
  unfolding conclude_on
  conclude_on-eq_ok device none registered live named h = cc (ap (λ x. x.0) h)
  conclude_on-eq_ok device (some interface) registered live named h =
      let (r, newest_one, result) =
        activate-eq_ok w id tx (latest (is_evidence w.now device interface) db.readings) db db' i
          found h in
      let (stored, evidence) =
        latest-eq_some (is_evidence w.now device interface) db.readings r newest_one in
      record {
        current = i;
        found = found;
        device = device;
        registered = registered;
        not_archived = live;
        interface = interface;
        named = named;
        reading = r;
        stored = stored;
        from_device = ground (arith, evidence);
        on_channel = ground (arith, evidence);
        recent = ground (arith, evidence);
        usable = ground (arith, evidence);
        result = result;
      }

  conclude_able-eq_ok :
      (device : RegisteredDevice) (o : Option NodeCapabilities)
      → get_device i.node_id db ≡ some device
      → capabilities (some device) none ≡ o
      → conclude_able w id tx db i device o ≡ (ok tt, db')
      → Activated w id db db'
  unfolding conclude_able
  conclude_able-eq_ok device none registered able h = cc (ap (λ x. x.0) h)
  conclude_able-eq_ok device (some c) registered able h =
      let (live, same) = capabilities-eq_some device c able in
      conclude_on-eq_ok device (interface_of c i.interface_id) registered live
        (ap (λ c. interface_of c i.interface_id) same) h

  conclude_device-eq_ok :
      (o : Option RegisteredDevice)
      → get_device i.node_id db ≡ o
      → conclude_device w id tx db i o ≡ (ok tt, db')
      → Activated w id db db'
  unfolding conclude_device
  conclude_device-eq_ok none registered h = cc (ap (λ x. x.0) h)
  conclude_device-eq_ok (some device) registered h =
      conclude_able-eq_ok device (capabilities (some device) none) registered refl h

conclude_row-eq_ok :
    (w : World) (id tx : String) (db db' : Database) (o : Option SensorInstallation)
    → get id db ≡ o
    → conclude_row w id tx db o ≡ (ok tt, db')
    → Activated w id db db'
unfolding conclude_row
conclude_row-eq_ok w id tx db db' none found h = cc (ap (λ x. x.0) h)
conclude_row-eq_ok w id tx db db' (some i) found h =
    conclude_device-eq_ok w id tx db db' i found (get_device i.node_id db) refl h

decided : {A : Type 0} (d : Dec A) → decide d ≡ true → A
unfolding decide
decided (yes p) h = p
decided (no n) h = cc

compare_readback-eq_ok :
    (w : World) (id tx : String) (requested : InstallationConfiguration) (b : Readback)
    (db db' : Database)
    → compare_readback w id tx requested b db ≡ (ok tt, db')
    → (b ≡ returned requested) × Activated w id db db'
unfolding compare_readback conclude
compare_readback-eq_ok w id tx requested read_escaped db db' h = cc (ap (λ x. x.0) h)
compare_readback-eq_ok w id tx requested (unread name) db db' h = cc (ap (λ x. x.0) h)
compare_readback-eq_ok w id tx requested (returned actual) db db' h =
    let (same, k) =
      if_else_err-eq_ok (decide (InstallationConfiguration-discrete actual requested)) _ _
        (conclude w id tx db) h in
    (
      ap returned (decided (InstallationConfiguration-discrete actual requested) same),
      conclude_row-eq_ok w id tx db db' (get id db) refl k,
    )

-- The row and the transaction that `verify` was called on, and the answer of the device.
pub record Confirmed (w : World) (id : String) (db : Database) : Type 0 where
  pub row : SensorInstallation
  pub found : get id db ≡ some row
  pub transaction : String
  pub opened : row.active_transaction_id ≡ some transaction
  pub answer :
      w.read_back row.node_id row.interface_id transaction ≡ returned row.configuration_json

-- `verify` returns only when the device read back the requested configuration and a usable reading
-- of the interface, at most a minute old, is stored; the row is then active, enabled and verified,
-- keeps its configuration for a way back, and has no open transaction. This holds whatever other
-- tasks do to the tables while the method waits for the device.
pub verify-eq_ok :
    (w : World) (id : String) (db db' : Database)
    → verify w id db ≡ (ok tt, db')
    → Confirmed w id db × Activated w id (w.while_reading db) db'
unfolding verify
verify-eq_ok w id db db' h = of_row (get id db) refl h
  where
    of_transaction :
        (i : SensorInstallation) (t : Option String)
        → get id db ≡ some i
        → i.active_transaction_id ≡ t
        → verify_transaction w id db i t ≡ (ok tt, db')
        → Confirmed w id db × Activated w id (w.while_reading db) db'
    of_transaction i none found opened k = cc (ap (λ x. x.0) k)
    of_transaction i (some tx) found opened k =
        let (nonempty, k') = if_err-eq_ok (str_eq tx "") _ _ _ k in
        let (answer, activated) =
          compare_readback-eq_ok w id tx i.configuration_json
            (w.read_back i.node_id i.interface_id tx) (w.while_reading db) db' k' in
        (
          record { row = i; found = found; transaction = tx; opened = opened; answer = answer },
          activated,
        )

    of_row :
        (o : Option SensorInstallation)
        → get id db ≡ o
        → verify_row w id db o ≡ (ok tt, db')
        → Confirmed w id db × Activated w id (w.while_reading db) db'
    of_row none found k = cc (ap (λ x. x.0) k)
    of_row (some i) found k = of_transaction i i.active_transaction_id found refl k
