-- ===== src/Provisioning/Apply/Opening.antt =====
-- When `apply` opens a transaction, so that a configuration is sent to the device.
use seed_mg.Prelude.{
  String, ◌≡◌, refl, Bool, true, false, Option, none, some, row, sym, ap, subst, if◌then◌else◌,
  arith, Result, ok, if-cases, inl, inr, if_else_err-eq_ok, ◌∙◌,
}
use seed_mg.Models.States.{ProvisioningState, is_active, is_ready}
use seed_mg.Models.Device.{RegisteredDevice, CompatibilityStatus}
use seed_mg.Models.Installation.{InstallationConfiguration, SensorInstallation}
use seed_mg.Node.Capabilities.{
  NodeInterface, NodeCapabilities, capabilities, capabilities-eq_some, base_capabilities,
}
use seed_mg.Node.Configuration.{interface_of}
use seed_mg.Provisioning.Database.{
  Database, get, get_device, get_attempt, occupied_interface, update, touch, add_attempt,
  installation_key,
}
use seed_mg.Provisioning.Database.Laws.{get-update_self, add_attempt-eq_some}
use seed_mg.Provisioning.Validation.{World, Raised, live}
use seed_mg.Provisioning.Apply.{
  Begun, started, begin, begin_free, begin_selected, begin_able, begin_status, begin_row,
  blocking_status, is_compatible, conflicting, is_under_way, new_attempt, set_applying,
  open_transaction,
}

-- What holds where a transaction is opened, and what it leaves.
pub record Opened (w : World) (id node interface : String) (db : Database)
    (sent : InstallationConfiguration) (db' : Database) : Type 0 where
  pub row : SensorInstallation
  pub found : get id db ≡ some row
  pub not_archived : row.archived ≡ false
  pub ready : row.provisioning_state ≡ ProvisioningState.ready_to_apply
  pub device : RegisteredDevice
  pub registered : get_device node db ≡ some device
  pub present : device.archived ≡ false
  pub compatible : device.compatibility_status ≡ CompatibilityStatus.compatible
  pub selected : NodeInterface
  pub named : interface_of (base_capabilities device) interface ≡ some selected
  pub unoccupied : selected.exclusive ≡ true → occupied_interface node interface (some id) db ≡ none
  pub idle : is_under_way row db ≡ false
  pub own_configuration : sent ≡ row.configuration_json
  pub fresh : get_attempt w.new_transaction db ≡ none
  pub attempt : get_attempt w.new_transaction db' ≡ some (new_attempt w id sent)
  pub result : get id db' ≡ some (touch w.now (set_applying w.new_transaction) row)

started-injective :
    (a b : InstallationConfiguration) (s t : Database)
    → ◌≡◌ {A = Result Raised Begun × Database} (ok (started a), s) (ok (started b), t)
    → a ≡ b
started-injective a b s t h = cc (ap (λ x. x.0) h)

ready→eq : (s : ProvisioningState) → is_ready s ≡ true → s ≡ ProvisioningState.ready_to_apply
ready→eq s h = ground arith

conflicting-eq_none :
    (s : NodeInterface) (o : Option SensorInstallation)
    → conflicting s o ≡ none
    → s.exclusive ≡ true
    → o ≡ none
conflicting-eq_none s o h e = ground arith

abbrev pub archived_of : Option SensorInstallation → Bool
archived_of none = true
archived_of (some i) = i.archived

module _ (w : World) (id node interface : String) (db db' : Database)
    (sent : InstallationConfiguration) (i : SensorInstallation) (found : get id db ≡ some i)
    (kept : i.archived ≡ false) (device : RegisteredDevice)
    (registered : get_device node db ≡ some device)
    (compatible : device.compatibility_status ≡ CompatibilityStatus.compatible) where
  module _ (present : device.archived ≡ false) (s : NodeInterface)
      (named : interface_of (base_capabilities device) interface ≡ some s) where
    open_transaction-eq_started :
        (o : Option Database)
        → (s.exclusive ≡ true → occupied_interface node interface (some id) db ≡ none)
        → is_under_way i db ≡ false
        → is_ready i.provisioning_state ≡ true
        → add_attempt (new_attempt w id i.configuration_json) db ≡ o
        → open_transaction w id i db o ≡ (ok (started sent), db')
        → Opened w id node interface db sent db'
    unfolding open_transaction update
    open_transaction-eq_started none unoccupied idle ready added h = cc (ap (λ x. x.0) h)
    open_transaction-eq_started (some db1) unoccupied idle ready added h =
        let same = started-injective i.configuration_json sent _ db' h in
        let last = ap (λ x. x.1) h in
        let (at, rows, none_before) =
          add_attempt-eq_some (new_attempt w id i.configuration_json) db db1 added in
        record {
          row = i;
          found = found;
          not_archived = kept;
          ready = ready→eq i.provisioning_state ready;
          device = device;
          registered = registered;
          present = present;
          compatible = compatible;
          selected = s;
          named = named;
          unoccupied = unoccupied;
          idle = idle;
          own_configuration = sym same;
          fresh = none_before;
          attempt =
              subst (λ x. get_attempt w.new_transaction x ≡ some (new_attempt w id sent)) last
                (at ∙ ap (λ c. some (new_attempt w id c)) same);
          result =
              subst (λ x. get id x ≡ some (touch w.now (set_applying w.new_transaction) i)) last
                (get-update_self id (set_applying w.new_transaction) w.now db1 (λ r. refl) i
                  (ap (λ t. row installation_key id t) rows ∙ found));
        }

    begin_free-eq_started :
        (o : Option SensorInstallation)
        → conflicting s (occupied_interface node interface (some id) db) ≡ o
        → begin_free w id i db o ≡ (ok (started sent), db')
        → Opened w id node interface db sent db'
    unfolding begin_free
    begin_free-eq_started (some other) conflict h = cc (ap (λ x. x.0) h)
    begin_free-eq_started none conflict h = elim (if-cases (is_under_way i db) _ _ _ h) [
      | inl (busy, k) ↦ cc (ap (λ x. x.0) k)
      | inr (idle, k) ↦
          let (ready, k') = if_else_err-eq_ok (is_ready i.provisioning_state) _ _ _ k in
          open_transaction-eq_started (add_attempt (new_attempt w id i.configuration_json) db)
            (conflicting-eq_none s _ conflict) idle ready refl k'
    ]

  begin_selected-eq_started :
      (o : Option NodeInterface)
      → device.archived ≡ false
      → interface_of (base_capabilities device) interface ≡ o
      → begin_selected w id node interface i db o ≡ (ok (started sent), db')
      → Opened w id node interface db sent db'
  unfolding begin_selected
  begin_selected-eq_started none present named h = cc (ap (λ x. x.0) h)
  begin_selected-eq_started (some s) present named h =
      begin_free-eq_started present s named
        (conflicting s (occupied_interface node interface (some id) db)) refl h

  begin_able-eq_started :
      (o : Option NodeCapabilities)
      → capabilities (some device) none ≡ o
      → begin_able w id node interface i db o ≡ (ok (started sent), db')
      → Opened w id node interface db sent db'
  unfolding begin_able
  begin_able-eq_started none able h = cc (ap (λ x. x.0) h)
  begin_able-eq_started (some c) able h =
      let (present, same) = capabilities-eq_some device c able in
      begin_selected-eq_started (interface_of c interface) present
        (ap (λ c. interface_of c interface) same) h

blocking_status-eq_none :
    (o : Option RegisteredDevice)
    → blocking_status o ≡ none
    → (device : RegisteredDevice) × (o ≡ some device)
      × (device.compatibility_status ≡ CompatibilityStatus.compatible)
blocking_status-eq_none none h = cc
blocking_status-eq_none (some device) h =
    (device, refl, compatible_of device.compatibility_status h)
  where
    compatible_of :
        (s : CompatibilityStatus)
        → (if is_compatible s then none else some s) ≡ none
        → s ≡ CompatibilityStatus.compatible
    compatible_of s k = ground arith

module _ (w : World) (id node interface : String) (db db' : Database)
    (sent : InstallationConfiguration) (i : SensorInstallation) (found : get id db ≡ some i)
    (kept : i.archived ≡ false) where
  begin_status-eq_started :
      (o : Option CompatibilityStatus)
      → blocking_status (get_device node db) ≡ o
      → begin_status w id node interface i db o ≡ (ok (started sent), db')
      → Opened w id node interface db sent db'
  unfolding begin_status
  begin_status-eq_started (some s) status h = cc (ap (λ x. x.0) h)
  begin_status-eq_started none status h =
      let (device, registered, compatible) = blocking_status-eq_none (get_device node db) status in
      begin_able-eq_started w id node interface db db' sent i found kept device registered
        compatible (capabilities (some device) none) refl
        (subst
          (λ o.
            begin_able w id node interface i db (capabilities o none) ≡ (ok (started sent), db'))
          registered h)

pub live-eq_some :
    (o : Option SensorInstallation) (i : SensorInstallation)
    → live o ≡ some i
    → (o ≡ some i) × (i.archived ≡ false)
live-eq_some none i h = cc
live-eq_some (some r) i h = elim (if-cases r.archived none (some r) (some i) h) [
  | inl (gone, k) ↦ cc k
  | inr (kept, k) ↦ (k, subst (λ x. archived_of x ≡ false) k kept)
]

-- A configuration is sent to the device only for an unarchived installation that is ready, on a
-- registered, unarchived node of compatible firmware, on an interface of the node that is free if
-- it is exclusive, and with no attempt under way; it is the installation's own. The new attempt is
-- then stored, and the row is `applying` under its transaction and disabled.
pub begin-eq_started :
    (w : World) (id node interface : String) (db db' : Database) (sent : InstallationConfiguration)
    → begin w id node interface db ≡ (ok (started sent), db')
    → Opened w id node interface db sent db'
unfolding begin
begin-eq_started w id node interface db db' sent h = of_row (live (get id db)) refl h
  where
    of_row :
        (o : Option SensorInstallation)
        → live (get id db) ≡ o
        → begin_row w id node interface db o ≡ (ok (started sent), db')
        → Opened w id node interface db sent db'
    of_row none found k = cc (ap (λ x. x.0) k)
    of_row (some i) found k = elim (if-cases (is_active i.provisioning_state) _ _ _ k) [
      | inl (on, k') ↦ cc (ap (λ x. x.0) k')
      | inr (off, k') ↦
          let (at, kept) = live-eq_some (get id db) i found in
          begin_status-eq_started w id node interface db db' sent i at kept
            (blocking_status (get_device node db)) refl k'
    ]
