-- ===== src/Telemetry/Persistence/Laws.antt =====
-- telemetry_persistence.py: a packet is stored whole for a device in use, or nothing is stored.
use seed_mg.Prelude.{
  Member, subst, Each, Each-map, String, ◌≡◌, refl, Bool, true, false, not, ◌||◌, Option, none,
  some, List, ◌++◌, ap, sym, ◌∙◌, Result, ok, arith,
}
use seed_mg.Models.Device.{LifecycleState, RegisteredDevice, Reading}
use seed_mg.Node.Capabilities.{NodeCapabilities}
use seed_mg.Provisioning.Database.{Database, get_device}
use seed_mg.Telemetry.Persistence.{
  PersistenceError, Packet, channels_of, rows_of, reading, is_stored_already, commit, is_removed,
  for_capabilities, for_accepted, for_device, persist,
}
use seed_mg.Telemetry.Persistence.Rows.{IsRow, reading-IsRow, IsSameReading, is_stored_already-new}

is_active : (l : LifecycleState) → is_removed l ≡ false → l ≡ LifecycleState.active
is_active LifecycleState.active h = refl
is_active LifecycleState.removed h = cc

module _ (node : String) (p : Packet) (db after : Database) where
  -- What a packet that was stored says of its device, its channels and the tables.
  pub record Persisted (rows : List Reading) : Type 0 where
    pub device : RegisteredDevice
    pub found : get_device node db ≡ some device
    pub not_archived : device.archived ≡ false
    pub is_enabled : device.enabled ≡ true
    pub not_removed : device.lifecycle_state ≡ LifecycleState.active
    pub one_row_each : Each (IsRow p device.id) (channels_of p.payload) rows
    pub is_new : (r s : Reading) → Member r rows → Member s db.readings → IsSameReading r s → ⊥
    pub readings_added : after.readings ≡ db.readings ++ rows
    pub attempts_kept : after.attempts ≡ db.attempts
    pub events_kept : after.events ≡ db.events

  in_use :
      (d : RegisteredDevice)
      → (d.archived || not d.enabled || is_removed d.lifecycle_state) ≡ false
      → (d.archived ≡ false) × (d.enabled ≡ true) × (is_removed d.lifecycle_state ≡ false)
  in_use d h = ground arith

  commit-eq_ok :
      (rows given : List Reading) (d : RegisteredDevice) (c : NodeCapabilities) (e : Bool)
      → get_device node db ≡ some d
      → (d.archived || not d.enabled || is_removed d.lifecycle_state) ≡ false
      → given ≡ rows_of node db p d.id c
      → is_stored_already given db.readings ≡ e
      → commit node p db given e ≡ (ok rows, after)
      → Persisted rows
  commit-eq_ok rows given d c true f u g e h = cc (ap (λ x. x.0) h)
  commit-eq_ok rows given d c false f u g e h =
      let same = rows_eq refl (ap (λ x. x.0) h) in
      let tables = ap (λ x. x.1) h in
      let used = in_use d u in
      record {
        device = d;
        found = f;
        not_archived = used.0;
        is_enabled = used.1;
        not_removed = is_active d.lifecycle_state used.2;
        one_row_each = subst (Each (IsRow p d.id) (channels_of p.payload)) (sym g ∙ same) (
            Each-map (IsRow p d.id) (reading node db p d.id c) (reading-IsRow node db p d.id c)
              (channels_of p.payload));
        is_new =
            is_stored_already-new rows db.readings
              (ap (λ r. is_stored_already r db.readings) (sym same) ∙ e);
        readings_added = ap (λ t. t.readings) (sym tables) ∙ ap (λ r. db.readings ++ r) same;
        attempts_kept = ap (λ t. t.attempts) (sym tables);
        events_kept = ap (λ t. t.events) (sym tables);
      }
    where
      rows_eq :
          {m : Result PersistenceError (List Reading)} → m ≡ ok given → m ≡ ok rows → given ≡ rows
      rows_eq j k = cc

  capabilities-eq_ok :
      (rows : List Reading) (d : RegisteredDevice) (c : Option NodeCapabilities)
      → get_device node db ≡ some d
      → (d.archived || not d.enabled || is_removed d.lifecycle_state) ≡ false
      → for_capabilities node p db d c ≡ (ok rows, after)
      → Persisted rows
  capabilities-eq_ok rows d none f u h = cc (ap (λ x. x.0) h)
  capabilities-eq_ok rows d (some c) f u h =
      commit-eq_ok rows (rows_of node db p d.id c) d c _ f u refl refl h

  accepted-eq_ok :
      (rows : List Reading) (d : RegisteredDevice) (b : Bool)
      → get_device node db ≡ some d
      → (d.archived || not d.enabled || is_removed d.lifecycle_state) ≡ b
      → for_accepted node p db d b ≡ (ok rows, after)
      → Persisted rows
  accepted-eq_ok rows d true f u h = cc (ap (λ x. x.0) h)
  accepted-eq_ok rows d false f u h = capabilities-eq_ok rows d _ f u h

  device-eq_ok :
      (rows : List Reading) (o : Option RegisteredDevice)
      → get_device node db ≡ o
      → for_device node p db o ≡ (ok rows, after)
      → Persisted rows
  device-eq_ok rows none f h = cc (ap (λ x. x.0) h)
  device-eq_ok rows (some d) f h = accepted-eq_ok rows d _ f refl h

  -- A packet that is stored comes from a registered device that is neither archived, disabled nor
  -- removed. It gives one reading for each of its channels in their order, or a single one if it has
  -- none, which holds the channel's name, value, unit and quality and the packet's session, number
  -- and times. No row of the same device, session, channel and number was stored before. It adds
  -- these to the readings, and leaves the provisioning attempts and the lifecycle events as they
  -- were.
  pub persist-eq_ok : (rows : List Reading) → persist node p db ≡ (ok rows, after) → Persisted rows
  unfolding persist
  persist-eq_ok rows h = device-eq_ok rows _ refl h
