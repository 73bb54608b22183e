-- ===== src/Lifecycle/Service/Tables.antt =====
-- device_lifecycle_service.py: what a change of one device and a new event do to the tables, and an
-- answer that says that nothing was left to do.
use seed_mg.Prelude.{
  Result, ok, err, true, ◌++◌, [], ◌∷◌, str_eq, String, ◌≡◌, false, some, List, eq_refl, row,
  row-set_row, set_row,
}
use seed_mg.Models.Device.{RegisteredDevice}
use seed_mg.Provisioning.Database.{device_key}
use seed_mg.Models.Device.{LifecycleEventType, DeviceLifecycleEvent}
use seed_mg.Lifecycle.Service.{LifecycleError, LifecycleResult, Request}

pub get_device-set :
    (id : String) (f : RegisteredDevice → RegisteredDevice) (devices : List RegisteredDevice)
    (d : RegisteredDevice)
    → ((r : RegisteredDevice) → (f r).device_id ≡ r.device_id)
    → row device_key id devices ≡ some d
    → row device_key id (set_row device_key id f devices) ≡ some (f d)
get_device-set id f devices d keeps h =
    rw (row-set_row device_key id id f devices keeps) (rw (eq_refl id) (rw h))

pub get_device-set_other :
    (id other : String) (f : RegisteredDevice → RegisteredDevice) (devices : List RegisteredDevice)
    → ((r : RegisteredDevice) → (f r).device_id ≡ r.device_id)
    → str_eq id other ≡ false
    → row device_key other (set_row device_key id f devices) ≡ row device_key other devices
get_device-set_other id other f devices keeps h =
    rw (row-set_row device_key id other f devices keeps) (rw h)

-- One event of the operation is recorded after those that were there.
pub record Records (q : Request) (kind : LifecycleEventType) (d : RegisteredDevice)
    (events events' : List DeviceLifecycleEvent) : Type 0 where
  pub event : DeviceLifecycleEvent
  pub appended : events' ≡ events ++ event ∷ []
  pub operation : event.operation_id ≡ q.operation_id
  pub kind_of : event.event_type ≡ kind
  pub device : event.device_id ≡ d.device_id
  pub hardware : event.hardware_id ≡ d.hardware_id
  pub created : event.created_at ≡ q.now

abbrev pub Already : Result LifecycleError LifecycleResult → Type 0
Already (ok r) = r.already_applied ≡ true
Already (err e) = ⊥
