-- ===== src/Tests/Devices.antt =====
-- The theorem on the registration of a device, at a discovery beside a registered node.
use seed_mg.Prelude.{◌≡◌, refl, true, false, some, none, List, [], ◌∷◌, ok, row}
use seed_mg.Models.Device.{RegisteredDevice}
use seed_mg.Provisioning.Database.{Database}
use seed_mg.Registration.{Discovery, DeviceCreate, new_device, register}
use seed_mg.Registration.Registry.{IsRegistered, register-IsRegistered}
use seed_mg.Tests.Data.{node}

abbrev request : DeviceCreate
request = record {
  device_id = "PUMP-2";
  display_name = "Pump 2";
  discovery_address = "CC:DD";
  device_type = "xiao_mg24_sense";
  location = none;
  description = none;
  allow_incompatible = false;
}

abbrev discovery : Discovery
discovery = record {
  address = "CC:DD";
  name = none;
  compatible = true;
  stable_device_id = some "PUMP-2";
}

abbrev registry : List RegisteredDevice → Database
registry ds = record { devices = ds; installations = []; attempts = []; readings = []; events = [] }

abbrev pump : RegisteredDevice
pump = new_device request discovery 2 9

register_example :
    register (λ t. true) request discovery 2 9 (registry (node ∷ []))
    ≡ ok (pump, registry (node ∷ pump ∷ []))
unfolding register row
register_example = refl

register-IsRegistered_example :
    IsRegistered
      (λ t. true)
      request
      discovery
      (registry (node ∷ []))
      (pump, registry (node ∷ pump ∷ []))
register-IsRegistered_example =
    register-IsRegistered (λ t. true) request discovery 2 9 (registry (node ∷ []))
      (pump, registry (node ∷ pump ∷ [])) register_example
