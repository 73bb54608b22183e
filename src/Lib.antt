-- ===== src/Lib.antt =====
-- The gateway of a network of XIAO MG24 sensor nodes: the services of gateway/app that register,
-- provision, remove and restore nodes, talk to them over Bluetooth and USB, check their firmware,
-- take telemetry in, and watch vibration.
--
-- Paths without a directory of the root are under gateway/app.
--
-- Parts, and how they work together. A node is registered (`RegisteredDevice`); a sensor on one of
-- its interfaces is an installation (`SensorInstallation`) with a profile of the catalog and a
-- configuration. Provisioning checks the configuration, sends it to the node under a transaction,
-- reads it back, and activates the installation when a reading of the interface has come. Telemetry
-- writes these readings. Removal of a node archives its installations.
--
-- - Prelude: tests, lists, tables as lists of rows, and functions that may raise.
-- - Models: the rows of gateway/app/models.py and the configuration and telemetry of schemas.py.
-- - Profiles.Model: gateway/app/profiles/models.py.
-- - Node.Capabilities: services/node_capability_service.py; Node.Configuration: `validate` of
--   services/channel_configuration_service.py; Node.Compatibility:
--   services/compatibility_service.py.
-- - Provisioning.Database: repositories/installation_repository.py and the reads of
--   device_repository.py; Provisioning.Validation and Provisioning.Apply: `validate`, `apply`,
--   `verify`, `_fail` and `_uncertain` of services/provisioning_service.py, in the order of the code,
--   one helper for each block between two suspensions or tests; Provisioning.Installations:
--   services/installation_service.py and the handlers of api/installations.py.
-- - Lifecycle.Service: services/device_lifecycle_service.py; Lifecycle.Confirmation:
--   services/lifecycle_confirmation.py.
-- - Telemetry.Session: the sessions and the memory of packets of services/telemetry_service.py;
--   Telemetry.Service: its `ingest`; Telemetry.Persistence: services/telemetry_persistence.py;
--   Telemetry.Retention: services/telemetry_retention.py.
-- - Telemetry.Parser: ble/telemetry_parser.py over the JSON values of Models.Json; Parser.Wire: the
--   message of sensor_package/firmware/libraries/SeedMg24Vibration/src/vibration_summary.cpp;
--   Telemetry.Receive: `ingest` with the parser in front.
-- - Ble.Provisioner: `provision` and `configure` of services/ble_provisioning.py; Ble.Task: steps that
--   may raise, over what a conversation has seen; Ble.Onboarding: ble/onboarding_identity.py;
--   Ble.Connection: the reconnect loop of ble/connection.py; Ble.Manager: ble/manager.py.
-- - Vibration: services/vibration_condition.py.
-- - Firmware.Hex: `inspect_intel_hex` of services/firmware_installation.py; Firmware.Catalog: its
--   catalog, and the start of an installation.
-- - Registration: services/device_service.py over the writes of repositories/device_repository.py.
-- - Reregistration: services/reset_reregister_workflow.py; UsbReset: services/usb_factory_reset.py.
-- - Tests: the theorems at concrete inputs.
--
-- Choices. The database is a record of tables, a table the list of its rows; a method gives its
-- result or exception and the new tables. The texts of a closed list are enumerations, times are
-- numbers of microseconds, a JSON column is the value its text stands for, a float in a row is a
-- decimal, and an error column is a constructor for each message, without the cut at 500 characters.
-- Clock, generated ids, the profile catalog, `packaging.version`, the arithmetic of floats and the
-- device behind the configurator are arguments (`World`, `Gateway`, `Request`, `Versions`, `Floats`,
-- `Packet`); so are the decoding of JSON (`loads`), the Bluetooth client with the node (`Client`), the
-- disk with the firmware images (`Disk`) and the sensor on the serial port (`Sensor`). While `apply`
-- and `verify` wait, other tasks may change the tables: each wait applies a function of the `World`
-- to them. The timeouts are among the answers of the device, and so is an exception of a class that
-- the code does not catch. All loops
-- go over lists (a wait over the notifications until its deadline, a reconnection over its attempts),
-- so no fuel is used; only the digits of a number in a command are counted up to 192, which makes
-- the command too long in any case. The memory of packets is bounded at 256 keys, as in the code.
--
-- Not modelled: the rest of the BLE connections and the scanner, the upload of firmware,
-- the FastAPI and SQLAlchemy glue, the web interface, the node's C++ firmware
-- and the legacy dashboard. The limits that pydantic puts on the length or the pattern of a text are
-- left out, and a write that the database refuses is modelled only where a unique key can refuse it.
pub mod Prelude
pub mod Models
pub mod Profiles
pub mod Node
pub mod Provisioning
pub mod Lifecycle
pub mod Telemetry
pub mod Vibration
pub mod Ble
pub mod Firmware
pub mod Reregistration
pub mod UsbReset
pub mod Registration
mod Tests
