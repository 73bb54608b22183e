-- ===== src/Telemetry/Persistence.antt =====
-- telemetry_persistence.py: `persist`. The times are those of the packet and of the clock, a
-- reading's uuid is given by the channel, and a float of a truth value is 0 or 1.
pub mod Rows
pub mod Laws
use seed_mg.Prelude.{
  ℕ, String, Bool, true, false, not, ◌&&◌, ◌||◌, Option, none, some, List, [], ◌∷◌, ◌++◌, map,
  str_eq, if◌then◌else◌, keep, any, mem_text, opt_str_eq, row, set_row, Result, ok, err, ◌==◌,
}
use mathlib.Core.Option
use seed_mg.Models.Values.{Decimal, Quality, is_usable}
use seed_mg.Models.Device.{RegisteredDevice, LifecycleState, ConnectionStatus, Reading}
use seed_mg.Models.Installation.{SensorInstallation}
use seed_mg.Models.Telemetry.{
  Numeric, number, boolean, ChannelData, numeric, text, absent, ChannelValue, NormalizedTelemetry,
}
use seed_mg.Node.Capabilities.{NodeInterface, NodeCapabilities, capabilities}
use seed_mg.Provisioning.Database.{Database, get_device, device_key}

-- `storage` is the `TelemetryPersistenceError` of the readings' unique key.
pub data PersistenceError : Type 0 where
  device_missing device_disabled node_not_found storage : PersistenceError

pub record Packet : Type 0 where
  pub payload : NormalizedTelemetry
  pub session_id : String
  pub measured_at : Option ℕ
  pub encoded_original : String
  pub gateway_id : String
  pub uuid : String → String
  pub now : ℕ

abbrev pub to_float : Numeric → Decimal
to_float (number d) = d
to_float (boolean b) = record { negative = false; mantissa = if b then 1 else 0; scale = 0 }

abbrev pub numeric_value : Option ChannelValue → Option Decimal
numeric_value none = none
numeric_value (some c) = of_data c.value
  where
    of_data : ChannelData → Option Decimal
    of_data (numeric n) = some (to_float n)
    of_data (text t) = none
    of_data absent = none

abbrev pub raw_value_of : Option ChannelValue → Option Decimal
raw_value_of none = none
raw_value_of (some c) = Option.map to_float c.raw_value

-- `or`, for texts.
abbrev pub text_or : Option String → String → String
text_or none d = d
text_or (some t) d = if str_eq t "" then d else t

abbrev pub channels_of : NormalizedTelemetry → List (String × Option ChannelValue)
channels_of p = of p.channels
  where
    of : List (String × ChannelValue) → List (String × Option ChannelValue)
    of [] = (text_or p.event p.record_type, none) ∷ []
    of (c ∷ cs) = map (λ e. (e.0, some e.1)) (c ∷ cs)

-- A dictionary comprehension keeps the last value of a key.
abbrev pub last_such : {A : Type 0} → (A → Bool) → List A → Option A
last_such p [] = none
last_such p (x ∷ xs) = or_this (last_such p xs) (if p x then some x else none)
  where
    or_this : {A : Type 0} → Option A → Option A → Option A
    or_this (some later) this = some later
    or_this none this = this

abbrev pub interface_for : NodeCapabilities → String → Option String
interface_for c channel =
    Option.map (λ i. i.interface_id)
      (last_such (λ i. mem_text channel i.telemetry_channels) c.interfaces)

abbrev pub is_active_on : String → SensorInstallation → Bool
is_active_on node i = str_eq i.node_id node && i.enabled && not i.archived

abbrev pub installation_for : String → Database → Option String → Option String
installation_for node db none = none
installation_for node db (some interface) =
    Option.map (λ i. i.installation_id)
      (last_such (λ i. is_active_on node i && str_eq i.interface_id interface) db.installations)

abbrev quality_of : Option ChannelValue → Quality
quality_of none = Quality.good
quality_of (some c) = c.quality

unfoldable pub reading :
    String → Database → Packet → ℕ → NodeCapabilities → String × Option ChannelValue → Reading
reading node db p device c (name, channel) = record {
  reading_uuid = p.uuid name;
  gateway_id = p.gateway_id;
  registered_device_id = device;
  received_at = p.payload.received_at;
  measured_at = p.measured_at;
  measured_at_device_uptime = p.payload.device_uptime_ms;
  device_uptime_ms = p.payload.device_uptime_ms;
  sequence_number = p.payload.sequence_number;
  session_id = p.session_id;
  record_type = p.payload.record_type;
  channel = name;
  raw_value = raw_value_of channel;
  normalized_value = numeric_value channel;
  unit = Option.bind channel (λ v. v.unit);
  quality = quality_of channel;
  payload_json = p.encoded_original;
  delayed = p.payload.delayed;
  installation_id = installation_for node db (interface_for c name);
  interface_id = interface_for c name;
}

abbrev pub rows_of : String → Database → Packet → ℕ → NodeCapabilities → List Reading
rows_of node db p device c = map (reading node db p device c) (channels_of p.payload)

-- `uq_reading_sequence_channel`, in which null is equal to nothing.
abbrev pub same_number : Option ℕ → Option ℕ → Bool
same_number (some n) (some m) = n == m
same_number _ _ = false

abbrev pub same_reading : Reading → Reading → Bool
same_reading r s =
    r.registered_device_id == s.registered_device_id
    && str_eq r.session_id s.session_id
    && same_number r.sequence_number s.sequence_number
    && str_eq r.channel s.channel

abbrev pub is_stored_already : List Reading → List Reading → Bool
is_stored_already rows stored = any (λ r. any (same_reading r) stored) rows

-- The body of the loop over `active_installations`.
abbrev pub seen : String → Packet → List Reading → SensorInstallation → SensorInstallation
seen node p rows i =
    let relevant = keep (λ r. opt_str_eq r.installation_id (some i.installation_id)) rows in
    if is_active_on node i && any (λ r. true) relevant
    then record i {
      last_seen_at = some p.payload.received_at;
      last_valid_reading_at =
          if any (λ r. is_usable r.quality) relevant
          then some p.payload.received_at
          else i.last_valid_reading_at;
      updated_at = p.now;
    }
    else i

abbrev pub connected : Packet → RegisteredDevice → RegisteredDevice
connected p d = record d {
  connection_status = ConnectionStatus.connected;
  last_seen_at = some p.payload.received_at;
  updated_at = p.now;
}

abbrev pub with_rows : String → Packet → List Reading → Database → Database
with_rows node p rows db = record db {
  readings = db.readings ++ rows;
  installations = map (seen node p rows) db.installations;
  devices = set_row device_key node (connected p) db.devices;
}

abbrev pub commit :
    String
    → Packet
    → Database
    → List Reading
    → Bool
    → Result PersistenceError (List Reading) × Database
commit node p db rows true = (err storage, db)
commit node p db rows false = (ok rows, with_rows node p rows db)

abbrev pub is_removed : LifecycleState → Bool
is_removed LifecycleState.removed = true
is_removed LifecycleState.active = false

abbrev pub for_capabilities :
    String
    → Packet
    → Database
    → RegisteredDevice
    → Option NodeCapabilities
    → Result PersistenceError (List Reading) × Database
for_capabilities node p db d none = (err node_not_found, db)
for_capabilities node p db d (some c) =
    let rows = rows_of node db p d.id c in
    commit node p db rows (is_stored_already rows db.readings)

abbrev pub for_accepted :
    String
    → Packet
    → Database
    → RegisteredDevice
    → Bool
    → Result PersistenceError (List Reading) × Database
for_accepted node p db d true = (err device_disabled, db)
for_accepted node p db d false =
    for_capabilities node p db d (capabilities (get_device node db) none)

abbrev pub for_device :
    String
    → Packet
    → Database
    → Option RegisteredDevice
    → Result PersistenceError (List Reading) × Database
for_device node p db none = (err device_missing, db)
for_device node p db (some d) =
    for_accepted node p db d (d.archived || not d.enabled || is_removed d.lifecycle_state)

unfoldable pub persist :
    String → Packet → Database → Result PersistenceError (List Reading) × Database
persist node p db = for_device node p db (get_device node db)
