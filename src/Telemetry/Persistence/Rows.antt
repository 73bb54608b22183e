-- ===== src/Telemetry/Persistence/Rows.antt =====
-- telemetry_persistence.py: what a row holds of its packet and channel, and when two rows are the same.
use seed_mg.Prelude.{
  Member, any, any_complete, not_true, ◌&&◌, eq_iff, ==_iff, ℕ, String, ◌≡◌, refl, Bool, true,
  false, Option, none, some, List, arith,
}
use mathlib.Core.Option
use seed_mg.Models.Values.{Decimal, Quality}
use seed_mg.Models.Telemetry.{number, boolean, ChannelData, numeric, text, absent, ChannelValue}
use seed_mg.Models.Device.{Reading}
use seed_mg.Node.Capabilities.{NodeCapabilities}
use seed_mg.Provisioning.Database.{Database}
use seed_mg.Telemetry.Persistence.{
  Packet, same_number, same_reading, to_float, numeric_value, reading, is_stored_already,
}

-- The number that a row stores of a channel: a truth value is 1 or 0, a text and no value are none.
abbrev pub number_of : ChannelData → Option Decimal
number_of (numeric (number d)) = some d
number_of (numeric (boolean true)) = some (record { negative = false; mantissa = 1; scale = 0 })
number_of (numeric (boolean false)) = some (record { negative = false; mantissa = 0; scale = 0 })
number_of (text t) = none
number_of absent = none

-- What a row holds of the packet.
pub record IsFromPacket (p : Packet) (device : ℕ) (r : Reading) : Type 0 where
  pub uuid : r.reading_uuid ≡ p.uuid r.channel
  pub registered_device_id : r.registered_device_id ≡ device
  pub gateway_id : r.gateway_id ≡ p.gateway_id
  pub session_id : r.session_id ≡ p.session_id
  pub sequence_number : r.sequence_number ≡ p.payload.sequence_number
  pub received_at : r.received_at ≡ p.payload.received_at
  pub measured_at : r.measured_at ≡ p.measured_at
  pub device_uptime_ms : r.device_uptime_ms ≡ p.payload.device_uptime_ms
  pub record_type : r.record_type ≡ p.payload.record_type
  pub payload_json : r.payload_json ≡ p.encoded_original
  pub delayed : r.delayed ≡ p.payload.delayed

-- What a row holds of its channel, which a packet without channels has not.
abbrev pub IsOfChannel : String × Option ChannelValue → Reading → Type 0
IsOfChannel (name, none) r =
    (r.channel ≡ name)
    × (r.normalized_value ≡ none)
    × (r.raw_value ≡ none)
    × (r.unit ≡ none)
    × (r.quality ≡ Quality.good)
IsOfChannel (name, some c) r =
    (r.channel ≡ name)
    × (r.normalized_value ≡ number_of c.value)
    × (r.raw_value ≡ Option.map to_float c.raw_value)
    × (r.unit ≡ c.unit)
    × (r.quality ≡ c.quality)

abbrev pub IsRow : Packet → ℕ → String × Option ChannelValue → Reading → Type 0
IsRow p device channel r = IsFromPacket p device r × IsOfChannel channel r

numeric_value-number_of : (c : ChannelValue) → numeric_value (some c) ≡ number_of c.value
numeric_value-number_of c = by_data c.value
  where
    by_data : (d : ChannelData) → numeric_value (some (record c { value = d })) ≡ number_of d
    by_data (numeric (number d)) = refl
    by_data (numeric (boolean true)) = refl
    by_data (numeric (boolean false)) = refl
    by_data (text t) = refl
    by_data absent = refl

pub reading-IsRow :
    (node : String) (db : Database) (p : Packet) (device : ℕ) (c : NodeCapabilities)
    (channel : String × Option ChannelValue)
    → IsRow p device channel (reading node db p device c channel)
unfolding reading Option.bind
reading-IsRow node db p device c (name, none) = (
  record {
    uuid = refl;
    registered_device_id = refl;
    gateway_id = refl;
    session_id = refl;
    sequence_number = refl;
    received_at = refl;
    measured_at = refl;
    device_uptime_ms = refl;
    record_type = refl;
    payload_json = refl;
    delayed = refl;
  },
  (refl, refl, refl, refl, refl),
)
reading-IsRow node db p device c (name, some v) = (
  record {
    uuid = refl;
    registered_device_id = refl;
    gateway_id = refl;
    session_id = refl;
    sequence_number = refl;
    received_at = refl;
    measured_at = refl;
    device_uptime_ms = refl;
    record_type = refl;
    payload_json = refl;
    delayed = refl;
  },
  (refl, numeric_value-number_of v, refl, refl, refl),
)

-- Two rows that the unique key of the readings does not let stand together.
pub record IsSameReading (r s : Reading) : Type 0 where
  pub registered_device_id : r.registered_device_id ≡ s.registered_device_id
  pub session_id : r.session_id ≡ s.session_id
  pub sequence_number : (n : ℕ) × (r.sequence_number ≡ some n) × (s.sequence_number ≡ some n)
  pub channel : r.channel ≡ s.channel

and_both : (a b : Bool) → a ≡ true → b ≡ true → (a && b) ≡ true
and_both a b h k = ground arith

IsSameReading-same_reading : (r s : Reading) → IsSameReading r s → same_reading r s ≡ true
IsSameReading-same_reading r s k =
    let (n, here, there) = k.sequence_number in
    let number : same_number r.sequence_number s.sequence_number ≡ true =
      rw (here, there) ((==_iff n n).1 refl) in
    and_both _ _
      (and_both _ _
        (and_both _ _
          ((==_iff r.registered_device_id s.registered_device_id).1 k.registered_device_id)
          ((eq_iff r.session_id s.session_id).1 k.session_id))
        number)
      ((eq_iff r.channel s.channel).1 k.channel)

pub is_stored_already-new :
    (rows stored : List Reading)
    → is_stored_already rows stored ≡ false
    → (r s : Reading) → Member r rows
    → Member s stored
    → IsSameReading r s
    → ⊥
is_stored_already-new rows stored h r s m k same =
    not_true
      (any_complete (same_reading r) stored
        (any_complete (λ q. any (same_reading q) stored) rows h r m) s k)
      (IsSameReading-same_reading r s same)
