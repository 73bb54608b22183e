-- ===== src/Models/Telemetry.antt =====
-- schemas.py: `ChannelValue` and `NormalizedTelemetry`.
use seed_mg.Prelude.{ℕ, String, Bool, Option, List}
use seed_mg.Models.Values.{Decimal, Quality}

-- `float | int | bool`
pub data Numeric : Type 0 where
  number : Decimal → Numeric
  boolean : Bool → Numeric

pub data ChannelData : Type 0 where
  numeric : Numeric → ChannelData
  text : String → ChannelData
  absent : ChannelData

pub data ValueKind : Type 0 where
  raw filtered calibrated derived state health : ValueKind

pub record ChannelValue : Type 0 where
  pub value : ChannelData
  pub raw_value : Option Numeric
  pub unit : Option String
  pub quality : Quality
  pub value_kind : ValueKind

-- `channels` is a dictionary in its order; the service reads no `metadata`.
pub record NormalizedTelemetry : Type 0 where
  pub schema_version : ℕ
  pub device_id : Option String
  pub device_type : String
  pub record_type : String
  pub device_uptime_ms : Option ℕ
  pub sequence_number : Option ℕ
  pub received_at : ℕ
  pub delayed : Bool
  pub event : Option String
  pub channels : List (String × ChannelValue)
