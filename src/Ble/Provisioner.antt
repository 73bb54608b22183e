-- ===== src/Ble/Provisioner.antt =====
-- gateway/app/services/ble_provisioning.py: `BleNodeProvisioner`. The Bluetooth client with the node
-- behind it, and `json.loads`, are arguments. The deadline of a wait is the point where the node's
-- notifications end. The records of what was written and queued are `Session`.
pub mod Waiting
pub mod Provision
pub mod Replies
pub mod Invariants
pub mod Flows
pub mod Writes
pub mod Settings
pub mod Accepted
pub mod Verified
use Prim.Native.Char.{Char, char, code}
use Prim.Native.String
use seed_mg.Prelude.{
  ℕ, zero, suc, ◌+◌, ◌/◌, String, Bool, true, false, not, ◌&&◌, ◌||◌, Option, none, some, List, [],
  ◌∷◌, ◌++◌, if◌then◌else◌, ltb, leb, ◌==◌, all, length, codes, text_length, str_eq, Result, ok,
  err,
}
use seed_mg.Models.Json.{Json, object, Fields, get_field, equals_number, equals_text}
use seed_mg.Ble.Onboarding.{OnboardingError, is_hex_text}
use seed_mg.Ble.Task.{Task}

-- The messages of `BleProvisioningError`, and what else may be raised: a wait that timed out, a
-- failure of the client, what is no JSON, a method that a value does not have, an unhashable value.
pub data BleError : Type 0 where
  invalid_node_id invalid_transaction busy unsupported_filter command_too_long : BleError
  identity_changed readback_mismatch not_the_verified_sensor unsupported_protocol : BleError
  no_persistent_readback assigned_elsewhere bootstrap_exposed invalid_state : BleError
  onboarding : OnboardingError → BleError
  device_rejected : Json → BleError
  timed_out client_failed malformed attribute_error type_error : BleError

-- The keys of a configuration that are read.
pub record Requested : Type 0 where
  pub sample_interval_ms : ℕ
  pub processing_interval_ms : ℕ
  pub report_interval_ms : ℕ
  pub heartbeat_interval_ms : ℕ
  pub filter_type : String
  pub filter_window : ℕ
  pub enabled : Bool

pub record Values : Type 0 where
  pub sample : ℕ
  pub process : ℕ
  pub report : ℕ
  pub heartbeat : ℕ
  pub filter : ℕ
  pub window : ℕ
  pub enabled : ℕ

-- `FILTERS.get`
abbrev pub filter_code : String → Option ℕ
filter_code t =
    if str_eq t "none"
    then some 0
    else if str_eq t "moving_average"
    then some 1
    else if str_eq t "ema"
    then some 2
    else if str_eq t "median"
    then some 3
    else none

abbrev pub with_filter : Requested → Option ℕ → Result BleError Values
with_filter c none = err unsupported_filter
with_filter c (some filter) = ok (record {
  sample = c.sample_interval_ms;
  process = c.processing_interval_ms;
  report = c.report_interval_ms;
  heartbeat = c.heartbeat_interval_ms;
  filter = filter;
  window = c.filter_window;
  enabled = if c.enabled then 1 else 0;
})

-- `_configuration_values`
abbrev pub configuration_values : Requested → Result BleError Values
configuration_values c = with_filter c (filter_code c.filter_type)

abbrev pub expected : Values → List (String × ℕ)
expected v =
    ("sample", v.sample)
    ∷ ("process", v.process)
    ∷ ("report", v.report)
    ∷ ("heartbeat", v.heartbeat)
    ∷ ("filter", v.filter)
    ∷ ("window", v.window)
    ∷ ("enabled", v.enabled)
    ∷ []

-- `_readback_matches`
unfoldable pub readback_matches : Fields → Values → Bool
readback_matches readback v = all (λ e. equals_number (get_field e.0 readback) e.1) (expected v)

-- The texts that are written to the command characteristic.
pub data Command : Type 0 where
  prov : String → String → Values → Command
  cfgset : String → Values → Command
  provget : String → Command

-- The number of digits of `str(n)`, up to `fuel` of them.
unfoldable pub digits : ℕ → ℕ → ℕ
digits zero n = 1
digits (suc fuel) n = if ltb n 10 then 1 else suc (digits fuel (n / 10))

-- 192 digits are more than a command may have.
abbrev pub argument_length : ℕ → ℕ
argument_length n = 1 + digits 192 n

abbrev pub values_length : Values → ℕ
values_length v =
    argument_length v.sample
    + argument_length v.process
    + argument_length v.report
    + argument_length v.heartbeat
    + argument_length v.filter
    + argument_length v.window
    + argument_length v.enabled

-- `len(command.encode("ascii"))`, of `PROV 1 ...`, `CFGSET 1 ...` and `PROVGET 1 ...`.
abbrev pub command_length : Command → ℕ
command_length (prov tx id v) = 7 + text_length tx + 1 + text_length id + values_length v
command_length (cfgset tx v) = 9 + text_length tx + values_length v
command_length (provget tx) = 10 + text_length tx

abbrev pub is_upper_or_digit : ℕ → Bool
is_upper_or_digit c = leb 65 c && leb c 90 || leb 48 c && leb c 57

-- `[A-Z0-9]+(?:-[A-Z0-9]+)*`; `inside` says that the current part has a character.
unfoldable pub parts : Bool → List ℕ → Bool
parts inside [] = inside
parts inside (c ∷ cs) =
    let rest = parts (is_upper_or_digit c) cs in
    if is_upper_or_digit c || inside && c == 45 then rest else false

abbrev pub is_node_id : String → Bool
is_node_id t = parts false (codes t) && leb (text_length t) 31

-- `[0-9a-f]{16,24}`
abbrev pub is_transaction : String → Bool
is_transaction t = is_hex_text 16 24 t

abbrev pub upper_char : Char → Char
upper_char c =
    if code c == 97
    then char 65 tt
    else if code c == 98
    then char 66 tt
    else if code c == 99
    then char 67 tt
    else if code c == 100
    then char 68 tt
    else if code c == 101
    then char 69 tt
    else if code c == 102
    then char 70 tt
    else c

-- `text.upper()`, on the characters that a transaction id has.
abbrev pub upper : String → String
upper String.[] = ""
upper (String.◌∷◌ c t) = String.◌∷◌ (upper_char c) (upper t)

pub data Characteristic : Type 0 where
  metadata_uuid capabilities_uuid onboarding_identity_uuid : Characteristic

-- `BleakClient` with the node: `none` where the client raises. A write gives the notifications that
-- come before it returns, those that come after, and the node as it is then.
pub record Client (D : Type 0) : Type 0 where
  pub connect : D → Option D
  pub start_notify : D → Option D
  pub stop_notify : D → Option D
  pub read : Characteristic → D → Option (List ℕ)
  pub write : Command → D → Option (List (List ℕ) × List (List ℕ) × D)

-- The node, the queue of replies, the notifications to come, and the commands written so far.
pub record Session (D : Type 0) : Type 0 where
  pub device : D
  pub queue : List Fields
  pub pending : List (List ℕ)
  pub written : List Command

-- `queue.get_nowait` on a reply of an acknowledgement or an error; anything else is dropped.
abbrev pub reply_of : Option Json → Option Fields
reply_of (some (object fs)) =
    if equals_text (get_field "t" fs) "ca" || equals_text (get_field "t" fs) "ce"
    then some fs
    else none
reply_of (some _) = none
reply_of none = none

-- `queue.put_nowait` on an `asyncio.Queue(maxsize=16)`: the handler drops a reply when the queue
-- raises `QueueFull`.
abbrev pub put : List Fields → Option Fields → List Fields
put queue none = queue
put queue (some reply) = if ltb (length queue) 16 then queue ++ (reply ∷ []) else queue

-- The callback `notification`, for each of the notifications that came.
unfoldable pub deliver : (List ℕ → Option Json) → List Fields → List (List ℕ) → List Fields
deliver loads queue [] = queue
deliver loads queue (n ∷ ns) = deliver loads (put queue (reply_of (loads n))) ns
