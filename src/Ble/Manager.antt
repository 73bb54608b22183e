-- ===== src/Ble/Manager.antt =====
-- gateway/app/ble/manager.py: which connections `BleManager` keeps. The normal form of a command, which
-- Python's `strip`, `upper` and `split` give, is an argument as the list of its words.
pub mod Paused
use seed_mg.Prelude.{
  ℕ, String, Bool, true, false, not, ◌&&◌, ◌||◌, Option, none, some, List, [], ◌∷◌, ◌++◌,
  if◌then◌else◌, leb, ◌==◌, str_eq, codes, keep, row, set_row, Result, ok, err,
}

pub record Managed : Type 0 where
  pub device_id : String
  pub address : String
  pub is_running : Bool
  pub state : String
  pub last_error : Option String

abbrev pub managed_key : Managed → String
managed_key m = m.device_id

abbrev pub is_digit : ℕ → Bool
is_digit c = leb 48 c && leb c 57

abbrev pub is_leading : ℕ → Bool
is_leading c = leb 49 c && leb c 57

-- `[0-9]|[1-9][0-9]|1[0-9]{2}|2[0-4][0-9]|25[0-5]`
abbrev pub is_brightness : List ℕ → Bool
is_brightness (a ∷ []) = is_digit a
is_brightness (a ∷ b ∷ []) = is_leading a && is_digit b
is_brightness (a ∷ b ∷ c ∷ []) =
    a == 49 && is_digit b && is_digit c
    || a == 50 && (leb 48 b && leb b 52) && is_digit c
    || a == 50 && b == 53 && (leb 48 c && leb c 53)
is_brightness _ = false

-- `[5-9][0-9]|[1-9][0-9]{2}|[1-4][0-9]{3}|5000`
abbrev pub is_rate : List ℕ → Bool
is_rate (a ∷ b ∷ []) = leb 53 a && leb a 57 && is_digit b
is_rate (a ∷ b ∷ c ∷ []) = is_leading a && is_digit b && is_digit c
is_rate (a ∷ b ∷ c ∷ d ∷ []) =
    leb 49 a && leb a 52 && is_digit b && is_digit c && is_digit d
    || a == 53 && b == 48 && c == 48 && d == 48
is_rate _ = false

pub data ManagerError : Type 0 where
  not_allowed not_managed : ManagerError

-- `validate_command`
abbrev pub is_allowed : List String → Bool
is_allowed (w ∷ []) = str_eq w "PING"
is_allowed (w ∷ x ∷ []) =
    str_eq w "LED" && (str_eq x "ON" || str_eq x "OFF" || is_brightness (codes x))
    || str_eq w "RATE" && is_rate (codes x)
is_allowed _ = false

abbrev pub new_connection : String → String → Managed
new_connection id address = record {
  device_id = id;
  address = address;
  is_running = true;
  state = "disconnected";
  last_error = none;
}

abbrev pub started_at : String → Managed → Managed
started_at address m = record m { address = address; is_running = true }

abbrev pub scheduled : String → String → List Managed → Option Managed → List Managed
scheduled id address ms none = ms ++ (new_connection id address ∷ [])
scheduled id address ms (some m) = set_row managed_key id (started_at address) ms

unfoldable pub schedule : String → String → List Managed → List Managed
schedule id address ms = scheduled id address ms (row managed_key id ms)

-- `remove`: `connections.pop`, after which the connection is stopped.
abbrev pub remove : String → List Managed → List Managed
remove id = keep (λ m. not (str_eq m.device_id id))

unfoldable pub remove_each : List Managed → List Managed → List Managed
remove_each [] ms = ms
remove_each (c ∷ cs) ms = remove_each cs (remove c.device_id ms)

unfoldable pub reschedule : List Managed → List Managed → List Managed
reschedule [] ms = ms
reschedule (c ∷ cs) ms = reschedule cs (schedule c.device_id c.address ms)

-- `paused_connections` around the work `body`, which may raise: `finally` runs in any case.
unfoldable pub paused_connections : (List Managed → List Managed) → List Managed → List Managed
unfolding reschedule remove_each
paused_connections body ms = reschedule ms (body (remove_each ms ms))

abbrev pub sent : List String → Option Managed → Result ManagerError (List String)
sent words none = err not_managed
sent words (some m) = ok words

-- `command`, up to `send_command` of the connection.
abbrev pub command : String → List String → List Managed → Result ManagerError (List String)
command id words ms =
    if is_allowed words then sent words (row managed_key id ms) else err not_allowed

abbrev pub status_of : Option Managed → String × Option String
status_of none = ("disconnected", none)
status_of (some m) = (m.state, m.last_error)

-- `runtime`
abbrev pub runtime : String → List Managed → String × Option String
runtime id ms = status_of (row managed_key id ms)
