-- ===== src/Models/Json.antt =====
-- The values that `json.loads` of Python gives, and what the gateway asks of them: `get`, the type
-- tests, and comparisons with the numbers and texts of a message.
use seed_mg.Prelude.{
  ℕ, ◌/◌, ◌^◌, String, Bool, true, false, not, ◌&&◌, Option, none, some, str_eq, if◌then◌else◌,
  ◌==◌,
}
use seed_mg.Models.Values.{Decimal, decimal_lt}

-- A number of JSON: an integer with its sign, a finite float, or `NaN` or an infinity, which
-- Python's reader accepts.
pub data Number : Type 0 where
  integer : Bool → ℕ → Number
  float : Decimal → Number
  not_finite : Number

mutual
  pub data Json : Type 0 where
    null : Json
    boolean : Bool → Json
    numeric : Number → Json
    text : String → Json
    array : Items → Json
    object : Fields → Json

  pub data Items : Type 0 where
    nil : Items
    cons : Json → Items → Items

  pub data Fields : Type 0 where
    end : Fields
    field : String → Json → Fields → Fields

-- `payload.get(key)` where absence matters, and `payload[key]`; a dictionary has a key once.
unfoldable pub find_field : String → Fields → Option Json
find_field key end = none
find_field key (field name value rest) = if str_eq name key then some value else find_field key rest

-- `payload.get(key)`, where an absent key and `null` are the same.
abbrev pub or_null : Option Json → Json
or_null none = null
or_null (some j) = j

abbrev pub get_field : String → Fields → Json
get_field key fs = or_null (find_field key fs)

-- The exact value of a number, as a decimal; an infinity has none.
abbrev pub decimal_of : Number → Option Decimal
decimal_of (integer sign n) = some (record { negative = sign; mantissa = n; scale = 0 })
decimal_of (float d) = some d
decimal_of not_finite = none

abbrev pub whole : ℕ → Decimal
whole n = record { negative = false; mantissa = n; scale = 0 }

-- `int(x)`, for numbers that are not negative.
abbrev pub truncate : Decimal → ℕ
truncate d = d.mantissa / 10 ^ d.scale

-- `x == n` on decimals.
unfoldable pub decimal_eq : Decimal → Decimal → Bool
unfolding decimal_lt
decimal_eq a b = not (decimal_lt a b) && not (decimal_lt b a)

abbrev pub equals_option : Option Decimal → ℕ → Bool
equals_option none n = false
equals_option (some d) n = decimal_eq d (whole n)

-- `value == n` for an integer `n`: a truth value is 0 or 1, and a float may equal an integer.
abbrev pub equals_number : Json → ℕ → Bool
equals_number (boolean b) n = (if b then 1 else 0) == n
equals_number (numeric x) n = equals_option (decimal_of x) n
equals_number _ n = false

abbrev pub equals_text : Json → String → Bool
equals_text (text t) u = str_eq t u
equals_text _ u = false

-- Lists and dictionaries cannot be looked up in a set: Python raises a TypeError.
abbrev pub is_hashable : Json → Bool
is_hashable (array xs) = false
is_hashable (object fs) = false
is_hashable _ = true

abbrev pub is_zero : Option Decimal → Bool
is_zero none = false
is_zero (some d) = d.mantissa == 0

-- `bool(value)`
abbrev pub is_truthy : Json → Bool
is_truthy null = false
is_truthy (boolean b) = b
is_truthy (numeric x) = not (is_zero (decimal_of x))
is_truthy (text t) = not (str_eq t "")
is_truthy (array nil) = false
is_truthy (array (cons x xs)) = true
is_truthy (object end) = false
is_truthy (object (field k v fs)) = true

abbrev pub is_null : Json → Bool
is_null null = true
is_null _ = false
