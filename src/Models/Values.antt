-- ===== src/Models/Values.antt =====
-- Numbers and qualities that the rows carry.
use seed_mg.Prelude.{ℕ, ◌*◌, ◌^◌, ◌+◌, Bool, true, false, ltb}

-- A finite float: (-1)^negative * mantissa / 10^scale. Every finite binary float is of this form.
pub record Decimal : Type 0 where
  pub negative : Bool
  pub mantissa : ℕ
  pub scale : ℕ

-- `a < b` on the numbers that they stand for; zero has two signs.
unfoldable pub decimal_lt : Decimal → Decimal → Bool
decimal_lt a b =
    let x = a.mantissa * 10 ^ b.scale in
    let y = b.mantissa * 10 ^ a.scale in signed a.negative b.negative x y
  where
    signed : Bool → Bool → ℕ → ℕ → Bool
    signed false false x y = ltb x y
    signed true true x y = ltb y x
    signed true false x y = ltb 0 (x + y)
    signed false true x y = false

-- The values of `quality` in schemas.py.
pub data Quality : Type 0 where
  good estimated uncalibrated invalid sensor_fault stale : Quality

-- `quality.not_in(("invalid", "sensor_fault", "stale"))`
abbrev pub is_usable : Quality → Bool
is_usable Quality.invalid = false
is_usable Quality.sensor_fault = false
is_usable Quality.stale = false
is_usable _ = true
