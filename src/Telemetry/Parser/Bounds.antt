-- ===== src/Telemetry/Parser/Bounds.antt =====
-- telemetry_parser.py: the numbers and texts of a packet that is accepted lie in their ranges.
pub mod Packets
use native.Mathlib.Nat.{le-div_iff_mul-le, div-le_of_le-mul, one-le-pow}
use seed_mg.Prelude.{
  ℕ, ◌+◌, ◌*◌, ◌/◌, ◌^◌, ◌≤◌, ◌<◌, ◌≡◌, refl, Bool, true, false, not, ◌&&◌, Option, none, some,
  List, if◌then◌else◌, leb, ltb, arith, ap, sym, subst, Result, ok, err, bind-eq_ok, ok-injective,
  ◌>>=◌, if-cases, inl, inr, String, text_length, leb→le,
}
use seed_mg.Models.Values.{Decimal, decimal_lt}
use seed_mg.Models.Json.{Json, whole, truncate}
use seed_mg.Telemetry.Parser.{
  ParseError, finite_number, is_within, within, bounded_number, bounded_int, uint32,
  optional_uint32, max_uint32,
}

-- The two sides of the comparison with `whole n`, over a common denominator.
is_within-scaled :
    (lo hi : ℕ) (sign : Bool) (m s : ℕ)
    → is_within lo hi (record { negative = sign; mantissa = m; scale = s }) ≡ true
    → (lo * 10 ^ s ≤ m) × ((m ≤ hi * 10 ^ s))
unfolding decimal_lt
is_within-scaled lo hi false m s h = ground arith
is_within-scaled lo hi true m s h = ground arith

truncate-is_within :
    (lo hi : ℕ) (d : Decimal) → is_within lo hi d ≡ true → (lo ≤ truncate d) × (truncate d ≤ hi)
truncate-is_within lo hi d h =
    let (low, high) = is_within-scaled lo hi d.negative d.mantissa d.scale h in
    (
      (le-div_iff_mul-le (one-le-pow d.scale 10 (omega arith))).1 low,
      div-le_of_le-mul (10 ^ d.scale) (omega (arith, high)),
    )

within-eq_ok :
    (lo hi : ℕ) (e d : Decimal) → within lo hi e ≡ ok d → (is_within lo hi e ≡ true) × (e ≡ d)
within-eq_ok lo hi e d h = elim (if-cases (is_within lo hi e) _ _ _ h) [
  | inl (inside, k) ↦ (inside, ok-injective refl k)
  | inr (outside, k) ↦ cc k
]

pub bounded_int-eq_ok :
    (lo hi : ℕ) (j : Json) (n : ℕ) → bounded_int lo hi j ≡ ok n → (lo ≤ n) × (n ≤ hi)
unfolding bounded_int bounded_number
bounded_int-eq_ok lo hi j n h =
    let (d, bounded, truncated) = bind-eq_ok (finite_number j >>= within lo hi) _ h in
    let (e, finite, inside) = bind-eq_ok (finite_number j) _ bounded in
    let kept = within-eq_ok lo hi e d inside in
    subst (λ k. (lo ≤ k) × (k ≤ hi)) (ok-injective refl truncated)
      (subst (λ k. (lo ≤ truncate k) × (truncate k ≤ hi)) kept.1
        (truncate-is_within lo hi e kept.0))
