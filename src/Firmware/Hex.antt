-- ===== src/Firmware/Hex.antt =====
-- firmware_installation.py: `inspect_intel_hex`, on the lines of the file. An end is one past the
-- last address, so that a record without data needs no number below zero.
pub mod Range
use seed_mg.Prelude.{
  ℕ, suc, ◌+◌, ◌-◌, ◌*◌, ◌%◌, String, Bool, true, false, ◌&&◌, ◌||◌, Option, none, some, List, [],
  ◌∷◌, if◌then◌else◌, ltb, leb, ◌==◌, length, codes, Result, ok, err, ◌>>=◌,
}

-- The messages of `FirmwareValidationError`; the three codes that are not `invalid`; and what else is
-- raised: `ValueError` of a number or of `fromhex`, and `KeyError`.
pub data FirmwareError : Type 0 where
  invalid_record invalid_checksum invalid_length unsupported_record no_data : FirmwareError
  unknown_package incomplete_provenance with_bootloader unsupported_board outside_catalog :
      FirmwareError
  range_mismatch protected_region not_eligible invalid_serial no_matching_board device_busy :
      FirmwareError
  missing unreadable hash_mismatch disabled : FirmwareError
  value_error key_error : FirmwareError

abbrev pub is_space : ℕ → Bool
is_space c = c == 32 || leb 9 c && leb c 13

abbrev pub hex_digit : ℕ → Option ℕ
hex_digit c =
    if leb 48 c && leb c 57
    then some (c - 48)
    else if leb 65 c && leb c 70
    then some (c - 55)
    else if leb 97 c && leb c 102
    then some (c - 87)
    else none

-- Between two bytes, after the first digit of one, or where no byte can be.
pub data HexState : Type 0 where
  between broken : HexState
  after : ℕ → HexState

abbrev pub next : HexState → ℕ → HexState
next between c = if is_space c then between else begun (hex_digit c)
  where
    begun : Option ℕ → HexState
    begun none = broken
    begun (some d) = after d
next (after d) c = ended (hex_digit c)
  where
    ended : Option ℕ → HexState
    ended none = broken
    ended (some e) = between
next broken c = broken

abbrev pub emitted : HexState → ℕ → Option ℕ
emitted (after d) c = byte (hex_digit c)
  where
    byte : Option ℕ → Option ℕ
    byte none = none
    byte (some e) = some (16 * d + e)
emitted _ c = none

abbrev pub emit : Option ℕ → Option (List ℕ) → Option (List ℕ)
emit (some b) (some bs) = some (b ∷ bs)
emit none bs = bs
emit (some b) none = none

unfoldable pub bytes_from : HexState → List ℕ → Option (List ℕ)
bytes_from between [] = some []
bytes_from _ [] = none
bytes_from s (c ∷ cs) = emit (emitted s c) (bytes_from (next s c) cs)

-- `bytes.fromhex`
abbrev pub from_hex : List ℕ → Option (List ℕ)
from_hex = bytes_from between

pub record Record : Type 0 where
  pub count : ℕ
  pub offset : ℕ
  pub kind : ℕ
  pub word : ℕ

unfoldable pub total : List ℕ → ℕ
total [] = 0
total (b ∷ bs) = b + total bs

-- `int.from_bytes(raw[4:6], "big")`, where `raw[4]` exists.
abbrev pub word_of : ℕ → List ℕ → ℕ
word_of b [] = b
word_of b (c ∷ cs) = 256 * b + c

abbrev pub record_of : List ℕ → Result FirmwareError Record
record_of (c ∷ h ∷ l ∷ k ∷ b ∷ rest) =
    if total (c ∷ h ∷ l ∷ k ∷ b ∷ rest) % 256 == 0
    then (if c == length rest
        then ok (record { count = c; offset = 256 * h + l; kind = k; word = word_of b rest })
        else err invalid_length)
    else err invalid_checksum
record_of _ = err invalid_checksum

abbrev pub of_bytes : Option (List ℕ) → Result FirmwareError Record
of_bytes none = err value_error
of_bytes (some raw) = record_of raw

abbrev pub of_codes : List ℕ → Result FirmwareError Record
of_codes [] = err invalid_record
of_codes (c ∷ cs) = if c == 58 then of_bytes (from_hex cs) else err invalid_record

unfoldable pub read_record : String → Result FirmwareError Record
unfolding bytes_from total
read_record line = of_codes (codes line)

pub record Segment : Type 0 where
  pub start : ℕ
  pub stop : ℕ

-- The data of a record, and the base of the addresses after it.
abbrev pub place : ℕ → Record → Result FirmwareError (Option Segment × ℕ)
place base r =
    if r.kind == 0
    then ok (some (record { start = base + r.offset; stop = base + r.offset + r.count }), base)
    else if r.kind == 4
    then ok (none, r.word * 65536)
    else if r.kind == 1 || r.kind == 2 || r.kind == 3 || r.kind == 5
    then ok (none, base)
    else err unsupported_record

abbrev pub base_after : ℕ → Record → ℕ
base_after base r = if r.kind == 4 then r.word * 65536 else base

abbrev pub keep_segment : Option Segment → List Segment → List Segment
keep_segment none segments = segments
keep_segment (some s) segments = s ∷ segments

unfoldable pub scan : ℕ → List String → Result FirmwareError (List Segment)
scan base [] = ok []
scan base (line ∷ lines) = read_record line >>= λ r.
    place base r >>= λ p. scan p.1 lines >>= λ segments. ok (keep_segment p.0 segments)

pub record Extent : Type 0 where
  pub start : ℕ
  pub stop : ℕ
  pub size : ℕ

abbrev pub min_of : ℕ → ℕ → ℕ
min_of a b = if ltb b a then b else a

abbrev pub max_of : ℕ → ℕ → ℕ
max_of a b = if ltb a b then b else a

unfoldable pub widen : Extent → List Segment → Extent
widen e [] = e
widen e (s ∷ ss) =
    widen
      (record {
        start = min_of e.start s.start;
        stop = max_of e.stop s.stop;
        size = e.size + (s.stop - s.start);
      })
      ss

abbrev pub extent_of : List Segment → Result FirmwareError Extent
extent_of [] = err no_data
extent_of (s ∷ ss) =
    ok (widen (record { start = s.start; stop = s.stop; size = s.stop - s.start }) ss)

unfoldable pub inspect : List String → Result FirmwareError Extent
unfolding scan widen
inspect lines = scan 0 lines >>= extent_of
