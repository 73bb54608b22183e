-- ===== src/Telemetry/Parser/Bounds/Packets.antt =====
-- telemetry_parser.py: the ranges of the packets of each kind.
use mathlib.Core.Option.{some-injective}
use seed_mg.Prelude.{
  ℕ, ◌≤◌, ◌<◌, ◌≡◌, refl, Bool, false, not, ◌&&◌, ◌||◌, ◌>>=◌, Option, none, some, List,
  if◌then◌else◌, leb, ltb, arith, sym, subst, String, str_eq, Result, ok, err, bind-eq_ok,
  unit-bind-eq_ok, require, ok-injective, if-cases, inl, inr, text_length, leb→le, ◌==◌, is_some,
  length,
}
use seed_mg.Models.Json.{
  Json, null, boolean, numeric, text, array, object, Fields, is_hashable, equals_text, find_field,
  get_field,
}
use seed_mg.Models.Vibration.{Validity, VibrationSummary}
use seed_mg.Models.Telemetry.{NormalizedTelemetry}
use seed_mg.Vibration.Statistics.{Floats}
use seed_mg.Telemetry.Service.{is_vibration}
use seed_mg.Telemetry.Parser.{
  ParseError, unexpected_fields, bounded_number, unsupported_type, unsupported_version, bounded_int,
  uint32, optional_uint32, max_uint32,
}
use seed_mg.Telemetry.Parser.Bounds.{bounded_int-eq_ok}
use seed_mg.Telemetry.Parser.Vibration.{
  parse_vibration, summary_of, vibration_record, has_keys, vibration_keys, check_version,
  validity_of, axis, positive,
}
use seed_mg.Telemetry.Parser.Legacy.{parse_legacy, legacy_channels, default_version, identity_of}
use seed_mg.Telemetry.Parser.Versioned
use seed_mg.Telemetry.Parser.Versioned.{
  channel_named, channels_for, parse_versioned, identifier_of, event_of, record_type_of, named,
  or_raise,
}
use seed_mg.Telemetry.Parser.Message.{
  Parsed, plain, with_summary, kind_of, by_kind, parse_value, parse_loaded, parse_telemetry,
}

-- An optional counter that is absent or fits into 32 bits.
abbrev pub FitsUint32 : Option ℕ → Type 0
FitsUint32 none = Unit
FitsUint32 (some n) = n ≤ 0xffff_ffff

abbrev pub HasAtMost : ℕ → Option String → Type 0
HasAtMost n none = Unit
HasAtMost n (some t) = text_length t ≤ n

pub record InRange (p : NormalizedTelemetry) : Type 0 where
  pub schema : (1 ≤ p.schema_version) × (p.schema_version ≤ 255)
  pub uptime : FitsUint32 p.device_uptime_ms
  pub sequence : FitsUint32 p.sequence_number
  pub id : HasAtMost 96 p.device_id
  pub event : HasAtMost 96 p.event

uint32-bound : (j : Json) (n : ℕ) → uint32 j ≡ ok n → n ≤ 0xffff_ffff
unfolding uint32
uint32-bound j n h = (bounded_int-eq_ok 0 max_uint32 j n h).1

optional-FitsUint32 : (o : Option Json) (n : Option ℕ) → optional_uint32 o ≡ ok n → FitsUint32 n
optional-FitsUint32 none n h = subst FitsUint32 (ok-injective refl h) tt
optional-FitsUint32 (some j) n h =
    let (m, read, same) = bind-eq_ok (uint32 j) _ h in
    subst FitsUint32 (ok-injective refl same) (uint32-bound j m read)

-- A text that was let through by its length.
text-HasAtMost :
    (n : ℕ) (t : String) (e : ParseError) (o : Option String)
    → (if leb (text_length t) n then ok (some t) else err e) ≡ ok o
    → HasAtMost n o
text-HasAtMost n t e o h = elim (if-cases (leb (text_length t) n) _ _ _ h) [
  | inl (short, k) ↦ subst (HasAtMost n) (ok-injective refl k) (leb→le _ _ short)
  | inr (long, k) ↦ cc k
]

identity-HasAtMost : (j : Json) (o : Option String) → identity_of j ≡ ok o → HasAtMost 96 o
identity-HasAtMost null o h = subst (HasAtMost 96) (ok-injective refl h) tt
identity-HasAtMost (text t) o h = text-HasAtMost 96 t _ o h
identity-HasAtMost (boolean b) o h = cc
identity-HasAtMost (numeric x) o h = cc
identity-HasAtMost (array x) o h = cc
identity-HasAtMost (object x) o h = cc

event-HasAtMost : (j : Json) (o : Option String) → event_of j ≡ ok o → HasAtMost 96 o
event-HasAtMost null o h = subst (HasAtMost 96) (ok-injective refl h) tt
event-HasAtMost (text t) o h = text-HasAtMost 96 t _ o h
event-HasAtMost (boolean b) o h = cc
event-HasAtMost (numeric x) o h = cc
event-HasAtMost (array x) o h = cc
event-HasAtMost (object x) o h = cc

identifier-HasAtMost : (j : Json) (o : Option String) → identifier_of j ≡ ok o → HasAtMost 96 o
identifier-HasAtMost null o h = subst (HasAtMost 96) (ok-injective refl h) tt
identifier-HasAtMost (text t) o h =
    elim (if-cases (not (str_eq t "") && leb (text_length t) 96) _ _ _ h) [
      | inl (fits, k) ↦ subst (HasAtMost 96) (ok-injective refl k) (ground arith)
      | inr (long, k) ↦ cc k
    ]
identifier-HasAtMost (boolean b) o h = cc
identifier-HasAtMost (numeric x) o h = cc
identifier-HasAtMost (array x) o h = cc
identifier-HasAtMost (object x) o h = cc

legacy-InRange :
    (fs : Fields) (received : ℕ) (p : NormalizedTelemetry)
    → parse_legacy fs received ≡ ok p
    → InRange p × (is_vibration p ≡ false)
unfolding parse_legacy
legacy-InRange fs received p h =
    let (cs, read, h1) = bind-eq_ok (legacy_channels fs) _ h in
    let (uptime, up, h2) = bind-eq_ok (optional_uint32 (find_field "ms" fs)) _ h1 in
    let (sequence, seq, h3) = bind-eq_ok (optional_uint32 (find_field "s" fs)) _ h2 in
    let (schema, sch, h4) =
      bind-eq_ok (bounded_int 1 255 (default_version (find_field "v" fs))) _ h3 in
    let (id, named, h5) = bind-eq_ok (identity_of (get_field "id" fs)) _ h4 in
    subst (λ q. InRange q × (is_vibration q ≡ false)) (ok-injective refl h5)
      (
        record {
          schema = bounded_int-eq_ok 1 255 (default_version (find_field "v" fs)) schema sch;
          uptime = optional-FitsUint32 (find_field "ms" fs) uptime up;
          sequence = optional-FitsUint32 (find_field "s" fs) sequence seq;
          id = identity-HasAtMost (get_field "id" fs) id named;
          event = tt;
        },
        refl,
      )

-- A property of every entry of a table that is written as a chain of tests.
entry :
    (P : String → Type 0) (b : Bool) (x r : String) (k : Option String)
    → P x
    → (k ≡ some r → P r)
    → (if b then some x else k) ≡ some r
    → P r
entry P b x r k here rest h = elim (if-cases b _ _ _ h) [
  | inl (hit, e) ↦ subst P (some-injective _ _ e) here
  | inr (missed, e) ↦ rest e
]

abbrev NotVibration : String → Type 0
NotVibration r = str_eq r "vibration" ≡ false

-- No type of a versioned message is `vibration`.
record_type-NotVibration : (t r : String) → record_type_of t ≡ some r → NotVibration r
record_type-NotVibration t r = entry NotVibration (str_eq t "m") _ r _ refl (
    entry NotVibration (str_eq t "e") _ r _ refl (
      entry NotVibration (str_eq t "h") _ r _ refl (
        entry NotVibration (str_eq t "ca") _ r _ refl (
          entry NotVibration (str_eq t "ce") _ r _ refl
            (entry NotVibration (str_eq t "b") _ r _ refl (λ h. cc))))))

named-NotVibration :
    (j : Json) (e : ParseError) (r : String)
    → Versioned.named record_type_of e j ≡ ok r
    → NotVibration r
named-NotVibration (text t) e r h = looked_up (record_type_of t) refl h
  where
    looked_up : (o : Option String) → record_type_of t ≡ o → or_raise o e ≡ ok r → NotVibration r
    looked_up none p k = cc
    looked_up (some x) p k =
        subst NotVibration (ok-injective refl k) (record_type-NotVibration t x p)
named-NotVibration null e r h = cc
named-NotVibration (boolean b) e r h = cc
named-NotVibration (numeric x) e r h = cc
named-NotVibration (array x) e r h = cc
named-NotVibration (object x) e r h = cc

versioned-InRange :
    (fs : Fields) (received : ℕ) (p : NormalizedTelemetry)
    → parse_versioned fs received ≡ ok p
    → InRange p × (is_vibration p ≡ false)
unfolding parse_versioned
versioned-InRange fs received p h =
    let (type, named, h1) =
      bind-eq_ok (Versioned.named record_type_of unsupported_type (get_field "t" fs)) _ h in
    let (version, ver, h2) = bind-eq_ok (bounded_int 1 255 (get_field "v" fs)) _ h1 in
    let (one, h3) = unit-bind-eq_ok (require (version == 1) unsupported_version) _ h2 in
    let (id, ident, h4) = bind-eq_ok (identifier_of (get_field "id" fs)) _ h3 in
    let (uptime, up, h5) = bind-eq_ok (optional_uint32 (find_field "ms" fs)) _ h4 in
    let (sequence, seq, h6) = bind-eq_ok (optional_uint32 (find_field "s" fs)) _ h5 in
    let (cs, given, h7) = bind-eq_ok (channel_named (get_field "c" fs) fs) _ h6 in
    let (event, ev, h8) = bind-eq_ok (event_of (get_field "e" fs)) _ h7 in
    let (all_channels, every, h9) = bind-eq_ok (channels_for type fs cs) _ h8 in
    subst (λ q. InRange q × (is_vibration q ≡ false)) (ok-injective refl h9)
      (
        record {
          schema = bounded_int-eq_ok 1 255 (get_field "v" fs) version ver;
          uptime = optional-FitsUint32 (find_field "ms" fs) uptime up;
          sequence = optional-FitsUint32 (find_field "s" fs) sequence seq;
          id = identifier-HasAtMost (get_field "id" fs) id ident;
          event = event-HasAtMost (get_field "e" fs) event ev;
        },
        named-NotVibration (get_field "t" fs) unsupported_type type named,
      )

positive-eq_ok : (n m : ℕ) → positive n ≡ ok m → (0 < m) × (n ≡ m)
positive-eq_ok n m h = elim (if-cases (n == 0) _ _ _ h) [
  | inl (zero_window, k) ↦ cc k
  | inr (more, k) ↦ let e = ok-injective refl k in (subst (λ x. 0 < x) e (ground arith), e)
]

-- The numbers of a summary that its packet repeats.
abbrev HasBounds : {F : Type 0} → VibrationSummary F → Type 0
HasBounds s =
    (s.window_sequence ≤ 0xffff_ffff) × (0 < s.window_sequence) × (s.device_uptime_ms ≤ 0xffff_ffff)

summary-bounds :
    {F : Type 0} (floats : Floats F) (fs : Fields) (v : Validity) (s : VibrationSummary F)
    → summary_of floats fs v ≡ ok s
    → HasBounds s
unfolding summary_of
summary-bounds floats fs v s h =
    let (sequence, seq, h1) = bind-eq_ok (uint32 (get_field "s" fs)) _ h in
    let (uptime, up, h2) = bind-eq_ok (uint32 (get_field "m" fs)) _ h1 in
    let (rate, _, h3) = bind-eq_ok (bounded_number 1 5000 (get_field "f" fs)) _ h2 in
    let (r, _, h4) = bind-eq_ok (axis floats fs "r" 16000 1000) _ h3 in
    let (p, _, h5) = bind-eq_ok (axis floats fs "p" 16000 1000) _ h4 in
    let (c, _, h6) = bind-eq_ok (axis floats fs "c" 1000 10) _ h5 in
    let (k, _, h7) = bind-eq_ok (axis floats fs "k" 10000 10) _ h6 in
    let (d, _, h8) = bind-eq_ok (axis floats fs "d" 2500 10) _ h7 in
    let (x, _, h9) = bind-eq_ok (axis floats fs "x" 16000 1000) _ h8 in
    let (g, _, h10) = bind-eq_ok (axis floats fs "g" 20000 10) _ h9 in
    let (window, pos, h11) = bind-eq_ok (positive sequence) _ h10 in
    let (positive_window, same) = positive-eq_ok sequence window pos in
    subst HasBounds (ok-injective refl h11) (
      subst (λ n. n ≤ 0xffff_ffff) same (uint32-bound (get_field "s" fs) sequence seq),
      positive_window,
      uint32-bound (get_field "m" fs) uptime up,
    )

vibration-InRange :
    {F : Type 0} (floats : Floats F) (received : ℕ) (s : VibrationSummary F)
    → HasBounds s
    → InRange (vibration_record floats s received)
vibration-InRange floats received s b = record {
  schema = omega arith;
  uptime = b.2;
  sequence = b.0;
  id = tt;
  event = tt;
}

vibration-HasBounds :
    {F : Type 0} (floats : Floats F) (fs : Fields) (s : VibrationSummary F)
    → parse_vibration floats fs ≡ ok s
    → HasBounds s
unfolding parse_vibration
vibration-HasBounds floats fs s h =
    let (keys, h1) = unit-bind-eq_ok (require (has_keys vibration_keys fs) unexpected_fields) _ h in
    let (version, h2) = unit-bind-eq_ok (check_version fs) _ h1 in
    let (v, validity, h3) = bind-eq_ok (validity_of (get_field "q" fs)) _ h2 in
    summary-bounds floats fs v s h3

module _ {F : Type 0} (floats : Floats F) (received : ℕ) (r : Parsed F) where
  -- What an accepted packet promises to the intake.
  pub record Accepted : Type 0 where
    pub in_range : InRange r.payload
    pub summary_if_vibration : is_some r.summary ≡ is_vibration r.payload

  plain-Accepted :
      (m : Result ParseError NormalizedTelemetry)
      → ((p : NormalizedTelemetry) → m ≡ ok p → InRange p × (is_vibration p ≡ false))
      → (m >>= λ p. ok (plain floats received p)) ≡ ok r
      → Accepted
  plain-Accepted m each h =
      let (p, parsed, same) = bind-eq_ok m _ h in
      let (inside, other) = each p parsed in
      let e = ok-injective refl same in
      record {
        in_range = subst (λ x. InRange x.payload) e inside;
        summary_if_vibration =
            subst (λ x. is_some x.summary ≡ is_vibration x.payload) e (sym other);
      }

  summary-Accepted :
      (fs : Fields)
      → (parse_vibration floats fs >>= λ s. ok (with_summary floats received s)) ≡ ok r
      → Accepted
  summary-Accepted fs h =
      let (s, parsed, same) = bind-eq_ok (parse_vibration floats fs) _ h in
      let e = ok-injective refl same in
      record {
        in_range =
            subst (λ x. InRange x.payload) e
              (vibration-InRange floats received s (vibration-HasBounds floats fs s parsed));
        summary_if_vibration = subst (λ x. is_some x.summary ≡ is_vibration x.payload) e refl;
      }

  kind-Accepted : (fs : Fields) (kind : Json) → by_kind floats received fs kind ≡ ok r → Accepted
  kind-Accepted fs kind h =
      elim (if-cases (equals_text kind "tele" || equals_text kind "telemetry") _ _ _ h) [
        | inl (old, k) ↦ plain-Accepted (parse_legacy fs received) (legacy-InRange fs received) k
        | inr (other, k) ↦ elim (if-cases (equals_text kind "v") _ _ _ k) [
          | inl (vibration, k') ↦ summary-Accepted fs k'
          | inr (versioned, k') ↦
              plain-Accepted (parse_versioned fs received) (versioned-InRange fs received) k'
        ]
      ]

  value-Accepted : (j : Json) → parse_value floats received j ≡ ok r → Accepted
  unfolding parse_value
  value-Accepted (object fs) h = elim (if-cases (is_hashable (kind_of fs)) _ _ _ h) [
    | inl (hashable, k) ↦ kind-Accepted fs (kind_of fs) k
    | inr (_, k) ↦ cc k
  ]
  value-Accepted null h = cc
  value-Accepted (boolean b) h = cc
  value-Accepted (numeric x) h = cc
  value-Accepted (text t) h = cc
  value-Accepted (array x) h = cc

  -- Whatever bytes come, a packet that `parse_telemetry` accepts has a schema version from 1 to
  -- 255, an uptime and a sequence number that are absent or fit into 32 bits, an identity and an
  -- event of at most 96 characters, and a summary exactly if it is of the type `vibration`.
  pub parse_telemetry-Accepted :
      (loads : List ℕ → Option Json) (limit : ℕ) (raw : List ℕ)
      → parse_telemetry floats received loads limit raw ≡ ok r
      → Accepted
  unfolding parse_telemetry
  parse_telemetry-Accepted loads limit raw h = elim (if-cases (ltb limit (length raw)) _ _ _ h) [
    | inl (long, k) ↦ cc k
    | inr (short, k) ↦ loaded (loads raw) k
  ]
    where
      loaded : (o : Option Json) → parse_loaded floats received o ≡ ok r → Accepted
      loaded none k = cc
      loaded (some j) k = value-Accepted j k
