-- ===== src/Firmware/Hex/Range.antt =====
-- firmware_installation.py: the range that `inspect_intel_hex` finds holds every address that a
-- file without extended segment addresses programs.
use seed_mg.Prelude.{
  Member, ◌≢◌, ◌∙◌, if◌then◌else◌, if-eq_false, Bool-cases, ℕ, ◌+◌, ◌-◌, ◌*◌, ◌≤◌, ◌<◌, String, ◌≡◌,
  ◌⊎◌, refl, ap, sym, subst, not_true, ==_iff, ◌||◌, Option, none, some, List, [], ◌∷◌, arith,
  if-cases, inl, inr, ◌==◌, ok, bind-eq_ok, ok-injective,
}
use seed_mg.Firmware.Hex.{
  Record, read_record, Segment, place, base_after, keep_segment, scan, Extent, min_of, max_of,
  widen, extent_of, inspect,
}

-- The base of the addresses after a record of an Intel HEX file: an extended segment address (2)
-- counts in paragraphs of 16 bytes, an extended linear address (4) in blocks of 64 KiB.
abbrev pub moved : ℕ → Record → ℕ
moved base r = if r.kind == 2 then r.word * 16 else if r.kind == 4 then r.word * 65536 else base

-- The lines program the address `a`, if addresses count from `base`: a data record holds it, or a
-- later line does, from the base that the lines between leave.
pub data Programs (a : ℕ) : ℕ → List String → Type 0 where
  by_record :
      {base : ℕ} {line : String} {lines : List String} (r : Record)
      → read_record line ≡ ok r
      → r.kind ≡ 0
      → base + r.offset ≤ a
      → a < base + r.offset + r.count
      → Programs a base (line ∷ lines)
  by_later_line :
      {base : ℕ} {line : String} {lines : List String} (r : Record)
      → read_record line ≡ ok r
      → Programs a (moved base r) lines
      → Programs a base (line ∷ lines)

-- No record of the lines is an extended segment address.
abbrev pub HasNoSegments : List String → Type 0
HasNoSegments lines =
    (line : String) → Member line lines → (r : Record) → read_record line ≡ ok r → r.kind ≢ 2

moved-base : (base : ℕ) (r : Record) → r.kind ≢ 2 → moved base r ≡ base_after base r
moved-base base r h = if-eq_false {b = r.kind == 2} _ _ (elim (Bool-cases (r.kind == 2)) [
  | inl two ↦ absurd (h ((==_iff r.kind 2).0 two))
  | inr other ↦ other
])

abbrev Covers : List Segment → ℕ → Type 0
Covers [] a = ⊥
Covers (s ∷ ss) a = ((s.start ≤ a) × (a < s.stop)) ⊎ Covers ss a

-- What a scan that goes on past a line has read there.
record Passed (base : ℕ) (line : String) (lines : List String) (ss : List Segment) : Type 0 where
  here : Record
  placed : Option Segment × ℕ
  rest : List Segment
  is_here : read_record line ≡ ok here
  is_placed : place base here ≡ ok placed
  is_rest : scan placed.1 lines ≡ ok rest
  is_all : keep_segment placed.0 rest ≡ ss

scan-Passed :
    (base : ℕ) (line : String) (lines : List String) (ss : List Segment)
    → scan base (line ∷ lines) ≡ ok ss
    → Passed base line lines ss
unfolding scan
scan-Passed base line lines ss h =
    let (r, e, h1) = bind-eq_ok (read_record line) _ h in
    let (p, q, h2) = bind-eq_ok (place base r) _ h1 in
    let (rest, t, h3) = bind-eq_ok (scan p.1 lines) _ h2 in
    record {
      here = r;
      placed = p;
      rest = rest;
      is_here = e;
      is_placed = q;
      is_rest = t;
      is_all = ok-injective refl h3;
    }

abbrev data_of : ℕ → Record → Segment
data_of base r = record { start = base + r.offset; stop = base + r.offset + r.count }

place-base :
    (base : ℕ) (r : Record) (p : Option Segment × ℕ) → place base r ≡ ok p → p.1 ≡ base_after base r
place-base base r p h = elim (if-cases (r.kind == 0) _ _ _ h) [
  | inl (zero_kind, k) ↦
      let e : base ≡ p.1 = ap (λ x. x.1) (ok-injective refl k) in ground (arith, e)
  | inr (_, k) ↦ elim (if-cases (r.kind == 4) _ _ _ k) [
    | inl (four, j) ↦
        let e : r.word * 65536 ≡ p.1 = ap (λ x. x.1) (ok-injective refl j) in rw four (sym e)
    | inr (other, j) ↦
        elim (if-cases (r.kind == 1 || r.kind == 2 || r.kind == 3 || r.kind == 5) _ _ _ j) [
          | inl (_, i) ↦
              let e : base ≡ p.1 = ap (λ x. x.1) (ok-injective refl i) in rw other (sym e)
          | inr (_, i) ↦ cc i
        ]
  ]
]

place-data :
    (base : ℕ) (r : Record) (p : Option Segment × ℕ)
    → r.kind ≡ 0
    → place base r ≡ ok p
    → p.0 ≡ some (data_of base r)
place-data base r p k h = elim (if-cases (r.kind == 0) _ _ _ h) [
  | inl (_, j) ↦ sym (ap (λ x. x.0) (ok-injective refl j))
  | inr (other, j) ↦ elim (not_true other ((==_iff r.kind 0).1 k)) [ ]
]

keep-Covers :
    (o : Option Segment) (ss : List Segment) (a : ℕ) → Covers ss a → Covers (keep_segment o ss) a
keep-Covers none ss a c = c
keep-Covers (some s) ss a c = inr c

scan-Covers :
    (a base : ℕ) (lines : List String) (ss : List Segment)
    → scan base lines ≡ ok ss
    → HasNoSegments lines
    → Programs a base lines
    → Covers ss a
scan-Covers a base lines ss h linear (by_record {line = line} {lines = later} r e k low high) =
    let x = scan-Passed base line later ss h in
    let same : r ≡ x.here = ok-injective e x.is_here in
    let placed : place base r ≡ ok x.placed =
      subst (λ y. place base y ≡ ok x.placed) (sym same) x.is_placed in
    let kept : (some (data_of base r) ≡ x.placed.0) = sym (place-data base r x.placed k placed) in
    subst (λ y. Covers y a) x.is_all
      (subst (λ o. Covers (keep_segment o x.rest) a) kept (inl (low, high)))
scan-Covers a base lines ss h linear (by_later_line {line = line} {lines = later} r e p) =
    let x = scan-Passed base line later ss h in
    let same : r ≡ x.here = ok-injective e x.is_here in
    let placed : place base r ≡ ok x.placed =
      subst (λ y. place base y ≡ ok x.placed) (sym same) x.is_placed in
    let counted = moved-base base r (linear line (inl refl) r e) in
    let rest : scan (moved base r) later ≡ ok x.rest =
      subst (λ b. scan b later ≡ ok x.rest) (place-base base r x.placed placed ∙ sym counted)
        x.is_rest in
    subst (λ y. Covers y a) x.is_all
      (keep-Covers x.placed.0 x.rest a
        (scan-Covers a (moved base r) later x.rest rest (λ l m. linear l (inr m)) p))

abbrev Within : Extent → ℕ → Type 0
Within e a = (e.start ≤ a) × (a < e.stop)

abbrev widened : Extent → Segment → Extent
widened e s = record {
  start = min_of e.start s.start;
  stop = max_of e.stop s.stop;
  size = e.size + (s.stop - s.start);
}

widened-Within : (e : Extent) (s : Segment) (a : ℕ) → Within e a → Within (widened e s) a
widened-Within e s a h = ground arith

widened-new :
    (e : Extent) (s : Segment) (a : ℕ) → (s.start ≤ a) × (a < s.stop) → Within (widened e s) a
widened-new e s a h = ground arith

widen-Within :
    (e : Extent) (ss : List Segment) (a : ℕ) → Within e a ⊎ Covers ss a → Within (widen e ss) a
unfolding widen
widen-Within e [] a (inl h) = h
widen-Within e [] a (inr c) = elim c [ ]
widen-Within e (s ∷ ss) a (inl h) = widen-Within (widened e s) ss a (inl (widened-Within e s a h))
widen-Within e (s ∷ ss) a (inr (inl h)) =
    widen-Within (widened e s) ss a (inl (widened-new e s a h))
widen-Within e (s ∷ ss) a (inr (inr c)) = widen-Within (widened e s) ss a (inr c)

extent-Within :
    (ss : List Segment) (e : Extent) (a : ℕ) → extent_of ss ≡ ok e → Covers ss a → Within e a
extent-Within [] e a h c = elim c [ ]
extent-Within (s ∷ ss) e a h c =
    subst (λ x. Within x a) (ok-injective refl h)
      (widen-Within (record { start = s.start; stop = s.stop; size = s.stop - s.start }) ss a c)

-- If the inspection finds a range in lines without an extended segment address (a record of type 2,
-- which the inspection accepts and does not count), every address that a data record programs lies
-- in the range.
pub inspect-Within :
    (lines : List String) (e : Extent) (a : ℕ)
    → inspect lines ≡ ok e
    → HasNoSegments lines
    → Programs a 0 lines
    → (e.start ≤ a) × (a < e.stop)
unfolding inspect
inspect-Within lines e a h linear p =
    let (ss, scanned, k) = bind-eq_ok (scan 0 lines) _ h in
    extent-Within ss e a k (scan-Covers a 0 lines ss scanned linear p)
