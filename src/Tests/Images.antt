-- ===== src/Tests/Images.antt =====
-- The theorems on firmware images, at a file of two lines.
use seed_mg.Prelude.{
  ℕ, ap, sym, subst, ◌∙◌, inl, inr, ok-injective, ◌≡◌, ◌≤◌, ◌<◌, refl, arith, String, true, false,
  some, List, [], ◌∷◌, str_eq, if◌then◌else◌, ok, row,
}
use seed_mg.Firmware.Hex.{Record, read_record, bytes_from, total, scan, widen, inspect, Extent}
use seed_mg.Firmware.Hex.Range.{Programs, by_record, by_later_line, HasNoSegments, inspect-Within}
use seed_mg.Firmware.Catalog.{
  Entry, Package, Disk, data_read, Catalog, supported_board, validate, holds, begins,
}
use seed_mg.Firmware.Catalog.Laws.{IsValidated, IsLinear, validate-IsValidated}

abbrev lines : List String
lines = ":020000040800F2" ∷ ":0400100001020304E2" ∷ []

abbrev extent : Extent
extent = record { start = 134217744; stop = 134217748; size = 4 }

inspect_example : inspect lines ≡ ok extent
unfolding inspect read_record
inspect_example = refl

lines-Programs : Programs 134217745 0 lines
unfolding read_record
lines-Programs =
    by_later_line (record { count = 2; offset = 0; kind = 4; word = 2048 }) refl
      (by_record (record { count = 4; offset = 16; kind = 0; word = 258 }) refl refl (omega arith)
        (omega arith))

has_kind :
    (k : ℕ) (line : String) (o r : Record)
    → read_record line ≡ ok o
    → o.kind ≡ k
    → (l : String) → line ≡ l
    → read_record l ≡ ok r
    → r.kind ≡ k
has_kind k line o r h e l same read =
    ap (λ x. x.kind) (sym (ok-injective (subst (λ x. read_record x ≡ ok o) same h) read)) ∙ e

first_record :
    read_record ":020000040800F2" ≡ ok (record { count = 2; offset = 0; kind = 4; word = 2048 })
unfolding read_record
first_record = refl

second_record :
    read_record ":0400100001020304E2" ≡ ok (record { count = 4; offset = 16; kind = 0; word = 258 })
unfolding read_record
second_record = refl

lines-HasNoSegments : HasNoSegments lines
lines-HasNoSegments line (inl same) r read two =
    omega (arith, has_kind 4 _ _ r first_record refl line same read, two)
lines-HasNoSegments line (inr (inl same)) r read two =
    omega (arith, has_kind 0 _ _ r second_record refl line same read, two)
lines-HasNoSegments line (inr (inr m)) r read two = absurd m

inspect-Within_example : (134217744 ≤ 134217745) × (134217745 < 134217748)
inspect-Within_example =
    inspect-Within lines extent 134217745 inspect_example lines-HasNoSegments lines-Programs

abbrev disk : Disk String
disk = record {
  resolve = λ t. t;
  is_inside = λ t. true;
  name = λ t. t;
  read_bytes = λ t. data_read (1 ∷ 2 ∷ []);
  read_lines = λ t. some lines;
  digest = λ bytes. "ABCD";
  upper = λ t. t;
  hexadecimal = λ t.
      if str_eq t "0x08000000"
      then some 134217728
      else if str_eq t "0x08000010"
      then some 134217744
      else if str_eq t "0x08000013"
      then some 134217747
      else some 134300000;
  format = λ n. "0x08000010";
}

abbrev entry : Entry
entry = record {
  package_id = "node";
  firmware_version = some "1.0.0";
  protocol_version = some "1.1.0";
  fqbn = some supported_board;
  artifact_path = some "node.hex";
  artifact_filename = some "node.hex";
  artifact_size = some 2;
  sha256 = some "ABCD";
  application_start = some "0x08000010";
  application_end = some "0x08000013";
  bootloader_end = some "0x08000000";
  nvm3_start = some "0x08014270";
  build_provenance = some true;
  application_only = some true;
}

abbrev catalog : Catalog
catalog = record {
  packages = entry ∷ [];
  developer_approval_enabled = false;
  developer_approvals = [];
}

abbrev checked : Package
checked = record {
  fqbn = supported_board;
  artifact_path = "node.hex";
  artifact_filename = "node.hex";
  artifact_size = 2;
  sha256 = "ABCD";
  application_start = "0x08000010";
  application_end = "0x08000013";
  bootloader_end = "0x08000000";
  nvm3_start = "0x08014270";
  build_provenance = true;
  application_only = true;
}

validate_example : validate disk catalog "node" ≡ ok (checked, "node.hex")
unfolding validate holds begins row inspect scan widen read_record bytes_from total
validate_example = refl

disk-IsLinear : IsLinear disk "node.hex"
disk-IsLinear ls same = subst HasNoSegments (lines_eq same) lines-HasNoSegments
  where
    lines_eq : {ls : List String} → some lines ≡ some ls → lines ≡ ls
    lines_eq h = cc

validate-IsValidated_example : IsValidated disk catalog "node" checked "node.hex"
validate-IsValidated_example =
    validate-IsValidated disk catalog "node" checked "node.hex" validate_example disk-IsLinear
