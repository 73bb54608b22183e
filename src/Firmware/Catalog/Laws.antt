-- ===== src/Firmware/Catalog/Laws.antt =====
-- firmware_installation.py: what a firmware image that may be installed has passed.
use seed_mg.Prelude.{
  and-eq_true, not-eq_true, ℕ, ◌≤◌, ◌<◌, String, ◌≡◌, refl, ap, sym, subst, Bool, true, false, not,
  ◌&&◌, some, List, length, leb, leb→le, ◌==◌, ==_iff, str_eq, eq_iff, arith, ok, require, row,
  bind-eq_ok, unit-bind-eq_ok, require-bind-eq_ok, require_some-bind-eq_ok, ok-injective,
}
use seed_mg.Firmware.Hex.{
  FirmwareError, protected_region, hash_mismatch, incomplete_provenance, with_bootloader,
  unsupported_board, outside_catalog, unknown_package, value_error, Extent,
}
use seed_mg.Firmware.Hex.Range.{Programs, HasNoSegments, inspect-Within}
use seed_mg.Firmware.Catalog.{
  Package, Approval, Read, data_read, not_found, not_readable, Disk, Catalog, supported_board,
  package_of, names_bootloader, approval_of, expected_of, read_data, inspect_at, check_regions,
  check_range, check_package, check_artifact, validate,
}

not-leb : (a b : ℕ) → not (leb a b) ≡ true → b < a
not-leb a b h = ground arith

require-eq_ok : (b : Bool) (e : FirmwareError) → require b e ≡ ok tt → b ≡ true
require-eq_ok true e h = refl
require-eq_ok false e h = cc

module _ {P : Type 0} (disk : Disk P) where
  -- The artifact at `path`, when it was read: its bytes, its lines, and the regions around it.
  pub record IsSafe (expected : Approval) (bootloader_end nvm3_start : String) (path : P)
      : Type 0 where
    pub bytes : List ℕ
    pub lines : List String
    pub low : ℕ
    pub high : ℕ
    pub is_bytes : disk.read_bytes path ≡ data_read bytes
    pub is_lines : disk.read_lines path ≡ some lines
    pub is_low : disk.hexadecimal bootloader_end ≡ some low
    pub is_high : disk.hexadecimal nvm3_start ≡ some high
    pub size : length bytes ≡ expected.artifact_size
    pub digest : disk.digest bytes ≡ disk.upper expected.sha256
    pub inside : (a : ℕ) → Programs a 0 lines → (low < a) × (a < high)

  read_data-eq_ok : (r : Read) (bytes : List ℕ) → read_data disk r ≡ ok bytes → r ≡ data_read bytes
  read_data-eq_ok (data_read bs) bytes h = ap data_read (ok-injective refl h)
  read_data-eq_ok not_found bytes h = cc
  read_data-eq_ok not_readable bytes h = cc

  regions :
      (e : Extent) (l n : String)
      → check_regions disk e l n protected_region ≡ ok tt
      → (low : ℕ) × (high : ℕ) × (disk.hexadecimal l ≡ some low)
        × (disk.hexadecimal n ≡ some high)
        × (low < e.start)
        × (e.stop ≤ high)
  regions e l n h =
      let (low, is_low, h1) = require_some-bind-eq_ok (disk.hexadecimal l) value_error _ h in
      let (above, h2) = require-bind-eq_ok (not (leb e.start low)) protected_region _ h1 in
      let (high, is_high, h3) = require_some-bind-eq_ok (disk.hexadecimal n) value_error _ h2 in
      (
        low,
        high,
        is_low,
        is_high,
        not-leb e.start low above,
        leb→le _ _ (require-eq_ok (leb e.stop high) protected_region h3),
      )

  -- The lines of a file on the disk hold no extended segment address.
  abbrev pub IsLinear : P → Type 0
  IsLinear path = (lines : List String) → disk.read_lines path ≡ some lines → HasNoSegments lines

  artifact-IsSafe :
      (p : Package) (expected : Approval)
      → check_artifact disk p expected ≡ ok tt
      → IsLinear (disk.resolve p.artifact_path)
      → IsSafe expected p.bootloader_end p.nvm3_start (disk.resolve p.artifact_path)
  artifact-IsSafe p expected h linear =
      let (bytes, was_read, h1) =
        bind-eq_ok (read_data disk (disk.read_bytes (disk.resolve p.artifact_path))) _ h in
      let (same, h2) =
        require-bind-eq_ok
          (length bytes == expected.artifact_size
            && str_eq (disk.digest bytes) (disk.upper expected.sha256))
          hash_mismatch _ h1 in
      let (e, inspected, h3) = bind-eq_ok (inspect_at disk (disk.resolve p.artifact_path)) _ h2 in
      let (ranged, h4) = unit-bind-eq_ok (check_range disk e expected) _ h3 in
      let (lines, is_lines, found) =
        require_some-bind-eq_ok (disk.read_lines (disk.resolve p.artifact_path)) value_error _
          inspected in
      let (low, high, is_low, is_high, above, below) = regions e p.bootloader_end p.nvm3_start h4 in
      record {
        bytes = bytes;
        lines = lines;
        low = low;
        high = high;
        is_bytes = read_data-eq_ok (disk.read_bytes (disk.resolve p.artifact_path)) bytes was_read;
        is_lines = is_lines;
        is_low = is_low;
        is_high = is_high;
        size = (==_iff (length bytes) expected.artifact_size).0 (and-eq_true _ _ same).0;
        digest =
            (eq_iff (disk.digest bytes) (disk.upper expected.sha256)).0 (and-eq_true _ _ same).1;
        inside = λ a programs.
            (let within = inspect-Within lines e a found (linear lines is_lines) programs in
              (omega (arith, within.0, above), omega (arith, within.1, below)));
      }

  -- Everything that a validated package has passed.
  pub record IsValidated (c : Catalog) (id : String) (p : Package) (path : P) : Type 0 where
    pub provenance : p.build_provenance ≡ true
    pub application : p.application_only ≡ true
    pub no_bootloader : names_bootloader p.artifact_filename ≡ false
    pub board : p.fqbn ≡ supported_board
    pub in_repository : disk.is_inside path ≡ true
    pub named : disk.name path ≡ p.artifact_filename
    pub safe :
        IsSafe
          (expected_of (approval_of id c.developer_approvals) p)
          p.bootloader_end
          p.nvm3_start
          path

  package-IsValidated :
      (c : Catalog) (id : String) (p : Package)
      → check_package disk p ≡ ok tt
      → IsSafe
          (expected_of (approval_of id c.developer_approvals) p)
          p.bootloader_end
          p.nvm3_start
          (disk.resolve p.artifact_path)
      → IsValidated c id p (disk.resolve p.artifact_path)
  package-IsValidated c id p h safe =
      let (provenance, h1) = require-bind-eq_ok p.build_provenance incomplete_provenance _ h in
      let (application, h2) =
        require-bind-eq_ok (p.application_only && not (names_bootloader p.artifact_filename))
          with_bootloader _ h1 in
      let (board, h3) = require-bind-eq_ok (str_eq p.fqbn supported_board) unsupported_board _ h2 in
      let place = and-eq_true _ _ (
        require-eq_ok
          (disk.is_inside (disk.resolve p.artifact_path)
            && str_eq (disk.name (disk.resolve p.artifact_path)) p.artifact_filename)
          outside_catalog h3) in
      record {
        provenance = provenance;
        application = (and-eq_true _ _ application).0;
        no_bootloader = not-eq_true _ (and-eq_true _ _ application).1;
        board = (eq_iff p.fqbn supported_board).0 board;
        in_repository = place.0;
        named = (eq_iff (disk.name (disk.resolve p.artifact_path)) p.artifact_filename).0 place.1;
        safe = safe;
      }

  -- A package that validates is a whole application image for the supported board, without a
  -- bootloader, with its provenance and inside the repository; the file has the size and the digest of
  -- the manifest or of an approval; and every address that it programs lies between the bootloader and
  -- the region NVM3, both excluded, given that it holds no extended segment address (a record of
  -- type 2), which the inspection accepts and does not count. An approval for development lifts none
  -- of these.
  pub validate-IsValidated :
      (c : Catalog) (id : String) (p : Package) (path : P)
      → validate disk c id ≡ ok (p, path)
      → IsLinear path
      → IsValidated c id p path
  unfolding validate
  validate-IsValidated c id p path h linear =
      let (item, found, h1) =
        require_some-bind-eq_ok (row (λ i. i.package_id) id c.packages) unknown_package _ h in
      let (q, complete, h2) =
        require_some-bind-eq_ok (package_of item) incomplete_provenance _ h1 in
      let (checked, h3) = unit-bind-eq_ok (check_package disk q) _ h2 in
      let (artifact, h4) =
        unit-bind-eq_ok
          (check_artifact disk q (expected_of (approval_of id c.developer_approvals) q)) _ h3 in
      let e = ok-injective refl h4 in
      subst (λ x. IsValidated c id x.0 x.1) e
        (package-IsValidated c id q checked (
          artifact-IsSafe q (expected_of (approval_of id c.developer_approvals) q) artifact
            (subst IsLinear (sym (ap (λ x. x.1) e)) linear)))
