-- ===== src/Firmware/Catalog.antt =====
-- firmware_installation.py: `ApprovedFirmwareCatalog` and the start of an installation. The disk, the
-- digest, `resolve`, and Python's `int(text, 16)` and `upper` are arguments.
pub mod Laws
use seed_mg.Prelude.{
  ℕ, suc, ◌+◌, ◌-◌, String, Bool, true, false, not, ◌&&◌, ◌||◌, Option, none, some, List, [], ◌∷◌,
  ◌++◌, if◌then◌else◌, ltb, leb, ◌==◌, str_eq, is_some, all, length, codes, keep, Result, ok, err,
  ◌>>=◌, ◌>>◌, require, require_some, row, set_row,
}
use seed_mg.Firmware.Hex.{
  FirmwareError, unknown_package, incomplete_provenance, with_bootloader, unsupported_board,
  outside_catalog, range_mismatch, protected_region, not_eligible, invalid_serial,
  no_matching_board, device_busy, missing, unreadable, hash_mismatch, disabled, value_error,
  key_error, Extent, inspect,
}

-- An entry of the manifest: a key that is absent is `none`.
pub record Entry : Type 0 where
  pub package_id : String
  pub firmware_version : Option String
  pub protocol_version : Option String
  pub fqbn : Option String
  pub artifact_path : Option String
  pub artifact_filename : Option String
  pub artifact_size : Option ℕ
  pub sha256 : Option String
  pub application_start : Option String
  pub application_end : Option String
  pub bootloader_end : Option String
  pub nvm3_start : Option String
  pub build_provenance : Option Bool
  pub application_only : Option Bool

-- The keys that a validation reads, of an entry that has all the required ones.
pub record Package : Type 0 where
  pub fqbn : String
  pub artifact_path : String
  pub artifact_filename : String
  pub artifact_size : ℕ
  pub sha256 : String
  pub application_start : String
  pub application_end : String
  pub bootloader_end : String
  pub nvm3_start : String
  pub build_provenance : Bool
  pub application_only : Bool

-- What `expected` has: the manifest's values, or those of an approval for development.
pub record Approval : Type 0 where
  pub artifact_size : ℕ
  pub sha256 : String
  pub application_start : String
  pub application_end : String

pub data Read : Type 0 where
  data_read : List ℕ → Read
  not_found not_readable : Read

-- The repository's files, with a path that has been resolved.
pub record Disk (P : Type 0) : Type 0 where
  pub resolve : String → P
  pub is_inside : P → Bool
  pub name : P → String
  pub read_bytes : P → Read
  pub read_lines : P → Option (List String)
  pub digest : List ℕ → String
  pub upper : String → String
  pub hexadecimal : String → Option ℕ
  pub format : ℕ → String

pub record Catalog : Type 0 where
  pub packages : List Entry
  pub developer_approval_enabled : Bool
  pub developer_approvals : List (String × Approval)

abbrev pub supported_board : String
supported_board = "SiliconLabs:silabs:xiao_mg24:protocol_stack=ble_silabs"

-- `required.issubset(item)`
abbrev pub package_of : Entry → Option Package
package_of i = of_versions i.firmware_version i.protocol_version
  where
    made :
        Option String
        → Option String
        → Option String
        → Option ℕ
        → Option String
        → Option String
        → Option String
        → Option String
        → Option String
        → Option Bool
        → Option Bool
        → Option Package
    made (some b) (some p) (some f) (some z) (some h) (some s) (some e) (some l) (some n) (some v)
          (some o) =
        some (record {
          fqbn = b;
          artifact_path = p;
          artifact_filename = f;
          artifact_size = z;
          sha256 = h;
          application_start = s;
          application_end = e;
          bootloader_end = l;
          nvm3_start = n;
          build_provenance = v;
          application_only = o;
        })
    made _ _ _ _ _ _ _ _ _ _ _ = none

    of_versions : Option String → Option String → Option Package
    of_versions (some x) (some y) =
        made i.fqbn i.artifact_path i.artifact_filename i.artifact_size i.sha256 i.application_start
          i.application_end i.bootloader_end i.nvm3_start i.build_provenance i.application_only
    of_versions _ _ = none

-- Whether the second text begins the first.
unfoldable pub begins : List ℕ → List ℕ → Bool
begins cs [] = true
begins [] (d ∷ ds) = false
begins (c ∷ cs) (d ∷ ds) = c == d && begins cs ds

unfoldable pub holds : List ℕ → List ℕ → Bool
unfolding begins
holds [] ds = begins [] ds
holds (c ∷ cs) ds = begins (c ∷ cs) ds || holds cs ds

abbrev pub lower_code : ℕ → ℕ
lower_code c = if leb 65 c && leb c 90 then c + 32 else c

abbrev pub lower_codes : List ℕ → List ℕ
lower_codes [] = []
lower_codes (c ∷ cs) = lower_code c ∷ lower_codes cs

-- `"with_bootloader" in filename.lower()`: no other letter than an ASCII one has a letter of this
-- text as its lower case.
abbrev pub names_bootloader : String → Bool
names_bootloader t = holds (lower_codes (codes t)) (codes "with_bootloader")

abbrev pub approval_of : String → List (String × Approval) → Option Approval
approval_of id [] = none
approval_of id (a ∷ rest) = if str_eq a.0 id then some a.1 else approval_of id rest

abbrev pub expected_of : Option Approval → Package → Approval
expected_of (some a) p = a
expected_of none p = record {
  artifact_size = p.artifact_size;
  sha256 = p.sha256;
  application_start = p.application_start;
  application_end = p.application_end;
}

pub record Board : Type 0 where
  pub hardware_serial : String
  pub com_port : String

module _ {P : Type 0} (disk : Disk P) where
  abbrev pub read_data : Read → Result FirmwareError (List ℕ)
  read_data (data_read bytes) = ok bytes
  read_data not_found = err missing
  read_data not_readable = err unreadable

  -- `inspect_intel_hex(path)`
  abbrev pub inspect_at : P → Result FirmwareError Extent
  inspect_at path = require_some (disk.read_lines path) value_error >>= inspect

  abbrev pub number : String → Result FirmwareError ℕ
  number t = require_some (disk.hexadecimal t) value_error

  -- `start <= bootloader_end or end >= nvm3_start`, where the second is not read if the first holds.
  abbrev pub check_regions :
      Extent → String → String → FirmwareError → Result FirmwareError (Unit {0})
  check_regions e bootloader_end nvm3_start error = do
    low ← number bootloader_end
    require (not (leb e.start low)) error
    high ← number nvm3_start
    require (leb e.stop high) error

  -- `start != application_start or end != application_end`
  abbrev pub check_range : Extent → Approval → Result FirmwareError (Unit {0})
  check_range e expected = do
    start ← number expected.application_start
    require (e.start == start) range_mismatch
    last ← number expected.application_end
    require (e.stop == suc last) range_mismatch

  abbrev pub check_package : Package → Result FirmwareError (Unit {0})
  check_package p = do
    require p.build_provenance incomplete_provenance
    require (p.application_only && not (names_bootloader p.artifact_filename)) with_bootloader
    require (str_eq p.fqbn supported_board) unsupported_board
    require
        (disk.is_inside (disk.resolve p.artifact_path)
          && str_eq (disk.name (disk.resolve p.artifact_path)) p.artifact_filename)
        outside_catalog

  abbrev pub check_artifact : Package → Approval → Result FirmwareError (Unit {0})
  check_artifact p expected = do
    bytes ← read_data (disk.read_bytes (disk.resolve p.artifact_path))
    require
        (length bytes == expected.artifact_size
          && str_eq (disk.digest bytes) (disk.upper expected.sha256))
        hash_mismatch
    e ← inspect_at (disk.resolve p.artifact_path)
    check_range e expected
    check_regions e p.bootloader_end p.nvm3_start protected_region

  unfoldable pub validate : Catalog → String → Result FirmwareError (Package × P)
  unfolding holds
  validate c id = do
    item ← require_some (row (λ i. i.package_id) id c.packages) unknown_package
    p ← require_some (package_of item) incomplete_provenance
    check_package p
    check_artifact p (expected_of (approval_of id c.developer_approvals) p)
    ok (p, disk.resolve p.artifact_path)

  abbrev pub is_eligible : Entry → Bool
  is_eligible i = truth i.application_only && is_board i.fqbn
    where
      truth : Option Bool → Bool
      truth none = false
      truth (some b) = b

      is_board : Option String → Bool
      is_board none = false
      is_board (some t) = str_eq t supported_board

  abbrev pub is_named : Option String → String → Bool
  is_named none name = false
  is_named (some t) name = str_eq name t

  -- `self._developer_approvals[package_id] = ...`
  unfoldable pub set_approval :
      String → Approval → List (String × Approval) → List (String × Approval)
  set_approval id a [] = (id, a) ∷ []
  set_approval id a (b ∷ bs) =
      let rest = set_approval id a bs in if str_eq b.0 id then (id, a) ∷ bs else b ∷ rest

  abbrev pub approval : List ℕ → Extent → Approval
  approval bytes e = record {
    artifact_size = length bytes;
    sha256 = disk.digest bytes;
    application_start = disk.format e.start;
    application_end = disk.format (e.stop - 1);
  }

  abbrev pub approved : Entry → Result FirmwareError Approval
  approved i = do
    require (is_eligible i) not_eligible
    artifact ← require_some i.artifact_path key_error
    require
        (disk.is_inside (disk.resolve artifact)
          && is_named i.artifact_filename (disk.name (disk.resolve artifact)))
        outside_catalog
    bytes ← read_data (disk.read_bytes (disk.resolve artifact))
    e ← inspect_at (disk.resolve artifact)
    bootloader_end ← require_some i.bootloader_end key_error
    low ← number bootloader_end
    require (not (leb e.start low)) protected_region
    nvm3_start ← require_some i.nvm3_start key_error
    high ← number nvm3_start
    require (leb e.stop high) protected_region
    ok (approval bytes e)

  abbrev pub approve_package : Catalog → String → Result FirmwareError Approval
  approve_package c id = do
    require c.developer_approval_enabled disabled
    item ← require_some (row (λ i. i.package_id) id c.packages) unknown_package
    approved item

  -- `approve_development`, without the entry of `list` that it returns.
  unfoldable pub approve_development : Catalog → String → Result FirmwareError Catalog
  unfolding set_approval
  approve_development c id = approve_package c id >>= λ a.
      ok (record c { developer_approvals = set_approval id a c.developer_approvals })

  -- `[A-F0-9]{8,32}`
  abbrev pub is_serial : String → Bool
  is_serial t = leb 8 (length (codes t)) && leb (length (codes t)) 32 && all is_digit (codes t)
    where
      is_digit : ℕ → Bool
      is_digit d = leb 48 d && leb d 57 || leb 65 d && leb d 70

  abbrev pub only_board : List Board → Result FirmwareError Board
  only_board (b ∷ []) = ok b
  only_board _ = err no_matching_board

  -- `start`, up to the task that it creates: the board to program. `locked` says whether the lock of
  -- the serial is held.
  unfoldable pub start : Catalog → List Board → Bool → String → String → Result FirmwareError Board
  unfolding validate
  start c boards locked serial id = do
    require (is_serial serial) invalid_serial
    checked ← validate c id
    board ← only_board (keep (λ b. str_eq b.hardware_serial serial) boards)
    require (not locked) device_busy
    ok board
