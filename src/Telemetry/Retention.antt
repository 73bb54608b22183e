-- ===== src/Telemetry/Retention.antt =====
-- gateway/app/services/telemetry_retention.py. A table is the list of its rows in the order of
-- their ids, and times are in microseconds.
pub mod Laws
use seed_mg.Prelude.{
  ℕ, suc, ◌-◌, ◌*◌, Bool, true, false, ◌&&◌, Option, none, some, List, [], ◌∷◌, if◌then◌else◌, ltb,
}
use seed_mg.Models.Device.{Reading}
use seed_mg.Models.Vibration.{VibrationWindow}

-- Without the first `batch` rows before `cutoff`, and how many these were.
unfoldable pub delete_before : {A : Type 0} → (A → ℕ) → ℕ → ℕ → List A → ℕ × List A
delete_before time cutoff batch [] = (0, [])
delete_before time cutoff batch (x ∷ xs) =
    let deleted = delete_before time cutoff (batch - 1) xs in
    let kept = delete_before time cutoff batch xs in
    if ltb (time x) cutoff && ltb 0 batch then (suc deleted.0, deleted.1) else (kept.0, x ∷ kept.1)

pub record Retention : Type 0 where
  pub retention_days : Option ℕ
  pub batch_size : ℕ

abbrev pub day : ℕ
day = 86400000000

module _ {F : Type 0} where
  abbrev pub clean :
      ℕ → ℕ → List (VibrationWindow F) × List Reading → ℕ × List (VibrationWindow F) × List Reading
  clean cutoff batch (windows, readings) =
      let w = delete_before (λ v. v.observed_at) cutoff batch windows in
      let r = delete_before (λ v. v.received_at) cutoff batch readings in
      if ltb 0 w.0 then (w.0, w.1, readings) else (r.0, windows, r.1)

  -- The number of deleted rows, and the two tables.
  unfoldable pub cleanup_batch :
      Retention
      → ℕ
      → List (VibrationWindow F) × List Reading
      → ℕ × List (VibrationWindow F) × List Reading
  cleanup_batch s now t = by_days s.retention_days
    where
      by_days : Option ℕ → ℕ × List (VibrationWindow F) × List Reading
      by_days none = (0, t.0, t.1)
      by_days (some days) = clean (now - days * day) s.batch_size t
