-- ===== src/Telemetry/Retention/Laws.antt =====
-- telemetry_retention.py: a batch deletes old rows only.
use seed_mg.Prelude.{ℕ, ◌+◌, ◌-◌, ◌≤◌, ◌<◌, ◌≡◌, refl, List, [], ◌∷◌, length, keep, leb, ltb, arith}
use seed_mg.Telemetry.Retention.{delete_before}

module _ {A : Type 0} (time : A → ℕ) (cutoff : ℕ) where
  -- What the deletion of a batch leaves of the rows.
  pub record Cleaned (batch : ℕ) (xs : List A) : Type 0 where
    pub bounded : (delete_before time cutoff batch xs).0 ≤ batch
    pub counted :
        (delete_before time cutoff batch xs).0 + length (delete_before time cutoff batch xs).1
        ≡ length xs
    pub recent_kept :
        keep (λ x. leb cutoff (time x)) (delete_before time cutoff batch xs).1
        ≡ keep (λ x. leb cutoff (time x)) xs
    pub progress :
        0 < batch
        → (delete_before time cutoff batch xs).0 ≡ 0
        → keep (λ x. ltb (time x) cutoff) xs ≡ []

  -- A batch deletes at most as many rows as it may, counts them, and keeps every row that is not
  -- before the cutoff; if it deletes nothing though it may, then no row is before the cutoff.
  pub delete_before-Cleaned : (batch : ℕ) (xs : List A) → Cleaned batch xs
  unfolding delete_before
  delete_before-Cleaned batch [] = record {
    bounded = omega arith;
    counted = refl;
    recent_kept = refl;
    progress = λ b z. refl;
  }
  delete_before-Cleaned batch (x ∷ xs) =
      let d = delete_before-Cleaned (batch - 1) xs in
      let k = delete_before-Cleaned batch xs in
      record {
        bounded = ground (arith, d.bounded, k.bounded);
        counted = ground (arith, d.counted, k.counted);
        recent_kept = ground (arith, d.recent_kept, k.recent_kept);
        progress = λ b z. ground (arith, k.progress);
      }
