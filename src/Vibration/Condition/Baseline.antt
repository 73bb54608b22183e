-- ===== src/Vibration/Condition/Baseline.antt =====
-- The baseline in `process` of vibration_condition.py: it collects eligible windows until it has
-- enough of them, and is then fixed.
use seed_mg.Prelude.{
  ℕ, suc, ◌<◌, ◌≤◌, ◌≡◌, ◌⊎◌, refl, Bool, true, false, Option, none, some, List, leb, leb→le, arith,
  ap, subst, inl, inr,
}
use mathlib.Core.Option
use mathlib.Core.Option.{some-injective}
use seed_mg.Models.Vibration.{
  Factor, VibrationSummary, VibrationBaseline, BaselineStatus, building, frozen, superseded,
  ConditionState,
}
use seed_mg.Vibration.Statistics.{Floats}
use seed_mg.Vibration.Condition.{
  Judged, judge, is_eligible, by_status, established_if, judge_if, collect, compared,
}

-- Samples are missing exactly while the status is `building`.
abbrev pub HasStatusOfCount : {F : Type 0} → VibrationBaseline F → Type 0
HasStatusOfCount b =
    ((b.status ≡ building) × (b.sample_count < b.minimum_samples))
    ⊎ ((b.status ≡ frozen) × (b.minimum_samples ≤ b.sample_count))

module _ {F : Type 0} (floats : Floats F) (now : ℕ) (s : VibrationSummary F)
    (b : VibrationBaseline F) where
  -- What one window does to a baseline `b` that becomes `a`.
  pub record Advances (a : VibrationBaseline F) : Type 0 where
    pub consistent : HasStatusOfCount a
    pub kept_if_frozen : b.status ≡ frozen → a ≡ b
    pub counted : (a.sample_count ≡ b.sample_count) ⊎ (a.sample_count ≡ suc b.sample_count)
    pub same_minimum : a.minimum_samples ≡ b.minimum_samples

  stays : HasStatusOfCount b → (a : VibrationBaseline F) → b ≡ a → Advances a
  stays h a p = subst Advances p (record {
    consistent = h;
    kept_if_frozen = λ _. refl;
    counted = inl refl;
    same_minimum = refl;
  })

  established_if-Advances :
      b.status ≡ building
      → (c : Bool) → leb b.minimum_samples (suc b.sample_count) ≡ c
      → Advances (established_if floats now (collect floats now s b) c).baseline
  established_if-Advances h true e = record {
    consistent = inr (refl, leb→le _ _ e);
    kept_if_frozen = λ f. cc;
    counted = inr refl;
    same_minimum = refl;
  }
  established_if-Advances h false e = record {
    consistent = inl (h, ground arith);
    kept_if_frozen = λ f. cc;
    counted = inr refl;
    same_minimum = refl;
  }

  compared-eq_some :
      (o : Option (ConditionState × F × List (Factor F))) (j : Judged floats)
      → Option.map (compared floats b) o ≡ some j
      → b ≡ j.baseline
  compared-eq_some none j h = cc
  compared-eq_some (some c) j h = ap (λ o. baseline_of o) h
    where
      baseline_of : Option (Judged floats) → VibrationBaseline F
      baseline_of none = b
      baseline_of (some k) = k.baseline

  by_status-Advances :
      (status : BaselineStatus)
      → b.status ≡ status
      → HasStatusOfCount b
      → (j : Judged floats) → by_status floats now s b status ≡ some j
      → Advances j.baseline
  by_status-Advances building e c j h =
      subst (λ k. Advances k.baseline) (some-injective _ _ h) (established_if-Advances e _ refl)
  by_status-Advances frozen e c j h = stays c j.baseline (compared-eq_some _ j h)
  by_status-Advances superseded e c j h =
      stays c j.baseline (ap (λ k. k.baseline) (some-injective _ _ h))

  judge_if-Advances :
      (e : Bool)
      → HasStatusOfCount b
      → (j : Judged floats) → judge_if floats now s b e ≡ some j
      → Advances j.baseline
  judge_if-Advances true c j h = by_status-Advances b.status refl c j h
  judge_if-Advances false c j h = stays c j.baseline (ap (λ k. k.baseline) (some-injective _ _ h))

  -- `judge`, the part of `process` that reads a window against the baseline, keeps a baseline whose
  -- status agrees with its number of samples in such a state: it is `building` with too few
  -- samples, or `frozen` with enough. It adds at most one sample, does not change the number that
  -- is needed, and returns a frozen baseline as it was. The session and the number of the last
  -- window, which `process` writes into the baseline after that, are not part of `judge`.
  pub judge-Advances :
      (j : Judged floats) → HasStatusOfCount b → judge floats now s b ≡ some j → Advances j.baseline
  unfolding judge
  judge-Advances j c h = judge_if-Advances (is_eligible floats s) c j h
