-- ===== src/Vibration/Statistics.antt =====
-- vibration_condition.py: `summary_values`, `update_statistics` and `evaluate_condition`.
-- Python's float arithmetic is not part of the repository: it is the argument `floats`.
use seed_mg.Prelude.{
  ℕ, suc, ◌-◌, Bool, true, false, Option, none, some, List, [], ◌∷◌, ◌++◌, take, if◌then◌else◌, ltb,
}
use mathlib.Core.Option
use seed_mg.Models.Values.{Decimal}
use seed_mg.Models.Vibration.{
  Axis, axis_x, axis_y, axis_z, Feature, Axes, VibrationSummary, Statistic, Statistics, Factor,
  ConditionState, normal, elevated, significant_change, accel_rms, accel_peak, crest, kurtosis,
  dominant_frequency, dominant_amplitude, gyro_rms,
}

pub record Floats (F : Type 0) : Type 0 where
  pub plus : F → F → F
  pub minus : F → F → F
  pub times : F → F → F
  pub divide : F → F → F
  pub magnitude : F → F
  pub square_root : F → F
  pub maximum : F → F → F
  pub minimum : F → F → F
  pub at_least : F → F → Bool
  pub literal : Decimal → F
  pub of_int : ℕ → F
  pub is_finite : F → Bool

abbrev pub decimal : ℕ → ℕ → Decimal
decimal m s = record { negative = false; mantissa = m; scale = s }

-- `FEATURES`, in its order.
abbrev pub all_features : List (Feature × Axis)
all_features =
    (accel_rms, axis_x)
    ∷ (accel_rms, axis_y)
    ∷ (accel_rms, axis_z)
    ∷ (accel_peak, axis_x)
    ∷ (accel_peak, axis_y)
    ∷ (accel_peak, axis_z)
    ∷ (crest, axis_x)
    ∷ (crest, axis_y)
    ∷ (crest, axis_z)
    ∷ (kurtosis, axis_x)
    ∷ (kurtosis, axis_y)
    ∷ (kurtosis, axis_z)
    ∷ (dominant_frequency, axis_x)
    ∷ (dominant_frequency, axis_y)
    ∷ (dominant_frequency, axis_z)
    ∷ (dominant_amplitude, axis_x)
    ∷ (dominant_amplitude, axis_y)
    ∷ (dominant_amplitude, axis_z)
    ∷ (gyro_rms, axis_x)
    ∷ (gyro_rms, axis_y)
    ∷ (gyro_rms, axis_z)
    ∷ []

module _ {F : Type 0} (floats : Floats F) where
  abbrev pub along : Axes F → Axis → F
  along g axis_x = g.along_x
  along g axis_y = g.along_y
  along g axis_z = g.along_z

  abbrev pub summary_values : VibrationSummary F → Feature → Axis → F
  summary_values s accel_rms = along s.accel_rms_g
  summary_values s accel_peak = along s.accel_peak_g
  summary_values s crest = along s.crest_factor
  summary_values s kurtosis = along s.kurtosis
  summary_values s dominant_frequency = along s.dominant_frequency_hz
  summary_values s dominant_amplitude = along s.dominant_amplitude_g
  summary_values s gyro_rms = along s.gyro_rms_dps

  abbrev first_item : F → Option (Statistic F) → Statistic F
  first_item value (some item) = item
  first_item value none = record {
    count = 0;
    mean = floats.literal (decimal 0 0);
    m2 = floats.literal (decimal 0 0);
    min = value;
    max = value;
  }

  abbrev updated_item : F → Statistic F → Statistic F
  updated_item value item =
      let count = suc item.count in
      let delta = floats.minus value item.mean in
      let mean = floats.plus item.mean (floats.divide delta (floats.of_int count)) in
      record {
        count = count;
        mean = mean;
        m2 = floats.plus item.m2 (floats.times delta (floats.minus value mean));
        min = floats.minimum item.min value;
        max = floats.maximum item.max value;
      }

  -- The loop treats every name once, and no name's entry depends on another's.
  unfoldable pub update_statistics : Statistics F → (Feature → Axis → F) → Statistics F
  update_statistics statistics values f a =
      some (updated_item (values f a) (first_item (values f a) (statistics f a)))

  -- `"_g" in name`
  abbrev is_acceleration : Feature → Bool
  is_acceleration accel_rms = true
  is_acceleration accel_peak = true
  is_acceleration dominant_amplitude = true
  is_acceleration _ = false

  abbrev is_frequency : Feature → Bool
  is_frequency dominant_frequency = true
  is_frequency _ = false

  -- `max(1, n)`
  abbrev at_least_one : ℕ → ℕ
  at_least_one n = if ltb 1 n then n else 1

  abbrev deviation : F → Feature → F → Statistic F → F
  deviation bin_width f current item =
      let std = floats.square_root (
        floats.maximum (floats.literal (decimal 0 0))
          (floats.divide item.m2 (floats.of_int (at_least_one (item.count - 1))))) in
      let distance = floats.magnitude (floats.minus current item.mean) in
      if is_frequency f
      then floats.divide distance
          (floats.maximum (floats.maximum bin_width std) (floats.literal (decimal 1 6)))
      else floats.divide distance (
          floats.maximum
            (floats.maximum std
              (floats.times (floats.magnitude item.mean) (floats.literal (decimal 1 1))))
            (if is_acceleration f
              then floats.literal (decimal 1 3)
              else floats.literal (decimal 5 2)))

  abbrev factor : Feature → Axis → F → F → F → Factor F
  factor f a mean current normalized = record {
    feature = f;
    axis = a;
    baseline = mean;
    current = current;
    normalized_deviation = normalized;
    change_percent =
        if floats.at_least (floats.literal (decimal 1 9)) (floats.magnitude mean)
        then none
        else some (
            floats.times (floats.divide (floats.minus current mean) mean)
              (floats.literal (decimal 100 0)));
  }

  -- One round of the loop, on the severity and the factors so far; `none` is the KeyError of an
  -- absent name.
  abbrev round :
      (Feature → Axis → F)
      → F
      → Feature
      → Axis
      → F × List (Factor F)
      → Option (Statistic F)
      → Option (F × List (Factor F))
  round values bin_width f a found none = none
  round values bin_width f a found (some item) =
      let normalized = deviation bin_width f (values f a) item in
      some (
        floats.maximum found.0 normalized,
        if floats.at_least normalized (floats.literal (decimal 2 0))
            then found.1 ++ factor f a item.mean (values f a) normalized ∷ []
            else found.1,
      )

  abbrev survey :
      (Feature → Axis → F)
      → Statistics F
      → F
      → List (Feature × Axis)
      → F × List (Factor F)
      → Option (F × List (Factor F))
  survey values statistics bin_width [] found = some found
  survey values statistics bin_width ((f, a) ∷ rest) found =
      Option.bind (round values bin_width f a found (statistics f a))
        (survey values statistics bin_width rest)

  -- `sort(key=..., reverse=True)`, which leaves equal elements in their order.
  abbrev insert : Factor F → List (Factor F) → List (Factor F)
  insert x [] = x ∷ []
  insert x (y ∷ ys) =
      let rest = insert x ys in
      if floats.at_least x.normalized_deviation y.normalized_deviation then x ∷ y ∷ ys else y ∷ rest

  abbrev sort : List (Factor F) → List (Factor F)
  sort [] = []
  sort (x ∷ xs) = insert x (sort xs)

  abbrev conclude : F × List (Factor F) → ConditionState × F × List (Factor F)
  conclude (severity, factors) = (
    (if floats.at_least severity (floats.literal (decimal 6 0))
        then significant_change
        else if floats.at_least severity (floats.literal (decimal 3 0))
        then elevated
        else normal),
    floats.maximum (floats.literal (decimal 0 0)) (
        floats.minimum (floats.literal (decimal 100 0)) (
          floats.minus (floats.literal (decimal 100 0))
            (floats.times severity (floats.literal (decimal 10 0))))),
    take 5 (sort factors),
  )

  unfoldable pub evaluate_condition :
      (Feature → Axis → F) → Statistics F → F → Option (ConditionState × F × List (Factor F))
  evaluate_condition values statistics bin_width =
      Option.map conclude
        (survey values statistics bin_width all_features (floats.literal (decimal 0 0), []))
