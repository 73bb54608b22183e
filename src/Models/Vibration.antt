-- ===== src/Models/Vibration.antt =====
-- models.py: the rows of vibration monitoring; schemas.py: `VibrationSummary`. The columns and
-- fields that hold floats are over a type of floats, which the service's arithmetic comes with.
use seed_mg.Prelude.{ℕ, String, Option, List}

pub data Axis : Type 0 where
  axis_x axis_y axis_z : Axis

-- The features of a window; each has a value for every axis.
pub data Feature : Type 0 where
  accel_rms accel_peak crest kurtosis dominant_frequency dominant_amplitude gyro_rms : Feature

-- The texts of `validity`.
pub data Validity : Type 0 where
  valid invalid : Validity

pub data BaselineStatus : Type 0 where
  building frozen superseded : BaselineStatus

pub data ConditionState : Type 0 where
  invalid baseline_pending insufficient_data normal elevated significant_change : ConditionState

-- `tuple[float, float, float]`
pub record Axes (F : Type 0) : Type 0 where
  pub along_x : F
  pub along_y : F
  pub along_z : F

pub record VibrationSummary (F : Type 0) : Type 0 where
  pub schema_version : ℕ
  pub algorithm_version : ℕ
  pub window_sequence : ℕ
  pub device_uptime_ms : ℕ
  pub effective_sample_rate_hz : F
  pub validity : Validity
  pub accel_rms_g : Axes F
  pub accel_peak_g : Axes F
  pub crest_factor : Axes F
  pub kurtosis : Axes F
  pub dominant_frequency_hz : Axes F
  pub dominant_amplitude_g : Axes F
  pub gyro_rms_dps : Axes F

-- An entry of `statistics_json`.
pub record Statistic (F : Type 0) : Type 0 where
  pub count : ℕ
  pub mean : F
  pub m2 : F
  pub min : F
  pub max : F

-- `statistics_json`: an absent name is `none`.
abbrev pub Statistics : Type 0 → Type 0
Statistics F = Feature → Axis → Option (Statistic F)

-- An entry of `factors_json`.
pub record Factor (F : Type 0) : Type 0 where
  pub feature : Feature
  pub axis : Axis
  pub baseline : F
  pub current : F
  pub normalized_deviation : F
  pub change_percent : Option F

-- The columns of the features are one function of feature and axis.
pub record VibrationWindow (F : Type 0) : Type 0 where
  pub gateway_id : String
  pub registered_device_id : ℕ
  pub installation_id : Option String
  pub session_id : String
  pub window_sequence : ℕ
  pub observed_at : ℕ
  pub device_uptime_ms : ℕ
  pub schema_version : ℕ
  pub algorithm_version : ℕ
  pub baseline_version : Option ℕ
  pub effective_sample_rate_hz : F
  pub validity : Validity
  pub values : Feature → Axis → F

pub record VibrationBaseline (F : Type 0) : Type 0 where
  pub id : ℕ
  pub registered_device_id : ℕ
  pub installation_id : Option String
  pub baseline_version : ℕ
  pub algorithm_version : ℕ
  pub status : BaselineStatus
  pub sample_count : ℕ
  pub minimum_samples : ℕ
  pub statistics_json : Statistics F
  pub last_session_id : Option String
  pub last_window_sequence : Option ℕ
  pub created_at : ℕ
  pub established_at : Option ℕ
  pub reason : Option String
  pub last_relearn_request_id : Option String
  pub updated_at : ℕ

pub record VibrationBaselineHistory (F : Type 0) : Type 0 where
  pub registered_device_id : ℕ
  pub installation_id : Option String
  pub baseline_version : ℕ
  pub algorithm_version : ℕ
  pub status : BaselineStatus
  pub sample_count : ℕ
  pub minimum_samples : ℕ
  pub statistics_json : Statistics F
  pub created_at : ℕ
  pub established_at : Option ℕ
  pub superseded_at : ℕ
  pub reason : Option String

-- `state` is `none` in a new object until the session writes it with the column's default.
pub record VibrationCondition (F : Type 0) : Type 0 where
  pub registered_device_id : ℕ
  pub installation_id : Option String
  pub baseline_id : Option ℕ
  pub state : Option ConditionState
  pub baseline_similarity_score : Option F
  pub factors_json : List (Factor F)
  pub pending_state : Option ConditionState
  pub pending_count : ℕ
  pub latest_window_sequence : Option ℕ
  pub evaluated_at : Option ℕ
