-- ===== src/Vibration/Condition.antt =====
-- vibration_condition.py, `process`: how one window's judgement changes the baseline and, through
-- the debounce of `persistence_windows`, the condition of the device.
pub mod Debounce
pub mod Baseline
use seed_mg.Prelude.{
  ℕ, suc, ◌+◌, Bool, true, false, not, ◌&&◌, ◌||◌, Option, none, some, List, [], ◌∷◌, if◌then◌else◌,
  leb, all, ◌==◌,
}
use mathlib.Core.Option
use seed_mg.Models.Values.{Decimal}
use seed_mg.Models.Vibration.{
  Feature, Axis, Validity, VibrationSummary, VibrationBaseline, VibrationCondition, Factor,
  BaselineStatus, building, frozen, superseded, ConditionState, invalid, baseline_pending,
  insufficient_data, normal, elevated, significant_change,
}
use seed_mg.Vibration.Statistics.{
  Floats, decimal, all_features, summary_values, update_statistics, evaluate_condition,
}

abbrev pub same_state : ConditionState → ConditionState → Bool
same_state invalid invalid = true
same_state baseline_pending baseline_pending = true
same_state insufficient_data insufficient_data = true
same_state normal normal = true
same_state elevated elevated = true
same_state significant_change significant_change = true
same_state _ _ = false

abbrev pub is_state : ConditionState → Option ConditionState → Bool
is_state s none = false
is_state s (some t) = same_state t s

-- `state in {"INVALID", "BASELINE_PENDING", "INSUFFICIENT_DATA"}`
abbrev pub is_unjudged : ConditionState → Bool
is_unjudged invalid = true
is_unjudged baseline_pending = true
is_unjudged insufficient_data = true
is_unjudged _ = false

-- The three columns that the debounce assigns.
pub record Debounced : Type 0 where
  pub state : Option ConditionState
  pub pending_state : Option ConditionState
  pub pending_count : ℕ

abbrev pub settled : Option ConditionState → Debounced
settled s = record { state = s; pending_state = none; pending_count = 0 }

abbrev pub next_count : ConditionState → Debounced → ℕ
next_count state c = if is_state state c.pending_state then suc c.pending_count else 1

unfoldable pub debounce : ℕ → ConditionState → Debounced → Debounced
debounce persistence state c =
    let count = next_count state c in
    if is_unjudged state
    then settled (some state)
    else if is_state state c.state
    then settled c.state
    else if leb persistence count || is_state baseline_pending c.state && same_state state normal
    then settled (some state)
    else record { state = c.state; pending_state = some state; pending_count = count }

module _ {F : Type 0} (floats : Floats F) where
  -- What `process` computes for a window: `state`, `score` and `factors`, and the baseline.
  pub record Judged : Type 0 where
    pub state : ConditionState
    pub score : Option F
    pub factors : List (Factor F)
    pub baseline : VibrationBaseline F

  abbrev pub is_eligible : VibrationSummary F → Bool
  is_eligible s =
      is_valid s.validity
      && all (λ p. floats.is_finite (summary_values floats s p.0 p.1)) all_features
    where
      is_valid : Validity → Bool
      is_valid Validity.valid = true
      is_valid Validity.invalid = false

  abbrev unscored : ConditionState → VibrationBaseline F → Judged
  unscored state b = record { state = state; score = none; factors = []; baseline = b }

  abbrev pub collect : ℕ → VibrationSummary F → VibrationBaseline F → VibrationBaseline F
  collect now s b = record b {
    statistics_json = update_statistics floats b.statistics_json (summary_values floats s);
    sample_count = suc b.sample_count;
  }

  abbrev pub established_if : ℕ → VibrationBaseline F → Bool → Judged
  established_if now b true = record {
    state = normal;
    score = some (floats.literal (decimal 100 0));
    factors = [];
    baseline = record b { status = frozen; established_at = some now };
  }
  established_if now b false = unscored baseline_pending b

  -- `if baseline.sample_count >= baseline.minimum_samples`
  abbrev pub established : ℕ → VibrationBaseline F → Judged
  established now b = established_if now b (leb b.minimum_samples b.sample_count)

  abbrev pub compared : VibrationBaseline F → ConditionState × F × List (Factor F) → Judged
  compared b (state, score, factors) = record {
    state = state;
    score = some score;
    factors = factors;
    baseline = b;
  }

  abbrev pub ineligible : VibrationBaseline F → Judged
  ineligible b = unscored (if b.sample_count == 0 then insufficient_data else invalid) b

  abbrev pub by_status :
      ℕ → VibrationSummary F → VibrationBaseline F → BaselineStatus → Option Judged
  by_status now s b building = some (established now (collect now s b))
  by_status now s b frozen = Option.map (compared b) (
      evaluate_condition floats (summary_values floats s) b.statistics_json
        (floats.divide s.effective_sample_rate_hz (floats.literal (decimal 256 0))))
  by_status now s b superseded = some (ineligible b)

  abbrev pub judge_if : ℕ → VibrationSummary F → VibrationBaseline F → Bool → Option Judged
  judge_if now s b true = by_status now s b b.status
  judge_if now s b false = some (ineligible b)

  -- `none` is the KeyError of statistics that lack a feature.
  unfoldable pub judge : ℕ → VibrationSummary F → VibrationBaseline F → Option Judged
  judge now s b = judge_if now s b (is_eligible s)
