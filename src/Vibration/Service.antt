-- ===== src/Vibration/Service.antt =====
-- vibration_condition.py: `process`, `relearn_baseline` and `reset_baseline` as functions on the
-- tables. A primary key that the database generates is the argument `fresh`, and the column
-- `updated_at` of a baseline is the time `clock` at which the session writes it.
pub mod Laws
use seed_mg.Prelude.{
  ℕ, suc, ◌+◌, ◌-◌, String, Bool, true, false, not, ◌&&◌, ◌||◌, Option, none, some, List, [], ◌∷◌,
  ◌++◌, map, str_eq, if◌then◌else◌, leb, ltb, any, find, is_some, opt_str_eq, ◌==◌, Result, ok, err,
}
use seed_mg.Models.Device.{RegisteredDevice}
use seed_mg.Models.Installation.{SensorInstallation}
use seed_mg.Models.Vibration.{
  VibrationSummary, VibrationBaseline, VibrationBaselineHistory, VibrationCondition,
  VibrationWindow, Factor, BaselineStatus, building, superseded, ConditionState, baseline_pending,
}
use seed_mg.Vibration.Statistics.{Floats, summary_values}
use seed_mg.Vibration.Condition.{Debounced, debounce, Judged, judge}

-- `IntegrityError` stands for the unique key of the windows.
pub data VibrationError : Type 0 where
  device_unavailable device_not_found baseline_unavailable missing_statistics window_exists :
      VibrationError

abbrev pub opt_eq : Option ℕ → ℕ → Bool
opt_eq none n = false
opt_eq (some m) n = m == n

module _ {F : Type 0} (floats : Floats F) where
  pub record Tables : Type 0 where
    pub devices : List RegisteredDevice
    pub installations : List SensorInstallation
    pub baselines : List (VibrationBaseline F)
    pub history : List (VibrationBaselineHistory F)
    pub conditions : List (VibrationCondition F)
    pub windows : List (VibrationWindow F)

  pub record Service : Type 0 where
    pub gateway_id : String
    pub minimum_windows : ℕ
    pub persistence_windows : ℕ
    pub persistence_interval : ℕ

  abbrev pub device_of : String → Tables → Option RegisteredDevice
  device_of node t = find (λ d. str_eq d.device_id node) t.devices

  abbrev pub installation_of : String → Tables → Option String
  installation_of node t = id_of (
      find
        (λ i. str_eq i.node_id node && str_eq i.interface_id "IMU0" && i.enabled && not i.archived)
        t.installations)
    where
      id_of : Option SensorInstallation → Option String
      id_of none = none
      id_of (some i) = some i.installation_id

  abbrev in_scope : ℕ → Option String → ℕ → VibrationBaseline F → Bool
  in_scope device installation algorithm b =
      b.registered_device_id == device
      && opt_str_eq b.installation_id installation
      && b.algorithm_version == algorithm

  abbrev new_baseline : Service → ℕ → ℕ → ℕ → Option String → ℕ → VibrationBaseline F
  new_baseline service fresh clock device installation algorithm = record {
    id = fresh;
    registered_device_id = device;
    installation_id = installation;
    baseline_version = 1;
    algorithm_version = algorithm;
    status = building;
    sample_count = 0;
    minimum_samples = service.minimum_windows;
    statistics_json = λ f a. none;
    last_session_id = none;
    last_window_sequence = none;
    created_at = clock;
    established_at = none;
    reason = none;
    last_relearn_request_id = none;
    updated_at = clock;
  }

  abbrev pub new_condition : ℕ → Option String → ℕ → VibrationCondition F
  new_condition device installation baseline = record {
    registered_device_id = device;
    installation_id = installation;
    baseline_id = some baseline;
    state = none;
    baseline_similarity_score = none;
    factors_json = [];
    pending_state = none;
    pending_count = 0;
    latest_window_sequence = none;
    evaluated_at = none;
  }

  -- The object that a query found, or the new one.
  abbrev pub found_or : {A : Type 0} → Option A → A → A
  found_or none a = a
  found_or (some b) a = b

  -- What the session writes: the changed object in place of the row, or a row more.
  abbrev pub put : {A : Type 0} → (A → Bool) → A → List A → List A
  put same a [] = a ∷ []
  put same a (r ∷ rs) = let rest = put same a rs in if same r then a ∷ rs else r ∷ rest

  abbrev pub condition_of : ℕ → Tables → Option (VibrationCondition F)
  condition_of device t = find (λ c. c.registered_device_id == device) t.conditions

  -- The column's default.
  abbrev written_state : Option ConditionState → Option ConditionState
  written_state none = some baseline_pending
  written_state (some s) = some s

  abbrev debounced_of : VibrationCondition F → Debounced
  debounced_of c = record {
    state = c.state;
    pending_state = c.pending_state;
    pending_count = c.pending_count;
  }

  abbrev assign_condition :
      ℕ → ℕ → Judged floats → Debounced → VibrationCondition F → VibrationCondition F
  assign_condition sequence now j d c = record c {
    state = written_state d.state;
    pending_state = d.pending_state;
    pending_count = d.pending_count;
    baseline_similarity_score = j.score;
    factors_json = j.factors;
    latest_window_sequence = some sequence;
    evaluated_at = some now;
  }

  -- The row that `order_by(desc(observed_at)).limit(1)` gives, of equal times the first.
  abbrev latest_observed : ℕ → List (VibrationWindow F) → Option ℕ
  latest_observed device [] = none
  latest_observed device (w ∷ ws) =
      let rest = latest_observed device ws in
      if w.registered_device_id == device then some (later w.observed_at rest) else rest
    where
      later : ℕ → Option ℕ → ℕ
      later now none = now
      later now (some other) = if ltb now other then other else now

  -- `observed_at - latest_observed_at >= interval`, on integers.
  abbrev pub is_due : Service → ℕ → Option ℕ → Bool
  is_due service now none = true
  is_due service now (some latest) = leb (latest + service.persistence_interval) now

  abbrev new_window :
      Service
      → ℕ
      → Option String
      → String
      → ℕ
      → VibrationSummary F
      → VibrationBaseline F
      → VibrationWindow F
  new_window service device installation session now s b = record {
    gateway_id = service.gateway_id;
    registered_device_id = device;
    installation_id = installation;
    session_id = session;
    window_sequence = s.window_sequence;
    observed_at = now;
    device_uptime_ms = s.device_uptime_ms;
    schema_version = s.schema_version;
    algorithm_version = s.algorithm_version;
    baseline_version = some b.baseline_version;
    effective_sample_rate_hz = s.effective_sample_rate_hz;
    validity = s.validity;
    values = summary_values floats s;
  }

  abbrev same_window : VibrationWindow F → VibrationWindow F → Bool
  same_window w v =
      w.registered_device_id == v.registered_device_id
      && str_eq w.session_id v.session_id
      && w.window_sequence == v.window_sequence
      && w.algorithm_version == v.algorithm_version

  pub record Outcome : Type 0 where
    pub duplicate : Bool
    pub persisted : Bool
    pub state : Option ConditionState
    pub score : Option F
    pub factors : List (Factor F)
    pub baseline_count : ℕ
    pub baseline_status : BaselineStatus

  abbrev duplicate_of : VibrationCondition F → VibrationBaseline F → Outcome
  duplicate_of c b = record {
    duplicate = true;
    persisted = false;
    state = c.state;
    score = none;
    factors = [];
    baseline_count = b.sample_count;
    baseline_status = b.status;
  }

  module _ (service : Service) (session : String) (now clock : ℕ) (s : VibrationSummary F) where
    abbrev stored :
        ℕ
        → Option String
        → Judged floats
        → VibrationCondition F
        → Bool
        → Tables
        → Result VibrationError Outcome × Tables
    stored device installation j c due t =
        let window = new_window service device installation session now s j.baseline in
        if due && any (same_window window) t.windows then (err window_exists, t) else (
          ok (record {
            duplicate = false;
            persisted = due;
            state = c.state;
            score = j.score;
            factors = j.factors;
            baseline_count = j.baseline.sample_count;
            baseline_status = j.baseline.status;
          }),
          record t {
            baselines =
                put (λ b. b.id == j.baseline.id) (record (j.baseline) { updated_at = clock })
                  t.baselines;
            conditions = put (λ r. r.registered_device_id == device) c t.conditions;
            windows = if due then window ∷ t.windows else t.windows;
          },
        )

    abbrev judged :
        ℕ
        → Option String
        → VibrationCondition F
        → Tables
        → Option (Judged floats)
        → Result VibrationError Outcome × Tables
    judged device installation c t none = (err missing_statistics, t)
    judged device installation c t (some j) =
        let d = debounce service.persistence_windows j.state (debounced_of c) in
        stored device installation j (assign_condition s.window_sequence now j d c)
          (is_due service now (latest_observed device t.windows)) t

    abbrev pub is_repeated : VibrationBaseline F → Bool
    is_repeated b =
        opt_str_eq b.last_session_id (some session)
        && opt_eq b.last_window_sequence s.window_sequence

    abbrev marked : VibrationBaseline F → VibrationBaseline F
    marked b = record b {
      last_session_id = some session;
      last_window_sequence = some s.window_sequence;
    }

    abbrev window :
        ℕ
        → Option String
        → VibrationBaseline F
        → VibrationCondition F
        → Tables
        → Result VibrationError Outcome × Tables
    window device installation b c t =
        if is_repeated b
        then (ok (duplicate_of c b), t)
        else judged device installation c t (judge floats now s (marked b))

    abbrev observe : ℕ → Option String → ℕ → Tables → Result VibrationError Outcome × Tables
    observe device installation fresh t =
        let b =
          found_or (find (in_scope device installation s.algorithm_version) t.baselines)
            (new_baseline service fresh clock device installation s.algorithm_version) in
        let c = found_or (condition_of device t) (new_condition device installation b.id) in
        window device installation b
          (record c { installation_id = installation; baseline_id = some b.id }) t

    abbrev for_device :
        String → ℕ → Tables → Option RegisteredDevice → Result VibrationError Outcome × Tables
    for_device node fresh t none = (err device_unavailable, t)
    for_device node fresh t (some d) =
        if d.archived || not d.enabled
        then (err device_unavailable, t)
        else observe d.id (installation_of node t) fresh t

    unfoldable pub process : String → ℕ → Tables → Result VibrationError Outcome × Tables
    process node fresh t = for_device node fresh t (device_of node t)

  abbrev pub unarchived_device : String → Tables → Option RegisteredDevice
  unarchived_device node t = find (λ d. str_eq d.device_id node && not d.archived) t.devices

  abbrev pub baseline_with : Tables → Option ℕ → Option (VibrationBaseline F)
  baseline_with t none = none
  baseline_with t (some n) = find (λ b. b.id == n) t.baselines

  abbrev pub baseline_by_id : Tables → Option (VibrationCondition F) → Option (VibrationBaseline F)
  baseline_by_id t none = none
  baseline_by_id t (some c) = baseline_with t c.baseline_id

  -- `order_by(desc(updated_at))`, of equal times the first.
  abbrev newest_baseline : ℕ → List (VibrationBaseline F) → Option (VibrationBaseline F)
  newest_baseline device [] = none
  newest_baseline device (b ∷ bs) =
      let rest = newest_baseline device bs in
      if b.registered_device_id == device then some (newer rest) else rest
    where
      newer : Option (VibrationBaseline F) → VibrationBaseline F
      newer none = b
      newer (some other) = if ltb b.updated_at other.updated_at then other else b

  abbrev pub or_newest : ℕ → Tables → Option (VibrationBaseline F) → Option (VibrationBaseline F)
  or_newest device t none = newest_baseline device t.baselines
  or_newest device t (some b) = some b

  abbrev pub archived_baseline :
      ℕ → Option String → VibrationBaseline F → VibrationBaselineHistory F
  archived_baseline now reason b = record {
    registered_device_id = b.registered_device_id;
    installation_id = b.installation_id;
    baseline_version = b.baseline_version;
    algorithm_version = b.algorithm_version;
    status = superseded;
    sample_count = b.sample_count;
    minimum_samples = b.minimum_samples;
    statistics_json = b.statistics_json;
    created_at = b.created_at;
    established_at = b.established_at;
    superseded_at = now;
    reason = reason;
  }

  abbrev pub restarted :
      ℕ → Option String → Option String → VibrationBaseline F → VibrationBaseline F
  restarted now reason request b = record b {
    baseline_version = suc b.baseline_version;
    status = building;
    sample_count = 0;
    statistics_json = λ f a. none;
    last_session_id = none;
    last_window_sequence = none;
    created_at = now;
    established_at = none;
    reason = reason;
    last_relearn_request_id = request;
    updated_at = now;
  }

  abbrev pub reset_condition : ℕ → VibrationBaseline F → VibrationCondition F → VibrationCondition F
  reset_condition now b c = record c {
    baseline_id = some b.id;
    installation_id = b.installation_id;
    state = some baseline_pending;
    baseline_similarity_score = none;
    factors_json = [];
    pending_state = none;
    pending_count = 0;
    latest_window_sequence = none;
    evaluated_at = some now;
  }

  pub record Relearned : Type 0 where
    pub baseline : VibrationBaseline F
    pub duplicate : Bool

  -- `if request_id and baseline.last_relearn_request_id == request_id`
  abbrev pub is_same_request : Option String → VibrationBaseline F → Bool
  is_same_request none b = false
  is_same_request (some r) b = not (str_eq r "") && opt_str_eq b.last_relearn_request_id (some r)

  module _ (now : ℕ) (reason request : Option String) where
    abbrev pub relearned_tables : ℕ → Tables → VibrationBaseline F → Tables
    relearned_tables device t b = record t {
      history = archived_baseline now reason b ∷ t.history;
      baselines = put (λ r. r.id == b.id) (restarted now reason request b) t.baselines;
      conditions =
          put (λ r. r.registered_device_id == device)
            (reset_condition now b
              (found_or (condition_of device t) (new_condition device b.installation_id b.id)))
            t.conditions;
    }

    abbrev pub relearn_if :
        ℕ → Tables → VibrationBaseline F → Bool → Result VibrationError Relearned × Tables
    relearn_if device t b true = (ok (record { baseline = b; duplicate = true }), t)
    relearn_if device t b false = (
      ok (record { baseline = restarted now reason request b; duplicate = false }),
      relearned_tables device t b,
    )

    abbrev pub relearn_from :
        ℕ → Tables → Option (VibrationBaseline F) → Result VibrationError Relearned × Tables
    relearn_from device t none = (err baseline_unavailable, t)
    relearn_from device t (some b) = relearn_if device t b (is_same_request request b)

    abbrev pub relearn_device :
        Tables → Option RegisteredDevice → Result VibrationError Relearned × Tables
    relearn_device t none = (err device_not_found, t)
    relearn_device t (some d) =
        relearn_from d.id t (or_newest d.id t (baseline_by_id t (condition_of d.id t)))

    unfoldable pub relearn_baseline : String → Tables → Result VibrationError Relearned × Tables
    relearn_baseline node t = relearn_device t (unarchived_device node t)

  unfoldable pub reset_baseline : ℕ → String → Tables → Result VibrationError Relearned × Tables
  unfolding relearn_baseline
  reset_baseline now =
      relearn_baseline now (some "Baseline reset through compatibility endpoint") none
