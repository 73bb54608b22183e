-- ===== src/Ble/Provisioner/Settings.antt =====
-- ble_provisioning.py: the settings that a readback has to have, one by one.
use seed_mg.Prelude.{
  ℕ, String, ◌≡◌, ◌⊎◌, inl, inr, refl, subst, true, Option, none, some, ok, and-eq_true, if-cases,
  if◌then◌else◌, str_eq, eq_iff, ok-injective,
}
use seed_mg.Models.Json.{Fields, get_field, equals_number}
use seed_mg.Ble.Provisioner.{
  Requested, Values, filter_code, with_filter, configuration_values, readback_matches,
}

-- The settings of a readback.
pub record HasSettings (v : Values) (r : Fields) : Type 0 where
  pub sample : equals_number (get_field "sample" r) v.sample ≡ true
  pub process : equals_number (get_field "process" r) v.process ≡ true
  pub report : equals_number (get_field "report" r) v.report ≡ true
  pub heartbeat : equals_number (get_field "heartbeat" r) v.heartbeat ≡ true
  pub filter : equals_number (get_field "filter" r) v.filter ≡ true
  pub window : equals_number (get_field "window" r) v.window ≡ true
  pub enabled : equals_number (get_field "enabled" r) v.enabled ≡ true

pub readback_matches-HasSettings :
    (r : Fields) (v : Values) → readback_matches r v ≡ true → HasSettings v r
unfolding readback_matches
readback_matches-HasSettings r v h =
    let (sample, h1) = and-eq_true (equals_number (get_field "sample" r) v.sample) _ h in
    let (process, h2) = and-eq_true (equals_number (get_field "process" r) v.process) _ h1 in
    let (report, h3) = and-eq_true (equals_number (get_field "report" r) v.report) _ h2 in
    let (heartbeat, h4) = and-eq_true (equals_number (get_field "heartbeat" r) v.heartbeat) _ h3 in
    let (filter, h5) = and-eq_true (equals_number (get_field "filter" r) v.filter) _ h4 in
    let (window, h6) = and-eq_true (equals_number (get_field "window" r) v.window) _ h5 in
    let (enabled, _) = and-eq_true (equals_number (get_field "enabled" r) v.enabled) _ h6 in
    record {
      sample = sample;
      process = process;
      report = report;
      heartbeat = heartbeat;
      filter = filter;
      window = window;
      enabled = enabled;
    }

-- The number of a filter on the node.
abbrev pub IsFilterCode : String → ℕ → Type 0
IsFilterCode t n =
    ((t ≡ "none") × (n ≡ 0))
    ⊎ (((t ≡ "moving_average") × (n ≡ 1)) ⊎ (((t ≡ "ema") × (n ≡ 2)) ⊎ ((t ≡ "median") × (n ≡ 3))))

same_code : {k n : ℕ} → some k ≡ some n → n ≡ k
same_code h = cc

filter_code-IsFilterCode : (t : String) (n : ℕ) → filter_code t ≡ some n → IsFilterCode t n
filter_code-IsFilterCode t n h = elim (if-cases (str_eq t "none") _ _ _ h) [
  | inl (e, k) ↦ inl ((eq_iff t "none").0 e, same_code k)
  | inr (_, h1) ↦ elim (if-cases (str_eq t "moving_average") _ _ _ h1) [
    | inl (e, k) ↦ inr (inl ((eq_iff t "moving_average").0 e, same_code k))
    | inr (_, h2) ↦ elim (if-cases (str_eq t "ema") _ _ _ h2) [
      | inl (e, k) ↦ inr (inr (inl ((eq_iff t "ema").0 e, same_code k)))
      | inr (_, h3) ↦ elim (if-cases (str_eq t "median") _ _ _ h3) [
        | inl (e, k) ↦ inr (inr (inr ((eq_iff t "median").0 e, same_code k)))
        | inr (_, k) ↦ cc k
      ]
    ]
  ]
]

-- The numbers that stand for the configuration that was asked for.
pub record IsRequested (c : Requested) (v : Values) : Type 0 where
  pub sample : v.sample ≡ c.sample_interval_ms
  pub process : v.process ≡ c.processing_interval_ms
  pub report : v.report ≡ c.report_interval_ms
  pub heartbeat : v.heartbeat ≡ c.heartbeat_interval_ms
  pub filter : IsFilterCode c.filter_type v.filter
  pub window : v.window ≡ c.filter_window
  pub enabled : v.enabled ≡ (if c.enabled then 1 else 0)

pub configuration_values-IsRequested :
    (c : Requested) (v : Values) → configuration_values c ≡ ok v → IsRequested c v
configuration_values-IsRequested c v h = of_code (filter_code c.filter_type) refl h
  where
    of_code :
        (n : Option ℕ) → filter_code c.filter_type ≡ n → with_filter c n ≡ ok v → IsRequested c v
    of_code none e k = cc k
    of_code (some n) e k = subst (IsRequested c) (ok-injective refl k) (record {
      sample = refl;
      process = refl;
      report = refl;
      heartbeat = refl;
      filter = filter_code-IsFilterCode c.filter_type n e;
      window = refl;
      enabled = refl;
    })
