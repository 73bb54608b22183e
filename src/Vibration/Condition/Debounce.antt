-- ===== src/Vibration/Condition/Debounce.antt =====
-- The debounce in `process` of vibration_condition.py: isolated windows do not change the state.
use seed_mg.Prelude.{ℕ, zero, suc, some}
use seed_mg.Models.Vibration.{ConditionState}
use seed_mg.Vibration.Condition.{Debounced, debounce}

-- `k` further windows that are all judged `state`.
unfoldable pub debounce_run : ℕ → ℕ → ConditionState → Debounced → Debounced
debounce_run zero persistence state c = c
debounce_run (suc k) persistence state c =
    debounce persistence state (debounce_run k persistence state c)

abbrev waiting : ConditionState → ConditionState → ℕ → Debounced
waiting old state n = record { state = some old; pending_state = some state; pending_count = n }
