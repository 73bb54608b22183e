-- ===== src/Ble/Connection.antt =====
-- gateway/app/ble/connection.py: `reconnect_delay`, and the loop `run` of `DeviceConnection`. What the
-- connected loop does is an argument, an attempt after the other. Durations are numbers of microseconds.
pub mod Backoff
use seed_mg.Prelude.{
  ℕ, suc, ◌+◌, ◌*◌, ◌^◌, Bool, true, false, Option, none, some, List, [], ◌∷◌, if◌then◌else◌, ltb,
  leb,
}

-- How `_connected_loop` ends: it raises after a connection of some duration (0 if there was none), it
-- returns since it was told to stop, or its task is cancelled.
pub data Outcome : Type 0 where
  closed : ℕ → Outcome
  told_to_stop cancelled : Outcome

-- One turn of the loop: what `uniform` adds to a delay, and whether `_stop` is set during the wait.
pub record Turn : Type 0 where
  pub outcome : Outcome
  pub jitter : ℕ → ℕ
  pub is_stopped : Bool

-- Where the loop is: at its next turn with a number of failures, at its end, or ended by the
-- `OverflowError` of a delay.
pub data Fate : Type 0 where
  at_turn : ℕ → Fate
  finished overflowed : Fate

-- `min(initial * (2 ** max(0, failure_count)), maximum)`: `initial` is a float, and Python raises if the
-- integer is too large for one. A delay that is cut at the maximum needs no exact product.
abbrev pub min_of : ℕ → ℕ → ℕ
min_of a b = if ltb b a then b else a

unfoldable pub reconnect_delay : ℕ → ℕ → ℕ → Option ℕ
reconnect_delay initial maximum failure_count =
    if leb 1024 failure_count then none else some (min_of (initial * 2 ^ failure_count) maximum)

module _ (initial maximum stable : ℕ) where
  -- The failures that the delay counts: none after a stable connection.
  abbrev pub counted : ℕ → Outcome → ℕ
  counted n (closed duration) = if leb stable duration then 0 else n
  counted n told_to_stop = n
  counted n cancelled = n

  abbrev pub waited : Turn → List ℕ × Fate → Option ℕ → List ℕ × Fate
  waited t rest none = ([], overflowed)
  waited t rest (some delay) =
      if t.is_stopped
      then ((delay + t.jitter delay) ∷ [], finished)
      else ((delay + t.jitter delay) ∷ rest.0, rest.1)

  abbrev pub turned : Turn → ℕ → Outcome → List ℕ × Fate → List ℕ × Fate
  turned t n (closed duration) rest =
      waited t rest (reconnect_delay initial maximum (counted n (closed duration)))
  turned t n told_to_stop rest = ([], finished)
  turned t n cancelled rest = ([], finished)

  -- `run` from a number of failures on: the waits, and where the loop is after these turns.
  unfoldable pub run : ℕ → List Turn → List ℕ × Fate
  unfolding reconnect_delay
  run n [] = ([], at_turn n)
  run n (t ∷ ts) = turned t n t.outcome (run (suc (counted n t.outcome)) ts)
