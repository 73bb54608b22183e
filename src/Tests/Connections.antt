-- ===== src/Tests/Connections.antt =====
-- The theorem on the reconnect loop, at a node that is never found.
use seed_mg.Prelude.{row, some, ℕ, zero, suc, ◌≡◌, refl, ap, arith, false, List, [], ◌∷◌, length}
use seed_mg.Ble.Manager.{Managed, managed_key, new_connection, schedule, paused_connections}
use seed_mg.Ble.Manager.Paused.{IsAt, AllDistinct, paused_connections-IsAt}
use seed_mg.Ble.Connection.{closed, Turn, overflowed, run}
use seed_mg.Ble.Connection.Backoff.{AllFailing, run-overflowed}

abbrev away : Turn
away = record { outcome = closed 0; jitter = λ d. 0; is_stopped = false }

unfoldable repeated : ℕ → List Turn
repeated zero = []
repeated (suc n) = away ∷ repeated n

repeated-AllFailing : (n : ℕ) → AllFailing 1000000 60000000 30000000 (repeated n)
unfolding repeated AllFailing
repeated-AllFailing zero = tt
repeated-AllFailing (suc n) = (
  record { duration = 0; closes = refl; unstable = omega arith; goes_on = refl },
  repeated-AllFailing n,
)

length-repeated : (n : ℕ) → length (repeated n) ≡ n
unfolding repeated
length-repeated zero = refl
length-repeated (suc n) = ap suc (length-repeated n)

run-overflowed_example :
    ((run 1000000 60000000 30000000 0 (repeated 1025)).1 ≡ overflowed)
    × (length (run 1000000 60000000 30000000 0 (repeated 1025)).0 ≡ 1024)
run-overflowed_example =
    run-overflowed 1000000 60000000 30000000 (repeated 1025) (repeated-AllFailing 1025)
      (omega (arith, length-repeated 1025))

abbrev pump : Managed
pump = new_connection "PUMP-1" "AA:BB"

pump-AllDistinct : AllDistinct (pump ∷ [])
unfolding AllDistinct row
pump-AllDistinct = (refl, tt)

pump-row : row managed_key "PUMP-1" (pump ∷ []) ≡ some pump
unfolding row
pump-row = refl

-- The work meanwhile connects another device.
paused_connections-IsAt_example :
    IsAt "PUMP-1" "AA:BB" (paused_connections (schedule "FAN-1" "CC:DD") (pump ∷ []))
paused_connections-IsAt_example =
    paused_connections-IsAt (schedule "FAN-1" "CC:DD") (pump ∷ []) "PUMP-1" pump pump-AllDistinct
      pump-row
