-- ===== src/Ble/Connection/Backoff.antt =====
-- connection.py: how long the loop goes on when a node stays away.
use seed_mg.Prelude.{
  ℕ, suc, ◌+◌, ◌≤◌, ◌<◌, ◌≡◌, refl, sym, subst, false, List, [], ◌∷◌, arith, leb, length,
  Bool-cases, inl, inr,
}
use seed_mg.Ble.Connection.{
  closed, Turn, Fate, overflowed, reconnect_delay, counted, waited, turned, run,
}

module _ (initial maximum stable : ℕ) where
  -- A turn that fails before its connection is stable, and is not stopped in its wait.
  pub record IsFailing (t : Turn) : Type 0 where
    pub duration : ℕ
    pub closes : t.outcome ≡ closed duration
    pub unstable : duration < stable
    pub goes_on : t.is_stopped ≡ false

  unfoldable pub AllFailing : List Turn → Type 0
  AllFailing [] = Unit
  AllFailing (t ∷ ts) = IsFailing t × AllFailing ts

  abbrev Overflowed : ℕ → List ℕ × Fate → Type 0
  Overflowed n x = (x.1 ≡ overflowed) × (n + length x.0 ≡ 1024)

  waited-Overflowed :
      (t : Turn) (n : ℕ) (rest : List ℕ × Fate)
      → t.is_stopped ≡ false
      → n < 1024
      → Overflowed (suc n) rest
      → Overflowed n (waited initial maximum stable t rest (reconnect_delay initial maximum n))
  unfolding reconnect_delay
  waited-Overflowed t n rest goes_on low h =
      let early : leb 1024 n ≡ false = ground (arith, low) in
      let longer : n + suc (length rest.0) ≡ 1024 = omega (arith, h.1) in
      rw (early, goes_on) (h.0, longer)

  turn-Overflowed :
      (t : Turn) (n : ℕ) (rest : List ℕ × Fate)
      → IsFailing t
      → n ≤ 1024
      → (n < 1024 → Overflowed (suc n) rest)
      → Overflowed n (turned initial maximum stable t n t.outcome rest)
  unfolding reconnect_delay
  turn-Overflowed t n rest f bound h =
      let unstable : leb stable f.duration ≡ false = ground (arith, f.unstable) in
      elim (Bool-cases (leb 1024 n)) [
        | inl reached ↦
            let full : n + 0 ≡ 1024 = ground (arith, bound, reached) in
            rw (f.closes, unstable, reached) (refl, full)
        | inr early ↦
            let low : n < 1024 = ground (arith, early) in
            rw (f.closes, unstable) (waited-Overflowed t n rest f.goes_on low (h low))
      ]

  counted-failing :
      (t : Turn) (n : ℕ) → IsFailing t → counted initial maximum stable n t.outcome ≡ n
  counted-failing t n f =
      let unstable : leb stable f.duration ≡ false = ground (arith, f.unstable) in
      rw (f.closes, unstable) refl

  from-Overflowed :
      (n : ℕ) (ts : List Turn)
      → AllFailing ts
      → n ≤ 1024
      → 1024 < n + length ts
      → Overflowed n (run initial maximum stable n ts)
  unfolding run AllFailing
  from-Overflowed n [] f bound many = elim (impossible bound many) [ ]
    where
      impossible : n ≤ 1024 → 1024 < n + 0 → ⊥
      impossible a b = omega arith
  from-Overflowed n (t ∷ ts) (f, fs) bound many =
      turn-Overflowed t n
        (run initial maximum stable (suc (counted initial maximum stable n t.outcome)) ts) f bound
        (λ low.
          subst (λ m. Overflowed (suc n) (run initial maximum stable (suc m) ts))
            (sym (counted-failing t n f))
            (from-Overflowed (suc n) ts fs (omega (arith, low)) (omega (arith, many))))

  -- If a node stays away, the loop does not try for ever: after 1,024 waits in a row without a stable
  -- connection, the delay of the next failure raises, and the loop has ended.
  pub run-overflowed :
      (ts : List Turn)
      → AllFailing ts
      → 1024 < length ts
      → ((run initial maximum stable 0 ts).1 ≡ overflowed)
        × (length (run initial maximum stable 0 ts).0 ≡ 1024)
  run-overflowed ts f many =
      let x = from-Overflowed 0 ts f (omega arith) (omega (arith, many)) in
      (x.0, omega (arith, x.1))
