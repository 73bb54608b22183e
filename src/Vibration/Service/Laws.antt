-- ===== src/Vibration/Service/Laws.antt =====
-- vibration_condition.py: a relearn that is asked for again under its request id.
use seed_mg.Prelude.{
  ok-injective, ℕ, String, ◌≡◌, refl, Bool, true, false, Option, none, some, List, [], ◌∷◌, str_eq,
  eq_refl, find, if-eq_true, ◌==◌, Result, ok, arith, ap, ◌∙◌, find_sound,
}
use seed_mg.Models.Device.{RegisteredDevice}
use seed_mg.Models.Vibration.{VibrationBaseline, VibrationCondition}
use seed_mg.Vibration.Statistics.{Floats}
use seed_mg.Vibration.Service.{
  VibrationError, Tables, Relearned, put, found_or, condition_of, restarted, is_same_request,
  unarchived_device, baseline_by_id, baseline_with, or_newest, relearn_if, relearn_from,
  relearn_device, relearned_tables, relearn_baseline,
}

module _ {F : Type 0} (floats : Floats F) where
  find-put :
      {A : Type 0} (p : A → Bool) (a : A) (rs : List A)
      → p a ≡ true
      → find p (put floats p a rs) ≡ some a
  find-put p a [] h = if-eq_true _ _ h
  find-put p a (r ∷ rs) h = ground (arith, h, find-put p a rs h)

  found-condition :
      (device : ℕ) (t : Tables floats) (new : VibrationCondition F)
      → new.registered_device_id ≡ device
      → (o : Option (VibrationCondition F)) → condition_of floats device t ≡ o
      → ((found_or floats o new).registered_device_id == device) ≡ true
  found-condition device t new h none e = ground (arith, h)
  found-condition device t new h (some c) e = find_sound _ t.conditions c e

  module _ (now later : ℕ) (reason other : Option String) (r : String)
      (named : str_eq r "" ≡ false) where
    -- The request `r` again, on the tables `u`.
    abbrev Repeats : Tables floats → ℕ → VibrationBaseline F → Type 0
    Repeats u device b =
        relearn_from floats later other (some r) device u
          (or_newest floats device u (baseline_by_id floats u (condition_of floats device u)))
        ≡ (ok (record { baseline = b; duplicate = true }), u)

    restarted-is_same :
        (b : VibrationBaseline F)
        → is_same_request floats (some r) (restarted floats now reason (some r) b) ≡ true
    restarted-is_same b = ground (arith, named, eq_refl r)

    repeats :
        (u : Tables floats) (device : ℕ) (c : VibrationCondition F) (n : ℕ)
        (b : VibrationBaseline F)
        → condition_of floats device u ≡ some c
        → c.baseline_id ≡ some n
        → find (λ x. x.id == n) u.baselines ≡ some b
        → is_same_request floats (some r) b ≡ true
        → Repeats u device b
    repeats u device c n b p q f e =
        ap (λ x. relearned (baseline_by_id floats u x)) p
        ∙ ap (λ x. relearned (baseline_with floats u x)) q
        ∙ ap relearned f
        ∙ ap (relearn_if floats later other (some r) device u b) e
      where
        relearned :
            Option (VibrationBaseline F) → Result VibrationError (Relearned floats) × Tables floats
        relearned o =
            relearn_from floats later other (some r) device u (or_newest floats device u o)

    again :
        (device : ℕ) (t : Tables floats) (b : VibrationBaseline F)
        → Repeats
            (relearned_tables floats now reason (some r) device t b)
            device
            (restarted floats now reason (some r) b)
    again device t b =
        repeats _ device _ b.id _
          (find-put (λ c. c.registered_device_id == device) _ t.conditions
            (found-condition device t _ refl _ refl))
          refl
          (find-put (λ x. x.id == b.id) (restarted floats now reason (some r) b) t.baselines
            (ground arith))
          (restarted-is_same b)

    if-again :
        (node : String) (d : RegisteredDevice) (t : Tables floats) (b : VibrationBaseline F)
        (e : Bool) (o : Relearned floats)
        → unarchived_device floats node t ≡ some d
        → is_same_request floats (some r) b ≡ e
        → or_newest floats d.id t (baseline_by_id floats t (condition_of floats d.id t)) ≡ some b
        → (relearn_if floats now reason (some r) d.id t b e).0 ≡ ok o
        → relearn_baseline floats later other
            (some r)
            node
            (relearn_if floats now reason (some r) d.id t b e).1
          ≡ (
            ok (record { baseline = o.baseline; duplicate = true }),
            (relearn_if floats now reason (some r) d.id t b e).1,
          )
    unfolding relearn_baseline
    if-again node d t b true o p e f h =
        ap (relearn_device floats later other (some r) t) p
        ∙ ap (relearn_from floats later other (some r) d.id t) f
        ∙ ap (relearn_if floats later other (some r) d.id t b) e
        ∙ ap (λ x. (ok (record { baseline = x; duplicate = true }), t))
            (ap (λ x. x.baseline) (ok-injective refl h))
    if-again node d t b false o p e f h =
        let u = relearned_tables floats now reason (some r) d.id t b in
        ap (relearn_device floats later other (some r) u) p
        ∙ again d.id t b
        ∙ ap (λ x. (ok (record { baseline = x; duplicate = true }), u))
            (ap (λ x. x.baseline) (ok-injective refl h))

    device-again :
        (node : String) (t : Tables floats) (o : Relearned floats) (x : Option RegisteredDevice)
        → unarchived_device floats node t ≡ x
        → (relearn_device floats now reason (some r) t x).0 ≡ ok o
        → relearn_baseline floats later other
            (some r)
            node
            (relearn_device floats now reason (some r) t x).1
          ≡ (
            ok (record { baseline = o.baseline; duplicate = true }),
            (relearn_device floats now reason (some r) t x).1,
          )
    device-again node t o none p h = cc
    device-again node t o (some d) p h =
        from (or_newest floats d.id t (baseline_by_id floats t (condition_of floats d.id t))) refl h
      where
        from :
            (y : Option (VibrationBaseline F))
            → or_newest floats d.id t (baseline_by_id floats t (condition_of floats d.id t)) ≡ y
            → (relearn_from floats now reason (some r) d.id t y).0 ≡ ok o
            → relearn_baseline floats later other
                (some r)
                node
                (relearn_from floats now reason (some r) d.id t y).1
              ≡ (
                ok (record { baseline = o.baseline; duplicate = true }),
                (relearn_from floats now reason (some r) d.id t y).1,
              )
        from none f k = cc
        from (some b) f k = if-again node d t b _ o p refl f k

    -- After a relearn with the request id `r`, which is not the empty text, has succeeded, the same
    -- request for the node is answered as a duplicate, with the baseline of the first answer, and
    -- changes no table, whatever its time and reason.
    pub relearn_baseline-relearn_baseline :
        (node : String) (t : Tables floats) (o : Relearned floats)
        → (relearn_baseline floats now reason (some r) node t).0 ≡ ok o
        → relearn_baseline floats later other
            (some r)
            node
            (relearn_baseline floats now reason (some r) node t).1
          ≡ (
            ok (record { baseline = o.baseline; duplicate = true }),
            (relearn_baseline floats now reason (some r) node t).1,
          )
    unfolding relearn_baseline
    relearn_baseline-relearn_baseline node t o h = device-again node t o _ refl h
