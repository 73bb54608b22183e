-- ===== src/UsbReset/Ends.antt =====
-- usb_factory_reset.py: `_run` always ends, as complete or as failed.
use seed_mg.Prelude.{
  ◌≡◌, ◌⊎◌, inl, inr, refl, Bool, some, Result, ok, err, ◌==◌, length, keep, str_eq, [],
}
use seed_mg.Models.Json.{Json, Fields}
use seed_mg.Ble.Task.{◌>>=◌, demand, demand_some, continue}
use seed_mg.UsbReset.{
  UsbError, one_board_required, not_readable_again, still_provisioned, firmware_changed,
  physical_complete, failed, Operation, Sensor, Run, Step, edit, begun, was_accepted, converse,
  verified_in, is_unprovisioned, keeps_firmware, completed, perform, ended, run,
}

abbrev Done : {A : Type 0} → Result UsbError A × Run → Type 0
Done (ok a, s) = s.operation.state ≡ physical_complete
Done (err e, s) = Unit

-- Where the conversation returns, the operation is complete.
unfoldable Ends : {A : Type 0} → Step A → Type 0
Ends m = (s : Run) → Done (m.run s)

continue-Done :
    {A B : Type 0} (f : A → Step B) (x : Result UsbError A × Run)
    → ((a : A) → Ends (f a))
    → Done (continue f x)
unfolding Ends
continue-Done f (ok a, s) each = each a s
continue-Done f (err e, s) each = tt

bind-Ends : {A B : Type 0} (m : Step A) (f : A → Step B) → ((a : A) → Ends (f a)) → Ends (m >>= f)
unfolding Ends
bind-Ends m f each s = continue-Done f (m.run s) each

module _ (same : Json → Json → Bool) (sensor : Sensor) (o : Operation) where
  completed-Ends : (after : Fields) → Ends (edit (completed same sensor o after))
  unfolding Ends
  completed-Ends after s = refl

  perform-Ends : Ends (perform same sensor o)
  unfolding perform
  perform-Ends = bind-Ends (edit (begun same sensor o)) _ (λ _.
      bind-Ends (demand (length (keep (λ q. str_eq q o.port) sensor.ports) == 1) one_board_required)
        _
        (λ _. bind-Ends (converse same sensor o) _ (λ before.
          bind-Ends (edit (was_accepted same sensor o)) _ (λ _.
            bind-Ends (demand_some (verified_in o.hardware_id sensor.polls) not_readable_again) _
              (λ after.
                bind-Ends (demand (is_unprovisioned same sensor o after) still_provisioned) _ (λ _.
                  bind-Ends (demand (keeps_firmware same sensor o before after) firmware_changed) _
                    (λ _. completed-Ends after)))))))

  -- Whatever the sensor answers, and also if it never answers, `_run` leaves the operation in one of
  -- the two final states: complete, or failed with the error.
  pub run-ends :
      ((run same sensor o).operation.state ≡ physical_complete)
      ⊎ (((run same sensor o).operation.state ≡ failed)
          × ((e : UsbError) × ((run same sensor o).operation.error ≡ some e)))
  unfolding run Ends
  run-ends = of_end _ (perform-Ends (record { operation = o; requests = [] }))
    where
      of_end :
          (x : Result UsbError (Unit {0}) × Run)
          → Done x
          → ((ended same sensor o x).operation.state ≡ physical_complete)
            ⊎ (((ended same sensor o x).operation.state ≡ failed)
                × ((e : UsbError) × ((ended same sensor o x).operation.error ≡ some e)))
      of_end (ok done, s) h = inl h
      of_end (err e, s) h = inr (refl, (e, refl))
