-- ===== src/UsbReset/Runs.antt =====
-- usb_factory_reset.py: what `_run` has verified before it confirms a reset and when it is complete.
use seed_mg.Prelude.{
  ◌≡◌, ◌⊎◌, inr, refl, sym, subst, Bool, true, some, [], ◌==◌, keep, length, str_eq, and-eq_true,
  Result, ok, err,
}
use seed_mg.Models.Json.{Json, Fields, find_field, get_field, equals_text, is_truthy}
use seed_mg.Ble.Task.{demand_some}
use seed_mg.Ble.Task.Keeps.{Any, Keeps, bind-Keeps, then-Keeps, demanded-Keeps, pure-Keeps}
use seed_mg.UsbReset.Polls.{verified_in-IsSeen}
use seed_mg.UsbReset.{
  UsbError, one_board_required, wrong_sensor, challenge_mismatch, key_error, correlation_mismatch,
  not_readable_again, still_provisioned, firmware_changed, queued, Operation, read_node_state,
  prepare_factory_reset, confirm_factory_reset, reply, Sensor, Run, edit, note, verified_in,
  retry_state, retry_challenge, is_selected, taken, confirm_reset, challenge_sensor, converse,
  is_unprovisioned, keeps_firmware, completed, begun, was_accepted, perform, ended, run,
}
use seed_mg.UsbReset.Sound.{
  IsSelected, IsChallenged, IsSound, OneOf, edit-Keeps, note-Keeps, ask-Keeps, retry_state-Keeps,
  retry_challenge-Keeps, some-Keeps, taken-Keeps,
}

module _ (same : Json → Json → Bool) (sensor : Sensor) (o : Operation) where
  abbrev Selected : Fields → Type 0
  Selected before = (x : (IsSelected same sensor o)) × (x.before ≡ before)

  confirm-Keeps :
      (x : (IsSelected same sensor o)) (prepared : Fields)
      → (sensor.first_challenge ≡ reply prepared) ⊎ (sensor.second_challenge ≡ reply prepared)
      → equals_text (get_field "hardware_id" prepared) o.hardware_id ≡ true
      → Keeps (IsSound same sensor o) Selected (confirm_reset same sensor o x.before prepared)
  confirm-Keeps x prepared reported hit =
      bind-Keeps (IsSound same sensor o) _ Selected
        (demand_some (find_field "operation_id" prepared) key_error) _
        (some-Keeps same sensor o (find_field "operation_id" prepared) key_error)
        (λ id named.
          bind-Keeps (IsSound same sensor o) _ Selected
            (demand_some (find_field "challenge" prepared) key_error) _
            (some-Keeps same sensor o (find_field "challenge" prepared) key_error)
            (λ secret given.
              bind-Keeps (IsSound same sensor o) _ Selected _ _
                (ask-Keeps same sensor o (confirm_factory_reset id secret) sensor.confirmation
                  (λ i t e. (x, challenged id secret i t named given e)))
                (λ answer _.
                  then-Keeps (IsSound same sensor o) Selected (taken same sensor o answer) _
                    (taken-Keeps same sensor o answer)
                    (λ accepted.
                      demanded-Keeps (IsSound same sensor o) Selected
                        (same (get_field "operation_id" accepted) id) correlation_mismatch _
                        (λ _.
                          pure-Keeps UsbError (IsSound same sensor o) Selected x.before
                            (x, refl))))))
    where
      challenged :
          (id secret i t : Json)
          → find_field "operation_id" prepared ≡ some id
          → find_field "challenge" prepared ≡ some secret
          → confirm_factory_reset id secret ≡ confirm_factory_reset i t
          → IsChallenged same sensor o i t
      challenged id secret i t named given e = record {
        prepared = prepared;
        reported = reported;
        identity = hit;
        operation_id = cc;
        challenge = cc;
      }

  challenge-Keeps :
      (x : (IsSelected same sensor o))
      → Keeps (IsSound same sensor o) Selected (challenge_sensor same sensor o x.before)
  challenge-Keeps x =
      then-Keeps (IsSound same sensor o) Selected (note "physical_identity_verified") _
        (note-Keeps same sensor o "physical_identity_verified")
        (λ _.
          then-Keeps (IsSound same sensor o) Selected (note "requesting_device_reset_challenge") _
            (note-Keeps same sensor o "requesting_device_reset_challenge")
            (λ _.
              bind-Keeps (IsSound same sensor o) _ Selected _ _
                (ask-Keeps same sensor o prepare_factory_reset sensor.first_challenge
                  (λ id secret e. cc))
                (λ challenge e.
                  bind-Keeps (IsSound same sensor o)
                    (OneOf same sensor o sensor.first_challenge sensor.second_challenge) Selected
                    (retry_challenge same sensor o challenge) _
                    (retry_challenge-Keeps same sensor o challenge e)
                    (λ prepared reported.
                      then-Keeps (IsSound same sensor o) Selected (note "device_challenge_received")
                        _ (note-Keeps same sensor o "device_challenge_received")
                        (λ _.
                          demanded-Keeps (IsSound same sensor o) Selected
                            (equals_text (get_field "hardware_id" prepared) o.hardware_id)
                            challenge_mismatch _
                            (λ hit.
                              then-Keeps (IsSound same sensor o) Selected
                                (note "confirming_device_bound_reset") _
                                (note-Keeps same sensor o "confirming_device_bound_reset")
                                (λ _. confirm-Keeps x prepared reported hit)))))))

  converse-Keeps : Keeps (IsSound same sensor o) Selected (converse same sensor o)
  converse-Keeps =
      bind-Keeps (IsSound same sensor o) _ Selected _ _
        (ask-Keeps same sensor o read_node_state sensor.first_state (λ id secret e. cc))
        (λ state e.
          bind-Keeps (IsSound same sensor o)
            (OneOf same sensor o sensor.first_state sensor.second_state) Selected
            (retry_state same sensor o state) _ (retry_state-Keeps same sensor o state e)
            (λ before reported.
              demanded-Keeps (IsSound same sensor o) Selected (is_selected same sensor o before)
                wrong_sensor _
                (λ hit. challenge-Keeps (record {
                  before = before;
                  reported = reported;
                  identity = (and-eq_true _ _ hit).0;
                  node = (and-eq_true _ _ hit).1;
                }))))

  kept :
      {b before : Fields} (after : Fields)
      → b ≡ before
      → keeps_firmware same sensor o before after ≡ true
      → (is_truthy (get_field "firmware_version" b) ≡ true)
        × (same (get_field "firmware_version" after) (get_field "firmware_version" b) ≡ true)
  kept after p h =
      and-eq_true _ _ (subst (λ x. keeps_firmware same sensor o x after ≡ true) (sym p) h)

  perform-Keeps : Keeps (IsSound same sensor o) Any (perform same sensor o)
  unfolding perform
  perform-Keeps =
      then-Keeps (IsSound same sensor o) Any (edit (begun same sensor o)) _
        (edit-Keeps same sensor o (begun same sensor o) (λ p e. cc))
        (λ _.
          demanded-Keeps (IsSound same sensor o) Any
            (length (keep (λ q. str_eq q o.port) sensor.ports) == 1) one_board_required _
            (λ _.
              bind-Keeps (IsSound same sensor o) Selected Any (converse same sensor o) _
                converse-Keeps
                (λ before selected.
                  then-Keeps (IsSound same sensor o) Any (edit (was_accepted same sensor o)) _
                    (edit-Keeps same sensor o (was_accepted same sensor o) (λ p e. cc))
                    (λ _.
                      bind-Keeps (IsSound same sensor o) _ Any _ _
                        (some-Keeps same sensor o (verified_in o.hardware_id sensor.polls)
                          not_readable_again)
                        (λ after seen.
                          demanded-Keeps (IsSound same sensor o) Any
                            (is_unprovisioned same sensor o after) still_provisioned _
                            (λ unprovisioned.
                              demanded-Keeps (IsSound same sensor o) Any
                                (keeps_firmware same sensor o before after) firmware_changed _
                                (λ firmware.
                                  edit-Keeps same sensor o (completed same sensor o after) (λ p e.
                                    inr (record {
                                      selected = selected.0;
                                      after = after;
                                      seen =
                                          verified_in-IsSeen o.hardware_id sensor.polls after seen;
                                      no_node = (and-eq_true _ _ unprovisioned).0;
                                      unprovisioned = (and-eq_true _ _ unprovisioned).1;
                                      had_firmware = (kept after selected.1 firmware).0;
                                      same_firmware = (kept after selected.1 firmware).1;
                                    })))))))))

  -- Whatever the sensor answers: a reset is confirmed to it only after it reported the selected
  -- hardware and node and gave a challenge for that hardware, and with the operation id and the
  -- secret of that challenge; and the operation ends as complete only if a later poll read a state
  -- that names the same hardware, no node, the status `unprovisioned` and the firmware of before.
  pub run-IsSound : o.state ≡ queued → (IsSound same sensor o) (run same sensor o)
  unfolding run Keeps
  run-IsSound h =
      of_end _
        (perform-Keeps (record { operation = o; requests = [] })
          (record { confirmed = λ id secret m. absurd m; complete = λ e. cc })).0
    where
      of_end :
          (x : Result UsbError (Unit {0}) × Run)
          → (IsSound same sensor o) x.1
          → (IsSound same sensor o) (ended same sensor o x)
      of_end (ok done, s) i = i
      of_end (err e, s) i = record { confirmed = i.confirmed; complete = λ k. cc }
