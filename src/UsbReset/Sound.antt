-- ===== src/UsbReset/Sound.antt =====
-- usb_factory_reset.py: what `_run` has to have verified, and the steps that keep this.
use seed_mg.Prelude.{
  Member, Member-append, String, ◌≡◌, ◌⊎◌, inl, inr, refl, sym, Bool, true, Option, none, some,
}
use seed_mg.Models.Json.{Json, Fields, find_field, get_field, equals_text, is_null, is_truthy}
use seed_mg.Ble.Task.{demand_some}
use seed_mg.Ble.Task.Keeps.{Any, Keeps, bind-Keeps, then-Keeps, pure-Keeps, raise-Keeps}
use seed_mg.UsbReset.Polls.{IsSeen}
use seed_mg.UsbReset.{
  UsbError, identity_unreadable, challenge_timed_out, client_failed, physical_complete, Operation,
  Request, read_node_state, prepare_factory_reset, confirm_factory_reset, Answer, reply,
  protocol_error, other_error, Sensor, Run, edit, note, ask, at_last, retry_state, retry_challenge,
  taken,
}

module _ (same : Json → Json → Bool) (sensor : Sensor) (o : Operation) where
  -- What the sensor reported before, and the challenge that it gave.
  pub record IsSelected : Type 0 where
    pub before : Fields
    pub reported : (sensor.first_state ≡ reply before) ⊎ (sensor.second_state ≡ reply before)
    pub identity : equals_text (get_field "hardware_id" before) o.hardware_id ≡ true
    pub node : equals_text (get_field "node_id" before) o.device_id ≡ true

  pub record IsChallenged (id secret : Json) : Type 0 where
    pub prepared : Fields
    pub reported :
        (sensor.first_challenge ≡ reply prepared) ⊎ (sensor.second_challenge ≡ reply prepared)
    pub identity : equals_text (get_field "hardware_id" prepared) o.hardware_id ≡ true
    pub operation_id : find_field "operation_id" prepared ≡ some id
    pub challenge : find_field "challenge" prepared ≡ some secret

  pub record IsReset : Type 0 where
    pub selected : IsSelected
    pub after : Fields
    pub seen : IsSeen o.hardware_id sensor.polls after
    pub no_node : is_null (get_field "node_id" after) ≡ true
    pub unprovisioned : equals_text (get_field "identity_status" after) "unprovisioned" ≡ true
    pub had_firmware : is_truthy (get_field "firmware_version" selected.before) ≡ true
    pub same_firmware :
        same (get_field "firmware_version" after) (get_field "firmware_version" selected.before)
        ≡ true

  pub record IsSound (s : Run) : Type 0 where
    pub confirmed :
        (id secret : Json)
        → Member (confirm_factory_reset id secret) s.requests
        → IsSelected × IsChallenged id secret
    pub complete : s.operation.state ≡ physical_complete → IsReset

  pub edit-Keeps :
      (f : Operation → Operation)
      → ((p : Operation)
          → (f p).state ≡ physical_complete
          → (p.state ≡ physical_complete) ⊎ IsReset)
      → Keeps IsSound Any (edit f)
  unfolding Keeps
  edit-Keeps f each s i =
      (record { confirmed = i.confirmed; complete = λ e. of_state (each s.operation e) }, tt)
    where
      of_state : (s.operation.state ≡ physical_complete) ⊎ IsReset → IsReset
      of_state (inl e) = i.complete e
      of_state (inr r) = r

  pub note-Keeps : (t : String) → Keeps IsSound Any (note t)
  note-Keeps t = edit-Keeps _ (λ p e. inl e)

  pub ask-Keeps :
      (r : Request) (a : Answer)
      → ((id secret : Json)
          → r ≡ confirm_factory_reset id secret
          → IsSelected × IsChallenged id secret)
      → Keeps IsSound (λ b. b ≡ a) (ask r a)
  unfolding Keeps
  ask-Keeps r a allowed s i = (
    record {
      confirmed = λ id secret m. of_requests id secret (Member-append _ s.requests r m);
      complete = i.complete;
    },
    refl,
  )
    where
      of_requests :
          (id secret : Json)
          → Member (confirm_factory_reset id secret) s.requests
            ⊎ (r ≡ confirm_factory_reset id secret)
          → IsSelected × IsChallenged id secret
      of_requests id secret (inl m) = i.confirmed id secret m
      of_requests id secret (inr e) = allowed id secret e

  -- An answer that is a reply of the first or of the second attempt.
  abbrev pub OneOf : Answer → Answer → Fields → Type 0
  OneOf first second fs = (first ≡ reply fs) ⊎ (second ≡ reply fs)

  at_last-Keeps :
      (e : UsbError) (first second : Answer) (a : Answer)
      → a ≡ second
      → Keeps IsSound (OneOf first second) (at_last e a)
  at_last-Keeps e first second (reply fs) h =
      pure-Keeps UsbError IsSound (OneOf first second) fs (inr (sym h))
  at_last-Keeps e first second protocol_error h = raise-Keeps IsSound (OneOf first second) e
  at_last-Keeps e first second other_error h =
      raise-Keeps IsSound (OneOf first second) client_failed

  pub retry_state-Keeps :
      (a : Answer)
      → a ≡ sensor.first_state
      → Keeps IsSound (OneOf sensor.first_state sensor.second_state) (retry_state same sensor o a)
  retry_state-Keeps (reply fs) h =
      pure-Keeps UsbError IsSound (OneOf sensor.first_state sensor.second_state) fs (inl (sym h))
  retry_state-Keeps protocol_error h =
      bind-Keeps IsSound _ (OneOf sensor.first_state sensor.second_state) _ _
        (ask-Keeps read_node_state sensor.second_state (λ id secret e. cc))
        (λ a e. at_last-Keeps identity_unreadable sensor.first_state sensor.second_state a e)
  retry_state-Keeps other_error h = raise-Keeps IsSound _ client_failed

  pub retry_challenge-Keeps :
      (a : Answer)
      → a ≡ sensor.first_challenge
      → Keeps IsSound
          (OneOf sensor.first_challenge sensor.second_challenge)
          (retry_challenge same sensor o a)
  retry_challenge-Keeps (reply fs) h =
      pure-Keeps UsbError IsSound (OneOf sensor.first_challenge sensor.second_challenge) fs
        (inl (sym h))
  retry_challenge-Keeps protocol_error h =
      then-Keeps IsSound (OneOf sensor.first_challenge sensor.second_challenge)
        (note "retrying_device_reset_challenge") _ (note-Keeps "retrying_device_reset_challenge")
        (λ _.
          bind-Keeps IsSound _ (OneOf sensor.first_challenge sensor.second_challenge) _ _
            (ask-Keeps prepare_factory_reset sensor.second_challenge (λ id secret e. cc))
            (λ a e.
              at_last-Keeps challenge_timed_out sensor.first_challenge sensor.second_challenge a e))
  retry_challenge-Keeps other_error h = raise-Keeps IsSound _ client_failed

  pub some-Keeps :
      {A : Type 0} (x : Option A) (e : UsbError) → Keeps IsSound (λ a. x ≡ some a) (demand_some x e)
  some-Keeps none e = raise-Keeps IsSound _ e
  some-Keeps (some a) e = pure-Keeps UsbError IsSound _ a refl

  pub taken-Keeps : (a : Answer) → Keeps IsSound Any (taken same sensor o a)
  taken-Keeps (reply fs) = pure-Keeps UsbError IsSound Any fs tt
  taken-Keeps protocol_error = raise-Keeps IsSound Any client_failed
  taken-Keeps other_error = raise-Keeps IsSound Any client_failed
