-- ===== src/Provisioning/Apply/Rollback.antt =====
-- What a failed transaction leaves: `_fail` and `_uncertain`, and the errors after the opening.
use seed_mg.Prelude.{
  ℕ, String, ◌≡◌, refl, true, false, Option, none, some, str_eq, ◌⊎◌, sym, ap, subst, arith, Result,
  ok, err, if-cases, inl, inr, ◌∙◌, not_true,
}
use mathlib.Core.Bool.{decide}
use seed_mg.Models.States.{ProvisioningState, VerificationStatus, Failure}
use seed_mg.Models.Device.{RegisteredDevice, Reading}
use seed_mg.Models.Installation.{
  InstallationConfiguration, InstallationConfiguration-discrete, SensorInstallation,
  ProvisioningAttempt,
}
use seed_mg.Node.Capabilities.{NodeInterface, NodeCapabilities, capabilities}
use seed_mg.Node.Configuration.{interface_of}
use seed_mg.Provisioning.Database.{
  Database, get, get_device, get_attempt, update, update_attempt, touch,
}
use seed_mg.Provisioning.Database.Laws.{KeepsId, get-update_self, get-update_attempt}
use seed_mg.Provisioning.Validation.{
  World, Raised, provisioning, ProvisioningError, attribute_error, Readback, returned, unread,
  Acknowledgement, acknowledged, timed_out, connection_lost, refused, apply_escaped, read_escaped,
}
use seed_mg.Provisioning.Apply.{
  fail_row, uncertain_row, fail, uncertain, activate, conclude_on, conclude_able, conclude_device,
  conclude_row, conclude, compare_readback, verify_transaction, verify_row, verify, acknowledge,
  latest, is_evidence, set_active, acknowledge_attempt, acknowledge_row, mark_attempt,
  set_verifying,
}

-- The row after a failure: on the previous configuration if there is one, and stopped otherwise.
pub record Settled (before after : SensorInstallation) : Type 0 where
  pub restored :
      (p : InstallationConfiguration)
      → before.previous_configuration_json ≡ some p
      → (after.configuration_json ≡ p)
        × (after.provisioning_state ≡ ProvisioningState.active)
        × (after.enabled ≡ true)
        × (after.verification_status ≡ VerificationStatus.verified)
  pub stopped :
      before.previous_configuration_json ≡ none
      → (after.configuration_json ≡ before.configuration_json)
        × (after.enabled ≡ false)
        × ((after.provisioning_state ≡ ProvisioningState.failed)
            ⊎ (after.provisioning_state ≡ ProvisioningState.reconciling))

fail_row-KeepsId : (e : Failure) → KeepsId (fail_row e)
fail_row-KeepsId e r = ground arith

uncertain_row-KeepsId : (tx : String) (e : Failure) → KeepsId (uncertain_row tx e)
uncertain_row-KeepsId tx e r = ground arith

fail_row-Settled :
    (e : Failure) (now : ℕ) (i : SensorInstallation) → Settled i (touch now (fail_row e) i)
fail_row-Settled e now i = record { restored = λ p h. ground arith; stopped = λ h. ground arith }

uncertain_row-Settled :
    (tx : String) (e : Failure) (now : ℕ) (i : SensorInstallation)
    → Settled i (touch now (uncertain_row tx e) i)
uncertain_row-Settled tx e now i = record {
  restored = λ p h. ground arith;
  stopped = λ h. ground arith;
}

-- The row that is found afterwards has settled.
abbrev pub SettledAt : String → SensorInstallation → Database → Type 0
SettledAt id i db' = (j : SensorInstallation) × (get id db' ≡ some j) × Settled i j

module _ (id tx : String) (e : Failure) (now : ℕ) (db : Database) (i : SensorInstallation)
    (found : get id db ≡ some i) where
  fail-SettledAt : SettledAt id i (fail id tx e now db)
  unfolding fail update_attempt
  fail-SettledAt = (
    touch now (fail_row e) i,
    get-update_self id (fail_row e) now
        (update_attempt tx (λ a. record a { state = ProvisioningState.failed; error = some e }) now
          db)
        (fail_row-KeepsId e) i found,
    fail_row-Settled e now i,
  )

  uncertain-SettledAt : SettledAt id i (uncertain id tx e now db)
  unfolding uncertain update_attempt
  uncertain-SettledAt = (
    touch now (uncertain_row tx e) i,
    get-update_self id (uncertain_row tx e) now
        (update_attempt tx (λ a. record a { state = ProvisioningState.reconciling; error = some e })
          now db)
        (uncertain_row-KeepsId tx e) i found,
    uncertain_row-Settled tx e now i,
  )

module _ (w : World) (id tx : String) (db db' : Database) (i : SensorInstallation)
    (found : get id db ≡ some i) (e : ProvisioningError) where
  settled_by : {x : Database} → SettledAt id i x → x ≡ db' → SettledAt id i db'
  settled_by (j, at, s) h = (j, subst (λ y. get id y ≡ some j) h at, s)

  activate-Settled :
      (o : Option Reading)
      → activate w id tx o db ≡ (err (provisioning e), db')
      → SettledAt id i db'
  unfolding activate
  activate-Settled none h = settled_by (fail-SettledAt id tx _ w.now db i found) (ap (λ x. x.1) h)
  activate-Settled (some r) h = attempt (get_attempt tx db) h
    where
      attempt :
          (o : Option ProvisioningAttempt)
          → elim o as (λ _. Result Raised Unit × Database) [
            | none ↦ (err attribute_error, db)
            | some a ↦ (
              ok tt,
              update id
                  (set_active r)
                  w.now
                  (update_attempt tx (λ a. record a { state = ProvisioningState.active }) w.now db),
            )
          ]
            ≡ (err (provisioning e), db')
          → SettledAt id i db'
      attempt none k = cc (ap (λ x. x.0) k)
      attempt (some a) k = cc (ap (λ x. x.0) k)

  conclude_on-Settled :
      (device : RegisteredDevice) (o : Option NodeInterface)
      → conclude_on w id tx db device o ≡ (err (provisioning e), db')
      → SettledAt id i db'
  unfolding conclude_on
  conclude_on-Settled device none h = cc (ap (λ x. x.0) h)
  conclude_on-Settled device (some s) h =
      activate-Settled (latest (is_evidence w.now device s) db.readings) h

  conclude_able-Settled :
      (device : RegisteredDevice) (o : Option NodeCapabilities)
      → conclude_able w id tx db i device o ≡ (err (provisioning e), db')
      → SettledAt id i db'
  unfolding conclude_able
  conclude_able-Settled device none h = cc (ap (λ x. x.0) h)
  conclude_able-Settled device (some c) h =
      conclude_on-Settled device (interface_of c i.interface_id) h

  conclude_device-Settled :
      (o : Option RegisteredDevice)
      → conclude_device w id tx db i o ≡ (err (provisioning e), db')
      → SettledAt id i db'
  unfolding conclude_device
  conclude_device-Settled none h = cc (ap (λ x. x.0) h)
  conclude_device-Settled (some device) h =
      conclude_able-Settled device (capabilities (some device) none) h

  conclude-Settled : conclude w id tx db ≡ (err (provisioning e), db') → SettledAt id i db'
  unfolding conclude
  conclude-Settled h =
      conclude_device-Settled (get_device i.node_id db)
        (subst (λ o. conclude_row w id tx db o ≡ (err (provisioning e), db')) found h)

  compare_readback-Settled :
      (requested : InstallationConfiguration) (b : Readback)
      → compare_readback w id tx requested b db ≡ (err (provisioning e), db')
      → SettledAt id i db'
  unfolding compare_readback
  compare_readback-Settled requested read_escaped h = cc (ap (λ x. x.0) h)
  compare_readback-Settled requested (unread name) h =
      settled_by (fail-SettledAt id tx _ w.now db i found) (ap (λ x. x.1) h)
  compare_readback-Settled requested (returned actual) h =
      elim (if-cases (decide (InstallationConfiguration-discrete actual requested)) _ _ _ h) [
        | inl (same, k) ↦ conclude-Settled k
        | inr (differs, k) ↦ settled_by (fail-SettledAt id tx _ w.now db i found) (ap (λ x. x.1) k)
      ]

-- What the settling says depends on two columns of the row before.
pub Settled-of_same :
    {i k j : SensorInstallation}
    → i.configuration_json ≡ k.configuration_json
    → i.previous_configuration_json ≡ k.previous_configuration_json
    → Settled k j
    → Settled i j
Settled-of_same c p s = record {
  restored = λ q h. s.restored q (sym p ∙ h);
  stopped = λ h. let (same, off, state) = s.stopped (sym p ∙ h) in (same ∙ sym c, off, state);
}

-- No other task changes the tables while a method waits.
pub record IsQuiet (w : World) : Type 0 where
  pub locking : (db : Database) → w.while_locking db ≡ db
  pub applying : (db : Database) → w.while_applying db ≡ db
  pub reading : (db : Database) → w.while_reading db ≡ db

get-mark_attempt :
    (w : World) (id tx : String) (applied : InstallationConfiguration) (db : Database)
    → get id (mark_attempt w tx applied db) ≡ get id db
unfolding mark_attempt
get-mark_attempt w id tx applied db = get-update_attempt id tx _ w.now db

module _ (w : World) (quiet : IsQuiet w) (id : String) (e : ProvisioningError) where
  verify-Settled :
      (db db' : Database) (i : SensorInstallation) (tx : String)
      → get id db ≡ some i
      → i.active_transaction_id ≡ some tx
      → str_eq tx "" ≡ false
      → verify w id db ≡ (err (provisioning e), db')
      → SettledAt id i db'
  unfolding verify
  verify-Settled db db' i tx found opened nonempty h =
      let h1 = subst (λ o. verify_row w id db o ≡ (err (provisioning e), db')) found h in
      let h2 =
        subst (λ t. verify_transaction w id db i t ≡ (err (provisioning e), db')) opened h1 in
      elim (if-cases (str_eq tx "") _ _ _ h2) [
        | inl (empty, k) ↦ absurd (not_true nonempty empty)
        | inr (full, k) ↦
            compare_readback-Settled w id tx db db' i found e i.configuration_json
              (w.read_back i.node_id i.interface_id tx)
              (subst
                (λ x.
                  compare_readback w id tx i.configuration_json
                    (w.read_back i.node_id i.interface_id tx) x
                  ≡ (err (provisioning e), db'))
                (quiet.reading db) k)
      ]

  pub acknowledge-Settled :
      (a : Acknowledgement) (db db' : Database) (i : SensorInstallation) (tx : String)
      → get id db ≡ some i
      → i.active_transaction_id ≡ some tx
      → str_eq tx "" ≡ false
      → acknowledge w id tx a db ≡ (err (provisioning e), db')
      → SettledAt id i db'
  unfolding acknowledge
  acknowledge-Settled timed_out db db' i tx found opened nonempty h =
      settled_by w id tx db db' i found e (uncertain-SettledAt id tx _ w.now db i found)
        (ap (λ x. x.1) h)
  acknowledge-Settled connection_lost db db' i tx found opened nonempty h =
      settled_by w id tx db db' i found e (uncertain-SettledAt id tx _ w.now db i found)
        (ap (λ x. x.1) h)
  acknowledge-Settled (refused name text) db db' i tx found opened nonempty h =
      settled_by w id tx db db' i found e (fail-SettledAt id tx _ w.now db i found)
        (ap (λ x. x.1) h)
  acknowledge-Settled apply_escaped db db' i tx found opened nonempty h = cc (ap (λ x. x.0) h)
  acknowledge-Settled (acknowledged applied) db db' i tx found opened nonempty h =
      attempt (get_attempt tx db) h
    where
      attempt :
          (o : Option ProvisioningAttempt)
          → acknowledge_attempt w id tx applied db o ≡ (err (provisioning e), db')
          → SettledAt id i db'
      attempt none k = cc (ap (λ x. x.0) k)
      attempt (some a) k =
          let db1 = mark_attempt w tx applied db in
          let k1 =
            subst (λ o. acknowledge_row w id db1 o ≡ (err (provisioning e), db'))
              (get-mark_attempt w id tx applied db ∙ found) k in
          let (j, at, s) =
            verify-Settled (update id set_verifying w.now db1) db' (touch w.now set_verifying i) tx
              (get-update_self id set_verifying w.now db1 (λ r. refl) i
                (get-mark_attempt w id tx applied db ∙ found))
              opened nonempty k1 in
          (j, at, Settled-of_same refl refl s)
