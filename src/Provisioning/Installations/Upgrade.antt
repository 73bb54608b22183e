-- ===== src/Provisioning/Installations/Upgrade.antt =====
-- A profile upgrade that fails to apply, for an installation in any state.
use seed_mg.Prelude.{
  String, ◌≡◌, ◌≢◌, refl, true, false, Option, none, some, str_eq, sym, ap, subst, Result, ok, err,
  if-cases, inl, inr, not_true,
}
use seed_mg.Models.States.{ProvisioningState, VerificationStatus, ConfigurationError}
use seed_mg.Models.Installation.{SensorInstallation}
use seed_mg.Profiles.Model.{SensorProfile}
use seed_mg.Node.Capabilities.{NodeCapabilities, capabilities}
use seed_mg.Node.Configuration
use seed_mg.Provisioning.Database.{Database, get, get_device, touch, update}
use seed_mg.Provisioning.Database.Laws.{get-update_self}
use seed_mg.Provisioning.Validation.{World, provisioning, ProvisioningError}
use seed_mg.Provisioning.Apply.{apply}
use seed_mg.Provisioning.Apply.Rollback.{IsQuiet}
use seed_mg.Provisioning.Apply.Settling.{apply-eq_err}
use seed_mg.Provisioning.Installations.{
  Gateway, upgrade_profile, upgrade_row, upgrade_to, upgrade_able, upgrade_checked, set_upgraded,
}

module _ (g : Gateway) (id version : String) (db db' : Database) (i : SensorInstallation)
    (found : get id db ≡ some i) (newer : str_eq version i.sensor_profile_version ≡ false) where
  upgrade_able-eq_ok :
      (p : SensorProfile) (o : Option NodeCapabilities)
      → upgrade_able g id version i p db o ≡ (ok tt, db')
      → db' ≡ update id (set_upgraded version) g.now db
  unfolding upgrade_able
  upgrade_able-eq_ok p none h = cc (ap (λ x. x.0) h)
  upgrade_able-eq_ok p (some able) h =
      checked (Configuration.validate g.versions p able i.interface_id i.configuration_json) h
    where
      checked :
          (r : Result ConfigurationError Unit)
          → upgrade_checked g id version db r ≡ (ok tt, db')
          → db' ≡ update id (set_upgraded version) g.now db
      checked (err e) k = cc (ap (λ x. x.0) k)
      checked (ok done) k = sym (ap (λ x. x.1) k)

  upgrade_profile-eq_ok :
      upgrade_profile g id version db ≡ (ok tt, db')
      → db' ≡ update id (set_upgraded version) g.now db
  unfolding upgrade_profile
  upgrade_profile-eq_ok h =
      known (g.profile i.sensor_profile_id version)
        (subst (λ o. upgrade_row g id version db o ≡ (ok tt, db')) found h)
    where
      known :
          (o : Option SensorProfile)
          → upgrade_to g id version i db o ≡ (ok tt, db')
          → db' ≡ update id (set_upgraded version) g.now db
      known none k = cc (ap (λ x. x.0) k)
      known (some p) k = elim (if-cases (str_eq version i.sensor_profile_version) _ _ _ k) [
        | inl (same, k') ↦ absurd (not_true newer same)
        | inr (differs, k') ↦ upgrade_able-eq_ok p (capabilities (get_device i.node_id db) none) k'
      ]

-- Given that the new transaction id is not empty and that no other task changes the tables while
-- `apply` waits: after a profile upgrade of an installation in any state, a draft that was never
-- verified too, an `apply` that has changed the tables and ends in a `ProvisioningError` leaves the
-- installation active, enabled and marked as verified, with its configuration as it was.
pub upgrade-apply_marks_verified :
    (g : Gateway) (w : World) (id version : String) (db db' db'' : Database)
    (i : SensorInstallation) (e : ProvisioningError)
    → IsQuiet w
    → str_eq w.new_transaction "" ≡ false
    → get id db ≡ some i
    → str_eq version i.sensor_profile_version ≡ false
    → upgrade_profile g id version db ≡ (ok tt, db')
    → apply w id db' ≡ (err (provisioning e), db'')
    → db'' ≢ db'
    → (j : SensorInstallation) × (get id db'' ≡ some j)
      × (j.provisioning_state ≡ ProvisioningState.active)
      × (j.enabled ≡ true)
      × (j.verification_status ≡ VerificationStatus.verified)
      × (j.configuration_json ≡ i.configuration_json)
upgrade-apply_marks_verified g w id version db db' db'' i e quiet named found newer upgraded applied
      changed =
    let written = upgrade_profile-eq_ok g id version db db' i found newer upgraded in
    let at =
      subst (λ x. get id x ≡ some (touch g.now (set_upgraded version) i)) (sym written)
        (get-update_self id (set_upgraded version) g.now db (λ r. refl) i found) in
    elim (apply-eq_err w quiet named id e db' db'' (touch g.now (set_upgraded version) i) at
      applied) [
        | inl same ↦ absurd (changed same)
        | inr (j, there, s) ↦
            let (config, state, on, status) = s.restored i.configuration_json refl in
            (j, there, state, on, status, config)
      ]
