-- ===== src/Provisioning/Apply/Guards.antt =====
-- What `apply` refuses, and that a refusal before the transaction changes nothing.
use seed_mg.Prelude.{String, ◌≡◌, Option, none, some, sym, ap, arith, err, if-cases, inl, inr}
use seed_mg.Models.States.{is_active}
use seed_mg.Models.Device.{CompatibilityStatus}
use seed_mg.Models.Installation.{SensorInstallation}
use seed_mg.Node.Capabilities.{NodeInterface, NodeCapabilities, capabilities}
use seed_mg.Node.Configuration.{interface_of}
use seed_mg.Provisioning.Database.{Database, get, get_device, occupied_interface}
use seed_mg.Provisioning.Validation.{World, Raised, live}
use seed_mg.Provisioning.Apply.{
  begin, begin_free, begin_selected, begin_able, begin_status, begin_row, blocking_status,
  conflicting,
}

module _ (w : World) (id node interface : String) where
  begin_free-eq_err :
      (i : SensorInstallation) (o : Option SensorInstallation) (db db' : Database) (e : Raised)
      → begin_free w id i db o ≡ (err e, db')
      → db' ≡ db
  unfolding begin_free
  begin_free-eq_err i o db db' e h = ground arith

  begin_selected-eq_err :
      (i : SensorInstallation) (o : Option NodeInterface) (db db' : Database) (e : Raised)
      → begin_selected w id node interface i db o ≡ (err e, db')
      → db' ≡ db
  unfolding begin_selected
  begin_selected-eq_err i none db db' e h = sym (ap (λ x. x.1) h)
  begin_selected-eq_err i (some s) db db' e h =
      begin_free-eq_err i (conflicting s (occupied_interface node interface (some id) db)) db db' e
        h

  begin_able-eq_err :
      (i : SensorInstallation) (o : Option NodeCapabilities) (db db' : Database) (e : Raised)
      → begin_able w id node interface i db o ≡ (err e, db')
      → db' ≡ db
  unfolding begin_able
  begin_able-eq_err i none db db' e h = sym (ap (λ x. x.1) h)
  begin_able-eq_err i (some able) db db' e h =
      begin_selected-eq_err i (interface_of able interface) db db' e h

  begin_status-eq_err :
      (i : SensorInstallation) (o : Option CompatibilityStatus) (db db' : Database) (e : Raised)
      → begin_status w id node interface i db o ≡ (err e, db')
      → db' ≡ db
  unfolding begin_status
  begin_status-eq_err i (some s) db db' e h = sym (ap (λ x. x.1) h)
  begin_status-eq_err i none db db' e h =
      begin_able-eq_err i (capabilities (get_device node db) none) db db' e h

  -- Whatever `apply` refuses before it opens a transaction leaves the tables as they were: a
  -- missing, archived or incompatible node, an unknown or taken interface, a wrong state.
  pub begin-eq_err :
      (db db' : Database) (e : Raised) → begin w id node interface db ≡ (err e, db') → db' ≡ db
  unfolding begin
  begin-eq_err db db' e h = of_row (live (get id db)) h
    where
      of_row :
          (o : Option SensorInstallation)
          → begin_row w id node interface db o ≡ (err e, db')
          → db' ≡ db
      of_row none k = sym (ap (λ x. x.1) k)
      of_row (some i) k = elim (if-cases (is_active i.provisioning_state) _ _ _ k) [
        | inl (on, k') ↦ cc (ap (λ x. x.0) k')
        | inr (off, k') ↦ begin_status-eq_err i (blocking_status (get_device node db)) db db' e k'
      ]
