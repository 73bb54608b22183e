-- ===== src/Provisioning/Apply/Settling.antt =====
-- `apply` as a whole, where no other task interferes.
use seed_mg.Prelude.{
  String, ◌≡◌, refl, false, Option, none, some, str_eq, ◌⊎◌, sym, ap, subst, Result, ok, err,
  if-cases, inl, inr, ◌∙◌,
}
use seed_mg.Models.States.{is_active}
use seed_mg.Models.Installation.{InstallationConfiguration, SensorInstallation}
use seed_mg.Provisioning.Database.{Database, get, touch}
use seed_mg.Provisioning.Validation.{World, Raised, provisioning, ProvisioningError, live}
use seed_mg.Provisioning.Apply.{
  set_applying, acknowledge, continue_apply, apply_row, apply, begin, Begun, finished, started,
}
use seed_mg.Provisioning.Apply.Guards.{begin-eq_err}
use seed_mg.Provisioning.Apply.Opening.{Opened, begin-eq_started, live-eq_some}
use seed_mg.Provisioning.Apply.Rollback.{SettledAt, Settled-of_same, IsQuiet, acknowledge-Settled}

some-injective_row : (a b : SensorInstallation) → some a ≡ some b → a ≡ b
some-injective_row a b h = cc

module _ (w : World) (quiet : IsQuiet w) (named : str_eq w.new_transaction "" ≡ false) (id : String)
    (e : ProvisioningError) (db db' : Database) (i : SensorInstallation)
    (found : get id db ≡ some i) where
  Opened-Settled :
      (sent : InstallationConfiguration) (db1 : Database)
      → Opened w id i.node_id i.interface_id db sent db1
      → acknowledge w id w.new_transaction
          (w.apply i.node_id i.interface_id w.new_transaction sent)
          (w.while_applying db1)
        ≡ (err (provisioning e), db')
      → SettledAt id i db'
  Opened-Settled sent db1 o h =
      let same = some-injective_row o.row i (sym o.found ∙ found) in
      let (j, at, s) =
        acknowledge-Settled w quiet id e (w.apply i.node_id i.interface_id w.new_transaction sent)
          db1 db' (touch w.now (set_applying w.new_transaction) o.row) w.new_transaction o.result
          refl named
          (subst
            (λ x.
              acknowledge w id w.new_transaction
                (w.apply i.node_id i.interface_id w.new_transaction sent) x
              ≡ (err (provisioning e), db'))
            (quiet.applying db1) h) in
      (
        j,
        at,
        Settled-of_same (ap (λ r. r.configuration_json) (sym same))
            (ap (λ r. r.previous_configuration_json) (sym same)) s,
      )

  -- Given that the new transaction id is not empty and that no other task changes the tables while
  -- `apply` waits (for its locks, for the node's acknowledgement and for the read-back): an `apply`
  -- that ends in a `ProvisioningError` changes nothing, or leaves the row settled: back on the
  -- previous configuration, active and enabled, or, with none, failed or reconciling and disabled
  -- with its own configuration. Such an `apply` never leaves the row `applying` or `verifying`;
  -- nothing is said of an exception of another class.
  pub apply-eq_err : apply w id db ≡ (err (provisioning e), db') → (db' ≡ db) ⊎ SettledAt id i db'
  unfolding apply
  apply-eq_err h = of_row (live (get id db)) refl h
    where
      of_begun :
          (r : Result Raised Begun × Database)
          → begin w id i.node_id i.interface_id db ≡ r
          → continue_apply w id i.node_id i.interface_id r ≡ (err (provisioning e), db')
          → (db' ≡ db) ⊎ SettledAt id i db'
      of_begun (err x, db1) begun k =
          inl (sym (ap (λ y. y.1) k) ∙ begin-eq_err w id i.node_id i.interface_id db db1 x begun)
      of_begun (ok (finished r), db1) begun k = cc (ap (λ y. y.0) k)
      of_begun (ok (started sent), db1) begun k = inr (
          Opened-Settled sent db1 (begin-eq_started w id i.node_id i.interface_id db db1 sent begun)
            k)

      of_row :
          (o : Option SensorInstallation)
          → live (get id db) ≡ o
          → apply_row w id db o ≡ (err (provisioning e), db')
          → (db' ≡ db) ⊎ SettledAt id i db'
      of_row none lives k = inl (sym (ap (λ y. y.1) k))
      of_row (some r) lives k =
          let same = some-injective_row r i (sym (live-eq_some (get id db) r lives).0 ∙ found) in
          let k1 = subst (λ x. apply_row w id db (some x) ≡ (err (provisioning e), db')) same k in
          elim (if-cases (is_active i.provisioning_state) _ _ _ k1) [
            | inl (on, k2) ↦ cc (ap (λ y. y.0) k2)
            | inr (off, k2) ↦ of_begun (begin w id i.node_id i.interface_id db) refl (
                subst
                  (λ x.
                    continue_apply w id i.node_id i.interface_id
                      (begin w id i.node_id i.interface_id x)
                    ≡ (err (provisioning e), db'))
                  (quiet.locking db) k2)
          ]
