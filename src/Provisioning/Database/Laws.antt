-- ===== src/Provisioning/Database/Laws.antt =====
-- What the reads of the repositories see after its writes.
use seed_mg.Prelude.{
  ℕ, String, ◌≡◌, refl, none, some, List, [], ◌∷◌, ◌++◌, eq_refl, eq_iff, row, row-set_row, key-row,
  arith,
}
use seed_mg.Models.Installation.{SensorInstallation, ProvisioningAttempt}
use seed_mg.Provisioning.Database.{
  Database, get, get_attempt, update, update_attempt, add_attempt, installation_key, attempt_key,
  touch, touch_attempt,
}

-- The assignments leave the key of a row alone.
abbrev pub KeepsId : (SensorInstallation → SensorInstallation) → Type 0
KeepsId f = (r : SensorInstallation) → (f r).installation_id ≡ r.installation_id

module _ (id : String) (f : SensorInstallation → SensorInstallation) (now : ℕ) (db : Database)
    (keeps : KeepsId f) where
  pub get-update_self :
      (i : SensorInstallation)
      → get id db ≡ some i
      → get id (update id f now db) ≡ some (touch now f i)
  unfolding update
  get-update_self i h =
      rw (row-set_row installation_key id id (touch now f) db.installations keeps) (rw (eq_refl, h))

  pub get-update_none : get id db ≡ none → get id (update id f now db) ≡ none
  unfolding update
  get-update_none h =
      rw (row-set_row installation_key id id (touch now f) db.installations keeps) (rw (eq_refl, h))

pub get-update_attempt :
    (id tx : String) (f : ProvisioningAttempt → ProvisioningAttempt) (now : ℕ) (db : Database)
    → get id (update_attempt tx f now db) ≡ get id db
unfolding update_attempt
get-update_attempt id tx f now db = refl

pub id-get :
    (id : String) (db : Database) (i : SensorInstallation)
    → get id db ≡ some i
    → i.installation_id ≡ id
id-get id db i h = key-row installation_key id db.installations i h

pub get_attempt-update_self :
    (tx : String) (f : ProvisioningAttempt → ProvisioningAttempt) (now : ℕ) (db : Database)
    (a : ProvisioningAttempt)
    → ((b : ProvisioningAttempt) → (f b).transaction_id ≡ b.transaction_id)
    → get_attempt tx db ≡ some a
    → get_attempt tx (update_attempt tx f now db) ≡ some (touch_attempt now f a)
unfolding update_attempt
get_attempt-update_self tx f now db a keeps h =
    rw (row-set_row attempt_key tx tx (touch_attempt now f) db.attempts keeps) (rw (eq_refl, h))

row-append_new :
    (k : String) (rs : List ProvisioningAttempt) (a : ProvisioningAttempt)
    → a.transaction_id ≡ k
    → row attempt_key k rs ≡ none
    → row attempt_key k (rs ++ a ∷ []) ≡ some a
unfolding row
row-append_new k [] a e h = ground (arith, eq_iff a.transaction_id k)
row-append_new k (r ∷ rs) a e h = ground (arith, row-append_new k rs a e)

-- The new attempt is found under its transaction, and the installations are as they were.
pub add_attempt-eq_some :
    (a : ProvisioningAttempt) (db db' : Database)
    → add_attempt a db ≡ some db'
    → (get_attempt a.transaction_id db' ≡ some a)
      × (db'.installations ≡ db.installations)
      × (get_attempt a.transaction_id db ≡ none)
unfolding add_attempt
add_attempt-eq_some a db db' h = ground (arith, row-append_new a.transaction_id db.attempts a refl)
