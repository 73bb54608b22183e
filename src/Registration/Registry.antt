-- ===== src/Registration/Registry.antt =====
-- device_service.py: the registry stays free of clashes.
use mathlib.Core.Option.{some-injective}
use seed_mg.Prelude.{
  not_true, ℕ, String, ◌≡◌, refl, subst, Bool, true, false, not, ◌&&◌, ◌||◌, inl, inr, Option, none,
  some, List, [], ◌∷◌, ◌++◌, any, find, row, str_eq, eq_iff, is_some, arith, not-eq_true,
  or-eq_false, ok, require, require-bind-eq_ok, unit-bind-eq_ok, ok-injective, if-cases,
}
use seed_mg.Models.Device.{RegisteredDevice}
use seed_mg.Provisioning.Database.{Database, device_key, get_device}
use seed_mg.Registration.{
  Discovery, DeviceCreate, bad_identifier, discovery_changed, not_compatible, address_taken,
  identity_registered, identity_mismatch, is_at, get_by_ble_address, new_device, create,
  check_identity, register,
}

-- Two rows have one identifier, or neither is archived and they have one address.
abbrev pub shares : RegisteredDevice → Option String → Bool
shares d none = false
shares d (some a) = is_at a d.ble_address && not d.archived

abbrev pub clash : RegisteredDevice → RegisteredDevice → Bool
clash e d = str_eq d.device_id e.device_id || not e.archived && shares d e.ble_address

-- No row clashes with a later one.
unfoldable pub AllApart : List RegisteredDevice → Type 0
AllApart [] = Unit
AllApart (d ∷ ds) = (any (λ e. clash e d) ds ≡ false) × AllApart ds

any-append-false :
    (p : RegisteredDevice → Bool) (ds : List RegisteredDevice) (e : RegisteredDevice)
    → any p ds ≡ false
    → p e ≡ false
    → any p (ds ++ (e ∷ [])) ≡ false
any-append-false p [] e h k = ground arith
any-append-false p (d ∷ ds) e h k = ground (arith, any-append-false p ds e)

append-AllApart :
    (ds : List RegisteredDevice) (e : RegisteredDevice)
    → AllApart ds
    → any (clash e) ds ≡ false
    → AllApart (ds ++ (e ∷ []))
unfolding AllApart
append-AllApart [] e h k = (refl, tt)
append-AllApart (d ∷ ds) e (h, hs) k =
    let (apart, rest) = or-eq_false (clash e d) (any (clash e) ds) k in
    (any-append-false (λ x. clash x d) ds e h apart, append-AllApart ds e hs rest)

find-none :
    (p : RegisteredDevice → Bool) (ds : List RegisteredDevice)
    → is_some (find p ds) ≡ false
    → any p ds ≡ false
find-none p [] h = refl
find-none p (d ∷ ds) h = ground (arith, find-none p ds)

row-none :
    (id : String) (ds : List RegisteredDevice)
    → is_some (row device_key id ds) ≡ false
    → any (λ d. str_eq d.device_id id) ds ≡ false
unfolding row
row-none id [] h = refl
row-none id (d ∷ ds) h = ground (arith, row-none id ds)

any-or :
    (p q : RegisteredDevice → Bool) (ds : List RegisteredDevice)
    → any p ds ≡ false
    → any q ds ≡ false
    → any (λ d. p d || q d) ds ≡ false
any-or p q [] h k = refl
any-or p q (d ∷ ds) h k = ground (arith, any-or p q ds)

-- What a registration that succeeds has checked and done.
pub record IsRegistered (pattern : String → Bool) (r : DeviceCreate) (d : Discovery) (db : Database)
    (x : RegisteredDevice × Database) : Type 0 where
  pub identifier : pattern r.device_id ≡ true
  pub selected : r.discovery_address ≡ d.address
  pub compatible : (d.compatible || r.allow_incompatible) ≡ true
  pub own_identity :
      (id : String) → d.stable_device_id ≡ some id → str_eq id "" ≡ false → id ≡ r.device_id
  pub stored : x.1.devices ≡ db.devices ++ (x.0 ∷ [])
  pub named : (x.0.device_id ≡ r.device_id) × (x.0.ble_address ≡ some d.address)
  pub apart : AllApart db.devices → AllApart x.1.devices

identity-agrees :
    (r : DeviceCreate) (o : Option String) (db : Database)
    → check_identity r o db ≡ ok tt
    → (id : String) → o ≡ some id
    → str_eq id "" ≡ false
    → id ≡ r.device_id
identity-agrees r none db h id e k = cc e
identity-agrees r (some i) db h id e k =
    subst (λ j. str_eq j "" ≡ false → j ≡ r.device_id) (some-injective _ _ e) agrees k
  where
    required : (b : Bool) → require b identity_mismatch ≡ ok tt → b ≡ true
    required true g = refl
    required false g = cc

    agrees : str_eq i "" ≡ false → i ≡ r.device_id
    agrees filled = elim (if-cases (str_eq i "") _ _ _ h) [
      | inl (empty, _) ↦ elim (not_true filled empty) [ ]
      | inr (_, j) ↦
          let (_, last) =
            require-bind-eq_ok (not (is_some (get_device i db))) identity_registered _ j in
          (eq_iff i r.device_id).0 (required (str_eq i r.device_id) last)
    ]

-- A registration that succeeds is of an identifier of the pattern, for the discovery that was selected,
-- which is compatible or overridden and has no other stable identity; it adds one row with that
-- identifier and address at the end; and if no two rows had one identifier, or one address and were
-- both unarchived, none have afterwards.
pub register-IsRegistered :
    (pattern : String → Bool) (r : DeviceCreate) (d : Discovery) (key now : ℕ) (db : Database)
    (x : RegisteredDevice × Database)
    → register pattern r d key now db ≡ ok x
    → IsRegistered pattern r d db x
unfolding register create get_by_ble_address
register-IsRegistered pattern r d key now db x h =
    let (identifier, h1) = require-bind-eq_ok (pattern r.device_id) bad_identifier _ h in
    let (selected, h2) =
      require-bind-eq_ok (str_eq r.discovery_address d.address) discovery_changed _ h1 in
    let (compatible, h3) =
      require-bind-eq_ok (d.compatible || r.allow_incompatible) not_compatible _ h2 in
    let (free, h4) =
      require-bind-eq_ok (not (is_some (get_by_ble_address d.address db))) address_taken _ h3 in
    let (identity, h5) = unit-bind-eq_ok (check_identity r d.stable_device_id db) _ h4 in
    elim (if-cases (is_some (get_device r.device_id db)) _ _ _ h5) [
      | inl (_, k) ↦ cc k
      | inr (new, k) ↦
          let fresh =
            any-or (λ e. str_eq e.device_id r.device_id)
              (λ e. is_at d.address e.ble_address && not e.archived) db.devices
              (row-none r.device_id db.devices new) (find-none _ db.devices (not-eq_true _ free)) in
          subst (IsRegistered pattern r d db) (ok-injective refl k) (record {
            identifier = identifier;
            selected = (eq_iff r.discovery_address d.address).0 selected;
            compatible = compatible;
            own_identity = identity-agrees r d.stable_device_id db identity;
            stored = refl;
            named = (refl, refl);
            apart = λ a. append-AllApart db.devices (new_device r d key now) a fresh;
          })
    ]
