-- ===== src/Provisioning/Installations/Drafts.antt =====
-- What `create_draft` stores, and what it refuses.
use seed_mg.Prelude.{
  ◌≡◌, refl, true, not, ◌||◌, Option, none, some, sym, ap, subst, arith, Result, ok, err, if-cases,
  inl, inr, ◌∙◌, [], ◌∷◌, ◌++◌, is_some, require_some-bind-eq_ok, require-bind-eq_ok,
  unit-bind-eq_ok,
}
use seed_mg.Models.States.{ConfigurationError}
use seed_mg.Models.Installation.{SensorInstallation}
use seed_mg.Profiles.Model.{SensorProfile}
use seed_mg.Node.Capabilities.{NodeInterface, NodeCapabilities, capabilities}
use seed_mg.Node.Configuration
use seed_mg.Node.Configuration.{interface_of}
use seed_mg.Provisioning.Database.{
  Database, get, get_by_device_id, get_device, occupied_interface, create,
}
use seed_mg.Provisioning.Installations.{
  InstallationError, Gateway, InstallationCreate, check_request, draft_row, create_draft,
  create_checked, store_draft, free as not_taken, as_installation,
}

-- What holds of a request whose draft was stored.
pub record Stored (g : Gateway) (r : InstallationCreate) (db db' : Database) : Type 0 where
  pub pattern : g.matches r.device_id ≡ true
  pub unassigned : get_by_device_id r.device_id db ≡ none
  pub no_node : get_device r.device_id db ≡ none
  pub profile : SensorProfile
  pub known : g.profile r.sensor_profile_id r.sensor_profile_version ≡ some profile
  pub able : NodeCapabilities
  pub node : capabilities (get_device r.node_id db) none ≡ some able
  pub accepted :
      Configuration.validate g.versions profile able r.interface_id r.configuration ≡ ok tt
  pub interface : NodeInterface
  pub named : interface_of able r.interface_id ≡ some interface
  pub free : interface.exclusive ≡ true → occupied_interface r.node_id r.interface_id none db ≡ none
  pub result : db'.installations ≡ db.installations ++ draft_row g r profile ∷ []
  pub attempts : db'.attempts ≡ db.attempts

is_some-not : {A : Type 0} (o : Option A) → not (is_some o) ≡ true → o ≡ none
is_some-not none h = refl
is_some-not (some a) h = cc

as_installation-eq_ok : (r : Result ConfigurationError Unit) → as_installation r ≡ ok tt → r ≡ ok tt
as_installation-eq_ok (ok u) h = refl
as_installation-eq_ok (err e) h = cc

free-eq_ok :
    (i : NodeInterface) (o : Option SensorInstallation)
    → not_taken i o ≡ ok tt
    → i.exclusive ≡ true
    → o ≡ none
free-eq_ok i o h e = ground arith

-- The checks of a request that gave the profile `p`.
record Passed (g : Gateway) (r : InstallationCreate) (db : Database) (p : SensorProfile)
    : Type 0 where
  pattern : g.matches r.device_id ≡ true
  unassigned : get_by_device_id r.device_id db ≡ none
  no_node : get_device r.device_id db ≡ none
  known : g.profile r.sensor_profile_id r.sensor_profile_version ≡ some p
  able : NodeCapabilities
  node : capabilities (get_device r.node_id db) none ≡ some able
  accepted : Configuration.validate g.versions p able r.interface_id r.configuration ≡ ok tt
  interface : NodeInterface
  named : interface_of able r.interface_id ≡ some interface
  free : interface.exclusive ≡ true → occupied_interface r.node_id r.interface_id none db ≡ none

check_request-eq_ok :
    (g : Gateway) (r : InstallationCreate) (db : Database) (p : SensorProfile)
    → check_request g r db ≡ ok p
    → Passed g r db p
unfolding check_request
check_request-eq_ok g r db p h =
    let (matches, h1) = require-bind-eq_ok (g.matches r.device_id) _ _ h in
    let (unassigned, h2) =
      require-bind-eq_ok (not (is_some (get_by_device_id r.device_id db))) _ _ h1 in
    let (no_node, h3) = require-bind-eq_ok (not (is_some (get_device r.device_id db))) _ _ h2 in
    let (q, known, h4) =
      require_some-bind-eq_ok (g.profile r.sensor_profile_id r.sensor_profile_version) _ _ h3 in
    let (able, node, h5) =
      require_some-bind-eq_ok (capabilities (get_device r.node_id db) none) _ _ h4 in
    let (accepted, h6) =
      unit-bind-eq_ok
        (as_installation (Configuration.validate g.versions q able r.interface_id r.configuration))
        _ h5 in
    let (interface, named, h7) =
      require_some-bind-eq_ok (interface_of able r.interface_id) _ _ h6 in
    let (free, h8) =
      unit-bind-eq_ok (not_taken interface (occupied_interface r.node_id r.interface_id none db)) _
        h7 in
    let same = ok-injective q p h8 in
    record {
      pattern = matches;
      unassigned = is_some-not _ unassigned;
      no_node = is_some-not _ no_node;
      known = known ∙ ap some same;
      able = able;
      node = node;
      accepted =
          subst
            (λ x. Configuration.validate g.versions x able r.interface_id r.configuration ≡ ok tt)
            same (as_installation-eq_ok _ accepted);
      interface = interface;
      named = named;
      free = free-eq_ok interface _ free;
    }
  where
    ok-injective :
        (a b : SensorProfile)
        → ◌≡◌ {A = Result InstallationError SensorProfile} (ok a) (ok b)
        → a ≡ b
    ok-injective a b e = cc

some-injective_db : (a b : Database) → some a ≡ some b → a ≡ b
some-injective_db a b h = cc

-- A draft is stored only for a new `device_id` of the pattern that names no node, with a known
-- profile and a configuration that it accepts, on an interface that is free if it is exclusive;
-- the draft is the one new row.
pub create_draft-eq_ok :
    (g : Gateway) (r : InstallationCreate) (db db' : Database)
    → create_draft g r db ≡ (ok tt, db')
    → Stored g r db db'
unfolding create_draft create
create_draft-eq_ok g r db db' h = checked (check_request g r db) refl h
  where
    stored :
        (p : SensorProfile) (o : Option Database)
        → create (draft_row g r p) db ≡ o
        → store_draft db o ≡ (ok tt, db')
        → (db'.installations ≡ db.installations ++ draft_row g r p ∷ [])
          × (db'.attempts ≡ db.attempts)
    stored p none c k = cc (ap (λ x. x.0) k)
    stored p (some db1) c k =
        elim (if-cases
          (is_some (get g.new_installation db) || is_some (get_by_device_id r.device_id db)) _ _ _
          c) [
            | inl (taken, k') ↦ cc k'
            | inr (fresh, k') ↦
                let last = some-injective_db _ db1 k' ∙ ap (λ x. x.1) k in
                (sym (ap (λ x. x.installations) last), sym (ap (λ x. x.attempts) last))
          ]

    checked :
        (c : Result InstallationError SensorProfile)
        → check_request g r db ≡ c
        → create_checked g r db c ≡ (ok tt, db')
        → Stored g r db db'
    checked (err e) found k = cc (ap (λ x. x.0) k)
    checked (ok p) found k =
        let passed = check_request-eq_ok g r db p found in
        let (rows, attempts) = stored p (create (draft_row g r p) db) refl k in
        record {
          pattern = passed.pattern;
          unassigned = passed.unassigned;
          no_node = passed.no_node;
          profile = p;
          known = passed.known;
          able = passed.able;
          node = passed.node;
          accepted = passed.accepted;
          interface = passed.interface;
          named = passed.named;
          free = passed.free;
          result = rows;
          attempts = attempts;
        }
