-- ===== src/Ble/Provisioner/Flows.antt =====
-- ble_provisioning.py: what a provisioning and a configuration write, and how long the queue gets.
use seed_mg.Prelude.{
  not, leb, ℕ, String, ◌≡◌, refl, subst, Bool, true, false, ◌&&◌, Option, none, some, List, [], ◌∷◌,
  ◌++◌, if◌then◌else◌, Result,
}
use seed_mg.Models.Json.{
  Json, Fields, find_field, get_field, equals_text, is_hashable, object, null, boolean, numeric,
  text, array,
}
use seed_mg.Ble.Task.Keeps.{
  Any, Any-WhenOk, Keeps, bind-Keeps, then-Keeps, demand-Keeps, lift-Keeps, branch-Keeps,
  pure-Keeps, raise-Keeps,
}
use seed_mg.Ble.Task.{◌>>=◌, ◌>>◌, pure, raise, lift, demand}
use seed_mg.Ble.Provisioner.{
  BleError, Requested, Values, configuration_values, Command, prov, cfgset, provget, command_length,
  is_node_id, is_transaction, upper, Characteristic, metadata_uuid, capabilities_uuid, Client,
  Session, readback_matches, invalid_node_id, invalid_transaction, busy, command_too_long,
  readback_mismatch, not_the_verified_sensor, unsupported_protocol, no_persistent_readback,
  assigned_elsewhere, bootstrap_exposed, type_error, attribute_error,
}
use seed_mg.Ble.Provisioner.Waiting.{wait_for, write, step, fields_of, Conversation}
use seed_mg.Ble.Provisioner.Provision.{
  Acknowledged, by_node, resume_readback, unassigned, readback_support, read_back, replace,
  configure_connected, assign, verify_before, read_after, is_hidden, is_supported, check_node,
  provision_connected, provision, configure,
}
use seed_mg.Ble.Provisioner.Invariants.{
  IsKeptByWaits, Kept, IsRead, wait-Keeps, write-Keeps, step-Keeps, read_json-Keeps,
  read_onboarding-Keeps,
}

module _ {D : Type 0} (client : Client D) (loads : List ℕ → Option Json) (Q : List Fields → Type 0)
    (W : List Command → Type 0) (rule : IsKeptByWaits client loads Q)
    (asked : (tx : String) (w : List Command) → W w → W (w ++ (provget tx ∷ []))) where
  abbrev pub I : Session D → Type 0
  I = Kept client loads Q W rule

  abbrev pub Stays : {A : Type 0} → (A → Type 0) → Conversation client loads A → Type 0
  Stays P m = Keeps I P m

  pub waits : (tx : String) (codes : List String) → Stays Any (wait_for client loads tx codes)
  waits = wait-Keeps client loads Q W rule

  steps : (f : D → Option D) → Stays Any (step client loads f)
  steps = step-Keeps client loads Q W rule

  pub returns : {A : Type 0} (a : A) → Stays Any (pure a)
  returns a = pure-Keeps BleError I Any a tt

  demands :
      {B : Type 0} (c : Bool) (e : BleError) (k : Conversation client loads B)
      → Stays Any k
      → Stays Any (demand c e >> k)
  demands = demand-Keeps I Any

  pub follows :
      {A B : Type 0} (m : Conversation client loads A) (f : A → Conversation client loads B)
      → Stays Any m
      → ((a : A) → Stays Any (f a))
      → Stays Any (m >>= f)
  follows = then-Keeps I Any

  branches :
      {A : Type 0} (b : Bool) (m k : Conversation client loads A)
      → Stays Any m
      → Stays Any k
      → Stays Any (if b then m else k)
  branches = branch-Keeps I Any

  lifts : {A : Type 0} (r : Result BleError A) → Stays Any (lift r)
  lifts r = lift-Keeps I Any r (Any-WhenOk r)

  abbrev pub From : Characteristic → Json → Type 0
  From = IsRead client loads Q W rule

  module _ (node_id tx : String) (values : Values) where
    read_back-Stays : Stays Any (read_back client loads node_id tx values)
    read_back-Stays =
        follows _ _ (write-Keeps client loads Q W rule (provget tx) (asked tx))
          (λ _. waits tx ("readback" ∷ []))

    replace-Stays :
        ((w : List Command) → W w → W (w ++ (cfgset tx values ∷ [])))
        → Stays Any (replace client loads node_id tx values)
    replace-Stays add = follows _ _ (write-Keeps client loads Q W rule (cfgset tx values) add) (λ _.
        follows _ _ (waits tx ("configured" ∷ [])) (λ a.
          follows _ _ read_back-Stays
            (λ r. follows _ _ (steps client.stop_notify) (λ _. demands _ _ _ (returns _)))))

    configure_connected-Stays :
        ((w : List Command) → W w → W (w ++ (cfgset tx values ∷ [])))
        → Stays Any (configure_connected client loads node_id tx values)
    unfolding configure_connected
    configure_connected-Stays add = follows _ _ (steps client.connect) (λ _.
        follows _ _ (steps client.start_notify) (λ _. follows _ _ read_back-Stays (λ before.
          demands _ _ _ (
            branches (readback_matches before values) _ _
              (follows _ _ (steps client.stop_notify) (λ _. returns _)) (replace-Stays add)))))

    verify-Stays : (o : Option String) → Stays Any (verify_before client loads node_id tx values o)
    verify-Stays none = returns tt
    verify-Stays (some identity) =
        follows _ _ (read_onboarding-Keeps client loads Q W rule)
          (λ before. ends (equals_text (get_field "onboarding_identity" before) identity))
      where
        ends : (b : Bool) → Stays Any (demand b not_the_verified_sensor)
        ends true = returns tt
        ends false = raise-Keeps I Any not_the_verified_sensor

    after-Stays : (o : Option String) → Stays Any (read_after client loads node_id tx values o)
    after-Stays none = returns none
    after-Stays (some identity) =
        follows _ _ (read_onboarding-Keeps client loads Q W rule) (λ after. returns (some after))

    -- `assign` on a node that is checked.
    abbrev pub AssignStays : Type 0
    AssignStays =
        (fs : Fields)
        → From metadata_uuid (object fs)
        → Stays Any (assign client loads node_id tx values fs)

    -- `PROV` is written only to a node without an identity.
    pub assign-Stays :
        (fs : Fields)
        → (equals_text (get_field "node_id" fs) unassigned ≡ true
            → (w : List Command) → W w
            → W (w ++ (prov tx node_id values ∷ [])))
        → Stays Any (assign client loads node_id tx values fs)
    assign-Stays fs add = by_identity (equals_text (get_field "node_id" fs) unassigned) refl
      where
        written : Conversation client loads Acknowledged
        written =
            write client loads (prov tx node_id values)
            >> (wait_for client loads tx ("provisioned" ∷ "already_committed" ∷ []) >>= λ reply.
                pure (by_node reply))

        kept : Conversation client loads Acknowledged
        kept =
            if equals_text (get_field "node_id" fs) node_id
            then pure resume_readback
            else raise assigned_elsewhere

        by_identity :
            (b : Bool)
            → equals_text (get_field "node_id" fs) unassigned ≡ b
            → Stays Any (if b then written else kept)
        by_identity true e =
            follows _ _ (write-Keeps client loads Q W rule (prov tx node_id values) (add e)) (λ _.
              follows _ _ (waits tx ("provisioned" ∷ "already_committed" ∷ []))
                (λ reply. returns (by_node reply)))
        by_identity false e =
            branches (equals_text (get_field "node_id" fs) node_id) _ _ (returns resume_readback)
              (raise-Keeps I Any assigned_elsewhere)

    abbrev Metadata : Fields × Fields → Type 0
    Metadata n = From metadata_uuid (object n.0)

    fields-Stays :
        {B : Type 0} (P : B → Type 0) (j : Json) (f : Fields → Conversation client loads B)
        → ((fs : Fields) → j ≡ object fs → Keeps I P (f fs))
        → Keeps I P (fields_of client loads j >>= f)
    fields-Stays P (object fs) f each = each fs refl
    fields-Stays P null f each = raise-Keeps I P attribute_error
    fields-Stays P (boolean b) f each = raise-Keeps I P attribute_error
    fields-Stays P (numeric x) f each = raise-Keeps I P attribute_error
    fields-Stays P (text t) f each = raise-Keeps I P attribute_error
    fields-Stays P (array x) f each = raise-Keeps I P attribute_error

    check_node-Keeps :
        (m c : Json)
        → From metadata_uuid m
        → Keeps I Metadata (check_node client loads node_id tx values m c)
    check_node-Keeps m c from = fields-Stays Metadata m _ (λ fs e.
        demand-Keeps I Metadata (is_hashable (get_field "protocol_version" fs)) type_error _ (
          demand-Keeps I Metadata
            (is_supported client loads node_id tx values (get_field "protocol_version" fs))
            unsupported_protocol _
            (fields-Stays Metadata c
              (λ cs. lift (readback_support (find_field "configuration" cs)) >>= supported fs cs)
              (λ cs _.
                then-Keeps I Metadata _ (supported fs cs)
                  (lifts (readback_support (find_field "configuration" cs)))
                  (λ persistent. demand-Keeps I Metadata persistent no_persistent_readback _ (
                    pure-Keeps BleError I Metadata (fs, cs)
                      (subst (From metadata_uuid) e from)))))))
      where
        supported : Fields → Fields → Bool → Conversation client loads (Fields × Fields)
        supported fs cs persistent = demand persistent no_persistent_readback >> pure (fs, cs)

    provision_connected-Stays :
        AssignStays
        → (o : Option String) → Stays Any (provision_connected client loads node_id tx values o)
    unfolding provision_connected
    provision_connected-Stays assigns o = follows _ _ (steps client.connect) (λ _.
        follows _ _ (verify-Stays o) (λ _.
          bind-Keeps I _ Any _ _ (read_json-Keeps client loads Q W rule metadata_uuid) (λ m from.
            bind-Keeps I _ Any _ _ (read_json-Keeps client loads Q W rule capabilities_uuid) (λ c _.
              bind-Keeps I Metadata Any _ _ (check_node-Keeps m c from) (λ n found.
                follows _ _ (steps client.start_notify) (λ _. follows _ _ (assigns n.0 found) (λ a.
                  follows _ _ read_back-Stays (λ r. follows _ _ (after-Stays o) (λ after.
                    follows _ _ (steps client.stop_notify) (λ _.
                      demands (equals_text (get_field "id" r) node_id && readback_matches r values)
                        readback_mismatch _
                        (demands (is_hidden client loads node_id tx values after) bootstrap_exposed
                          _ (returns _))))))))))))

  -- What the writes of a provisioning and a configuration must keep.
  pub provision-Stays :
      (locked : Bool) (node_id tx : String) (c : Requested) (o : Option String)
      → ((values : Values) → AssignStays node_id (upper tx) values)
      → Stays Any (provision client loads locked node_id tx c o)
  unfolding provision
  provision-Stays locked node_id tx c o assigns = demands (is_node_id node_id) invalid_node_id _ (
      demands (is_transaction tx) invalid_transaction _ (
        demands (not locked) busy _ (
          follows _ _ (lifts (configuration_values c)) (λ values.
            demands (leb (command_length (prov (upper tx) node_id values)) 191) command_too_long _
              (provision_connected-Stays node_id (upper tx) values (assigns values) o)))))

  pub configure-Stays :
      (locked : Bool) (node_id tx : String) (c : Requested)
      → ((values : Values) (w : List Command) → W w → W (w ++ (cfgset (upper tx) values ∷ [])))
      → Stays Any (configure client loads locked node_id tx c)
  unfolding configure
  configure-Stays locked node_id tx c add = demands (is_transaction tx) invalid_transaction _ (
      follows _ _ (lifts (configuration_values c)) (λ values.
        demands (leb (command_length (cfgset (upper tx) values)) 191) command_too_long _ (
          demands (not locked) busy _
            (configure_connected-Stays node_id (upper tx) values (add values)))))
