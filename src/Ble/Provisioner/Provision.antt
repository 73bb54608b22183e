-- ===== src/Ble/Provisioner/Provision.antt =====
-- ble_provisioning.py: `configure`, `provision` and `read_state`.
use seed_mg.Prelude.{
  ℕ, String, Bool, true, false, not, ◌&&◌, ◌||◌, Option, none, some, List, [], ◌∷◌, if◌then◌else◌,
  leb, is_some, Result, ok, err,
}
use seed_mg.Models.Json.{
  Json, object, Fields, find_field, get_field, equals_text, is_hashable, is_truthy,
}
use seed_mg.Ble.Onboarding.{OnboardingError, parse_onboarding_payload}
use seed_mg.Ble.Task.{◌>>=◌, ◌>>◌, pure, raise, lift, demand}
use seed_mg.Ble.Provisioner.{
  BleError, invalid_node_id, invalid_transaction, busy, command_too_long, identity_changed,
  readback_mismatch, not_the_verified_sensor, unsupported_protocol, no_persistent_readback,
  assigned_elsewhere, bootstrap_exposed, onboarding, attribute_error, type_error, Requested, Values,
  configuration_values, readback_matches, prov, cfgset, provget, command_length, is_node_id,
  is_transaction, upper, metadata_uuid, capabilities_uuid, onboarding_identity_uuid, Client,
}
use seed_mg.Ble.Provisioner.Waiting.{
  Conversation, wait_for, write, step, read_bytes, read_json, fields_of,
}

-- The acknowledgement: a reply of the node, `already_applied` or `resume_readback`.
pub data Acknowledged : Type 0 where
  by_node : Fields → Acknowledged
  already_applied resume_readback : Acknowledged

pub record Configured : Type 0 where
  pub acknowledgement : Acknowledged
  pub readback : Fields

pub record Provisioned : Type 0 where
  pub acknowledgement : Acknowledged
  pub readback : Fields
  pub metadata : Fields
  pub capabilities : Fields
  pub onboarding_after : Option Fields

abbrev pub unassigned : String
unassigned = "UNASSIGNED-MG24"

-- `capabilities.get("configuration", {}).get("readback")`
abbrev pub readback_support : Option Json → Result BleError Bool
readback_support none = ok false
readback_support (some (object fs)) = ok (is_truthy (get_field "readback" fs))
readback_support (some _) = err attribute_error

abbrev pub refusal : Result OnboardingError Fields → Result BleError Fields
refusal (ok fs) = ok fs
refusal (err OnboardingError.unhashable) = err type_error
refusal (err e) = err (onboarding e)

module _ {D : Type 0} (client : Client D) (loads : List ℕ → Option Json) where
  abbrev pub read_onboarding : Conversation client loads Fields
  read_onboarding = read_bytes client loads onboarding_identity_uuid >>= λ bytes.
      lift (refusal (parse_onboarding_payload loads bytes))

  module _ (node_id tx : String) (values : Values) where
    -- `PROVGET`, and its answer.
    abbrev pub read_back : Conversation client loads Fields
    read_back = do write client loads (provget tx); wait_for client loads tx ("readback" ∷ [])

    abbrev pub replace : Conversation client loads Configured
    replace = do
      write client loads (cfgset tx values)
      acknowledgement ← wait_for client loads tx ("configured" ∷ [])
      readback ← read_back
      step client loads client.stop_notify
      demand (readback_matches readback values) readback_mismatch
      pure (record { acknowledgement = by_node acknowledgement; readback = readback })

    abbrev pub keep_or_replace : Fields → Conversation client loads Configured
    keep_or_replace before =
        if readback_matches before values
        then (do
          step client loads client.stop_notify
          pure (record { acknowledgement = already_applied; readback = before }))
        else replace

    -- `_configure`
    unfoldable pub configure_connected : Conversation client loads Configured
    configure_connected = do
      step client loads client.connect
      step client loads client.start_notify
      before ← read_back
      demand (equals_text (get_field "id" before) node_id) identity_changed
      keep_or_replace before

    -- Who the node is: `PROV` for one without an identity, nothing for the one that is meant.
    abbrev pub assign : Fields → Conversation client loads Acknowledged
    assign metadata =
        if equals_text (get_field "node_id" metadata) unassigned
        then (do
          write client loads (prov tx node_id values)
          reply ← wait_for client loads tx ("provisioned" ∷ "already_committed" ∷ [])
          pure (by_node reply))
        else if equals_text (get_field "node_id" metadata) node_id
        then pure resume_readback
        else raise assigned_elsewhere

    abbrev pub verify_before : Option String → Conversation client loads (Unit {0})
    verify_before none = pure tt
    verify_before (some identity) = read_onboarding >>= λ before.
        demand (equals_text (get_field "onboarding_identity" before) identity)
          not_the_verified_sensor

    abbrev pub read_after : Option String → Conversation client loads (Option Fields)
    read_after none = pure none
    read_after (some identity) = read_onboarding >>= λ after. pure (some after)

    abbrev pub is_hidden : Option Fields → Bool
    is_hidden none = true
    is_hidden (some after) =
        equals_text (get_field "provisioning_state" after) "provisioned"
        && not (is_some (find_field "onboarding_identity" after))

    abbrev pub is_supported : Json → Bool
    is_supported version = equals_text version "1.0.0" || equals_text version "1.1.0"

    -- Both characteristics, of a node that can be provisioned.
    abbrev pub check_node : Json → Json → Conversation client loads (Fields × Fields)
    check_node m c = do
      metadata ← fields_of client loads m
      demand (is_hashable (get_field "protocol_version" metadata)) type_error
      demand (is_supported (get_field "protocol_version" metadata)) unsupported_protocol
      capabilities ← fields_of client loads c
      persistent ← lift (readback_support (find_field "configuration" capabilities))
      demand persistent no_persistent_readback
      pure (metadata, capabilities)

    -- `_provision`, after the command was built.
    unfoldable pub provision_connected : Option String → Conversation client loads Provisioned
    provision_connected identity = do
      step client loads client.connect
      verify_before identity
      m ← read_json client loads metadata_uuid
      c ← read_json client loads capabilities_uuid
      node ← check_node m c
      step client loads client.start_notify
      acknowledgement ← assign node.0
      readback ← read_back
      after ← read_after identity
      step client loads client.stop_notify
      demand (equals_text (get_field "id" readback) node_id && readback_matches readback values)
          readback_mismatch
      demand (is_hidden after) bootstrap_exposed
      pure (record {
        acknowledgement = acknowledgement;
        readback = readback;
        metadata = node.0;
        capabilities = node.1;
        onboarding_after = after;
      })

  unfoldable pub provision :
      Bool → String → String → Requested → Option String → Conversation client loads Provisioned
  unfolding provision_connected
  provision locked node_id tx c identity = do
    demand (is_node_id node_id) invalid_node_id
    demand (is_transaction tx) invalid_transaction
    demand (not locked) busy
    values ← lift (configuration_values c)
    demand (leb (command_length (prov (upper tx) node_id values)) 191) command_too_long
    provision_connected node_id (upper tx) values identity

  unfoldable pub configure :
      Bool → String → String → Requested → Conversation client loads Configured
  unfolding configure_connected
  configure locked node_id tx c = do
    demand (is_transaction tx) invalid_transaction
    values ← lift (configuration_values c)
    demand (leb (command_length (cfgset (upper tx) values)) 191) command_too_long
    demand (not locked) busy
    configure_connected node_id (upper tx) values
