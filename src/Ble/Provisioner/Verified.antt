-- ===== src/Ble/Provisioner/Verified.antt =====
-- ble_provisioning.py: what `provision` and `configure` have verified when they return.
use seed_mg.Prelude.{
  is_some, and-eq_true, ℕ, String, ◌≡◌, refl, ap, Bool, true, not, leb, ◌&&◌, Option, none, some,
  List, [], ◌∷◌, Result, ok, err,
}
use seed_mg.Models.Json.{Json, Fields, find_field, get_field, equals_text}
use seed_mg.Ble.Task.Keeps.{
  Any, Keeps, bind-Keeps, then-Keeps, demanded-Keeps, Any-Keeps, eq_ok-Keeps, Keeps-eq_ok,
  pure-Keeps,
}
use seed_mg.Ble.Task.{◌>>=◌, ◌>>◌, lift, demand, demand-eq_ok}
use seed_mg.Ble.Provisioner.Settings.{
  HasSettings, readback_matches-HasSettings, IsRequested, configuration_values-IsRequested,
}
use seed_mg.Ble.Provisioner.Accepted.{IsAccepted, FirstAnswer-IsAccepted}
use seed_mg.Ble.Provisioner.{
  BleError, invalid_node_id, invalid_transaction, busy, command_too_long, readback_mismatch,
  bootstrap_exposed, Requested, Values, configuration_values, readback_matches, prov, provget,
  command_length, is_node_id, is_transaction, upper, metadata_uuid, capabilities_uuid, Client,
  Session,
}
use seed_mg.Ble.Provisioner.Waiting.{Conversation, wait_for, step, read_json, write}
use seed_mg.Ble.Provisioner.Replies.{wait_for-FirstAnswer}
use seed_mg.Ble.Provisioner.Provision.{
  Provisioned, read_onboarding, is_hidden, verify_before, check_node, assign, read_back, read_after,
  provision_connected, provision,
}

-- A bootstrap identity was read again, and is gone.
pub record IsGone (after : Option Fields) : Type 0 where
  pub payload : Fields
  pub read : after ≡ some payload
  pub state : equals_text (get_field "provisioning_state" payload) "provisioned" ≡ true
  pub identity : find_field "onboarding_identity" payload ≡ none

module _ {D : Type 0} (client : Client D) (loads : List ℕ → Option Json) where
  wait_for-IsAccepted :
      (tx : String) (codes : List String) (s : Session D) (r : Fields) (t : Session D)
      → (wait_for client loads tx codes).run s ≡ (ok r, t)
      → IsAccepted tx codes r
  wait_for-IsAccepted tx codes s r t h =
      FirstAnswer-IsAccepted tx codes _ _ r (wait_for-FirstAnswer tx codes client loads s)
        (ap (λ x. x.0) h)

  -- What a returned provisioning has seen.
  pub record IsVerified (node_id tx : String) (values : Values) (o : Option String)
      (r : Provisioned) : Type 0 where
    pub readback : IsAccepted tx ("readback" ∷ []) r.readback
    pub identity : equals_text (get_field "id" r.readback) node_id ≡ true
    pub settings : HasSettings values r.readback
    pub hidden : (expected : String) → o ≡ some expected → IsGone r.onboarding_after

  module _ (node_id tx : String) (values : Values) where
    read_back-Keeps :
        Keeps Any (IsAccepted tx ("readback" ∷ [])) (read_back client loads node_id tx values)
    read_back-Keeps =
        then-Keeps Any (IsAccepted tx ("readback" ∷ [])) (write client loads (provget tx)) _
          (Any-Keeps Any (write client loads (provget tx)))
          (λ _.
            eq_ok-Keeps (IsAccepted tx ("readback" ∷ [])) _
              (wait_for-IsAccepted tx ("readback" ∷ [])))

    -- `read_after` reads a payload where an identity was expected.
    abbrev Reread : Option String → Option Fields → Type 0
    Reread o after = (expected : String) → o ≡ some expected → (p : Fields) × (after ≡ some p)

    read_after-Keeps :
        (o : Option String) → Keeps Any (Reread o) (read_after client loads node_id tx values o)
    read_after-Keeps none = pure-Keeps BleError Any (Reread none) none (λ expected e. cc)
    read_after-Keeps (some identity) =
        then-Keeps Any (Reread (some identity)) (read_onboarding client loads) _
          (Any-Keeps Any (read_onboarding client loads))
          (λ after.
            pure-Keeps BleError Any (Reread (some identity)) (some after)
              (λ expected e. (after, refl)))

    is_hidden-IsGone :
        (after : Option Fields) (p : Fields)
        → after ≡ some p
        → is_hidden client loads node_id tx values after ≡ true
        → IsGone after
    is_hidden-IsGone none p e h = cc e
    is_hidden-IsGone (some after) p e h =
        let (state, gone) = and-eq_true _ _ h in
        record {
          payload = after;
          read = refl;
          state = state;
          identity = is_none (find_field "onboarding_identity" after) gone;
        }
      where
        is_none : (j : Option Json) → not (is_some j) ≡ true → j ≡ none
        is_none none k = refl
        is_none (some j) k = cc k

    abbrev Seen : Option String → Provisioned → Type 0
    Seen = IsVerified node_id tx values

    passes :
        {A : Type 0} (o : Option String) (m : Conversation client loads A)
        (f : A → Conversation client loads Provisioned)
        → ((a : A) → Keeps Any (Seen o) (f a))
        → Keeps Any (Seen o) (m >>= f)
    passes o m f each = then-Keeps Any (Seen o) m f (Any-Keeps Any m) each

    connected-Keeps :
        (o : Option String)
        → Keeps Any (Seen o) (provision_connected client loads node_id tx values o)
    unfolding provision_connected
    connected-Keeps o = passes o (step client loads client.connect) _ (λ _.
        passes o (verify_before client loads node_id tx values o) _ (λ _.
          passes o (read_json client loads metadata_uuid) _ (λ m.
            passes o (read_json client loads capabilities_uuid) _ (λ c.
              passes o (check_node client loads node_id tx values m c) _ (λ node.
                passes o (step client loads client.start_notify) _ (λ _.
                  passes o (assign client loads node_id tx values node.0) _ (λ a.
                    bind-Keeps Any (IsAccepted tx ("readback" ∷ [])) (Seen o) _ _ read_back-Keeps
                      (λ back read.
                        bind-Keeps Any (Reread o) (Seen o)
                          (read_after client loads node_id tx values o) _ (read_after-Keeps o)
                          (λ after reread. passes o (step client loads client.stop_notify) _ (λ _.
                            demanded-Keeps Any (Seen o)
                              (equals_text (get_field "id" back) node_id
                                && readback_matches back values)
                              readback_mismatch _
                              (λ same.
                                demanded-Keeps Any (Seen o)
                                  (is_hidden client loads node_id tx values after) bootstrap_exposed
                                  _
                                  (λ safe.
                                    pure-Keeps BleError Any (Seen o)
                                      (record {
                                        acknowledgement = a;
                                        readback = back;
                                        metadata = node.0;
                                        capabilities = node.1;
                                        onboarding_after = after;
                                      })
                                      (record {
                                        readback = read;
                                        identity = (and-eq_true _ _ same).0;
                                        settings =
                                            readback_matches-HasSettings back values
                                              (and-eq_true _ _ same).1;
                                        hidden = λ expected e.
                                            is_hidden-IsGone after (reread expected e).0
                                              (reread expected e).1 safe;
                                      })))))))))))))

  -- A provisioning that returns has had its arguments checked and its node's answer verified: the
  -- readback is a reply to its own transaction that names the identity that was asked for and has
  -- the seven settings of the configuration that was asked for; and where a bootstrap identity was
  -- expected, the onboarding payload was read again, says `provisioned` and names no such identity.
  pub provision-IsVerified :
      (locked : Bool) (node_id tx : String) (c : Requested) (o : Option String) (s : Session D)
      (r : Provisioned) (t : Session D)
      → (provision client loads locked node_id tx c o).run s ≡ (ok r, t)
      → (is_node_id node_id ≡ true)
        × (is_transaction tx ≡ true)
        × ((values : Values) × IsRequested c values × IsVerified node_id (upper tx) values o r)
  unfolding provision
  provision-IsVerified locked node_id tx c o s r t h =
      let (named, h1) = demand-eq_ok (is_node_id node_id) invalid_node_id _ s h in
      let (id, h2) = demand-eq_ok (is_transaction tx) invalid_transaction _ s h1 in
      let (free, h3) = demand-eq_ok (not locked) busy _ s h2 in
      of_values (configuration_values c) refl named id h3
    where
      of_values :
          (v : Result BleError Values)
          → configuration_values c ≡ v
          → is_node_id node_id ≡ true
          → is_transaction tx ≡ true
          → (lift v >>= λ values.
                demand (leb (command_length (prov (upper tx) node_id values)) 191) command_too_long
                >> provision_connected client loads node_id (upper tx) values o).run
              s
            ≡ (ok r, t)
          → (is_node_id node_id ≡ true)
            × (is_transaction tx ≡ true)
            × ((values : Values) × IsRequested c values × IsVerified node_id (upper tx) values o r)
      of_values (err e) p named id k = cc (ap (λ x. x.0) k)
      of_values (ok values) p named id k =
          let (_, j) =
            demand-eq_ok (leb (command_length (prov (upper tx) node_id values)) 191)
              command_too_long _ s k in
          (
            named,
            id,
            (
              values,
              configuration_values-IsRequested c values p,
              Keeps-eq_ok _ _ (connected-Keeps node_id (upper tx) values o) s r t j,
            ),
          )
