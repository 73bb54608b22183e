-- ===== src/Ble/Provisioner/Writes.antt =====
-- ble_provisioning.py: whom `provision` writes an identity to.
use seed_mg.Prelude.{
  ℕ, String, ◌≡◌, refl, Bool, true, false, Option, some, List, [], ◌∷◌, ◌++◌, all, not_true,
}
use seed_mg.Models.Json.{Json, Fields, get_field, equals_text, object}
use seed_mg.Ble.Task.Keeps.{Any, Keeps}
use seed_mg.Ble.Provisioner.{
  Requested, Values, Command, prov, cfgset, provget, upper, metadata_uuid, Client, Session,
}
use seed_mg.Ble.Provisioner.Provision.{unassigned, provision}
use seed_mg.Ble.Provisioner.Invariants.{IsKeptByWaits}
use seed_mg.Ble.Provisioner.Flows.{provision-Stays, assign-Stays, AssignStays}

abbrev pub is_question : Command → Bool
is_question (provget tx) = true
is_question _ = false

module _ {D : Type 0} (client : Client D) (loads : List ℕ → Option Json) where
  -- A node that reports an identity whenever its metadata are read.
  abbrev pub IsAssigned : Type 0
  IsAssigned =
      (d : D) (bytes : List ℕ) (fs : Fields)
      → client.read metadata_uuid d ≡ some bytes
      → loads bytes ≡ some (object fs)
      → equals_text (get_field "node_id" fs) unassigned ≡ false

  abbrev OnlyAsks : List Command → Type 0
  OnlyAsks w = all is_question w ≡ true

  asks-append : (tx : String) (w : List Command) → OnlyAsks w → OnlyAsks (w ++ (provget tx ∷ []))
  asks-append tx [] h = refl
  asks-append tx (prov t i v ∷ w) h = cc
  asks-append tx (cfgset t v ∷ w) h = cc
  asks-append tx (provget t ∷ w) h = asks-append tx w h

  unqueued : IsKeptByWaits client loads Any
  unqueued = record { empty = tt; rest = λ _ _ _. tt; delivered = λ _ _ _. tt }

  -- `provision` on a node that has an identity, the right one or another, writes nothing to it but
  -- `PROVGET`, whatever configuration is asked for: no setting of the node is changed.
  pub provision-only_asks :
      (locked : Bool) (node_id tx : String) (c : Requested) (o : Option String) (s : Session D)
      → IsAssigned
      → all is_question s.written ≡ true
      → all is_question (((provision client loads locked node_id tx c o).run s).1).written ≡ true
  unfolding Keeps
  provision-only_asks locked node_id tx c o s assigned h =
      (provision-Stays client loads Any OnlyAsks unqueued asks-append locked node_id tx c o assigns
        s (tt, h)).0.1
    where
      assigns :
          (values : Values)
          → AssignStays client loads Any OnlyAsks unqueued asks-append node_id (upper tx) values
      assigns values fs (d, bytes, was_read, was_loaded) =
          assign-Stays client loads Any OnlyAsks unqueued asks-append node_id (upper tx) values fs
            (λ e. elim (not_true (assigned d bytes fs was_read was_loaded) e) [ ])
