-- ===== src/Ble/Provisioner/Accepted.antt =====
-- ble_provisioning.py: the reply that `_wait_for` returns.
use seed_mg.Prelude.{String, ◌≡◌, refl, true, false, List, any, subst, Result, ok, ok-injective}
use seed_mg.Models.Json.{Fields, get_field, equals_text}
use seed_mg.Ble.Provisioner.{BleError}
use seed_mg.Ble.Provisioner.Replies.{
  FirstAnswer, silence, other_transaction, other_code, node_error, unhashable_code, answer,
}

-- A reply of the transaction with one of the codes, and not of an error.
pub record IsAccepted (tx : String) (codes : List String) (r : Fields) : Type 0 where
  pub own : equals_text (get_field "tx" r) tx ≡ true
  pub no_error : equals_text (get_field "t" r) "ce" ≡ false
  pub one_of : any (equals_text (get_field "code" r)) codes ≡ true

pub FirstAnswer-IsAccepted :
    (tx : String) (codes : List String) (rs : List Fields) (x : Result BleError Fields) (r : Fields)
    → FirstAnswer tx codes rs x
    → x ≡ ok r
    → IsAccepted tx codes r
FirstAnswer-IsAccepted tx codes _ _ r silence h = cc
FirstAnswer-IsAccepted tx codes _ x r (other_transaction {rs = rs} _ later) h =
    FirstAnswer-IsAccepted tx codes rs x r later h
FirstAnswer-IsAccepted tx codes _ x r (other_code {rs = rs} _ _ _ _ later) h =
    FirstAnswer-IsAccepted tx codes rs x r later h
FirstAnswer-IsAccepted tx codes _ _ r (node_error _ _) h = cc
FirstAnswer-IsAccepted tx codes _ _ r (unhashable_code _ _ _) h = cc
FirstAnswer-IsAccepted tx codes _ _ r (answer {r = q} own fine hit) h =
    subst (IsAccepted tx codes) (ok-injective refl h)
      (record { own = own; no_error = fine; one_of = hit })
