-- ===== src/UsbReset/Confirmations.antt =====
-- usb_factory_reset.py: a confirmation is accepted once, for its subject, and for two minutes.
use seed_mg.Prelude.{
  ℕ, String, ◌≡◌, refl, ap, none, List, [], ◌∷◌, str_eq, Bool-cases, inl, inr, err,
}
use seed_mg.UsbReset.{
  mismatched_confirmation, Confirmation, Subject, pending, without, cancelled, cancel, authorized,
  authorize,
}

pending-without :
    (token : String) (cs : List Confirmation) → pending token (without token cs) ≡ none
unfolding pending
pending-without token [] = refl
pending-without token (c ∷ cs) = elim (Bool-cases (str_eq c.token token)) [
  | inl hit ↦ rw hit (pending-without token cs)
  | inr missed ↦ rw (missed, missed) (pending-without token cs)
]

-- A token that was presented once, to start a reset or to cancel one, is refused afterwards by both,
-- whatever it was presented for and whether it was accepted.
pub authorize-authorize :
    (token : String) (s t : Subject) (now later : ℕ) (cs : List Confirmation)
    → ((authorize token t later (authorize token s now cs).1).0 ≡ err mismatched_confirmation)
      × ((cancel token t (authorize token s now cs).1).0 ≡ err mismatched_confirmation)
      × ((authorize token t later (cancel token s cs).1).0 ≡ err mismatched_confirmation)
      × ((cancel token t (cancel token s cs).1).0 ≡ err mismatched_confirmation)
unfolding authorize cancel
authorize-authorize token s t now later cs = (
  ap (authorized t later) (pending-without token cs),
  ap (cancelled t) (pending-without token cs),
  ap (authorized t later) (pending-without token cs),
  ap (cancelled t) (pending-without token cs),
)
