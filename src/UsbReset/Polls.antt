-- ===== src/UsbReset/Polls.antt =====
-- usb_factory_reset.py: what the loop that waits for the sensor has found.
use seed_mg.Prelude.{
  String, ◌≡◌, inl, inr, refl, subst, true, Option, none, some, List, [], ◌∷◌, Member, if-cases,
  Option-cases,
}
use seed_mg.Models.Json.{Fields, get_field, equals_text}
use seed_mg.UsbReset.{first_seen, verified_in}

-- A poll read a state that names the hardware.
pub record IsSeen (hardware : String) (polls : List (List (Option Fields))) (fs : Fields)
    : Type 0 where
  pub poll : List (Option Fields)
  pub polled : Member poll polls
  pub read : Member (some fs) poll
  pub identity : equals_text (get_field "hardware_id" fs) hardware ≡ true

first_seen-Member :
    (hardware : String) (poll : List (Option Fields)) (fs : Fields)
    → first_seen hardware poll ≡ some fs
    → Member (some fs) poll × (equals_text (get_field "hardware_id" fs) hardware ≡ true)
first_seen-Member hardware [] fs h = cc
first_seen-Member hardware (none ∷ rest) fs h =
    let (m, e) = first_seen-Member hardware rest fs h in (inr m, e)
first_seen-Member hardware (some gs ∷ rest) fs h =
    let later = first_seen-Member hardware rest fs in
    elim (if-cases (equals_text (get_field "hardware_id" gs) hardware) _ _ _ h) [
      | inl (hit, same) ↦ (inl same, subst (λ o. names o) same hit)
      | inr (_, k) ↦ (inr (later k).0, (later k).1)
    ]
  where
    names : Option Fields → Type 0
    names none = Unit
    names (some gs) = equals_text (get_field "hardware_id" gs) hardware ≡ true

pub verified_in-IsSeen :
    (hardware : String) (polls : List (List (Option Fields))) (fs : Fields)
    → verified_in hardware polls ≡ some fs
    → IsSeen hardware polls fs
unfolding verified_in
verified_in-IsSeen hardware [] fs h = cc
verified_in-IsSeen hardware (p ∷ ps) fs h =
    let later = verified_in-IsSeen hardware ps fs in
    elim (Option-cases (first_seen hardware p)) [
      | inl nothing ↦
          let l = later (cc (nothing, h)) in
          record { poll = l.poll; polled = inr l.polled; read = l.read; identity = l.identity }
      | inr (gs, found) ↦
          let (m, e) = first_seen-Member hardware p fs (cc (found, h)) in
          record { poll = p; polled = inl refl; read = m; identity = e }
    ]
