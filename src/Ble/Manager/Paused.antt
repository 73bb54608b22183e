-- ===== src/Ble/Manager/Paused.antt =====
-- manager.py: after exclusive work over Bluetooth, the connections from before are there again.
use mathlib.Core.Option.{some-injective}
use seed_mg.Prelude.{
  String, ◌≡◌, refl, subst, true, false, Option, none, some, List, [], ◌∷◌, ◌++◌, if◌then◌else◌,
  str_eq, eq_iff, eq_refl, row, row-set_row, Bool-cases, inl, inr, if-cases, is_some,
}
use seed_mg.Ble.Manager.{
  Managed, managed_key, new_connection, started_at, scheduled, schedule, remove_each, reschedule,
  paused_connections,
}

-- The device is managed at the address, and its task runs.
pub record IsAt (id address : String) (ms : List Managed) : Type 0 where
  pub found : Managed
  pub is_found : row managed_key id ms ≡ some found
  pub at_address : found.address ≡ address
  pub running : found.is_running ≡ true

-- The keys of a dictionary.
unfoldable pub AllDistinct : List Managed → Type 0
AllDistinct [] = Unit
AllDistinct (m ∷ ms) = (row managed_key m.device_id ms ≡ none) × AllDistinct ms

row-append :
    (id : String) (ms : List Managed) (m : Managed)
    → row managed_key id (ms ++ (m ∷ [])) ≡ (
        if is_some (row managed_key id ms)
        then row managed_key id ms
        else if str_eq m.device_id id
        then some m
        else none)
unfolding row
row-append id [] m = refl
row-append id (x ∷ ms) m = elim (Bool-cases (str_eq x.device_id id)) [
  | inl hit ↦ rw hit refl
  | inr missed ↦ rw missed (row-append id ms m)
]

schedule-IsAt : (id address : String) (ms : List Managed) → IsAt id address (schedule id address ms)
unfolding schedule
schedule-IsAt id address ms = of_row (row managed_key id ms) refl
  where
    of_row :
        (o : Option Managed)
        → row managed_key id ms ≡ o
        → IsAt id address (scheduled id address ms o)
    of_row none e = record {
      found = new_connection id address;
      is_found = rw (row-append id ms (new_connection id address), e, eq_refl id) refl;
      at_address = refl;
      running = refl;
    }
    of_row (some m) e = record {
      found = started_at address m;
      is_found =
          rw (row-set_row managed_key id id (started_at address) ms (λ x. refl), eq_refl id, e)
            refl;
      at_address = refl;
      running = refl;
    }

schedule-other :
    (id j address other : String) (ms : List Managed)
    → str_eq j id ≡ false
    → IsAt id address ms
    → IsAt id address (schedule j other ms)
unfolding schedule
schedule-other id j address other ms apart h = of_row (row managed_key j ms)
  where
    of_row : (o : Option Managed) → IsAt id address (scheduled j other ms o)
    of_row none = record {
      found = h.found;
      is_found = rw (row-append id ms (new_connection j other), h.is_found) refl;
      at_address = h.at_address;
      running = h.running;
    }
    of_row (some m) = record {
      found = h.found;
      is_found =
          rw (row-set_row managed_key j id (started_at other) ms (λ x. refl), apart) h.is_found;
      at_address = h.at_address;
      running = h.running;
    }

-- Connections of other devices do not matter to one that is there.
reschedule-other :
    (id address : String) (cs ms : List Managed)
    → row managed_key id cs ≡ none
    → IsAt id address ms
    → IsAt id address (reschedule cs ms)
unfolding reschedule row
reschedule-other id address [] ms e h = h
reschedule-other id address (c ∷ cs) ms e h = elim (if-cases (str_eq c.device_id id) _ _ _ e) [
  | inl (_, k) ↦ cc k
  | inr (apart, k) ↦
      reschedule-other id address cs (schedule c.device_id c.address ms) k
        (schedule-other id c.device_id address c.address ms apart h)
]

reschedule-IsAt :
    (id : String) (cs ms : List Managed) (c : Managed)
    → AllDistinct cs
    → row managed_key id cs ≡ some c
    → IsAt id c.address (reschedule cs ms)
unfolding reschedule row AllDistinct
reschedule-IsAt id [] ms c d e = cc
reschedule-IsAt id (x ∷ cs) ms c (alone, d) e = elim (if-cases (str_eq x.device_id id) _ _ _ e) [
  | inl (hit, k) ↦
      let same = (eq_iff x.device_id id).0 hit in
      let there : IsAt x.device_id x.address (reschedule cs (schedule x.device_id x.address ms)) =
        reschedule-other x.device_id x.address cs _ alone
          (schedule-IsAt x.device_id x.address ms) in
      subst (λ y. IsAt id y.address (reschedule cs (schedule x.device_id x.address ms)))
        (some-injective _ _ k)
        (subst (λ i. IsAt i x.address (reschedule cs (schedule x.device_id x.address ms))) same
          there)
  | inr (_, k) ↦ reschedule-IsAt id cs (schedule x.device_id x.address ms) c d k
]

-- Whatever is done to the connections while they are paused, every device that was managed before is
-- managed afterwards, at its address from before, and its task runs.
pub paused_connections-IsAt :
    (body : List Managed → List Managed) (ms : List Managed) (id : String) (c : Managed)
    → AllDistinct ms
    → row managed_key id ms ≡ some c
    → IsAt id c.address (paused_connections body ms)
unfolding paused_connections
paused_connections-IsAt body ms id c d e = reschedule-IsAt id ms (body (remove_each ms ms)) c d e
