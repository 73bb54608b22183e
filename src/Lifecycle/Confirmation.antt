-- ===== src/Lifecycle/Confirmation.antt =====
-- gateway/app/services/lifecycle_confirmation.py. The store is the dictionary from tokens to
-- pending confirmations; `monotonic()` is an argument, in any unit of time, and so is the token
-- of `secrets.token_urlsafe`.
pub mod Laws
use seed_mg.Prelude.{
  ℕ, ◌+◌, String, Bool, true, false, not, ◌&&◌, ◌||◌, Option, none, some, List, [], ◌∷◌, str_eq,
  if◌then◌else◌, Result, ok, err, leb, ltb, keep, opt_str_eq, ◌==◌, row,
}

pub data Operation : Type 0 where
  remove restore : Operation

pub record PendingConfirmation : Type 0 where
  pub operation : Operation
  pub record_id : ℕ
  pub device_id : String
  pub hardware_id : Option String
  pub ble_address : Option String
  pub expires_at : ℕ

-- What is confirmed: the fields of a pending confirmation but its expiry.
pub record Subject : Type 0 where
  pub operation : Operation
  pub record_id : ℕ
  pub device_id : String
  pub hardware_id : Option String
  pub ble_address : Option String

pub data ConfirmationError : Type 0 where
  missing expired mismatch : ConfirmationError

abbrev pub Store : Type 0
Store = List (String × PendingConfirmation)

abbrev pub token_of : String × PendingConfirmation → String
token_of e = e.0

-- `self._pending.get(token)`
abbrev pub lookup : String → Store → Option (String × PendingConfirmation)
lookup token s = row token_of token s

-- `self._pending` without the key.
unfoldable pub without : String → Store → Store
without token [] = []
without token (e ∷ s) =
    let rest = without token s in if str_eq (token_of e) token then rest else e ∷ rest

unfoldable pub purge : ℕ → Store → Store
purge now = keep (λ e. ltb now e.1.expires_at)

abbrev pub pending_for : Subject → ℕ → PendingConfirmation
pending_for s expires = record {
  operation = s.operation;
  record_id = s.record_id;
  device_id = s.device_id;
  hardware_id = s.hardware_id;
  ble_address = s.ble_address;
  expires_at = expires;
}

unfoldable pub issue : ℕ → ℕ → String → Subject → Store → Store
unfolding without purge
issue ttl now token subject s =
    (token, pending_for subject (now + ttl)) ∷ without token (purge now s)

abbrev same_operation : Operation → Operation → Bool
same_operation remove remove = true
same_operation restore restore = true
same_operation _ _ = false

abbrev pub matches : PendingConfirmation → Subject → Bool
matches p s =
    same_operation p.operation s.operation
    && p.record_id == s.record_id
    && str_eq p.device_id s.device_id
    && opt_str_eq p.hardware_id s.hardware_id
    && opt_str_eq p.ble_address s.ble_address

abbrev pub judge :
    ℕ → Subject → Option (String × PendingConfirmation) → Result ConfirmationError Unit
judge now subject none = err missing
judge now subject (some (token, p)) =
    if leb p.expires_at now then err expired else if matches p subject then ok tt else err mismatch

-- `pop` comes first: a refused confirmation is used up too.
unfoldable pub consume : ℕ → String → Subject → Store → Result ConfirmationError Unit × Store
unfolding without
consume now token subject s = (judge now subject (lookup token s), without token s)
