-- ===== src/Ble/Provisioner/Waiting.antt =====
-- ble_provisioning.py: reading, writing, and `_wait_for`.
use seed_mg.Prelude.{
  ℕ, String, Option, none, some, List, [], ◌∷◌, ◌++◌, if◌then◌else◌, any, Result, ok, err,
}
use seed_mg.Models.Json.{
  Json, text, object, Fields, find_field, get_field, equals_text, is_hashable,
}
use seed_mg.Ble.Task.{Task, ◌>>=◌, pure, raise, lift}
use seed_mg.Ble.Provisioner.{
  BleError, timed_out, client_failed, malformed, attribute_error, type_error, device_rejected,
  Command, Characteristic, Client, Session, reply_of, deliver,
}

-- What `_wait_for` makes of a reply.
pub data Verdict : Type 0 where
  skipped : Verdict
  raised : BleError → Verdict
  accepted : Verdict

-- `str(result.get("code", "device_rejected"))`
abbrev pub code_of : Option Json → Json
code_of none = text "device_rejected"
code_of (some j) = j

abbrev pub verdict : String → List String → Fields → Verdict
verdict tx codes reply =
    if equals_text (get_field "tx" reply) tx
    then (if equals_text (get_field "t" reply) "ce"
        then raised (device_rejected (code_of (find_field "code" reply)))
        else if is_hashable (get_field "code" reply)
        then (if any (equals_text (get_field "code" reply)) codes then accepted else skipped)
        else raised type_error)
    else skipped

module _ {D : Type 0} (client : Client D) (loads : List ℕ → Option Json) where
  abbrev pub Conversation : Type 0 → Type 0
  Conversation A = Task BleError (Session D) A

  abbrev pub session : D → List Command → List Fields → List (List ℕ) → Session D
  session d w queue pending = record { device = d; queue = queue; pending = pending; written = w }

  -- A reply is taken: `rest` goes on with the next one, from what `s` leaves.
  abbrev pub chosen :
      Result BleError Fields × Session D
      → Session D
      → Fields
      → Verdict
      → Result BleError Fields × Session D
  chosen rest s reply skipped = rest
  chosen rest s reply (raised e) = (err e, s)
  chosen rest s reply accepted = (ok reply, s)

  module _ (tx : String) (codes : List String) (d : D) (w : List Command) where
    abbrev pub heard :
        Result BleError Fields × Session D
        → List (List ℕ)
        → Option Fields
        → Result BleError Fields × Session D
    heard rest ns none = rest
    heard rest ns (some reply) = chosen rest (session d w [] ns) reply (verdict tx codes reply)

    -- The queue is empty: each notification is put and taken, until the deadline.
    unfoldable pub listen : List (List ℕ) → Result BleError Fields × Session D
    listen [] = (err timed_out, session d w [] [])
    listen (n ∷ ns) = heard (listen ns) ns (reply_of (loads n))

    unfoldable pub drain : List (List ℕ) → List Fields → Result BleError Fields × Session D
    unfolding listen
    drain ns [] = listen ns
    drain ns (r ∷ rs) = chosen (drain ns rs) (session d w rs ns) r (verdict tx codes r)

  -- `_wait_for`
  abbrev pub wait_for : String → List String → Conversation Fields
  wait_for tx codes = record { run = λ s. drain tx codes s.device s.written s.pending s.queue }

  abbrev pub after_write :
      Command
      → Session D
      → Option (List (List ℕ) × List (List ℕ) × D)
      → Result BleError (Unit {0}) × Session D
  after_write c s none = (err client_failed, s)
  after_write c s (some (during, later, d)) =
      (ok tt, session d (s.written ++ (c ∷ [])) (deliver loads s.queue (s.pending ++ during)) later)

  -- `write_gatt_char(COMMAND_UUID, ...)`; what was to come until now has come.
  abbrev pub write : Command → Conversation (Unit {0})
  write c = record { run = λ s. after_write c s (client.write c s.device) }

  abbrev pub moved : Session D → Option D → Result BleError (Unit {0}) × Session D
  moved s none = (err client_failed, s)
  moved s (some d) = (ok tt, record s { device = d })

  abbrev pub step : (D → Option D) → Conversation (Unit {0})
  step f = record { run = λ s. moved s (f s.device) }

  abbrev pub of_read : Option (List ℕ) → Result BleError (List ℕ)
  of_read none = err client_failed
  of_read (some bytes) = ok bytes

  abbrev pub read_bytes : Characteristic → Conversation (List ℕ)
  read_bytes c = record { run = λ s. (of_read (client.read c s.device), s) }

  abbrev pub loaded : Option Json → Result BleError Json
  loaded none = err malformed
  loaded (some j) = ok j

  -- `json.loads(...)` of a characteristic.
  abbrev pub read_json : Characteristic → Conversation Json
  read_json c = read_bytes c >>= λ bytes. lift (loaded (loads bytes))

  -- The value, where a dictionary's `get` is called.
  abbrev pub fields_of : Json → Conversation Fields
  fields_of (object fs) = pure fs
  fields_of _ = raise attribute_error
