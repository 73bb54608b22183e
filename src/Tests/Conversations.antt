-- ===== src/Tests/Conversations.antt =====
-- The theorems on provisioning over Bluetooth, at a node that answers and one that has an identity.
use seed_mg.Prelude.{
  ℕ, ◌≡◌, refl, subst, String, Bool, true, false, Option, some, none, List, [], ◌∷◌, ◌++◌, ◌==◌,
  if◌then◌else◌, all, ok,
}
use seed_mg.Models.Json.{
  Json, Number, numeric, boolean, text, object, Fields, end, field, find_field, decimal_eq,
  get_field, equals_text,
}
use seed_mg.Ble.Provisioner.{
  parts, digits, deliver, readback_matches, Requested, Values, Command, prov, provget, Client,
  Session, is_node_id, is_transaction, upper, Characteristic, metadata_uuid, capabilities_uuid,
  onboarding_identity_uuid,
}
use seed_mg.Ble.Onboarding.{parse_onboarding_payload}
use seed_mg.Ble.Provisioner.Waiting.{wait_for, drain}
use seed_mg.Ble.Provisioner.Provision.{Provisioned, by_node, provision, unassigned}
use seed_mg.Ble.Provisioner.Replies.{FirstAnswer, replies, wait_for-FirstAnswer}
use seed_mg.Ble.Provisioner.Settings.{IsRequested}
use seed_mg.Ble.Provisioner.Verified.{IsVerified, provision-IsVerified}
use seed_mg.Ble.Provisioner.Writes.{IsAssigned, is_question, provision-only_asks}

abbrev int : ℕ → Json
int n = numeric (Number.integer false n)

abbrev metadata : String → Fields
metadata id = field "node_id" (text id) (field "protocol_version" (text "1.1.0") end)

abbrev capabilities : Fields
capabilities = field "configuration" (object (field "readback" (boolean true) end)) end

abbrev reply : String → Fields → Fields
reply code rest =
    field "t" (text "ca") (field "tx" (text "0123456789ABCDEF") (field "code" (text code) rest))

abbrev settings : Fields
settings = field "id" (text "MG24") (
    field "sample" (int 100) (
      field "process" (int 100) (
        field "report" (int 100) (
          field "heartbeat" (int 30000)
            (field "filter" (int 2) (field "window" (int 5) (field "enabled" (int 1) end)))))))

abbrev identity : String
identity = "0123456789abcdef0123456789abcdef"

-- The onboarding payloads of a sensor before it is provisioned and after.
abbrev exposed : Fields
exposed = field "schema_version" (int 1) (
    field "provisioning_state" (text "unprovisioned") (
      field "onboarding_identity" (text identity)
        (field "protocol_version" (text "1.1.0") (field "firmware_version" (text "1.0.0") end))))

abbrev hidden : Fields
hidden = field "schema_version" (int 1) (field "provisioning_state" (text "provisioned") end)

-- The bytes stand for these values.
abbrev loads_code : ℕ → Option Json
loads_code n =
    if n == 1
    then some (object (metadata unassigned))
    else if n == 2
    then some (object (metadata "MG24"))
    else if n == 3
    then some (object capabilities)
    else if n == 4
    then some (object (reply "provisioned" end))
    else if n == 5
    then some (object (reply "readback" settings))
    else if n == 6
    then some (object exposed)
    else if n == 7
    then some (object hidden)
    else none

abbrev loads : List ℕ → Option Json
loads [] = none
loads (b ∷ bs) = loads_code b

-- A node with the metadata of the byte `b`.
abbrev node_at : ℕ → Client (Unit {0})
node_at b = record {
  connect = λ d. some d;
  start_notify = λ d. some d;
  stop_notify = λ d. some d;
  read = λ c d. characteristic c;
  write = λ c d. answer c;
}
  where
    characteristic : Characteristic → Option (List ℕ)
    characteristic metadata_uuid = some (b ∷ [])
    characteristic capabilities_uuid = some (3 ∷ [])
    characteristic onboarding_identity_uuid = none

    answer : Command → Option (List (List ℕ) × List (List ℕ) × Unit {0})
    answer (prov tx id v) = some ((9 ∷ []) ∷ (4 ∷ []) ∷ [], [], tt)
    answer c = some ([], (5 ∷ []) ∷ [], tt)

-- A sensor whose state is the byte of its onboarding payload; `PROV` hides its identity.
abbrev fresh_node : Client ℕ
fresh_node = record {
  connect = λ d. some d;
  start_notify = λ d. some d;
  stop_notify = λ d. some d;
  read = characteristic;
  write = answer;
}
  where
    characteristic : Characteristic → ℕ → Option (List ℕ)
    characteristic metadata_uuid d = some (1 ∷ [])
    characteristic capabilities_uuid d = some (3 ∷ [])
    characteristic onboarding_identity_uuid d = some (d ∷ [])

    answer : Command → ℕ → Option (List (List ℕ) × List (List ℕ) × ℕ)
    answer (prov tx id v) d = some ((9 ∷ []) ∷ (4 ∷ []) ∷ [], [], 7)
    answer c d = some ([], (5 ∷ []) ∷ [], d)

abbrev unassigned_at_start : Session ℕ
unassigned_at_start = record { device = 6; queue = []; pending = []; written = [] }

abbrev at_start : Session (Unit {0})
at_start = record { device = tt; queue = []; pending = []; written = [] }

abbrev requested : Requested
requested = record {
  sample_interval_ms = 100;
  processing_interval_ms = 100;
  report_interval_ms = 100;
  heartbeat_interval_ms = 30000;
  filter_type = "ema";
  filter_window = 5;
  enabled = true;
}

abbrev values : Values
values = record {
  sample = 100;
  process = 100;
  report = 100;
  heartbeat = 30000;
  filter = 2;
  window = 5;
  enabled = 1;
}

abbrev provisioned : Provisioned
provisioned = record {
  acknowledgement = by_node (reply "provisioned" end);
  readback = reply "readback" settings;
  metadata = metadata unassigned;
  capabilities = capabilities;
  onboarding_after = some hidden;
}

abbrev at_end : Session ℕ
at_end = record {
  device = 7;
  queue = [];
  pending = [];
  written = prov "0123456789ABCDEF" "MG24" values ∷ provget "0123456789ABCDEF" ∷ [];
}

provision_example :
    (provision fresh_node loads false "MG24" "0123456789abcdef" requested (some identity)).run
      unassigned_at_start
    ≡ (ok provisioned, at_end)
unfolding provision parse_onboarding_payload parts digits find_field drain deliver readback_matches
    decimal_eq
provision_example = refl

provision-IsVerified_example :
    (is_node_id "MG24" ≡ true)
    × (is_transaction "0123456789abcdef" ≡ true)
    × ((v : Values) × IsRequested requested v
        × IsVerified fresh_node loads "MG24"
            (upper "0123456789abcdef")
            v
            (some identity)
            provisioned)
provision-IsVerified_example =
    provision-IsVerified fresh_node loads false "MG24" "0123456789abcdef" requested (some identity)
      unassigned_at_start provisioned at_end provision_example

-- A reply to another transaction is queued; a reply without one of the codes and the readback come.
abbrev waiting : Session (Unit {0})
waiting = record {
  device = tt;
  queue =
      field "t" (text "ce")
        (field "tx" (text "FFFFFFFFFFFFFFFF") (field "code" (text "readback") end))
      ∷ [];
  pending = (4 ∷ []) ∷ (9 ∷ []) ∷ (5 ∷ []) ∷ [];
  written = [];
}

wait_for-FirstAnswer_example :
    FirstAnswer "0123456789ABCDEF"
      ("readback" ∷ [])
      (waiting.queue ++ replies loads waiting.pending)
      ((wait_for (node_at 1) loads "0123456789ABCDEF" ("readback" ∷ [])).run waiting).0
wait_for-FirstAnswer_example =
    wait_for-FirstAnswer "0123456789ABCDEF" ("readback" ∷ []) (node_at 1) loads waiting

waiting_ends :
    ((wait_for (node_at 1) loads "0123456789ABCDEF" ("readback" ∷ [])).run waiting).0
    ≡ ok (reply "readback" settings)
unfolding find_field drain deliver
waiting_ends = refl

abbrev has_identity : Option Json → Bool
has_identity (some (object fs)) = equals_text (get_field "node_id" fs) unassigned
has_identity _ = false

node-IsAssigned : IsAssigned (node_at 2) loads
unfolding find_field
node-IsAssigned d bytes fs was_read was_loaded =
    subst (λ j. has_identity j ≡ false) was_loaded (subst (λ o. tested o) was_read refl)
  where
    tested : Option (List ℕ) → Type 0
    tested none = Unit {0}
    tested (some raw) = has_identity (loads raw) ≡ false

provision-only_asks_example :
    all is_question
      (((provision (node_at 2) loads false "MG24" "0123456789abcdef" requested none).run at_start).1
        ).written
    ≡ true
provision-only_asks_example =
    provision-only_asks (node_at 2) loads false "MG24" "0123456789abcdef" requested none at_start
      node-IsAssigned refl
