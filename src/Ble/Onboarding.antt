-- ===== src/Ble/Onboarding.antt =====
-- gateway/app/ble/onboarding_identity.py: `parse_onboarding_payload`. `json.loads` is Python's: the
-- argument `loads` gives the value of the bytes, or `none` where they are no UTF-8 or no JSON.
use seed_mg.Prelude.{
  ℕ, String, Bool, true, false, ◌&&◌, ◌||◌, Option, none, some, List, [], ◌∷◌, if◌then◌else◌, ltb,
  leb, ◌==◌, all, length, is_some, codes, Result, ok, err, ◌>>◌, require,
}
use seed_mg.Models.Json.{
  Json, text, object, Fields, find_field, get_field, equals_number, equals_text, is_hashable,
}

-- The messages of `OnboardingIdentityError`, and the `TypeError` of a set that is asked for a list.
pub data OnboardingError : Type 0 where
  bad_size malformed unsupported_schema exposed unavailable bad_encoding no_versions :
      OnboardingError
  unhashable : OnboardingError

abbrev pub is_hex : ℕ → Bool
is_hex c = leb 48 c && leb c 57 || leb 97 c && leb c 102

-- `[0-9a-f]{lo,hi}`
abbrev pub is_hex_text : ℕ → ℕ → String → Bool
is_hex_text lo hi t = leb lo (length (codes t)) && leb (length (codes t)) hi && all is_hex (codes t)

abbrev pub is_text : Json → Bool
is_text (text t) = true
is_text _ = false

abbrev pub is_identity : Json → Bool
is_identity (text t) = is_hex_text 32 32 t
is_identity _ = false

-- `raw.rstrip(b"\x00")`
unfoldable pub strip_end : List ℕ → List ℕ
strip_end [] = []
strip_end (b ∷ bs) = kept (strip_end bs)
  where
    kept : List ℕ → List ℕ
    kept [] = if b == 0 then [] else b ∷ []
    kept (c ∷ cs) = b ∷ c ∷ cs

abbrev pub by_state : Fields → Result OnboardingError Fields
by_state fs =
    if equals_text (get_field "provisioning_state" fs) "provisioned"
    then (if is_some (find_field "onboarding_identity" fs) then err exposed else ok fs)
    else (do
      require (is_hashable (get_field "provisioning_state" fs)) unhashable
      require
          (equals_text (get_field "provisioning_state" fs) "unprovisioned"
            || equals_text (get_field "provisioning_state" fs) "recovery")
          unavailable
      require (is_identity (get_field "onboarding_identity" fs)) bad_encoding
      require
          (is_text (get_field "protocol_version" fs) && is_text (get_field "firmware_version" fs))
          no_versions
      ok fs)

abbrev pub of_payload : Option Json → Result OnboardingError Fields
of_payload (some (object fs)) =
    if equals_number (get_field "schema_version" fs) 1 then by_state fs else err unsupported_schema
of_payload (some _) = err unsupported_schema
of_payload none = err malformed

unfoldable pub parse_onboarding_payload :
    (List ℕ → Option Json) → List ℕ → Result OnboardingError Fields
unfolding strip_end
parse_onboarding_payload loads raw =
    if length raw == 0 || ltb 192 (length raw)
    then err bad_size
    else of_payload (loads (strip_end raw))
