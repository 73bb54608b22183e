-- ===== src/Telemetry/Session.antt =====
-- telemetry_service.py: `_session_for`, `_dedupe_key`, `_is_duplicate` and `_remember`, each on the
-- entry of one device. Times are in microseconds.
pub mod Laws
use seed_mg.Prelude.{
  ℕ, suc, ◌+◌, ◌-◌, ◌*◌, String, Bool, true, false, not, ◌&&◌, ◌||◌, Option, none, some, List, [],
  ◌∷◌, ◌++◌, str_eq, if◌then◌else◌, ltb, any, length, ◌==◌,
}
use seed_mg.Models.Telemetry.{NormalizedTelemetry}

-- An entry of `_sessions`: the boot time may lie before the epoch, so it is kept as the time of the
-- reception and the uptime that is taken from it.
pub record BootTime : Type 0 where
  pub received_at : ℕ
  pub uptime : ℕ

pub record NodeSession : Type 0 where
  pub session_id : String
  pub last_uptime : Option ℕ
  pub boot_time : Option BootTime

-- `current is None or uptime is not None and current[1] is not None and uptime < current[1]`
abbrev pub is_restarted : Option NodeSession → Option ℕ → Bool
is_restarted none uptime = true
is_restarted (some c) none = false
is_restarted (some c) (some u) = below c.last_uptime
  where
    below : Option ℕ → Bool
    below none = false
    below (some l) = ltb u l

abbrev pub boot_time_at : ℕ → Option ℕ → Option BootTime
boot_time_at received none = none
boot_time_at received (some u) = some (record { received_at = received; uptime = u })

-- The branch that does not start a session; an entry is then there.
abbrev pub continued : NodeSession → Option ℕ → NodeSession
continued c none = c
continued c (some u) = record c { last_uptime = some u }

abbrev pub opened : String → ℕ → Option ℕ → NodeSession
opened fresh received uptime = record {
  session_id = fresh;
  last_uptime = uptime;
  boot_time = boot_time_at received uptime;
}

unfoldable pub session_for : String → ℕ → Option NodeSession → Option ℕ → NodeSession
session_for fresh received none uptime = opened fresh received uptime
session_for fresh received (some c) uptime =
    if is_restarted (some c) uptime then opened fresh received uptime else continued c uptime

-- The two texts that `_dedupe_key` gives; `digest` is the digest of the packet's bytes.
pub data DedupeKey : Type 0 where
  by_sequence : String → ℕ → DedupeKey
  by_digest : Option ℕ → String → DedupeKey

abbrev pub dedupe_key : NormalizedTelemetry → String → DedupeKey
dedupe_key p digest = key p.sequence_number
  where
    key : Option ℕ → DedupeKey
    key (some n) = by_sequence p.record_type n
    key none = by_digest p.device_uptime_ms digest

abbrev same_uptime : Option ℕ → Option ℕ → Bool
same_uptime none none = true
same_uptime (some a) (some b) = a == b
same_uptime _ _ = false

abbrev pub same_key : DedupeKey → DedupeKey → Bool
same_key (by_sequence t n) (by_sequence u m) = str_eq t u && n == m
same_key (by_digest u d) (by_digest v e) = same_uptime u v && str_eq d e
same_key _ _ = false

-- `key in cache`; the cache is an `OrderedDict`, the oldest key first.
abbrev pub is_duplicate : DedupeKey → List DedupeKey → Bool
is_duplicate k = any (λ j. same_key j k)

-- `while len(cache) > 256: cache.popitem(last=False)`
unfoldable pub evict : List DedupeKey → List DedupeKey
evict [] = []
evict (k ∷ ks) = let rest = evict ks in if ltb 256 (suc (length ks)) then rest else k ∷ ks

-- `cache[key] = None` leaves a key that is there in its place.
unfoldable pub remember : DedupeKey → List DedupeKey → List DedupeKey
unfolding evict
remember k ks = evict (if is_duplicate k ks then ks else ks ++ k ∷ [])
