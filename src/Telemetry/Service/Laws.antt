-- ===== src/Telemetry/Service/Laws.antt =====
-- telemetry_service.py: a packet that was taken in is not taken in again.
use seed_mg.Prelude.{
  ℕ, sym, inl, inr, Option-cases, ◌≤◌, String, ◌≡◌, refl, Bool, true, false, Option, none, some,
  List, [], Result, ok, err, length, ap, ◌∙◌,
}
use seed_mg.Models.Device.{Reading}
use seed_mg.Models.Vibration.{VibrationSummary}
use seed_mg.Provisioning.Database.{Database}
use seed_mg.Telemetry.Session.{NodeSession, is_duplicate, dedupe_key, by_sequence, by_digest}
use seed_mg.Models.Telemetry.{NormalizedTelemetry}
use seed_mg.Telemetry.Session.Laws.{remember_bounded}
use seed_mg.Telemetry.Persistence.{PersistenceError}
use seed_mg.Vibration.Statistics.{Floats}
use seed_mg.Vibration.Service.{Tables, VibrationError, Outcome}
use seed_mg.Telemetry.Service.{
  IngestError, Intake, Arrival, is_vibration, is_mismatched, key_of, session_of, processed,
  ingest_vibration, persisted, ingest_kind, ingest_sized, ingest_new, ingest_own, ingest,
}

dedupe_key-some :
    (p : NormalizedTelemetry) (digest : String) (n : ℕ)
    → p.sequence_number ≡ some n
    → dedupe_key p digest ≡ by_sequence p.record_type n
dedupe_key-some p digest n h = rw h refl

dedupe_key-none :
    (p : NormalizedTelemetry) (digest : String)
    → p.sequence_number ≡ none
    → dedupe_key p digest ≡ by_digest p.device_uptime_ms digest
dedupe_key-none p digest h = rw h refl

module _ {F : Type 0} (floats : Floats F) (node : String) (a : Arrival floats)
    (rows : List Reading) where
  -- What the service remembers of the packet after it gave `rows`.
  abbrev Remembers : Result IngestError (List Reading) × Intake floats → Type 0
  Remembers r = r.0 ≡ ok rows → is_duplicate (key_of floats a) r.1.dedupe ≡ true

  processed-Remembers :
      (v : VibrationSummary F) (s : Intake floats)
      (x : Result VibrationError (Outcome floats) × Tables floats)
      → length s.dedupe ≤ 256
      → Remembers (processed floats node a v s x)
  processed-Remembers v s (err e, t) b h = cc
  processed-Remembers v s (ok o, t) b h = (remember_bounded (key_of floats a) s.dedupe b).1

  vibration-Remembers :
      (session : String) (s : Intake floats) (o : Option (VibrationSummary F))
      → length s.dedupe ≤ 256
      → Remembers (ingest_vibration floats node a session s o)
  vibration-Remembers session s none b h = cc
  vibration-Remembers session s (some v) b h = processed-Remembers v s _ b h

  persisted-Remembers :
      (s : Intake floats) (x : Result PersistenceError (List Reading) × Database)
      → length s.dedupe ≤ 256
      → Remembers (persisted floats node a s x)
  persisted-Remembers s (err e, db) b h = cc
  persisted-Remembers s (ok rs, db) b h = (remember_bounded (key_of floats a) s.dedupe b).1

  kind-Remembers :
      (session : NodeSession) (s : Intake floats) (k : Bool)
      → length s.dedupe ≤ 256
      → Remembers (ingest_kind floats node a session s k)
  kind-Remembers session s true b h = vibration-Remembers session.session_id _ a.summary b h
  kind-Remembers session s false b h = persisted-Remembers s _ b h

  sized-Remembers :
      (s : Intake floats) (k : Bool)
      → length s.dedupe ≤ 256
      → Remembers (ingest_sized floats node a s k)
  sized-Remembers s true b h = cc
  sized-Remembers s false b h =
      kind-Remembers (session_of floats a s) _ (is_vibration a.payload) b h

  new-Remembers :
      (s : Intake floats) (k : Bool)
      → is_duplicate (key_of floats a) s.dedupe ≡ k
      → length s.dedupe ≤ 256
      → Remembers (ingest_new floats node a s k)
  new-Remembers s true e b h = e
  new-Remembers s false e b h = sized-Remembers s a.too_large b h

  -- The arrival `b` brings the same bytes again, at any time, with any clock and any new ids.
  pub record Repeats (b : Arrival floats) : Type 0 where
    pub device : b.payload.device_id ≡ a.payload.device_id
    pub record_type : b.payload.record_type ≡ a.payload.record_type
    pub sequence_number : b.payload.sequence_number ≡ a.payload.sequence_number
    pub device_uptime : b.payload.device_uptime_ms ≡ a.payload.device_uptime_ms
    pub digest : b.digest ≡ a.digest

  same_key : (b : Arrival floats) → Repeats b → key_of floats b ≡ key_of floats a
  same_key b same = elim (Option-cases a.payload.sequence_number) [
    | inl none_given ↦
        dedupe_key-none b.payload b.digest (same.sequence_number ∙ none_given)
        ∙ ap (λ u. by_digest u b.digest) same.device_uptime
        ∙ ap (by_digest a.payload.device_uptime_ms) same.digest
        ∙ sym (dedupe_key-none a.payload a.digest none_given)
    | inr (n, given) ↦
        dedupe_key-some b.payload b.digest n (same.sequence_number ∙ given)
        ∙ ap (λ t. by_sequence t n) same.record_type
        ∙ sym (dedupe_key-some a.payload a.digest n given)
  ]

  -- What the arrival `b` on the state `s` gives and leaves alone.
  pub record Ignored (b : Arrival floats) (s : Intake floats) : Type 0 where
    pub nothing : (ingest floats node b s).0 ≡ ok []
    pub rows_kept : (ingest floats node b s).1.db ≡ s.db
    pub vibration_kept : (ingest floats node b s).1.vibration ≡ s.vibration
    pub session_kept : (ingest floats node b s).1.session ≡ s.session
    pub memory_kept : (ingest floats node b s).1.dedupe ≡ s.dedupe

  repeated :
      (b : Arrival floats) (s : Intake floats)
      → is_mismatched node b.payload.device_id ≡ false
      → is_duplicate (key_of floats b) s.dedupe ≡ true
      → ingest floats node b s ≡ ingest_new floats node b s true
  unfolding ingest
  repeated b s m d = ap (ingest_own floats node b s) m ∙ ap (ingest_new floats node b s) d

  duplicate-Ignored :
      (b : Arrival floats) (s : Intake floats)
      → is_mismatched node b.payload.device_id ≡ false
      → is_duplicate (key_of floats b) s.dedupe ≡ true
      → Ignored b s
  duplicate-Ignored b s m d =
      let same = repeated b s m d in
      record {
        nothing = ap (λ r. r.0) same;
        rows_kept = ap (λ r. r.1.db) same;
        vibration_kept = ap (λ r. r.1.vibration) same;
        session_kept = ap (λ r. r.1.session) same;
        memory_kept = ap (λ r. r.1.dedupe) same;
      }

  -- After a packet was taken in, with a memory of at most 256 keys before, another arrival of the
  -- same bytes, whatever its time, the clock and the new ids are, gives no reading and changes
  -- neither a row nor the session nor the memory.
  pub ingest-ingest :
      (b : Arrival floats) (s : Intake floats)
      → Repeats b
      → length s.dedupe ≤ 256
      → (ingest floats node a s).0 ≡ ok rows
      → Ignored b (ingest floats node a s).1
  unfolding ingest
  ingest-ingest b s same short h = own (is_mismatched node a.payload.device_id) refl h
    where
      own :
          (m : Bool)
          → is_mismatched node a.payload.device_id ≡ m
          → (ingest_own floats node a s m).0 ≡ ok rows
          → Ignored b (ingest_own floats node a s m).1
      own true e k = cc
      own false e k =
          let after = (ingest_own floats node a s false).1 in
          duplicate-Ignored b after (ap (is_mismatched node) same.device ∙ e) (
            ap (λ j. is_duplicate j after.dedupe) (same_key b same)
            ∙ new-Remembers s _ refl short k)
