-- ===== src/Telemetry/Session/Laws.antt =====
-- telemetry_service.py: the memory of packets is bounded, and holds the newest ones.
use seed_mg.Prelude.{
  ◌≤◌, ◌≡◌, refl, Bool, true, List, [], ◌∷◌, ◌++◌, if◌then◌else◌, length, arith, any, eq_refl, none,
  some,
}
use seed_mg.Telemetry.Session.{
  DedupeKey, by_sequence, by_digest, same_key, is_duplicate, evict, remember,
}

same_key_refl : (k : DedupeKey) → same_key k k ≡ true
same_key_refl (by_sequence t n) = ground (arith, eq_refl t)
same_key_refl (by_digest none d) = eq_refl d
same_key_refl (by_digest (some u) d) = ground (arith, eq_refl d)

length-evict : (ks : List DedupeKey) → length (evict ks) ≤ 256
unfolding evict
length-evict [] = omega arith
length-evict (k ∷ ks) = ground (arith, length-evict ks)

evict-short : (ks : List DedupeKey) → length ks ≤ 256 → evict ks ≡ ks
unfolding evict
evict-short [] h = refl
evict-short (k ∷ ks) h = ground arith

any-append_last :
    (p : DedupeKey → Bool) (ks : List DedupeKey) (k : DedupeKey)
    → p k ≡ true
    → any p (ks ++ k ∷ []) ≡ true
any-append_last p [] k h = ground (arith, h)
any-append_last p (j ∷ ks) k h = ground (arith, any-append_last p ks k h)

duplicate-evict_last :
    (ks : List DedupeKey) (k : DedupeKey) → is_duplicate k (evict (ks ++ k ∷ [])) ≡ true
unfolding evict
duplicate-evict_last [] k = ground (arith, same_key_refl k)
duplicate-evict_last (j ∷ ks) k =
    ground
      (arith, duplicate-evict_last ks k, any-append_last (λ i. same_key i k) ks k (same_key_refl k))

-- A cache of at most 256 keys still has at most 256 keys once a packet is remembered, and the same
-- packet is then a duplicate.
pub remember_bounded :
    (k : DedupeKey) (ks : List DedupeKey)
    → length ks ≤ 256
    → (length (remember k ks) ≤ 256) × (is_duplicate k (remember k ks) ≡ true)
unfolding remember
remember_bounded k ks h = (
  length-evict (if is_duplicate k ks then ks else ks ++ k ∷ []),
  ground (arith, duplicate-evict_last ks k, evict-short ks h),
)
