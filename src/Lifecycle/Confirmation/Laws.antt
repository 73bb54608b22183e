-- ===== src/Lifecycle/Confirmation/Laws.antt =====
-- A confirmation is good once, for its subject, and until it expires.
use seed_mg.Prelude.{
  ℕ, ◌+◌, ◌<◌, String, ◌≡◌, ◌↔◌, refl, subst, true, Option, none, some, [], ◌∷◌, str_eq,
  if◌then◌else◌, ok, err, arith, eq_iff, eq_refl, row, opt_str_eq→eq, opt_str_eq,
}
use seed_mg.Lifecycle.Confirmation.{
  Subject, Store, missing, token_of, lookup, without, issue, matches, judge, consume, pending_for,
}

opt_str_eq_self : (o : Option String) → opt_str_eq o o ≡ true
opt_str_eq_self none = refl
opt_str_eq_self (some a) = eq_refl a

lookup-without :
    (t u : String) (s : Store) → lookup u (without t s) ≡ (if str_eq t u then none else lookup u s)
unfolding without row
lookup-without t u [] = ground arith
lookup-without t u (e ∷ s) =
    ground (arith, lookup-without t u s, eq_iff (token_of e) t, eq_iff (token_of e) u, eq_iff t u)

-- Whatever it was refused or accepted for, a token that was presented is refused afterwards.
pub consume-consume :
    (now later : ℕ) (token : String) (subject other : Subject) (s : Store)
    → (consume later token other (consume now token subject s).1).0 ≡ err missing
unfolding consume
consume-consume now later token subject other s =
    rw (lookup-without token token s) (rw (eq_refl token))

matches_self : (s : Subject) (t : ℕ) → matches (pending_for s t) s ≡ true
matches_self s t = ground (
  arith,
  eq_iff s.device_id s.device_id,
  opt_str_eq_self s.hardware_id,
  opt_str_eq_self s.ble_address,
)

matches→eq : (s o : Subject) (t : ℕ) → matches (pending_for s t) o ≡ true → s ≡ o
matches→eq s o t h = ground (
  arith,
  eq_iff s.device_id o.device_id,
  opt_str_eq→eq s.hardware_id o.hardware_id,
  opt_str_eq→eq s.ble_address o.ble_address,
)

judge-pending :
    (now t : ℕ) (token : String) (s o : Subject)
    → (judge now o (some (token, pending_for s t)) ≡ ok tt) ↔ ((now < t) × (s ≡ o))
judge-pending now t token s o = (
  λ h. (ground arith, matches→eq s o t (ground arith)),
  λ h. ground (arith, subst (λ x. matches (pending_for s t) x ≡ true) h.1 (matches_self s t)),
)

-- A token that was issued is accepted exactly for its own subject and before its time is over.
pub consume-issue :
    (ttl now later : ℕ) (token : String) (subject other : Subject) (s : Store)
    → ((consume later token other (issue ttl now token subject s)).0 ≡ ok tt)
      ↔ ((later < now + ttl) × (subject ≡ other))
unfolding consume issue row
consume-issue ttl now later token subject other s =
    rw (eq_refl token) (judge-pending later (now + ttl) token subject other)
