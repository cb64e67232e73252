-- ===== src/Server/Gates/Credentials.antt =====
-- server.py: what a caller that passes a gate has shown.
use hermes_k2_monitor.Prelude.{
  ◌≡◌, ◌≢◌, refl, ◌⊎◌, inl, inr, String, true, false, Option, none, some, arith, str_eq, eq_iff,
  Bool-cases,
}
use hermes_k2_monitor.Text.{or_text, compare_digest}
use hermes_k2_monitor.Monad.{ok, Result-cases}
use hermes_k2_monitor.Auth.Tokens.{verify_owner}
use hermes_k2_monitor.Server.Gates.{
  Request, Gate, bearer, owner_authorized, view_supplied, view_authorized, loopback_only,
  view_allowed, write_supplied, write_allowed, is_write_token, text_of,
}

compare_digest-eq : (a b : String) → compare_digest a b ≡ ok true → a ≡ b
unfolding compare_digest
compare_digest-eq a b e = ground (arith, eq_iff a b)

verify_owner-eq :
    (owner : String) (o : Option String)
    → verify_owner owner o ≡ ok true
    → (s : String) × (o ≡ some s) × (s ≡ owner) × (s ≢ "")
unfolding verify_owner
verify_owner-eq owner none e = cc
verify_owner-eq owner (some s) e = elim (Bool-cases (str_eq s "")) [
  | inl y ↦ absurd (ground arith)
  | inr n ↦ (s, refl, compare_digest-eq s owner (ground arith), λ f. ground (arith, eq_iff s ""))
]

-- Whoever passes the viewer gate has supplied the viewer token, if there is one; without one the
-- caller's address is a loopback address.
pub view_allowed_lem :
    (g : Gate) (r : Request)
    → view_allowed g r ≡ ok true
    → ((g.view_token ≢ "") × (text_of (view_supplied r) ≡ g.view_token))
      ⊎ ((g.view_token ≡ "") × (loopback_only r ≡ true))
unfolding view_allowed view_authorized
view_allowed_lem g r e = elim (Bool-cases (str_eq g.view_token "")) [
  | inl y ↦ inr ((eq_iff g.view_token "").0 y, ground arith)
  | inr n ↦ inl (
    λ f. ground (arith, eq_iff g.view_token ""),
    compare_digest-eq (text_of (view_supplied r)) g.view_token (ground arith),
  )
]

is_write_token-eq :
    (g : Gate) (o : Option String)
    → is_write_token g o ≡ ok true
    → (s : String) × (o ≡ some s) × (s ≡ g.write_token) × (s ≢ "")
is_write_token-eq g none e = cc
is_write_token-eq g (some s) e = elim (Bool-cases (str_eq s "")) [
  | inl y ↦ absurd (ground arith)
  | inr n ↦
      (s, refl, compare_digest-eq s g.write_token (ground arith), λ f. ground (arith, eq_iff s ""))
]

-- Whoever passes the gate of the writing routes has supplied the write token or the owner token, and
-- not an empty one: the viewer token does not open it, nor does a loopback address.
pub write_allowed_lem :
    (g : Gate) (r : Request)
    → write_allowed g r ≡ ok true
    → ((s : String) × (write_supplied r ≡ some s) × (s ≡ g.write_token) × (s ≢ ""))
      ⊎ ((s : String) × (or_text r.x_collab_owner (bearer r) ≡ some s)
          × (s ≡ g.owner_token)
          × (s ≢ ""))
unfolding write_allowed owner_authorized
write_allowed_lem g r e = elim (Bool-cases (str_eq g.write_token "")) [
  | inl y ↦ inr (verify_owner-eq g.owner_token (or_text r.x_collab_owner (bearer r)) (ground arith))
  | inr n ↦ elim (Result-cases (is_write_token g (write_supplied r))) [
    | inr (x, f) ↦ absurd (ground arith)
    | inl (true, f) ↦ inl (is_write_token-eq g (write_supplied r) f)
    | inl (false, f) ↦
        inr (verify_owner-eq g.owner_token (or_text r.x_collab_owner (bearer r)) (ground arith))
  ]
]
