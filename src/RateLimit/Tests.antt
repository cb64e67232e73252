-- ===== src/RateLimit/Tests.antt =====
-- collab/ratelimit.py on concrete calls, after tests/test_ratelimit.py.
use hermes_k2_monitor.Prelude.{
  ℕ, ◌+◌, ◌*◌, ◌≤◌, ◌≡◌, refl, String, false, List, [], ◌∷◌, some, none, arith, max, count_if,
}
use hermes_k2_monitor.RateLimit.{Limiter, new, admit, check, reset}
use hermes_k2_monitor.RateLimit.Count.{between}
use hermes_k2_monitor.RateLimit.Window.{run, admitted-le-limit}

abbrev two_calls : List (String × ℕ)
two_calls = ("ws:a", 1000) ∷ ("ws:a", 2000) ∷ ("ws:a", 3000) ∷ ("ws:b", 3000) ∷ []

abbrev full : Limiter
full = record {
  limit = 2;
  window_seconds = 60;
  rate_hits =
      record { bucket = "ws:a"; hit_at = 1000 } ∷ record { bucket = "ws:a"; hit_at = 2000 } ∷ [];
}

refused_call : (admit "ws:a" 3000 full).1.allowed ≡ false
unfolding admit
refused_call = refl

-- The row that is exactly `window_seconds` old is still counted, so a caller that waits for exactly
-- `retry_after` seconds can be refused once more.
retry_exact :
    ((admit "ws:a" 3000 full).1.retry_after ≡ 58)
    × ((admit "ws:a" 61000 (admit "ws:a" 3000 full).0).1.allowed ≡ false)
unfolding admit
retry_exact = (refl, refl)

reset_one : (reset (some "ws:a") full).rate_hits ≡ []
unfolding reset
reset_one = refl

empty_bucket : check "" 0 full ≡ none
unfolding check
empty_bucket = refl

admitted-le-limit_example :
    count_if
      (between "ws:a" 1000 (1000 + 1000 * max 1 60))
      (run two_calls (record { limiter = new 2 60; admitted = [] })).admitted
    ≤ max 1 2
admitted-le-limit_example = admitted-le-limit 2 60 two_calls (omega arith) "ws:a" 1000
