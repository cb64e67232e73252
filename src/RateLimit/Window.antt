-- ===== src/RateLimit/Window.antt =====
-- collab/ratelimit.py over a history of calls: how many hits of a bucket are admitted in a window.
use hermes_k2_monitor.Prelude.{
  ℕ, ◌+◌, ◌*◌, ◌≤◌, ◌<◌, ◌≡◌, refl, String, List, [], ◌∷◌, ◌++◌, arith, Option, none, some, max,
  leb, eq_iff, if◌then◌else◌, count_if, count_if-append, ◌⊎◌, inl, inr, Bool-cases,
}
use hermes_k2_monitor.RateLimit.{Hit, Limiter, Decision, window, in_bucket, new, admit, check}
use hermes_k2_monitor.RateLimit.Count.{between, live, between-le-live, live-live, live-append_now}

-- A limiter, with every hit that it has admitted.
pub record Trace : Type 0 where
  pub limiter : Limiter
  pub admitted : List Hit

-- The trace after a call of `check` at `now` with its outcome.
abbrev pub note : String → ℕ → Trace → Option (Limiter × Decision) → Trace
note b now s none = s
note b now s (some (r, d)) = record {
  limiter = r;
  admitted =
      if d.allowed then s.admitted ++ record { bucket = b; hit_at = now } ∷ [] else s.admitted;
}

pub run : List (String × ℕ) → Trace → Trace
run [] s = s
run ((b, now) ∷ calls) s = run calls (note b now s (check b now s.limiter))

-- The clock does not go back from call to call.
abbrev pub Monotone : ℕ → List (String × ℕ) → Type 0
Monotone t [] = Unit
Monotone t ((_, now) ∷ calls) = (t ≤ now) × Monotone now calls

-- The table holds the live part of the history, and no window of it holds more than the limit.
record Inv (limit w t : ℕ) (s : Trace) : Type 0 where
  at_limit : s.limiter.limit ≡ limit
  at_window : s.limiter.window_seconds ≡ w
  table : s.limiter.rate_hits ≡ live (1000 * w) t s.admitted
  bounded : (b : String) (from : ℕ) → count_if (between b from (from + 1000 * w)) s.admitted ≤ limit

module _ (b : String) (limit w t now : ℕ) (ordered : t ≤ now) where
  -- One more admitted hit keeps every window within the limit.
  bounded-append :
      (hits : List Hit)
      → count_if (in_bucket b) (live (1000 * w) now hits) < limit
      → ((c : String) (from : ℕ) → count_if (between c from (from + 1000 * w)) hits ≤ limit)
      → (c : String) (from : ℕ)
      → count_if
          (between c from (from + 1000 * w))
          (hits ++ record { bucket = b; hit_at = now } ∷ [])
        ≤ limit
  bounded-append hits room old c from = rw count_if-append (
      ground (
        arith,
        old c from,
        eq_iff b c,
        between-le-live (1000 * w) c from now hits,
        count_if-append (between c from (from + 1000 * w)) hits
            (record { bucket = b; hit_at = now } ∷ []),
      ))

module _ (b : String) (limit w t now : ℕ) (ordered : t ≤ now) (s : Trace)
    (inv : Inv limit w t s) where
  -- The DELETE leaves the live part of the history.
  admit-table : live (window s.limiter) now s.limiter.rate_hits ≡ live (1000 * w) now s.admitted
  admit-table = rw (inv.at_window, inv.table) (live-live (1000 * w) t now s.admitted ordered)

  admit-Inv : Inv limit w now (note b now s (some (admit b now s.limiter)))
  unfolding admit
  admit-Inv =
      elim (Bool-cases (
        leb s.limiter.limit
          (count_if (in_bucket b) (live (window s.limiter) now s.limiter.rate_hits)))) [
            | inl full ↦ rw full (record {
              at_limit = inv.at_limit;
              at_window = inv.at_window;
              table = admit-table;
              bounded = inv.bounded;
            })
            | inr room ↦ rw room (record {
              at_limit = inv.at_limit;
              at_window = inv.at_window;
              table = rw (live-append_now, admit-table);
              bounded =
                  bounded-append b limit w t now ordered s.admitted
                    (rw (← admit-table, ← inv.at_limit) (ground arith)) inv.bounded;
            })
          ]

check-cases :
    (b : String) (now : ℕ) (r : Limiter)
    → (check b now r ≡ none) ⊎ (check b now r ≡ some (admit b now r))
unfolding check
check-cases b now r = ground arith

-- A call as a step of the trace.
run-cons :
    (b : String) (now : ℕ) (calls : List (String × ℕ)) (s s' : Trace)
    → note b now s (check b now s.limiter) ≡ s'
    → run ((b, now) ∷ calls) s ≡ run calls s'
unfolding run
run-cons b now calls s s' e = rw e

run-bounded :
    (limit w : ℕ) (calls : List (String × ℕ)) (t clock : ℕ) (s : Trace)
    → t ≤ clock
    → Monotone clock calls
    → Inv limit w t s
    → (b : String) (from : ℕ)
    → count_if (between b from (from + 1000 * w)) (run calls s).admitted ≤ limit
run-bounded limit w [] t clock s h m inv = unfold run in inv.bounded
run-bounded limit w ((b, now) ∷ calls) t clock s h (later, m) inv =
    elim (check-cases b now s.limiter) [
      | inl e ↦
          rw (run-cons b now calls s s (rw e))
            (run-bounded limit w calls t now s (omega arith) m inv)
      | inr e ↦ rw (run-cons b now calls s (note b now s (some (admit b now s.limiter))) (rw e)) (
          run-bounded limit w calls now now (note b now s (some (admit b now s.limiter)))
            (omega arith) m (admit-Inv b limit w t now (omega arith) s inv))
    ]

-- From a fresh database, whatever the calls, as long as the clock does not go back: in any stretch
-- of `window_seconds`, both ends included, at most `limit` hits of one bucket are admitted.
pub admitted-le-limit :
    (limit w : ℕ) (calls : List (String × ℕ))
    → Monotone 0 calls
    → (b : String) (from : ℕ)
    → count_if
        (between b from (from + 1000 * max 1 w))
        (run calls (record { limiter = new limit w; admitted = [] })).admitted
      ≤ max 1 limit
unfolding new
admitted-le-limit limit w calls m =
    run-bounded (max 1 limit) (max 1 w) calls 0 0 (record { limiter = new limit w; admitted = [] })
      (omega arith) m
      (record { at_limit = refl; at_window = refl; table = refl; bounded = λ b from. omega arith })
