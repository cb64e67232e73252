-- ===== src/RateLimit.antt =====
-- collab/ratelimit.py: the SQLite-backed limiter. The table `rate_hits` is the list of its rows.
-- Times are milliseconds, so `hit_at < now - window_seconds` is written without a negative cutoff
-- and the `+ 0.999` of the retry hint is exact.
mod Count
pub mod Window
pub mod Retry
mod Tests
use hermes_k2_monitor.Prelude.{
  ℕ, ◌+◌, ◌-◌, ◌*◌, ◌/◌, max, min, String, Bool, true, false, not, List, [], ◌∷◌, ◌++◌, Option,
  none, some, ltb, leb, str_eq, if◌then◌else◌, keep_if, count_if,
}

-- A row of `rate_hits`.
pub record Hit : Type 0 where
  pub bucket : String
  pub hit_at : ℕ

-- `RateLimitDecision`
pub record Decision : Type 0 where
  pub allowed : Bool
  pub count : ℕ
  pub limit : ℕ
  pub retry_after : ℕ

pub record Limiter : Type 0 where
  pub limit : ℕ
  pub window_seconds : ℕ
  pub rate_hits : List Hit

-- `SQLiteRateLimiter.__init__` on a fresh database
pub new : ℕ → ℕ → Limiter
new limit window_seconds = record {
  limit = max 1 limit;
  window_seconds = max 1 window_seconds;
  rate_hits = [];
}

abbrev pub window : Limiter → ℕ
window r = 1000 * r.window_seconds

-- `hit_at < ?` of the DELETE
abbrev pub expired : ℕ → ℕ → Hit → Bool
expired span now h = ltb (h.hit_at + span) now

-- `WHERE bucket = ?`
abbrev pub in_bucket : String → Hit → Bool
in_bucket b h = str_eq h.bucket b

-- `SELECT MIN(hit_at) … WHERE bucket = ?`
pub oldest : String → List Hit → Option ℕ
oldest b [] = none
oldest b (h ∷ hs) =
    let rest = oldest b hs in
    if in_bucket b h then some (elim rest [ none ↦ h.hit_at | some t ↦ min h.hit_at t ]) else rest

-- `max(1, int(oldest + window_seconds - now + 0.999))`, in seconds
abbrev pub wait_for : Limiter → ℕ → Option ℕ → ℕ
wait_for r now none = 1
wait_for r now (some t) = max 1 ((t + window r + 999 - now) / 1000)

-- The transaction of `check`: DELETE, COUNT, and then the INSERT or the retry hint.
unfoldable pub admit : String → ℕ → Limiter → Limiter × Decision
unfolding oldest
admit b now r =
    let live = keep_if (λ h. not (expired (window r) now h)) r.rate_hits in
    let count = count_if (in_bucket b) live in
    if leb r.limit count
    then (
      record r { rate_hits = live },
      record {
        allowed = false;
        count = count;
        limit = r.limit;
        retry_after = wait_for r now (oldest b live);
      },
    )
    else (
      record r { rate_hits = live ++ record { bucket = b; hit_at = now } ∷ [] },
      record { allowed = true; count = count + 1; limit = r.limit; retry_after = 0 },
    )

-- `check`: `none` is the ValueError for an empty bucket, raised before the database is opened.
unfoldable pub check : String → ℕ → Limiter → Option (Limiter × Decision)
check b now r = if str_eq b "" then none else some (admit b now r)

-- `reset`
pub reset : Option String → Limiter → Limiter
reset none r = record r { rate_hits = [] }
reset (some b) r = record r { rate_hits = keep_if (λ h. not (in_bucket b h)) r.rate_hits }
