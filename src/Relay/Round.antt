-- ===== src/Relay/Round.antt =====
-- collab/relay.py: what a partner's turn in `_dispatch` or `drain_loop` comes to.
use hermes_k2_monitor.Prelude.{
  ℕ, suc, ◌+◌, ◌≡◌, String, Bool, true, false, none, some, str_eq, if◌then◌else◌, lookup,
}
use hermes_k2_monitor.Relay.{Client, Io, is_ok, available}
use hermes_k2_monitor.Relay.Breaker.{fails}

-- `posts` attempts and one call of `_available` later.
pub record Follows {M : Type 0} (posts : ℕ) (c d : Client M) : Type 0 where
  pub attempts : d.attempts ≡ c.attempts + posts
  pub readings : d.readings ≡ suc c.readings
  pub max_retry : d.max_retry ≡ c.max_retry

-- The record of a partner after an answer: none after a success, one failure more after a refusal.
-- Those of the others are as before.
abbrev pub IsRecorded : {M : Type 0} → Bool → String → Client M → Client M → Type 0
IsRecorded true url c d =
    (j : String) → lookup j d.failure ≡ (if str_eq url j then none else lookup j c.failure)
IsRecorded false url c d =
    (until : ℕ) × ((j : String)
      → lookup j d.failure
        ≡ (if str_eq url j then some (until, suc (fails c url)) else lookup j c.failure))

-- A partner's turn, from `c` to `d`: it is not available and passed over, or it is asked, and the
-- Boolean says whether its answer is one of success.
pub data Round {M : Type 0} (io : Io M) (m : M) (url : String) (c : Client M)
    : Bool → Client M → Type 0 where
  passed_over :
      {d : Client M}
      → available (io.time c.readings) c url ≡ false
      → d.failure ≡ c.failure
      → Follows 0 c d
      → Round io m url c false d
  asked :
      {d : Client M} {r : Bool}
      → available (io.time c.readings) c url ≡ true
      → is_ok (io.reply c.attempts url m) ≡ r
      → IsRecorded r url c d
      → Follows 1 c d
      → Round io m url c r d
