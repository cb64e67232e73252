-- ===== src/Relay/Breaker.antt =====
-- collab/relay.py, the circuit breaker: `_available`, `_mark_ok` and `_mark_fail`.
use hermes_k2_monitor.Prelude.{
  ℕ, zero, suc, ◌+◌, ◌-◌, ◌*◌, ◌^◌, ◌≤◌, ◌<◌, ◌≡◌, min, String, ◌||◌, none, some, ltb, leb, str_eq,
  arith, if◌then◌else◌, lookup, insert, lookup-insert, lookup-erase,
}
use native.Mathlib.Nat.{one-le-pow, pow-suc, min-eq_left}
use hermes_k2_monitor.Monad.{ok, raised}
use hermes_k2_monitor.Relay.{Client, overflow, pause_end, fails_of, available, mark_ok, mark_fail}

-- How often a partner has failed since it last answered.
abbrev pub fails : {M : Type 0} → Client M → String → ℕ
fails c url = fails_of (lookup url c.failure)

-- The pause after the `n`-th failure in a row, in milliseconds: none below the threshold, then the
-- base doubled with each failure, up to 16 times the base.
pub pause : ℕ → ℕ → ℕ → ℕ
pause max_retry base n = base * 2 ^ min 4 (n - max_retry)

pow_two-pos : (k : ℕ) → 1 ≤ 2 ^ k
pow_two-pos k = one-le-pow k 2 (omega arith)

-- `min (base * 16) (base * 2 ** k)` stops doubling at k = 4.
min-scale : (base k : ℕ) → min (base * 16) (base * 2 ^ k) ≡ base * 2 ^ min 4 k
min-scale base zero = omega arith
min-scale base (suc zero) = omega arith
min-scale base (suc (suc zero)) = omega arith
min-scale base (suc (suc (suc zero))) = omega arith
min-scale base (suc (suc (suc (suc k)))) =
    let four : min 4 (suc (suc (suc (suc k)))) ≡ 4 = omega arith in
    rw
      (four, pow-suc 2 (suc (suc (suc k))), pow-suc 2 (suc (suc k)), pow-suc 2 (suc k), pow-suc 2 k)
      (min-eq_left (grind (arith, pow_two-pos k)))

-- Short of an overflow, the pause of `_mark_fail` is the doubled and capped one.
pause_end_lem :
    (max_retry base now n : ℕ)
    → n < max_retry + 1024
    → pause_end max_retry base now n
      ≡ some (if leb max_retry n then now + pause max_retry base n else 0)
unfolding pause_end pause
pause_end_lem max_retry base now n h = ground (arith, min-scale base (n - max_retry))

pause_end_overflow :
    (max_retry base now n : ℕ) → max_retry + 1024 ≤ n → pause_end max_retry base now n ≡ none
unfolding pause_end
pause_end_overflow max_retry base now n h = ground arith

module _ {M : Type 0} (c : Client M) (url : String) where
  -- A recorded failure counts one more, and writes the end of the pause.
  pub mark_fail_lem :
      (now : ℕ)
      → fails c url < c.max_retry + 1023
      → let n = suc (fails c url) in
        mark_fail now url c ≡ (
          ok tt,
          record c {
            failure =
                insert url
                  (if leb c.max_retry n then now + pause c.max_retry c.break_seconds n else 0, n)
                  c.failure;
          },
        )
  unfolding mark_fail
  mark_fail_lem now h =
      rw
        (mark_fail, pause_end_lem c.max_retry c.break_seconds now (suc (fails c url)) (omega arith))

  -- The partners that are available once a pause of `url` is on record.
  available-insert :
      (until n t : ℕ) (other : String)
      → available t (record c { failure = insert url (until, n) c.failure }) other
        ≡ (if str_eq url other then ltb n c.max_retry || ltb until t else available t c other)
  unfolding available
  available-insert until n t other = ground (arith, lookup-insert url other (until, n) c.failure)

  -- Whom the client posts to after a failure of `url` has been recorded: other partners as before;
  -- `url` itself as long as it has failed fewer than `max_retry` times in a row, and from then on
  -- only once the pause is over.
  pub available-mark_fail :
      (now : ℕ)
      → fails c url < c.max_retry + 1023
      → (t : ℕ) (other : String)
      → let n = suc (fails c url) in
        available t (mark_fail now url c).1 other ≡ (
          if str_eq url other
          then (ltb n c.max_retry || ltb (now + pause c.max_retry c.break_seconds n) t)
          else available t c other)
  unfolding available
  available-mark_fail now h t other =
      let n = suc (fails c url) in
      rw (mark_fail_lem now h) (
        ground (
          arith,
          available-insert
              (if leb c.max_retry n then now + pause c.max_retry c.break_seconds n else 0) n t
              other,
        ))

  -- Once a partner has failed `max_retry` + 1023 times in a row, the next failure of it raises
  -- OverflowError and is not recorded.
  pub mark_fail_overflow :
      (now : ℕ) → c.max_retry + 1023 ≤ fails c url → mark_fail now url c ≡ (raised overflow, c)
  unfolding mark_fail
  mark_fail_overflow now h = rw (
    mark_fail,
    pause_end_overflow c.max_retry c.break_seconds now (suc (fails c url)) (omega arith),
  )

  -- A success opens the way to that partner at once, and changes nothing for the others.
  pub available-mark_ok :
      (t : ℕ) (other : String)
      → available t (mark_ok url c) other ≡ (str_eq url other || available t c other)
  unfolding available mark_ok
  available-mark_ok t other = rw (available, mark_ok, lookup-erase) (ground arith)
