-- ===== src/WsRelay/Backoff.antt =====
-- collab/wsrelay.py, the reconnect delays of `_run`.
use mathlib.Core.Path.{subst₂}
use native.Mathlib.Decide.{dec_lt}
use native.Mathlib.Nat.{pow-le-pow_right}
use hermes_k2_monitor.Prelude.{
  ℕ, zero, suc, ◌+◌, ◌*◌, ◌^◌, ◌≤◌, ◌<◌, ◌≡◌, refl, ap, ◌∙◌, true, List, [], ◌∷◌, ◌++◌, none, some,
  arith, ltb, if◌then◌else◌, replicate,
}
use hermes_k2_monitor.WsRelay.{
  reconnect_base, reconnect_max, delay, Dial, rejected, dropped, sleeping, dead, Link, pause, round,
  run, start,
}

-- The delay before the n-th redial in a row, counted from 0: 4, 8, 16, 32 and 64 seconds, then 120.
abbrev pub table : ℕ → ℕ
table n = if ltb n 5 then reconnect_base * 2 ^ n else reconnect_max

power-ge : (n : ℕ) → 5 ≤ n → 32 ≤ 2 ^ n
power-ge n h = pow-le-pow_right {n = 2} (omega arith) h

delay-table : (n : ℕ) → n < 1024 → delay n ≡ some (table n)
unfolding delay
delay-table zero h = refl
delay-table (suc zero) h = refl
delay-table (suc (suc zero)) h = refl
delay-table (suc (suc (suc zero))) h = refl
delay-table (suc (suc (suc (suc zero)))) h = refl
delay-table (suc (suc (suc (suc (suc n))))) h =
    ground (arith, power-ge (suc (suc (suc (suc (suc n))))))

delay_overflow : (n : ℕ) → 1024 ≤ n → delay n ≡ none
unfolding delay
delay_overflow n h = ground arith

-- A link whose task waits to dial.
abbrev pub waiting : ℕ → ℕ → Link
waiting r d = record { running = true; reconnects = r; task = sleeping d }

round-rejected : (r d : ℕ) → r < 1024 → round rejected (waiting r d) ≡ waiting (suc r) (table r)
unfolding round
round-rejected r d h = rw (pause, delay-table r h)

run-rejected :
    (n r d : ℕ)
    → suc r + n ≤ 1024
    → run (replicate (suc n) rejected) (waiting r d) ≡ waiting (suc r + n) (table (r + n))
unfolding run
run-rejected zero r d h =
    let e : suc r + 0 ≡ suc r = omega arith in
    let f : r + 0 ≡ r = omega arith in rw (e, f) (round-rejected r d (omega arith))
run-rejected (suc n) r d h =
    let e : suc r + suc n ≡ suc (suc r) + n = omega arith in
    let f : r + suc n ≡ suc r + n = omega arith in
    rw (e, f)
      (ap (run (replicate (suc n) rejected)) (round-rejected r d (omega arith))
        ∙ run-rejected n (suc r) (table r) (omega arith))

-- A link that was up and is lost starts its delays anew, whatever it went through before: then `n`
-- dials that the partner rejects, at most 1023, leave it waiting for the delay number `n` of the
-- table 4, 8, 16, 32, 64, 120, 120, … seconds.
pub run-dropped_rejected :
    (n r d : ℕ)
    → n < 1024
    → run (dropped ∷ replicate n rejected) (waiting r d) ≡ waiting (suc n) (table n)
unfolding run
run-dropped_rejected zero r d h = refl
run-dropped_rejected (suc n) r d h =
    let e : 1 + n ≡ suc n = omega arith in
    let f : 2 + n ≡ suc (suc n) = omega arith in
    subst₂ (λ a b. run (replicate (suc n) rejected) (waiting 1 4000) ≡ waiting a (table b)) f e
      (run-rejected n 1 4000 (omega arith))

run-dead : (ds : List Dial) (l : Link) → l.task ≡ dead → (run ds l).task ≡ dead
unfolding run
run-dead [] l h = h
run-dead (d ∷ ds) l h = run-dead ds (round d l) (unfold round in ground arith)

round_overflow : (r d : ℕ) → 1024 ≤ r → (round rejected (waiting r d)).task ≡ dead
unfolding round
round_overflow r d h = rw (pause, delay_overflow r h)

run-rejected_dead :
    (n r d : ℕ) (ds : List Dial)
    → r ≤ 1024
    → 1025 ≤ r + n
    → (run (replicate n rejected ++ ds) (waiting r d)).task ≡ dead
unfolding run
run-rejected_dead zero r d ds low h = absurd (omega arith)
run-rejected_dead (suc n) r d ds low h = elim (dec_lt r 1024) [
  | yes p ↦
      ap (λ l. (run (replicate n rejected ++ ds) l).task) (round-rejected r d p)
      ∙ run-rejected_dead n (suc r) (table r) ds (omega arith) (omega arith)
  | no p ↦
      run-dead (replicate n rejected ++ ds) (round rejected (waiting r d))
        (round_overflow r d (omega arith))
]

-- After 1025 rejected dials in a row the power overflows and ends the task: no dial comes after,
-- whatever the partner would answer.
pub run_overflow :
    (n : ℕ) (ds : List Dial) → 1025 ≤ n → (run (replicate n rejected ++ ds) start).task ≡ dead
unfolding start
run_overflow n ds h = run-rejected_dead n 0 0 ds (omega arith) (omega arith)
