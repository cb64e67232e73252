-- ===== src/WsRelay/Tests.antt =====
-- collab/wsrelay.py on concrete dials.
use hermes_k2_monitor.Prelude.{◌≡◌, refl, [], ◌∷◌, ◌++◌, replicate, arith}
use hermes_k2_monitor.WsRelay.{rejected, dropped, stopped_late, dead, over, run, start}
use hermes_k2_monitor.WsRelay.Backoff.{waiting, run-dropped_rejected, run_overflow}

stopped_link : (run (dropped ∷ stopped_late ∷ dropped ∷ []) start).task ≡ over
unfolding run start
stopped_link = refl

run-dropped_rejected_example :
    run (dropped ∷ replicate 6 rejected) (waiting 40 120000) ≡ waiting 7 120000
run-dropped_rejected_example = run-dropped_rejected 6 40 120000 (omega arith)

run_overflow_example : (run (replicate 1025 rejected ++ dropped ∷ []) start).task ≡ dead
run_overflow_example = run_overflow 1025 (dropped ∷ []) (omega arith)
