-- ===== src/Relay/Tests.antt =====
-- collab/relay.py on concrete clients.
use hermes_k2_monitor.Prelude.{
  ℕ, ◌+◌, ◌*◌, leb, ◌&&◌, ◌≤◌, ◌≡◌, refl, true, false, ◌||◌, [], ◌∷◌, ◌++◌, arith, ltb, str_eq,
  if◌then◌else◌, last_n, replicate, lookup, insert, erase,
}
use hermes_k2_monitor.Monad.{ok, raised}
use hermes_k2_monitor.Relay.{
  Client, Io, overflow, status, failed, available, mark_fail, mark_ok, post, queue_safe, dispatch,
  drain, pause_end,
}
use hermes_k2_monitor.Relay.Breaker.{pause, available-mark_fail}
use hermes_k2_monitor.Relay.Queue.{IsBounded, IsCalm}
use hermes_k2_monitor.Relay.Dispatch.{Offers, dispatch_lem}
use hermes_k2_monitor.Relay.Tries.{Drains}
use hermes_k2_monitor.Relay.Drain.{drain_lem, drain_overflow}

-- Two partners; "b" has failed twice.
abbrev client : Client ℕ
client = record {
  partners = "a" ∷ "b" ∷ [];
  local_node_id = "mesh-local";
  trust = false;
  mesh_key = true;
  max_retry = 3;
  break_seconds = 15000;
  queue_cap = 2;
  failure = ("b", (0, 2)) ∷ [];
  queue = 7 ∷ 8 ∷ [];
  scheduled = [];
  attempts = 0;
  readings = 0;
  signatures = 0;
}

-- "a" accepts, "b" cannot be reached.
abbrev io : Io ℕ
io = record {
  time = λ n. 1000 * n;
  reply = λ n url m. if str_eq url "a" then status 200 else failed;
  time_after = λ n. 1000 * n + 500;
}

-- The third failure in a row stops the posts to "b" for 15 seconds.
available-mark_fail_example :
    available 16000 (mark_fail 1000 "b" client).1 "b"
    ≡ (ltb 3 3 || ltb (1000 + pause 3 15000 3) 16000)
unfolding lookup
available-mark_fail_example = available-mark_fail client "b" 1000 (omega arith) 16000 "b"

abbrev worn_out : Client ℕ
worn_out = record client { failure = ("b", (0, 1026)) ∷ [] }

-- A partner that has failed 1026 times makes `_dispatch` raise, and the partners behind it get
-- neither a post nor a place in the queue.
dispatch_overflow :
    (dispatch io 9 (record worn_out { partners = "b" ∷ "a" ∷ []; attempts = 1; readings = 1 })).0
    ≡ raised overflow
unfolding dispatch lookup insert erase pause_end
dispatch_overflow = refl

client-IsCalm : IsCalm 2 client
unfolding lookup
client-IsCalm url = ground arith

client-IsBounded : IsBounded client
client-IsBounded = record { room = omega arith; fits = omega arith }

dispatch_lem_example :
    (k : ℕ) × (c' : Client ℕ) × (k ≤ 2)
    × Offers io 9 ("a" ∷ "b" ∷ []) client k c'
    × (dispatch io 9 client ≡ (ok (ltb k 2), c'))
    × (c'.queue ≡ last_n 2 ((7 ∷ 8 ∷ []) ++ replicate k 9))
dispatch_lem_example = dispatch_lem io 9 client client-IsCalm client-IsBounded

dispatch_once : (dispatch io 9 client).0 ≡ ok true
unfolding dispatch lookup insert erase pause_end
dispatch_once = refl

-- The retry queue drops its oldest envelope for the new copy, and the next drain hands both copies
-- to "a", the first partner that accepts: "b" is not tried again.
drain_forgets :
    ((dispatch io 9 client).1.queue ≡ 8 ∷ 9 ∷ [])
    × ((drain io (dispatch io 9 client).1).1.queue ≡ [])
unfolding dispatch drain lookup insert erase pause_end
drain_forgets = (refl, refl)

-- "a" refuses 8 and accepts 7.
abbrev picky : Io ℕ
picky = record io { reply = λ n url m. if str_eq url "a" && leb m 7 then status 200 else failed }

client-IsCalm_drain : IsCalm 4 client
unfolding lookup
client-IsCalm_drain url = ground arith

drain_lem_example :
    (c' : Client ℕ) × (drain picky client ≡ (ok tt, c'))
    × Drains picky ("a" ∷ "b" ∷ []) (record client { queue = [] }) (7 ∷ 8 ∷ []) c'.queue c'
drain_lem_example = drain_lem picky client client-IsCalm_drain client-IsBounded

drain-picky : (drain picky client).1.queue ≡ 8 ∷ []
unfolding drain lookup insert erase pause_end available post mark_ok mark_fail queue_safe
drain-picky = refl

abbrev stranded : Client ℕ
stranded = record worn_out { partners = "b" ∷ "a" ∷ []; attempts = 1; readings = 1 }

drain_overflow_example :
    ((drain io stranded).0 ≡ raised overflow) × ((drain io stranded).1.queue ≡ [])
unfolding lookup available
drain_overflow_example =
    drain_overflow io stranded 7 (8 ∷ []) "b" ("a" ∷ []) refl refl refl refl (omega arith)
