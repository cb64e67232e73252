-- ===== src/Relay.antt =====
-- collab/relay.py: the cross-VPS forwarder, its circuit breaker and its retry queue.
-- Times are milliseconds. What the network and the clock answer is the oracle `Io`, by the number
-- of the attempt or of the call of `_available`; a message is any signed envelope.
pub mod Breaker
pub mod Queue
pub mod Round
pub mod Offer
pub mod Dispatch
pub mod Tries
pub mod Drain
pub mod Forward
pub mod Partners
mod Tests
use hermes_k2_monitor.Trust.{allowed_ops}
use hermes_k2_monitor.Monad.{Result, ok, raised, Exec, ◌>>=◌, ◌>>◌, pure, modify}
use hermes_k2_monitor.Prelude.{
  ℕ, suc, ◌+◌, ◌-◌, ◌*◌, ◌^◌, min, String, Bool, true, false, ◌&&◌, ◌||◌, List, [], ◌∷◌, ◌++◌,
  Option, none, some, ltb, leb, str_eq, if◌then◌else◌, length, any, is_empty, not, Dict, lookup,
  insert, erase,
}

-- `OverflowError` of a product with a huge int, `IndexError` of `pop(0)` on an empty list,
-- `RelayForwardError` of a client that cannot sign, and what the signer raises.
pub data Error : Type 0 where
  overflow index forward_error untrusted : Error

-- `resp.status`, or an exception of the transport
pub data Response : Type 0 where
  status : ℕ → Response
  failed : Response

-- `200 <= resp.status < 300`
abbrev pub is_ok : Response → Bool
is_ok (status s) = leb 200 s && ltb s 300
is_ok failed = false

-- The n-th call of `_available` reads the clock as `time n`; the n-th attempt posts, and reads the clock
-- in `_mark_fail` as `time_after n`.
pub record Io (M : Type 0) : Type 0 where
  pub time : ℕ → ℕ
  pub reply : ℕ → String → M → Response
  pub time_after : ℕ → ℕ

-- `RelayClient`. `trust` says whether it is set, `mesh_key` whether it is set and not empty;
-- `scheduled` holds the envelopes that `create_task` has handed to the event loop.
pub record Client (M : Type 0) : Type 0 where
  pub partners : List String
  pub local_node_id : String
  pub trust : Bool
  pub mesh_key : Bool
  pub max_retry : ℕ
  pub break_seconds : ℕ
  pub queue_cap : ℕ
  pub failure : Dict (ℕ × ℕ)
  pub queue : List M
  pub scheduled : List M
  pub attempts : ℕ
  pub readings : ℕ
  pub signatures : ℕ

-- `base * (2 ** k)` for a float `base`: the power is an int, which from 2 ^ 1024 on does not convert.
pub scale : ℕ → ℕ → Option ℕ
scale base k = if ltb k 1024 then some (base * 2 ^ k) else none

-- The end of the pause in `_mark_fail`; `none` is the OverflowError.
pub pause_end : ℕ → ℕ → ℕ → ℕ → Option ℕ
unfolding scale
pause_end max_retry base now fails =
    if leb max_retry fails
    then elim (scale base (fails - max_retry)) [
      | none ↦ none
      | some s ↦ some (now + min (base * 16) s)
    ]
    else some 0

-- the failure count that `_mark_fail` starts from
abbrev pub fails_of : Option (ℕ × ℕ) → ℕ
fails_of none = 0
fails_of (some (_, fails)) = fails

module _ {M : Type 0} where
  -- `_available`
  pub available : ℕ → Client M → String → Bool
  available now c url = elim (lookup url c.failure) [
    | none ↦ true
    | some (until, fails) ↦ ltb fails c.max_retry || ltb until now
  ]

  -- `_mark_ok`
  pub mark_ok : String → Client M → Client M
  mark_ok url c = record c { failure = erase url c.failure }

  -- `_mark_fail`: an OverflowError leaves the record of the partner as it was
  pub mark_fail : ℕ → String → Exec Error (Client M) Unit
  mark_fail now url c =
      let fails = suc (fails_of (lookup url c.failure)) in
      elim (pause_end c.max_retry c.break_seconds now fails) [
        | none ↦ (raised overflow, c)
        | some until ↦ (ok tt, record c { failure = insert url (until, fails) c.failure })
      ]

  -- `self._queue.pop(0)`; `none` is the IndexError
  abbrev pub pop_oldest : List M → Option (List M)
  pop_oldest [] = none
  pop_oldest (m ∷ q) = some q

  -- the queue, with its oldest entry dropped if it is full
  abbrev pub make_room : ℕ → List M → Option (List M)
  make_room cap q = if leb cap (length q) then pop_oldest q else some q

  -- `_queue_safe`
  pub queue_safe : M → Exec Error (Client M) Unit
  queue_safe m c = elim (make_room c.queue_cap c.queue) [
    | none ↦ (raised index, c)
    | some q ↦ (ok tt, record c { queue = q ++ m ∷ [] })
  ]

  abbrev pub count_reading : Client M → Client M
  count_reading c = record c { readings = suc c.readings }

  abbrev count_attempt : Client M → Client M
  count_attempt c = record c { attempts = suc c.attempts }

module _ {M : Type 0} (io : Io M) where
  -- `_post_blocking` and `_post_async`
  pub post : String → M → Exec Error (Client M) Bool
  post url m c =
      let n = c.attempts in
      if is_ok (io.reply n url m)
      then (ok true, mark_ok url (count_attempt c))
      else (mark_fail (io.time_after n) url >> pure false) (count_attempt c)

  -- One round of the loop in `_dispatch`, on a partner.
  pub offer : String → M → Exec Error (Client M) Bool
  unfolding available mark_ok mark_fail queue_safe post
  offer url m c =
      if available (io.time c.readings) c url
      then (do
        accepted ← post url m
        if accepted then (modify (mark_ok url) >> pure true) else (queue_safe m >> pure false))
          (count_reading c)
      else (queue_safe m >> pure false) (count_reading c)

  pub dispatch_to : List String → M → Bool → Exec Error (Client M) Bool
  dispatch_to [] m accepted = pure accepted
  dispatch_to (url ∷ urls) m accepted = do r ← offer url m; dispatch_to urls m (accepted || r)

  -- `_dispatch`, and `_dispatch_async`, which drops the result
  pub dispatch : M → Exec Error (Client M) Bool
  unfolding dispatch_to offer
  dispatch m c = dispatch_to c.partners m false c

  -- The inner loop of `drain_loop`: the partners in order, up to the first that accepts.
  pub retry_to : List String → M → Exec Error (Client M) Bool
  retry_to [] m c = pure false c
  retry_to (url ∷ urls) m c =
      let next = retry_to urls m in
      if available (io.time c.readings) c url
      then (do accepted ← post url m; if accepted then pure true else next) (count_reading c)
      else next (count_reading c)

  -- The loop over the pending messages.
  pub drain_from : List M → Exec Error (Client M) Unit
  unfolding retry_to
  drain_from [] c = pure tt c
  drain_from (m ∷ pending) c =
      (do
        partner_ok ← retry_to c.partners m
        if partner_ok then pure tt else queue_safe m
        drain_from pending)
        c

  -- One turn of `drain_loop`, after its sleep.
  pub drain : Exec Error (Client M) Unit
  unfolding drain_from
  drain c = drain_from c.queue (record c { queue = [] })

-- `ready`; an empty id or an empty list is false
abbrev pub ready : {M : Type 0} → Client M → Bool
ready c = not (is_empty c.partners) && (c.trust || (c.mesh_key && not (str_eq c.local_node_id "")))

module _ {M P : Type 0} (io : Io M) (sign : ℕ → String → String → P → Option M) where
  -- `_ensure_trust` and `sign`. The n-th signature has a nonce of its own; `none` is a TrustError.
  signed : String → P → Exec Error (Client M) M
  signed op payload c =
      if c.trust || c.mesh_key
      then elim (sign c.signatures c.local_node_id op payload) [
        | none ↦ (raised untrusted, c)
        | some m ↦ (ok m, record c { signatures = suc c.signatures })
      ]
      else (raised forward_error, c)

  abbrev schedule : M → Client M → Client M
  schedule m c = record c { scheduled = c.scheduled ++ m ∷ [] }

  -- `forward`; `running` is `_loop_running()`
  pub forward : Bool → String → P → Exec Error (Client M) Bool
  unfolding signed
  forward running op payload c =
      if not (ready c) || is_empty c.partners
      then (ok false, c)
      else if not (any (str_eq op) allowed_ops)
      then (ok false, c)
      else (do
        m ← signed op payload
        if running then (modify (schedule m) >> pure true) else dispatch io m)
          c

-- The event loop runs the oldest envelope that `forward` has scheduled: `_dispatch_async`.
pub run_scheduled : {M : Type 0} → Io M → Exec Error (Client M) Bool
run_scheduled io c = elim c.scheduled [
  | [] ↦ (ok false, c)
  | m ∷ ms ↦ dispatch io m (record c { scheduled = ms })
]
