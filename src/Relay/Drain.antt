-- ===== src/Relay/Drain.antt =====
-- collab/relay.py, one turn of `drain_loop`: what becomes of the envelopes that wait.
use mathlib.Core.Path.{subst⁻¹}
use hermes_k2_monitor.Prelude.{
  suc, ◌+◌, ◌*◌, ◌≤◌, ◌<◌, ◌≡◌, refl, sym, ap, ◌∙◌, String, Bool, true, false, List, [], ◌∷◌, ◌++◌,
  arith, if◌then◌else◌, length, last_n-fits, length-append, append-nil, append_assoc,
}
use hermes_k2_monitor.Monad.{Exec, ok, raised, ◌>>◌, pure, >>=-ok, >>=-raised}
use hermes_k2_monitor.Relay.{
  Client, Io, Error, overflow, is_ok, available, queue_safe, post, retry_to, drain_from, drain,
  count_attempt, count_reading,
}
use hermes_k2_monitor.Relay.Breaker.{fails, mark_fail_overflow}
use hermes_k2_monitor.Relay.Queue.{IsBounded, IsCalm, Settles, queue_safe_lem}
use hermes_k2_monitor.Relay.Tries.{Tries, Drains, drained, delivered, requeued, retry_to-Retried}

module _ {M : Type 0} (io : Io M) where
  -- `c` has the envelopes `pending` still to go, and its queue holds those that have been refused.
  record Emptied (pending : List M) (c : Client M) : Type 0 where
    rest : List M
    some_rest : length rest ≤ length pending
    result : Client M
    returned : drain_from io pending c ≡ (ok tt, result)
    queued : result.queue ≡ c.queue ++ rest
    drains : Drains io c.partners c pending rest result

  abbrev after_retry : M → List M → Bool → Exec Error (Client M) Unit
  after_retry m pending partner_ok =
      (if partner_ok then pure tt else queue_safe m) >> drain_from io pending

  -- the client once an envelope is delivered or queued again
  abbrev settle : M → List M → Client M → Bool → Client M
  settle m queue d took = if took then d else record d { queue = queue ++ m ∷ [] }

  drain_from-step :
      (m : M) (pending : List M) (c d : Client M) (took : Bool)
      → retry_to io c.partners m c ≡ (ok took, d)
      → Settles (length pending * length c.partners) c d
      → d.queue ≡ c.queue
      → Tries io m c.partners c took d
      → (if took then pure tt else queue_safe m) d ≡ (ok tt, settle m c.queue d took)
      → Emptied pending (settle m c.queue d took)
      → Emptied (m ∷ pending) c
  unfolding drain_from
  drain_from-step m pending c d true e s q t h next = record {
    rest = next.rest;
    some_rest = omega (arith, next.some_rest);
    result = next.result;
    returned = >>=-ok (retry_to io c.partners m) (after_retry m pending) c e ∙ next.returned;
    queued = rw (← q) next.queued;
    drains = delivered t (rw (← s.partners) next.drains);
  }
  drain_from-step m pending c d false e s q t h next = record {
    rest = m ∷ next.rest;
    some_rest = omega (arith, next.some_rest);
    result = next.result;
    returned =
        >>=-ok (retry_to io c.partners m) (after_retry m pending) c e
        ∙ >>=-ok (queue_safe m) (λ _. drain_from io pending) d h
        ∙ next.returned;
    queued = next.queued ∙ append_assoc c.queue (m ∷ []) next.rest;
    drains = requeued {queue = c.queue ++ m ∷ []} t (rw (← s.partners) next.drains);
  }

  settled-step :
      (m : M) (c d : Client M) (took : Bool)
      → 0 < c.queue_cap
      → suc (length c.queue) ≤ c.queue_cap
      → d.queue_cap ≡ c.queue_cap
      → d.queue ≡ c.queue
      → (if took then pure tt else queue_safe m) d ≡ (ok tt, settle m c.queue d took)
  settled-step m c d true room fits cap q = refl
  settled-step m c d false room fits cap q =
      let room' : 0 < d.queue_cap = rw cap room in
      let fits' : length d.queue ≤ d.queue_cap = rw (q, cap) (omega arith) in
      let full : length (c.queue ++ m ∷ []) ≤ c.queue_cap =
        omega (arith, length-append c.queue (m ∷ [])) in
      queue_safe_lem m d (record { room = room'; fits = fits' })
      ∙ rw (q, cap, last_n-fits c.queue_cap (c.queue ++ m ∷ []) full) refl

  -- What the loop needs for the envelopes that are left.
  record IsReady (pending : List M) (c : Client M) : Type 0 where
    calm : IsCalm (length pending * length c.partners) c
    room : 0 < c.queue_cap
    fits : length c.queue + length pending ≤ c.queue_cap

  settle-IsReady :
      (m : M) (pending : List M) (c d : Client M) (took : Bool)
      → Settles (length pending * length c.partners) c d
      → d.queue ≡ c.queue
      → IsReady (m ∷ pending) c
      → IsReady pending (settle m c.queue d took)
  settle-IsReady m pending c d true s q r = record {
    calm = rw s.partners s.calm;
    room = rw s.cap r.room;
    fits = rw (q, s.cap) (omega (arith, r.fits));
  }
  settle-IsReady m pending c d false s q r = record {
    calm = rw s.partners s.calm;
    room = rw s.cap r.room;
    fits = rw s.cap (omega (arith, r.fits, length-append c.queue (m ∷ [])));
  }

  -- The loop returns if every partner stays calm through one failure for each of the envelopes.
  drain_from-Emptied : (pending : List M) (c : Client M) → IsReady pending c → Emptied pending c
  unfolding drain_from
  drain_from-Emptied [] c ready = record {
    rest = [];
    some_rest = omega arith;
    result = c;
    returned = refl;
    queued = sym (append-nil c.queue);
    drains = drained;
  }
  drain_from-Emptied (m ∷ pending) c ready =
      let r =
        retry_to-Retried io c.partners m (length pending * length c.partners) c
          (λ u. omega (arith, ready.calm u)) in
      drain_from-step m pending c r.result r.took r.returned r.settled r.queued r.tries
        (settled-step m c r.result r.took ready.room (omega (arith, ready.fits)) r.settled.cap
          r.queued)
        (drain_from-Emptied pending (settle m c.queue r.result r.took)
          (settle-IsReady m pending c r.result r.took r.settled r.queued ready))

-- A turn of `drain_loop` returns, if the queue is within its capacity, which is not 0, and no partner is
-- as many failures from the overflow as the turn can make attempts; and it loses nothing. Each of the
-- envelopes that wait, in order, goes to the partners in order, those passed over that are not
-- available, until one accepts it and no other is asked; or none does, and then it waits again. The
-- queue is these last ones, in the order they had.
pub drain_lem :
    {M : Type 0} (io : Io M) (c : Client M)
    → IsCalm (length c.queue * length c.partners) c
    → IsBounded c
    → (c' : Client M) × (drain io c ≡ (ok tt, c'))
      × Drains io c.partners (record c { queue = [] }) c.queue c'.queue c'
unfolding drain
drain_lem io c calm b =
    let e =
      drain_from-Emptied io c.queue (record c { queue = [] })
        (record { calm = calm; room = b.room; fits = omega (arith, b.fits) }) in
    (e.result, e.returned, rw e.queued e.drains)

retry_to-raised :
    {M : Type 0} (io : Io M) (c : Client M) (m : M) (url : String) (urls : List String)
    → available (io.time c.readings) c url ≡ true
    → is_ok (io.reply c.attempts url m) ≡ false
    → c.max_retry + 1023 ≤ fails c url
    → retry_to io (url ∷ urls) m c ≡ (raised overflow, count_attempt (count_reading c))
unfolding retry_to post
retry_to-raised io c m url urls way answer worn =
    rw
      (
        way,
        answer,
        mark_fail_overflow (count_attempt (count_reading c)) url (io.time_after c.attempts) worn,
      )
      refl

-- If the first partner is available, has failed `max_retry` + 1023 times in a row and refuses the first
-- envelope that waits, the turn ends in an OverflowError, and every envelope that waited is gone.
pub drain_overflow :
    {M : Type 0} (io : Io M) (c : Client M) (m : M) (pending : List M) (url : String)
    (urls : List String)
    → c.queue ≡ m ∷ pending
    → c.partners ≡ url ∷ urls
    → available (io.time c.readings) c url ≡ true
    → is_ok (io.reply c.attempts url m) ≡ false
    → c.max_retry + 1023 ≤ fails c url
    → ((drain io c).0 ≡ raised overflow) × ((drain io c).1.queue ≡ [])
unfolding drain drain_from available
drain_overflow io c m pending url urls q p way answer worn =
    let d = record c { queue = [] } in
    let r : retry_to io c.partners m d ≡ (raised overflow, count_attempt (count_reading d)) =
      subst⁻¹ (λ us. retry_to io us m d ≡ (raised overflow, count_attempt (count_reading d))) p
        (retry_to-raised io d m url urls way answer worn) in
    let e : drain io c ≡ (raised overflow, count_attempt (count_reading d)) =
      subst⁻¹ (λ ms. drain_from io ms d ≡ (raised overflow, count_attempt (count_reading d))) q
        (>>=-raised (retry_to io c.partners m) (after_retry io m pending) d r) in
    (ap (λ o. o.0) e, ap (λ o. o.1.queue) e)
