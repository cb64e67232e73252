-- ===== src/Relay/Dispatch.antt =====
-- collab/relay.py, `_dispatch`: one envelope to every partner.
use hermes_k2_monitor.Prelude.{
  ℕ, suc, ◌≤◌, ◌≡◌, refl, sym, ap, ap₂, ◌∙◌, String, Bool, true, false, ◌||◌, List, [], ◌∷◌, ◌++◌,
  ltb, arith, if◌then◌else◌, length, last_n, replicate, last_n-append, last_n-fits, append-nil,
  append_assoc,
}
use hermes_k2_monitor.Monad.{ok, >>=-ok}
use hermes_k2_monitor.Relay.{Client, Io, offer, dispatch_to, dispatch}
use hermes_k2_monitor.Relay.Queue.{IsBounded, IsCalm, Settles, Settles-IsBounded}
use hermes_k2_monitor.Relay.Round.{Round}
use hermes_k2_monitor.Relay.Offer.{offer-ok}

-- The turns of the partners `urls`, in order, from a client to a client; `k` of them did not accept.
pub data Offers {M : Type 0} (io : Io M) (m : M)
    : List String → Client M → ℕ → Client M → Type 0 where
  none_left : {c : Client M} → Offers io m [] c 0 c
  kept :
      {url : String} {urls : List String} {c d e : Client M} {k : ℕ}
      → Round io m url c false d
      → Offers io m urls d k e
      → Offers io m (url ∷ urls) c (suc k) e
  taken :
      {url : String} {urls : List String} {c d e : Client M} {k : ℕ}
      → Round io m url c true d
      → Offers io m urls d k e
      → Offers io m (url ∷ urls) c k e

-- What a pass over the partners `urls` comes to: it returns, `refused` of them did not accept the
-- envelope, and the queue is the newest `queue_cap` entries of what it was with as many copies behind.
record Passed {M : Type 0} (io : Io M) (urls : List String) (m : M) (accepted : Bool) (c : Client M)
    : Type 0 where
  refused : ℕ
  some_refused : refused ≤ length urls
  result : Client M
  returned : dispatch_to io urls m accepted c ≡ (ok (accepted || ltb refused (length urls)), result)
  settled : Settles 0 c result
  queued : result.queue ≡ last_n c.queue_cap (c.queue ++ replicate refused m)
  offers : Offers io m urls c refused result

module _ {M : Type 0} (io : Io M) (url : String) (urls : List String) (m : M) (a : Bool)
    (c : Client M) where
  dispatch_to-step :
      (r : Bool) (c' : Client M)
      → IsBounded c
      → offer io url m c ≡ (ok r, c')
      → Settles (length urls) c c'
      → c'.queue ≡ (if r then c.queue else last_n c.queue_cap (c.queue ++ m ∷ []))
      → Round io m url c r c'
      → Passed io urls m (a || r) c'
      → Passed io (url ∷ urls) m a c
  unfolding dispatch_to
  dispatch_to-step true c' b e s q o p = record {
    refused = p.refused;
    some_refused = omega (arith, p.some_refused);
    result = p.result;
    returned =
        >>=-ok (offer io url m) (λ r. dispatch_to io urls m (a || r)) c e
        ∙ p.returned
        ∙ ap (λ (t : Bool). (ok t, p.result)) (ground (arith, p.some_refused));
    settled = record {
      calm = p.settled.calm;
      cap = p.settled.cap ∙ s.cap;
      partners = p.settled.partners ∙ s.partners;
    };
    queued = p.queued ∙ ap₂ (λ (n : ℕ) (l : List M). last_n n (l ++ replicate p.refused m)) s.cap q;
    offers = taken o p.offers;
  }
  dispatch_to-step false c' b e s q o p = record {
    refused = suc p.refused;
    some_refused = omega (arith, p.some_refused);
    result = p.result;
    returned =
        >>=-ok (offer io url m) (λ r. dispatch_to io urls m (a || r)) c e
        ∙ p.returned
        ∙ ap (λ (t : Bool). (ok t, p.result)) (ground (arith, p.some_refused));
    settled = record {
      calm = p.settled.calm;
      cap = p.settled.cap ∙ s.cap;
      partners = p.settled.partners ∙ s.partners;
    };
    queued =
        p.queued
        ∙ ap₂ (λ (n : ℕ) (l : List M). last_n n (l ++ replicate p.refused m)) s.cap q
        ∙ last_n-append c.queue_cap (c.queue ++ m ∷ []) (replicate p.refused m)
        ∙ ap (last_n c.queue_cap) (append_assoc c.queue (m ∷ []) (replicate p.refused m));
    offers = kept o p.offers;
  }

dispatch_to-Passed :
    {M : Type 0} (io : Io M) (urls : List String) (m : M) (a : Bool) (c : Client M)
    → IsCalm (length urls) c
    → IsBounded c
    → Passed io urls m a c
unfolding dispatch_to
dispatch_to-Passed io [] m a c calm b = record {
  refused = 0;
  some_refused = omega arith;
  result = c;
  returned = ap (λ (t : Bool). (ok t, c)) (ground arith);
  settled = record { calm = calm; cap = refl; partners = refl };
  queued = rw append-nil (sym (last_n-fits c.queue_cap c.queue b.fits));
  offers = none_left;
}
dispatch_to-Passed io (url ∷ urls) m a c calm b =
    let (r, c', e, s, q, o) = offer-ok io url m (length urls) c calm b in
    dispatch_to-step io url urls m a c r c' b e s q o (
      dispatch_to-Passed io urls m (a || r) c' s.calm
        (Settles-IsBounded (length urls) c c' r m b s q))

-- `_dispatch` returns, if the queue is within its capacity, which is not 0, and no partner is as many
-- failures as there are partners from the overflow. Each partner, in order, is passed over if it is not
-- available, and otherwise asked; `k` of them were passed over or did not answer with success. It
-- returns false exactly when those are all, and a copy for each of them stands at the end of the queue,
-- of which the newest `queue_cap` entries are kept.
pub dispatch_lem :
    {M : Type 0} (io : Io M) (m : M) (c : Client M)
    → IsCalm (length c.partners) c
    → IsBounded c
    → (k : ℕ) × (c' : Client M) × (k ≤ length c.partners)
      × Offers io m c.partners c k c'
      × (dispatch io m c ≡ (ok (ltb k (length c.partners)), c'))
      × (c'.queue ≡ last_n c.queue_cap (c.queue ++ replicate k m))
unfolding dispatch
dispatch_lem io m c calm b =
    let p = dispatch_to-Passed io c.partners m false c calm b in
    (p.refused, p.result, p.some_refused, p.offers, p.returned, p.queued)
