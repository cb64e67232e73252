-- ===== src/Relay/Tries.antt =====
-- collab/relay.py, `drain_loop`: the attempts on one envelope, and the relation between the
-- envelopes that wait and those that are left.
use hermes_k2_monitor.Prelude.{
  ℕ, ◌+◌, ◌≡◌, refl, ◌∙◌, String, Bool, true, false, List, [], ◌∷◌, arith, if◌then◌else◌, length,
  Bool-cases, inl, inr,
}
use hermes_k2_monitor.Monad.{Exec, ok, pure, >>=-ok}
use hermes_k2_monitor.Relay.{Client, Io, Error, available, post, retry_to, count_reading}
use hermes_k2_monitor.Relay.Queue.{IsCalm, Settles, Settles-trans}
use hermes_k2_monitor.Relay.Round.{Round, passed_over, asked}
use hermes_k2_monitor.Relay.Offer.{post-ok, IsRecorded-count_reading}

module _ {M : Type 0} (io : Io M) where
  -- The turns of the partners for one envelope, from a client to a client: up to the first that
  -- accepts, or to the last. The Boolean says whether one did.
  pub data Tries (m : M) : List String → Client M → Bool → Client M → Type 0 where
    given_up : {c : Client M} → Tries m [] c false c
    next_one :
        {url : String} {urls : List String} {r : Bool} {c d e : Client M}
        → Round io m url c false d
        → Tries m urls d r e
        → Tries m (url ∷ urls) c r e
    accepted_by :
        {url : String} {urls : List String} {c d : Client M}
        → Round io m url c true d
        → Tries m (url ∷ urls) c true d

  -- The envelopes that wait, in order, and those of them that no partner accepts, in order.
  pub data Drains (partners : List String) : Client M → List M → List M → Client M → Type 0 where
    drained : {c : Client M} → Drains partners c [] [] c
    delivered :
        {c d e : Client M} {m : M} {ms rest : List M}
        → Tries m partners c true d
        → Drains partners d ms rest e
        → Drains partners c (m ∷ ms) rest e
    requeued :
        {c d e : Client M} {m : M} {ms rest queue : List M}
        → Tries m partners c false d
        → Drains partners (record d { queue = queue }) ms rest e
        → Drains partners c (m ∷ ms) (m ∷ rest) e

  pub record Retried (urls : List String) (m : M) (k : ℕ) (c : Client M) : Type 0 where
    pub took : Bool
    pub result : Client M
    pub returned : retry_to io urls m c ≡ (ok took, result)
    pub settled : Settles k c result
    pub queued : result.queue ≡ c.queue
    pub tries : Tries m urls c took result

  abbrev after_post : List String → M → Bool → Exec Error (Client M) Bool
  after_post urls m accepted = if accepted then pure true else retry_to io urls m

  retry_to-posted :
      (url : String) (urls : List String) (m : M) (k : ℕ) (c d : Client M) (r : Bool)
      → available (io.time c.readings) c url ≡ true
      → post io url m (count_reading c) ≡ (ok r, d)
      → Settles (length urls + k) c d
      → d.queue ≡ c.queue
      → Round io m url c r d
      → Retried urls m k d
      → Retried (url ∷ urls) m k c
  unfolding retry_to
  retry_to-posted url urls m k c d true way e s q turn next = record {
    took = true;
    result = d;
    returned = rw way (>>=-ok (post io url m) (after_post urls m) (count_reading c) e);
    settled = record { calm = λ u. omega (arith, s.calm u); cap = s.cap; partners = s.partners };
    queued = q;
    tries = accepted_by turn;
  }
  retry_to-posted url urls m k c d false way e s q turn next = record {
    took = next.took;
    result = next.result;
    returned =
        rw way (>>=-ok (post io url m) (after_post urls m) (count_reading c) e ∙ next.returned);
    settled = Settles-trans (length urls + k) k c d next.result s next.settled;
    queued = next.queued ∙ q;
    tries = next_one turn next.tries;
  }

  pub retry_to-Retried :
      (urls : List String) (m : M) (k : ℕ) (c : Client M)
      → IsCalm (length urls + k) c
      → Retried urls m k c
  unfolding retry_to
  retry_to-Retried [] m k c calm = record {
    took = false;
    result = c;
    returned = refl;
    settled = record { calm = λ u. omega (arith, calm u); cap = refl; partners = refl };
    queued = refl;
    tries = given_up;
  }
  retry_to-Retried (url ∷ urls) m k c calm =
      elim (Bool-cases (available (io.time c.readings) c url)) [
        | inl way ↦
            let (r, d, e, s, q, answer, posts, reads, limit, f) =
              post-ok io url m (length urls + k) (count_reading c) (λ u. omega (arith, calm u)) in
            retry_to-posted url urls m k c d r way e
              (record { calm = s.calm; cap = s.cap; partners = s.partners }) q
              (asked way answer (IsRecorded-count_reading r url c d f)
                (record { attempts = posts ∙ omega arith; readings = reads; max_retry = limit }))
              (retry_to-Retried urls m k d s.calm)
        | inr broken ↦
            let next = retry_to-Retried urls m k (count_reading c) (λ u. omega (arith, calm u)) in
            record {
              took = next.took;
              result = next.result;
              returned = rw broken next.returned;
              settled = record {
                calm = next.settled.calm;
                cap = next.settled.cap;
                partners = next.settled.partners;
              };
              queued = next.queued;
              tries =
                  next_one
                    (passed_over broken refl
                      (record { attempts = omega arith; readings = refl; max_retry = refl }))
                    next.tries;
            }
      ]
