-- ===== src/Relay/Offer.antt =====
-- collab/relay.py, one post and one offer to a partner: they return, and say what they left.
use hermes_k2_monitor.Prelude.{
  ℕ, suc, ◌≡◌, refl, ◌∙◌, String, Bool, true, false, [], ◌∷◌, ◌++◌, arith, if◌then◌else◌, last_n,
  lookup-erase, Bool-cases, inl, inr,
}
use hermes_k2_monitor.Monad.{Exec, ok, ◌>>◌, pure, modify, >>=-ok}
use hermes_k2_monitor.Relay.{
  Client, Io, Error, is_ok, available, mark_ok, mark_fail, queue_safe, post, offer, count_attempt,
  count_reading,
}
use hermes_k2_monitor.Relay.Round.{Follows, IsRecorded, Round, passed_over, asked}
use hermes_k2_monitor.Relay.Queue.{
  IsBounded, IsCalm, Settles, queue_safe_lem, mark_fail-ok, mark_ok-Settles,
}

module _ {M : Type 0} (io : Io M) (url : String) (m : M) (n : ℕ) (c : Client M) where
  -- A post returns whether the answer is one of success; the queue is what it was.
  pub post-ok :
      IsCalm (suc n) c
      → (r : Bool) × (c' : Client M) × (post io url m c ≡ (ok r, c'))
        × Settles n c c'
        × (c'.queue ≡ c.queue)
        × (is_ok (io.reply c.attempts url m) ≡ r)
        × (c'.attempts ≡ suc c.attempts)
        × (c'.readings ≡ c.readings)
        × (c'.max_retry ≡ c.max_retry)
        × IsRecorded r url c c'
  unfolding post
  post-ok calm = elim (Bool-cases (is_ok (io.reply c.attempts url m))) [
    | inl accepted ↦
        let s = mark_ok-Settles url n (count_attempt c) (λ u. omega (arith, calm u)) in
        (
          true,
          mark_ok url (count_attempt c),
          rw accepted,
          record { calm = s.calm; cap = s.cap; partners = s.partners },
          unfold mark_ok in refl,
          accepted,
          unfold mark_ok in refl,
          unfold mark_ok in refl,
          unfold mark_ok in refl,
          λ j. unfold mark_ok in lookup-erase url j c.failure,
        )
    | inr refused ↦
        let (c', e, s, q, a, l, x, f) =
          mark_fail-ok url n (count_attempt c) calm (io.time_after c.attempts) in
        (
          false,
          c',
          rw refused (
              >>=-ok (mark_fail (io.time_after c.attempts) url) (λ _. pure false) (count_attempt c)
                e),
          record { calm = s.calm; cap = s.cap; partners = s.partners },
          q,
          refused,
          a,
          l,
          x,
          f,
        )
  ]

  abbrev pub after : Bool → Exec Error (Client M) Bool
  after accepted =
      if accepted then (modify (mark_ok url) >> pure true) else (queue_safe m >> pure false)

  -- An offer to a partner returns, and either the partner has the envelope or the queue has it.
  abbrev pub Offered : Type 0
  Offered =
      (r : Bool) × (c' : Client M) × (offer io url m c ≡ (ok r, c'))
      × Settles n c c'
      × (c'.queue ≡ (if r then c.queue else last_n c.queue_cap (c.queue ++ m ∷ [])))
      × Round io m url c r c'

  offer-posted :
      IsBounded c
      → available (io.time c.readings) c url ≡ true
      → (r : Bool) (d : Client M) → post io url m (count_reading c) ≡ (ok r, d)
      → Settles n c d
      → d.queue ≡ c.queue
      → is_ok (io.reply c.attempts url m) ≡ r
      → Follows 1 c d
      → IsRecorded r url c d
      → Offered
  unfolding offer
  offer-posted b way true d e s q answer counts f =
      let s' = mark_ok-Settles url n d s.calm in
      (
        true,
        mark_ok url d,
        rw way (>>=-ok (post io url m) after (count_reading c) e),
        record { calm = s'.calm; cap = s'.cap ∙ s.cap; partners = s'.partners ∙ s.partners },
        unfold mark_ok in q,
        asked way answer (λ j. unfold mark_ok in ground (arith, lookup-erase url j d.failure, f j))
            (record {
              attempts = unfold mark_ok in counts.attempts;
              readings = unfold mark_ok in counts.readings;
              max_retry = unfold mark_ok in counts.max_retry;
            }),
      )
  offer-posted b way false d e s q answer counts f =
      let b' : IsBounded d = record {
        room = ground (arith, b.room, s.cap);
        fits = rw (q, s.cap) b.fits;
      } in
      (
        false,
        record d { queue = last_n d.queue_cap (d.queue ++ m ∷ []) },
        rw way (
            >>=-ok (post io url m) after (count_reading c) e
            ∙ >>=-ok (queue_safe m) (λ _. pure false) d (queue_safe_lem m d b')),
        record { calm = s.calm; cap = s.cap; partners = s.partners },
        rw (q, s.cap),
        asked way answer f (record {
          attempts = counts.attempts;
          readings = counts.readings;
          max_retry = counts.max_retry;
        }),
      )

-- A reading of the clock is no record.
pub IsRecorded-count_reading :
    {M : Type 0} (r : Bool) (url : String) (c d : Client M)
    → IsRecorded r url (count_reading c) d
    → IsRecorded r url c d
IsRecorded-count_reading true url c d f = f
IsRecorded-count_reading false url c d f = f

module _ {M : Type 0} (io : Io M) (url : String) (m : M) (n : ℕ) (c : Client M) where
  pub offer-ok : IsCalm (suc n) c → IsBounded c → Offered io url m n c
  unfolding offer
  offer-ok calm b = elim (Bool-cases (available (io.time c.readings) c url)) [
    | inl way ↦
        let (r, d, e, s, q, answer, posts, reads, limit, f) =
          post-ok io url m n (count_reading c) calm in
        offer-posted io url m n c b way r d e
          (record { calm = s.calm; cap = s.cap; partners = s.partners }) q answer
          (record { attempts = posts ∙ omega arith; readings = reads; max_retry = limit })
          (IsRecorded-count_reading r url c d f)
    | inr broken ↦
        let b' : IsBounded (count_reading c) = record { room = b.room; fits = b.fits } in
        (
          false,
          record (count_reading c) { queue = last_n c.queue_cap (c.queue ++ m ∷ []) },
          rw broken (
              >>=-ok (queue_safe m) (λ _. pure false) (count_reading c)
                (queue_safe_lem m (count_reading c) b')),
          record { calm = λ u. omega (arith, calm u); cap = refl; partners = refl },
          refl,
          passed_over broken refl
              (record { attempts = omega arith; readings = refl; max_retry = refl }),
        )
  ]
