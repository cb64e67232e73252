-- ===== src/Relay/Queue.antt =====
-- collab/relay.py, the retry queue: what `_queue_safe`, `_dispatch` and `drain_loop` leave in it.
use hermes_k2_monitor.Prelude.{
  ℕ, suc, ◌+◌, ◌-◌, ◌≤◌, ◌<◌, ◌≡◌, refl, ◌∙◌, String, Bool, true, false, List, [], ◌∷◌, ◌++◌, some,
  leb, eq_iff, arith, if◌then◌else◌, length, last_n, length-append, length-last_n-le, Bool-cases,
  inl, inr, insert, lookup-insert, lookup-erase,
}
use hermes_k2_monitor.Monad.{ok}
use hermes_k2_monitor.Relay.{Client, mark_ok, mark_fail, make_room, queue_safe}
use hermes_k2_monitor.Relay.Breaker.{fails, mark_fail_lem}
use hermes_k2_monitor.Relay.Round.{IsRecorded}

-- The queue has room for something, and holds no more than that.
pub record IsBounded {M : Type 0} (c : Client M) : Type 0 where
  pub room : 0 < c.queue_cap
  pub fits : length c.queue ≤ c.queue_cap

-- The `n` next failures of any partner stay short of the OverflowError of `_mark_fail`.
abbrev pub IsCalm : {M : Type 0} → ℕ → Client M → Type 0
IsCalm n c = (url : String) → fails c url + n ≤ c.max_retry + 1023

module _ {M : Type 0} where
  make_room_lem :
      (cap : ℕ) (q : List M) (m : M)
      → 0 < cap
      → length q ≤ cap
      → (q' : List M) × (make_room cap q ≡ some q') × (q' ++ m ∷ [] ≡ last_n cap (q ++ m ∷ []))
  make_room_lem cap [] m room fits =
      let none_over : 1 - cap ≡ 0 = omega arith in ([], ground arith, rw none_over)
  make_room_lem cap (x ∷ q) m room fits = elim (Bool-cases (leb cap (suc (length q)))) [
    | inl full ↦
        let one_over : suc (length (q ++ m ∷ [])) - cap ≡ 1 =
          ground (arith, length-append q (m ∷ [])) in
        (q, rw full, rw one_over)
    | inr free ↦
        let none_over : suc (length (q ++ m ∷ [])) - cap ≡ 0 =
          ground (arith, length-append q (m ∷ [])) in
        (x ∷ q, rw free, rw none_over)
  ]

  -- The queue after `_queue_safe`: the newest `queue_cap` envelopes.
  pub queue_safe_lem :
      (m : M) (c : Client M)
      → IsBounded c
      → queue_safe m c ≡ (ok tt, record c { queue = last_n c.queue_cap (c.queue ++ m ∷ []) })
  unfolding queue_safe
  queue_safe_lem m c b =
      let (q, e, f) = make_room_lem c.queue_cap c.queue m b.room b.fits in ground (arith, e, f)

-- What a step on a partner leaves: the settings, and failures that stay short of the overflow.
pub record Settles {M : Type 0} (n : ℕ) (c c' : Client M) : Type 0 where
  pub calm : IsCalm n c'
  pub cap : c'.queue_cap ≡ c.queue_cap
  pub partners : c'.partners ≡ c.partners

module _ {M : Type 0} (url : String) (n : ℕ) (c : Client M) (calm : IsCalm (suc n) c) where
  IsCalm-insert :
      (until : ℕ)
      → IsCalm n (record c { failure = insert url (until, suc (fails c url)) c.failure })
  IsCalm-insert until u = ground (
    arith,
    calm u,
    calm url,
    eq_iff url u,
    lookup-insert url u (until, suc (fails c url)) c.failure,
  )

  pub mark_fail-ok :
      (now : ℕ)
      → (c' : Client M) × (mark_fail now url c ≡ (ok tt, c'))
        × Settles n c c'
        × (c'.queue ≡ c.queue)
        × (c'.attempts ≡ c.attempts)
        × (c'.readings ≡ c.readings)
        × (c'.max_retry ≡ c.max_retry)
        × IsRecorded false url c c'
  mark_fail-ok now = (
    _,
    mark_fail_lem c url now (omega (arith, calm url)),
    record { calm = IsCalm-insert _; cap = refl; partners = refl },
    refl,
    refl,
    refl,
    refl,
    (_, λ j. lookup-insert url j _ c.failure),
  )

pub mark_ok-Settles :
    {M : Type 0} (url : String) (n : ℕ) (c : Client M) → IsCalm n c → Settles n c (mark_ok url c)
unfolding mark_ok
mark_ok-Settles url n c calm = record {
  calm = λ u. ground (arith, calm u, lookup-erase url u c.failure);
  cap = refl;
  partners = refl;
}

pub Settles-IsBounded :
    {M : Type 0} (n : ℕ) (c c' : Client M) (r : Bool) (m : M)
    → IsBounded c
    → Settles n c c'
    → c'.queue ≡ (if r then c.queue else last_n c.queue_cap (c.queue ++ m ∷ []))
    → IsBounded c'
Settles-IsBounded n c c' true m b s q = record {
  room = rw s.cap b.room;
  fits = rw (q, s.cap) b.fits;
}
Settles-IsBounded n c c' false m b s q = record {
  room = rw s.cap b.room;
  fits = rw (q, s.cap) (length-last_n-le c.queue_cap (c.queue ++ m ∷ []));
}

pub Settles-trans :
    {M : Type 0} (n k : ℕ) (c d e : Client M) → Settles n c d → Settles k d e → Settles k c e
Settles-trans n k c d e s t = record {
  calm = t.calm;
  cap = t.cap ∙ s.cap;
  partners = t.partners ∙ s.partners;
}
