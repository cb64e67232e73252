-- ===== src/Server/Slots/Overrun.antt =====
-- server.py, `api_ws_relay`: a refused link gives back a slot that it never took.
use hermes_k2_monitor.Prelude.{
  ℕ, suc, zero, ◌+◌, ◌-◌, ◌*◌, ◌≤◌, ◌<◌, ◌≡◌, refl, ap, ◌∙◌, String, true, [], none, some, arith,
  eq_refl, Dict, lookup, insert, erase, lookup-insert, lookup-erase,
}
use hermes_k2_monitor.Server.Slots.{Slots, count_of, release, not_empty, handshake}

module _ (peer : String) where
  count_of-insert : (n : ℕ) (d : Dict ℕ) → count_of peer (insert peer n d) ≡ n
  count_of-insert n d = ground (arith, lookup-insert peer peer n d, eq_refl peer)

  count_of-erase : (d : Dict ℕ) → count_of peer (erase peer d) ≡ 0
  count_of-erase d = ground (arith, lookup-erase peer peer d, eq_refl peer)

  count_of-release : (d : Dict ℕ) → count_of peer (release peer d) ≡ count_of peer d - 1
  unfolding release
  count_of-release d = ground (arith, count_of-insert (count_of peer d - 1) d, count_of-erase d)

module _ (cap : ℕ) (peer : String) where
  -- The peer dials with its own token and claims nothing.
  abbrev pub dial : Slots → Slots
  dial s = (handshake cap (some peer) none s).1

  pub dials : ℕ → Slots → Slots
  dials zero s = s
  dials (suc n) s = dials n (dial s)

  dials-dials : (m n : ℕ) (s : Slots) → dials (m + n) s ≡ dials n (dials m s)
  unfolding dials
  dials-dials zero n s = let e : 0 + n ≡ n = omega arith in rw e refl
  dials-dials (suc m) n s =
      let e : suc m + n ≡ suc (m + n) = omega arith in rw e (dials-dials m n (dial s))

module _ (cap : ℕ) (peer : String) (known : not_empty peer ≡ true) where
  dial-below :
      (s : Slots)
      → count_of peer s.ws_relay_conns < cap
      → (count_of peer (dial cap peer s).ws_relay_conns ≡ count_of peer s.ws_relay_conns + 1)
        × (count_of peer (dial cap peer s).streaming ≡ count_of peer s.streaming + 1)
  unfolding handshake
  dial-below s h = ground (
    arith,
    count_of-insert peer (count_of peer s.ws_relay_conns + 1) s.ws_relay_conns,
    count_of-insert peer (count_of peer s.streaming + 1) s.streaming,
  )

  dial-full :
      (s : Slots)
      → cap ≤ count_of peer s.ws_relay_conns
      → (count_of peer (dial cap peer s).ws_relay_conns ≡ count_of peer s.ws_relay_conns - 1)
        × (count_of peer (dial cap peer s).streaming ≡ count_of peer s.streaming)
  unfolding handshake
  dial-full s h = ground (arith, count_of-release peer s.ws_relay_conns)

  dials-fill :
      (n : ℕ) (s : Slots)
      → count_of peer s.ws_relay_conns + n ≤ cap
      → (count_of peer (dials cap peer n s).ws_relay_conns ≡ count_of peer s.ws_relay_conns + n)
        × (count_of peer (dials cap peer n s).streaming ≡ count_of peer s.streaming + n)
  unfolding dials
  dials-fill zero s h = (omega arith, omega arith)
  dials-fill (suc n) s h =
      let (c, t) = dial-below s (omega arith) in
      let (c', t') = dials-fill n (dial cap peer s) (omega (arith, c)) in
      (omega (arith, c, c'), omega (arith, t, t'))

  dials-overrun :
      (n : ℕ) (s : Slots)
      → 0 < cap
      → count_of peer s.ws_relay_conns ≡ cap
      → count_of peer (dials cap peer (2 * n) s).streaming ≡ count_of peer s.streaming + n
  unfolding dials
  dials-overrun zero s p h = omega arith
  dials-overrun (suc n) s p h =
      let (c, t) = dial-full s (omega (arith, h)) in
      let (c', t') = dial-below (dial cap peer s) (omega (arith, c, h)) in
      let e : 2 * suc n ≡ suc (suc (2 * n)) = omega arith in
      rw e (
        omega (
          arith,
          t,
          t',
          dials-overrun n (dial cap peer (dial cap peer s)) p (omega (arith, c, c', h)),
        ))

-- The limit on a peer's links does not hold: a peer that dials `cap` + 2 * n times in a row, and ends
-- no link, has `cap` + n links streaming, for every n. Each dial that is refused as one too many
-- gives back a slot, and the next one takes it.
pub handshake_overrun :
    (cap n : ℕ) (peer : String)
    → not_empty peer ≡ true
    → 0 < cap
    → count_of peer
        (dials cap peer (cap + 2 * n) (record { ws_relay_conns = []; streaming = [] })).streaming
      ≡ cap + n
unfolding lookup
handshake_overrun cap n peer known p =
    let s : Slots = record { ws_relay_conns = []; streaming = [] } in
    let (c, t) = dials-fill cap peer known cap s (omega arith) in
    ap (λ x. count_of peer x.streaming) (dials-dials cap peer cap (2 * n) s)
    ∙ dials-overrun cap peer known n (dials cap peer cap s) p (omega (arith, c))
    ∙ omega (arith, t)
