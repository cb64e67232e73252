-- ===== src/Server/Forward/Fanout.antt =====
-- server.py, `_relay_forward`: who gets an event, by the state of the links.
use hermes_k2_monitor.Prelude.{
  ℕ, zero, suc, ◌+◌, ◌≡◌, ap, ◌∙◌, String, Bool, true, false, not, ◌||◌, List, [], ◌∷◌, ◌++◌,
  Option, some, arith, str_eq, is_empty, All, map, any, length, append_assoc, append-nil,
}
use native.Mathlib.Nat.{add-zero}
use hermes_k2_monitor.Trust.{allowed_ops}
use hermes_k2_monitor.Relay.{Client, Io, ready}
use hermes_k2_monitor.Relay.Forward.{forward-scheduled}
use hermes_k2_monitor.Server.Forward.{
  Link, Hub, http_forward, forward_link, forward_links, relay_forward,
}

module _ {M P : Type 0} (io : Io M) (sign : ℕ → String → String → P → Option M) (running : Bool)
    (op : String) (payload : P) where
  links_connected :
      (ls : List Link) (d : Bool) (h : Hub M)
      → All (λ l. l.connected ≡ true) ls
      → forward_links io sign running op payload ls (d, h)
        ≡ (d || not (is_empty ls), record h { unawaited = h.unawaited ++ map (λ l. l.url) ls })
  unfolding forward_links forward_link
  links_connected [] d h up = ground (arith, append-nil h.unawaited)
  links_connected (l ∷ ls) d h up = rw up.0 (
      links_connected ls true (record h { unawaited = h.unawaited ++ l.url ∷ [] }) up.1
      ∙ ground (arith, append_assoc h.unawaited (l.url ∷ []) (map (λ x. x.url) ls)))

  -- If every link is connected, the event goes nowhere: `send` is called on every link and never
  -- awaited, the HTTP relay is not asked, nothing is signed or queued, and the answer is true.
  pub relay_forward_connected :
      (h : Hub M)
      → is_empty h.links ≡ false
      → All (λ l. l.connected ≡ true) h.links
      → relay_forward io sign running op payload h
        ≡ (true, record h { unawaited = h.unawaited ++ map (λ l. l.url) h.links })
  unfolding relay_forward
  relay_forward_connected h some_link up = ground (arith, links_connected h.links false h up)

module _ {M P : Type 0} (io : Io M) (sign : ℕ → String → String → P → Option M)
    (envelope : ℕ → String → String → P → M) (op : String)
    (allowed : any (str_eq op) allowed_ops ≡ true) (payload : P)
    (signs : (n : ℕ) (node : String)
      → sign n node op payload ≡ some (envelope n node op payload)) where
  -- `n` envelopes of one event, from the signature number `from` on.
  abbrev pub copies : String → ℕ → ℕ → List M
  copies node from zero = []
  copies node from (suc n) = envelope from node op payload ∷ copies node (suc from) n

  links_down :
      (ls : List Link) (d : Bool) (h : Hub M)
      → All (λ l. l.connected ≡ false) ls
      → ready h.relay ≡ true
      → forward_links io sign true op payload ls (d, h) ≡ (
        d,
        record h {
          relay = record (h.relay) {
            scheduled =
                h.relay.scheduled ++ copies h.relay.local_node_id h.relay.signatures (length ls);
            signatures = h.relay.signatures + length ls;
          };
        },
      )
  unfolding forward_links forward_link http_forward
  links_down [] d h down r =
      ground (arith, append-nil h.relay.scheduled, add-zero h.relay.signatures)
  links_down (l ∷ ls) d h down r =
      let c = h.relay in
      let c' : Client M = record c {
        scheduled = c.scheduled ++ envelope c.signatures c.local_node_id op payload ∷ [];
        signatures = suc c.signatures;
      } in
      let step : forward_link io sign true op payload l (d, h) ≡ (d, record h { relay = c' }) = rw (
        down.0,
        r,
        http_forward,
        forward-scheduled io sign envelope op allowed payload signs c r,
      ) in
      ap (forward_links io sign true op payload ls) step
      ∙ links_down ls d (record h { relay = c' }) down.1 r
      ∙ ground (
        arith,
        append_assoc c.scheduled (envelope c.signatures c.local_node_id op payload ∷ [])
            (copies c.local_node_id (suc c.signatures) (length ls)),
      )

  -- If every link is down, and the signer does not raise for the event, which has an allowed operation,
  -- a ready relay on a running loop is asked once for each link: as many
  -- envelopes of the one event as there are links, each with a signature of its own, are handed to the
  -- event loop, which sends each of them to every partner. The answer is false.
  pub relay_forward_down :
      (h : Hub M)
      → is_empty h.links ≡ false
      → All (λ l. l.connected ≡ false) h.links
      → ready h.relay ≡ true
      → relay_forward io sign true op payload h ≡ (
        false,
        record h {
          relay = record (h.relay) {
            scheduled =
                h.relay.scheduled
                ++ copies h.relay.local_node_id h.relay.signatures (length h.links);
            signatures = h.relay.signatures + length h.links;
          };
        },
      )
  unfolding relay_forward
  relay_forward_down h some_link down r = ground (arith, links_down h.links false h down r)
