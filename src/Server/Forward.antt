-- ===== src/Server/Forward.antt =====
-- server.py: `_relay_forward`, which hands an event to the WebSocket links or to the HTTP relay.
pub mod Fanout
mod Tests
use hermes_k2_monitor.Prelude.{
  ℕ, String, Bool, true, false, not, ◌&&◌, ◌||◌, List, [], ◌∷◌, ◌++◌, Option, if◌then◌else◌,
  is_empty,
}
use hermes_k2_monitor.Monad.{Result, ok, raised}
use hermes_k2_monitor.Relay.{Client, Io, ready, forward}

-- An entry of `ws_relay_clients`: the partner's URL, and the link's `connected`.
pub record Link : Type 0 where
  pub url : String
  pub connected : Bool

-- What `_relay_forward` works on. `client.send(...)` makes a coroutine that nothing awaits: `unawaited`
-- holds the links whose `send` was called so, and no frame leaves for them.
pub record Hub (M : Type 0) : Type 0 where
  pub links : List Link
  pub relay : Client M
  pub unawaited : List String

module _ {M P : Type 0} (io : Io M) (sign : ℕ → String → String → P → Option M) (running : Bool)
    (op : String) (payload : P) where
  -- `relay_client.forward(op, payload)`, where what it raises or returns is dropped
  pub http_forward : Client M → Client M
  http_forward c = (forward io sign running op payload c).1

  -- One link of the loop, with `delivered`. The coroutine of `send` is a true value.
  pub forward_link : Link → Bool × Hub M → Bool × Hub M
  unfolding http_forward
  forward_link l (delivered, h) =
      if l.connected
      then (true, record h { unawaited = h.unawaited ++ l.url ∷ [] })
      else if ready h.relay
      then (delivered, record h { relay = http_forward h.relay })
      else (delivered, h)

  pub forward_links : List Link → Bool × Hub M → Bool × Hub M
  forward_links [] s = s
  forward_links (l ∷ ls) s = forward_links ls (forward_link l s)

  -- `_relay_forward`
  pub relay_forward : Hub M → Bool × Hub M
  unfolding forward_links forward_link
  relay_forward h =
      let (delivered, h') = forward_links h.links (false, h) in
      if is_empty h.links && ready h'.relay
      then (delivered, record h' { relay = http_forward h'.relay })
      else (delivered, h')
