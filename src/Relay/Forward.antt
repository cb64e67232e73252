-- ===== src/Relay/Forward.antt =====
-- collab/relay.py, `forward`: what is signed and handed to the event loop.
use hermes_k2_monitor.Prelude.{
  ℕ, suc, ◌≡◌, String, true, [], ◌∷◌, ◌++◌, Option, some, arith, str_eq, any,
}
use hermes_k2_monitor.Monad.{ok}
use hermes_k2_monitor.Trust.{allowed_ops}
use hermes_k2_monitor.Relay.{Client, Io, ready, forward}

-- A signer that does not raise for the event, on a running loop.
module _ {M P : Type 0} (io : Io M) (sign : ℕ → String → String → P → Option M)
    (envelope : ℕ → String → String → P → M) (op : String)
    (allowed : any (str_eq op) allowed_ops ≡ true) (payload : P)
    (signs : (n : ℕ) (node : String)
      → sign n node op payload ≡ some (envelope n node op payload)) where
  -- On a running loop `forward` signs one envelope and leaves it to the event loop.
  pub forward-scheduled :
      (c : Client M)
      → ready c ≡ true
      → forward io sign true op payload c ≡ (
        ok true,
        record c {
          scheduled = c.scheduled ++ envelope c.signatures c.local_node_id op payload ∷ [];
          signatures = suc c.signatures;
        },
      )
  unfolding forward
  forward-scheduled c r = ground (arith, signs c.signatures c.local_node_id)
