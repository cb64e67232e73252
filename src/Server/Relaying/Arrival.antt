-- ===== src/Server/Relaying/Arrival.antt =====
-- server.py, collab/wsrelay.py: an event that a node signs and sends over its link arrives.
use hermes_k2_monitor.Prelude.{
  ◌≡◌, refl, ap, ap₂, ◌∙◌, String, true, false, [], ◌∷◌, ◌++◌, none, some, leb, any, lookup, str_eq,
}
use mathlib.Core.Path.{subst⁻¹}
use hermes_k2_monitor.Text.{codes}
use hermes_k2_monitor.Monad.{Result, ok, raised}
use hermes_k2_monitor.Json.{Json, obj, Fields, end, get_field}
use hermes_k2_monitor.Trust.{Stamp, verified, is_stale, timestamp_seconds}
use hermes_k2_monitor.Trust.Sign.{
  SignError, sign, envelope, verify-sign, sign-envelope, verify-expected,
}
use hermes_k2_monitor.WsRelay.Socket.{Socket, connected, send}
use hermes_k2_monitor.Vault.{row}
use hermes_k2_monitor.Vault.Chain.Clean.{IsClean}
use hermes_k2_monitor.Vault.Events.{entry_of, append_event}
use hermes_k2_monitor.Vault.Events.Clean.{Checked, append_event-Checked}
use hermes_k2_monitor.Server.Mesh.{Outside, Mesh, Times, iso_time, limit_link}
use hermes_k2_monitor.Server.Relaying.{event_of, receive}
use hermes_k2_monitor.Server.Relaying.Links.{enter, check, receive-effect}

-- `_sign_envelope`, of what `trust.sign` returns or raises
abbrev pub sign_envelope : Result SignError Fields → Fields
sign_envelope (ok m) = m
sign_envelope (raised e) = end

-- `send` on a link that is up hands its envelope to the socket.
send-connected :
    {P E : Type 0} (signer : String → P → E) (op : String) (payload : P) (client : Socket)
    → connected client ≡ true
    → send (some signer) true op payload client ≡ (true, signer op payload ∷ [], client)
unfolding send
send-connected signer op payload client up = rw (send, up) refl

event_of-envelope :
    (node op : String) (payload : Fields) (nonce : String) (ts : Json) (sig : String)
    → event_of (envelope node op payload nonce ts sig)
      ≡ some (record { op = op; payload = payload; sig = sig })
unfolding event_of get_field
event_of-envelope node op payload nonce ts sig = refl

module _ {M : Type 0} (out : Outside M) (t : Times) where
  -- `sign` under the mesh key of `out`, with a nonce and a time.
  abbrev pub sign_at : String → Json → String → String → Fields → Result SignError Fields
  sign_at nonce ts node op payload =
      sign out.float_of out.text_of out.canonical out.hmac out.internal_ip node op payload nonce ts

  -- The time and the nonce of a message pass the tests of `verify`.
  pub record IsTimely (nonce : String) (ts : Json) (s : Mesh M) : Type 0 where
    pub not_empty : str_eq nonce "" ≡ false
    pub stamp : Stamp
    pub read :
        timestamp_seconds out.float_of out.text_of out.canonical out.hmac out.internal_ip (some ts)
        ≡ some stamp
    pub current : is_stale s.trust.replay_window t.envelope stamp ≡ false
    pub fresh : lookup nonce s.trust.nonces ≡ none

  -- The ledger has exactly one entry more.
  pub record Arrived (uuid node op : String) (payload : Fields) (s w : Mesh M) : Type 0 where
    pub sig : String
    pub ledger :
        w.auth.vault.ledger
        ≡ s.auth.vault.ledger ++ row (obj (entry_of uuid (iso_time out t) node op payload sig)) ∷ []
    pub checked :
        Checked out.digest (entry_of uuid (iso_time out t) node op payload sig) w.auth.vault

  signed-check :
      (uuid node op : String) (payload : Fields) (nonce : String) (ts : Json) (msg : Fields)
      (s : Mesh M)
      → ((x : String) → any (leb 128) (codes (out.hmac x)) ≡ false)
      → str_eq node "" ≡ false
      → IsTimely nonce ts s
      → sign_at nonce ts node op payload ≡ ok msg
      → (check out t uuid node msg s.trust).0 ≡ ok (verified, some node)
  signed-check uuid node op payload nonce ts msg s ascii known timely signed =
      let (sig, e) =
        sign-envelope out.float_of out.text_of out.canonical out.hmac out.internal_ip node op
          payload nonce ts msg signed in
      let own =
        verify-expected out.float_of out.text_of out.canonical out.hmac out.internal_ip node op
          payload nonce ts sig t.envelope t.nonces s.trust known in
      let passes =
        verify-sign out.float_of out.text_of out.canonical out.hmac out.internal_ip node op payload
          nonce ts msg t.envelope t.nonces timely.stamp s.trust ascii known timely.not_empty
          timely.read timely.current timely.fresh signed in
      cc (passes, own, e)

  signed-Arrived :
      (uuid node op : String) (payload : Fields) (nonce : String) (ts : Json) (msg : Fields)
      (s : Mesh M)
      → IsClean out.digest s.auth.vault
      → (limit_link out t node s).0 ≡ ok tt
      → (check out t uuid node msg s.trust).0 ≡ ok (verified, some node)
      → sign_at nonce ts node op payload ≡ ok msg
      → Arrived uuid node op payload s (receive out t uuid node (some (obj msg)) s).1
  signed-Arrived uuid node op payload nonce ts msg s clean free passes signed =
      let (sig, e) =
        sign-envelope out.float_of out.text_of out.canonical out.hmac out.internal_ip node op
          payload nonce ts msg signed in
      let is_event : event_of msg ≡ some (record { op = op; payload = payload; sig = sig }) =
        ap event_of e ∙ event_of-envelope node op payload nonce ts sig in
      let v =
        append_event out.digest out.text_of uuid (iso_time out t) node op payload sig
          s.auth.vault in
      let same : (receive out t uuid node (some (obj msg)) s).1.auth.vault ≡ v.1 =
        ap (λ x. x.0.vault) (receive-effect out t uuid node (some (obj msg)) s free)
        ∙ ap (λ x. x.vault) (ap₂ (λ x o. enter out t uuid x o s.auth) is_event passes) in
      let (grown, c, _) =
        append_event-Checked out.digest out.text_of uuid (iso_time out t) node op payload sig
          s.auth.vault clean in
      record {
        sig = sig;
        ledger = ap (λ x. x.ledger) same ∙ grown;
        checked =
            subst⁻¹ (Checked out.digest (entry_of uuid (iso_time out t) node op payload sig)) same
              c;
      }

-- A node whose link is up signs an event with `sign` and sends it with `send`. Then `send` returns True
-- and one frame goes out, the signed message; and if the partner has the same key, and the frame's time
-- and nonce pass, its limiter does not refuse and its files are clean, then when the loop of
-- `api_ws_relay` has received the frame, the partner's ledger has exactly one entry more, with the
-- node, the operation and the payload, and the files are clean again if that entry is one line for
-- `splitlines`.
pub receive-send :
    {M : Type 0} (out : Outside M) (t : Times) (uuid node op : String) (payload : Fields)
    (nonce : String) (ts : Json) (msg : Fields) (client : Socket) (s : Mesh M)
    → connected client ≡ true
    → sign_at out t nonce ts node op payload ≡ ok msg
    → ((x : String) → any (leb 128) (codes (out.hmac x)) ≡ false)
    → str_eq node "" ≡ false
    → IsTimely out t nonce ts s
    → (limit_link out t node s).0 ≡ ok tt
    → IsClean out.digest s.auth.vault
    → (send (some (λ op p. sign_envelope (sign_at out t nonce ts node op p))) true op payload client
        ≡ (true, msg ∷ [], client))
      × Arrived out t uuid node op payload s (receive out t uuid node (some (obj msg)) s).1
receive-send out t uuid node op payload nonce ts msg client s up signed ascii known timely free
      clean =
    (
      send-connected (λ op p. sign_envelope (sign_at out t nonce ts node op p)) op payload client up
          ∙ ap (λ r. (true, sign_envelope r ∷ [], client)) signed,
      signed-Arrived out t uuid node op payload nonce ts msg s clean free
          (signed-check out t uuid node op payload nonce ts msg s ascii known timely signed) signed,
    )
