-- ===== src/Server/Relaying/Links.antt =====
-- server.py: a frame on a relay link has the effect of the same event at `api_relay`.
use hermes_k2_monitor.Prelude.{
  ◌≡◌, refl, sym, ap, ap₂, ◌∙◌, String, Option, none, some, arith, Option-cases, inl, inr,
}
use hermes_k2_monitor.Monad.{Result, ok, raised, ◌>>=◌, continue, continue-ok}
use hermes_k2_monitor.Json.{Json, null, bool, num, str, arr, obj, Fields}
use hermes_k2_monitor.Trust.{
  Manager, Verdict, TypeError, verified, invalid_message, invalid_node, not_allowed, invalid_fields,
  stale, invalid_signature, replayed, verify,
}
use hermes_k2_monitor.Vault.{VaultError}
use hermes_k2_monitor.Vault.Events.{append_event}
use hermes_k2_monitor.Auth.{Auth}
use hermes_k2_monitor.Server.Gates.{Request}
use hermes_k2_monitor.Server.Mesh.{
  Outside, Mesh, Times, Reply, crashed, dropped, record_activity, iso_time, json_body,
  node_authorized, decide_link, judged, limit_peer, limit_link, verify_body,
}
use hermes_k2_monitor.RateLimit.{Limiter, Decision}
use hermes_k2_monitor.Server.Mesh.Keeps.{limit_peer-keeps}
use hermes_k2_monitor.Server.Relaying.{
  Event, event_of, take_event, answered, append, announce, publish, api_relay, receive,
}

-- The second state has the stores of the first.
pub record Agree {M : Type 0} (s w : Mesh M) : Type 0 where
  pub auth : w.auth ≡ s.auth
  pub trust : w.trust ≡ s.trust

-- An event of a node, as both paths enter it: `verify`, and then `append_event`.
module _ {M : Type 0} (out : Outside M) (t : Times) (uuid : String) where
  abbrev pub append_to : String → Event → Auth → Auth
  append_to signed e a = record a {
    vault =
        (append_event out.digest out.text_of uuid (iso_time out t) signed e.op e.payload e.sig
          a.vault).1;
  }

  abbrev pub enter : Option Event → Result TypeError (Verdict × Option String) → Auth → Auth
  enter e (ok (verified, some signed)) a = elim e [ none ↦ a | some x ↦ append_to signed x a ]
  enter e _ a = a

  abbrev pub check :
      String → Fields → Manager → Result TypeError (Verdict × Option String) × Manager
  check node b m =
      verify out.float_of out.text_of out.canonical out.hmac out.internal_ip t.envelope t.nonces
        (some node) (obj b) m

  -- What a body does to the two stores.
  abbrev pub effect : String → Option Json → Auth → Manager → Auth × Manager
  effect node (some (obj b)) a m = (enter (event_of b) (check node b m).0 a, (check node b m).1)
  effect node _ a m = (a, m)

  module _ {A : Type 0} (missing : Reply) (end : Event → Fields → Mesh M → Result Reply A × Mesh M)
      (keeps_auth : (e : Event) (entry : Fields) (w : Mesh M) → (end e entry w).1.auth ≡ w.auth)
      (keeps_trust : (e : Event) (entry : Fields) (w : Mesh M)
        → (end e entry w).1.trust ≡ w.trust) where
    answered-end :
        (e : Event) (o : Result VaultError Fields) (w : Mesh M)
        → Agree w (continue (end e) (answered o w)).1
    unfolding answered
    answered-end e (ok entry) w = record {
      auth = keeps_auth e entry w;
      trust = keeps_trust e entry w;
    }
    answered-end e (raised x) w = record { auth = refl; trust = refl }

    append-end :
        (signed : String) (e : Event) (w : Mesh M)
        → Agree
            (record w { auth = append_to signed e w.auth })
            (continue (end e) (append out t uuid signed e w)).1
    unfolding append
    append-end signed e w = answered-end e _ _

    take_event-end :
        (b : Fields) (signed : String) (w : Mesh M)
        → Agree
            (record w { auth = enter (event_of b) (ok (verified, some signed)) w.auth })
            (continue (λ e. append out t uuid signed e >>= end e) (take_event missing b w)).1
    unfolding take_event
    take_event-end b signed w = elim (Option-cases (event_of b)) [
      | inl f ↦ rw (take_event, f) (record { auth = refl; trust = refl })
      | inr (e, f) ↦ rw (take_event, f) (append-end signed e w)
    ]

    judged-end :
        (node : String) (b : Fields) (o : Result TypeError (Verdict × Option String)) (w : Mesh M)
        → Agree
            (record w { auth = enter (event_of b) o w.auth })
            (continue
              (λ signed. take_event missing b >>= λ e. append out t uuid signed e >>= end e)
              (judged out t node b o w)).1
    unfolding judged record_activity
    judged-end node b (ok (verified, some signed)) w = take_event-end b signed w
    judged-end node b (ok (verified, none)) w = record { auth = refl; trust = refl }
    judged-end node b (ok (invalid_message, _)) w = record { auth = refl; trust = refl }
    judged-end node b (ok (invalid_node, _)) w = record { auth = refl; trust = refl }
    judged-end node b (ok (not_allowed, _)) w = record { auth = refl; trust = refl }
    judged-end node b (ok (invalid_fields, _)) w = record { auth = refl; trust = refl }
    judged-end node b (ok (stale, _)) w = record { auth = refl; trust = refl }
    judged-end node b (ok (invalid_signature, _)) w = record { auth = refl; trust = refl }
    judged-end node b (ok (replayed, _)) w = record { auth = refl; trust = refl }
    judged-end node b (raised x) w = record { auth = refl; trust = refl }

    verify_body-end :
        (node : String) (b : Fields) (w : Mesh M)
        → Agree
            (record w {
              auth = enter (event_of b) (check node b w.trust).0 w.auth;
              trust = (check node b w.trust).1;
            })
            (continue
              (λ signed. take_event missing b >>= λ e. append out t uuid signed e >>= end e)
              (verify_body out t node b w)).1
    unfolding verify_body
    verify_body-end node b w =
        judged-end node b (check node b w.trust).0 (record w { trust = (check node b w.trust).1 })

    json_body-end :
        (node : String) (body : Option Json) (w : Mesh M)
        → let o =
            continue
              (λ b. verify_body out t node b >>= λ signed.
                take_event missing b >>= λ e. append out t uuid signed e >>= end e)
              (json_body body w) in
          (o.1.auth, o.1.trust) ≡ effect node body w.auth w.trust
    unfolding json_body
    json_body-end node (some (obj b)) w =
        let a = verify_body-end node b w in ap₂ (λ x y. (x, y)) a.auth a.trust
    json_body-end node none w = refl
    json_body-end node (some null) w = refl
    json_body-end node (some (bool _)) w = refl
    json_body-end node (some (num _)) w = refl
    json_body-end node (some (str _)) w = refl
    json_body-end node (some (arr _)) w = refl

  publish-keeps :
      (e : Event) (entry : Fields) (w : Mesh M)
      → ((publish out t e entry w).1.auth ≡ w.auth) × ((publish out t e entry w).1.trust ≡ w.trust)
  unfolding publish announce record_activity
  publish-keeps e entry w = (ground arith, ground arith)

  announce-keeps :
      (entry : Fields) (w : Mesh M)
      → ((announce out t entry w).auth ≡ w.auth) × ((announce out t entry w).trust ≡ w.trust)
  unfolding announce record_activity
  announce-keeps entry w = (refl, refl)

  decide_link-keeps :
      (peer : String) (d : Option (Limiter × Decision)) (w : Mesh M)
      → ((decide_link out t peer d w).1.auth ≡ w.auth)
        × ((decide_link out t peer d w).1.trust ≡ w.trust)
  unfolding decide_link record_activity
  decide_link-keeps peer none w = (refl, refl)
  decide_link-keeps peer (some (l, d)) w = (ground arith, ground arith)

  limit_link-keeps :
      (peer : String) (w : Mesh M)
      → ((limit_link out t peer w).1.auth ≡ w.auth) × ((limit_link out t peer w).1.trust ≡ w.trust)
  unfolding limit_link
  limit_link-keeps peer w = decide_link-keeps peer _ w

  abbrev pub stores : {A : Type 0} → Result Reply A × Mesh M → Auth × Manager
  stores o = (o.1.auth, o.1.trust)

  pub receive-effect :
      (peer : String) (body : Option Json) (w : Mesh M)
      → (limit_link out t peer w).0 ≡ ok tt
      → stores (receive out t uuid peer body w) ≡ effect peer body w.auth w.trust
  unfolding receive
  receive-effect peer body w free =
      let o = limit_link out t peer w in
      let (a, u) = limit_link-keeps peer w in
      ap stores (continue-ok _ o tt free)
      ∙ json_body-end dropped (λ e entry x. (ok tt, announce out t entry x))
          (λ e entry x. (announce-keeps entry x).0) (λ e entry x. (announce-keeps entry x).1) peer
          body o.1
      ∙ ap₂ (effect peer body) a u

  api_relay-effect :
      (r : Request) (peer : String) (body : Option Json) (s : Mesh M)
      → (node_authorized out t r s).0 ≡ ok peer
      → (limit_peer out t "relay" peer (node_authorized out t r s).1).0 ≡ ok tt
      → stores (api_relay out t uuid r body s)
        ≡ effect peer body (node_authorized out t r s).1.auth (node_authorized out t r s).1.trust
  unfolding api_relay
  api_relay-effect r peer body s known free =
      let w = (node_authorized out t r s).1 in
      let o = limit_peer out t "relay" peer w in
      let (a, u, _, _, _) = limit_peer-keeps out t "relay" peer w in
      ap stores (continue-ok _ (node_authorized out t r s) peer known)
      ∙ ap stores (continue-ok _ o tt free)
      ∙ json_body-end crashed (publish out t) (λ e entry x. (publish-keeps e entry x).0)
          (λ e entry x. (publish-keeps e entry x).1) peer body o.1
      ∙ ap₂ (effect peer body) a u

-- What a frame on the relay link of a node does to the node registry, the tokens, the vault with its
-- ledger, and the nonces is exactly what `api_relay` does with the same body, from the state in which
-- the caller has been recognized, if neither limiter refuses: whatever the body is, even one that is
-- no JSON, does not verify or cannot be appended.
pub receive-api_relay :
    {M : Type 0} (out : Outside M) (t : Times) (uuid : String) (r : Request) (peer : String)
    (body : Option Json) (s : Mesh M)
    → (node_authorized out t r s).0 ≡ ok peer
    → (limit_peer out t "relay" peer (node_authorized out t r s).1).0 ≡ ok tt
    → (limit_link out t peer (node_authorized out t r s).1).0 ≡ ok tt
    → let o = receive out t uuid peer body (node_authorized out t r s).1 in
      let p = api_relay out t uuid r body s in (o.1.auth ≡ p.1.auth) × (o.1.trust ≡ p.1.trust)
receive-api_relay out t uuid r peer body s known free clear =
    let w = (node_authorized out t r s).1 in
    let e =
      receive-effect out t uuid peer body w clear
      ∙ sym (api_relay-effect out t uuid r peer body s known free) in
    (ap (λ x. x.0) e, ap (λ x. x.1) e)
