-- ===== src/Server/Relaying/Ledger.antt =====
-- server.py, `api_relay`: what a request does to the ledger, on every path.
use hermes_k2_monitor.Prelude.{
  ◌≡◌, ◌⊎◌, inl, inr, refl, ap, ◌∙◌, String, [], ◌∷◌, ◌++◌, Option, some, arith, Option-cases,
}
use mathlib.Core.Path.{subst⁻¹}
use hermes_k2_monitor.Monad.{Result, ok, raised, ◌>>=◌, continue, continue-cases}
use hermes_k2_monitor.Json.{Json, obj, Fields}
use hermes_k2_monitor.Trust.{verified, verify}
use hermes_k2_monitor.Vault.{Vault, row}
use hermes_k2_monitor.Vault.Chain.Clean.{IsClean, IsClean-same}
use hermes_k2_monitor.Vault.Events.Clean.{Checked}
use hermes_k2_monitor.Vault.Events.{entry_of}
use hermes_k2_monitor.Auth.Tokens.Denied.{IsAdmitted}
use hermes_k2_monitor.Server.Gates.{Request}
use hermes_k2_monitor.Server.Mesh.{Outside, Mesh, Times, Reply, crashed, record_activity, iso_time}
use hermes_k2_monitor.Server.Mesh.Keeps.{Kept}
use hermes_k2_monitor.Server.Mesh.Guards.{Passed, past_guards}
use hermes_k2_monitor.Server.Relaying.Append.{append-grows}
use hermes_k2_monitor.Server.Relaying.{
  Event, event_of, take_event, append, announce, publish, api_relay,
}

module _ {M : Type 0} (out : Outside M) (t : Times) (uuid : String) (body : Option Json)
    (s : Mesh M) where
  -- The vault has one entry more: an event of an admitted node, in a body that verifies for it.
  pub record Entered (v : Vault) : Type 0 where
    pub node : String
    pub admitted : IsAdmitted out.crypto t.caller node s.auth
    pub fields : Fields
    pub is_body : body ≡ some (obj fields)
    pub valid :
        (verify out.float_of out.text_of out.canonical out.hmac out.internal_ip t.envelope t.nonces
          (some node)
          (obj fields)
          s.trust).0
        ≡ ok (verified, some node)
    pub event : Event
    pub is_event : event_of fields ≡ some event
    pub ledger :
        v.ledger
        ≡ s.auth.vault.ledger
          ++ row (obj (entry_of uuid (iso_time out t) node event.op event.payload event.sig)) ∷ []
    pub checked :
        Checked out.digest (entry_of uuid (iso_time out t) node event.op event.payload event.sig) v

  -- Either a request is refused, and the files are clean and the ledger is what it was, or it is
  -- an event that may enter, and has.
  pub record Outcome (o : Result Reply Reply × Mesh M) : Type 0 where
    pub either :
        ((e : Reply) × (o.0 ≡ raised e)
          × (o.1.auth.vault.ledger ≡ s.auth.vault.ledger)
          × IsClean out.digest o.1.auth.vault)
        ⊎ Entered o.1.auth.vault

  module _ (clean : IsClean out.digest s.auth.vault) where
    IsClean-Kept : (v : Vault) → Kept s.auth.vault v → IsClean out.digest v
    IsClean-Kept v k = IsClean-same out.digest s.auth.vault v k.ledger k.audit clean

    stopped : (e : Reply) (w : Mesh M) → Kept s.auth.vault w.auth.vault → Outcome (raised e, w)
    stopped e w k = record { either = inl (e, refl, k.ledger, IsClean-Kept w.auth.vault k) }

    vault-announce : (entry : Fields) (w : Mesh M) → (announce out t entry w).auth ≡ w.auth
    unfolding announce record_activity
    vault-announce entry w = refl

    publish-auth :
        (e : Event) (entry : Fields) (w : Mesh M) → (publish out t e entry w).1.auth ≡ w.auth
    unfolding publish announce record_activity
    publish-auth e entry w = ground arith

    -- The last two steps, for an event that has passed.
    append-Outcome :
        (node : String) (fields : Fields) (e : Event) (w : Mesh M)
        → IsAdmitted out.crypto t.caller node s.auth
        → body ≡ some (obj fields)
        → (verify out.float_of out.text_of out.canonical out.hmac out.internal_ip t.envelope
            t.nonces
            (some node)
            (obj fields)
            s.trust).0
          ≡ ok (verified, some node)
        → event_of fields ≡ some e
        → Kept s.auth.vault w.auth.vault
        → Outcome (continue (publish out t e) (append out t uuid node e w))
    append-Outcome node fields e w admitted is_body valid is_event k =
        let o = append out t uuid node e w in
        let v = o.1.auth.vault in
        let (grown, cv) = append-grows out t uuid node e w (IsClean-Kept w.auth.vault k) in
        let entered : Entered v = record {
          node = node;
          admitted = admitted;
          fields = fields;
          is_body = is_body;
          valid = valid;
          event = e;
          is_event = is_event;
          ledger =
              grown
              ∙ ap
                  (λ l.
                    l ++ row (obj (entry_of uuid (iso_time out t) node e.op e.payload e.sig)) ∷ [])
                  k.ledger;
          checked = cv;
        } in
        continue-cases Outcome (publish out t e) o (λ x _. record { either = inr entered })
          (λ entry _.
            let p : (publish out t e entry o.1).1.auth.vault ≡ v =
              ap (λ a. a.vault) (publish-auth e entry o.1) in
            record { either = inr (subst⁻¹ Entered p entered) })

    enter-Outcome :
        (node : String) (fields : Fields) (w : Mesh M)
        → Passed out t body s node fields w
        → Outcome
            ((take_event crashed fields >>= λ e. append out t uuid node e >>= publish out t e) w)
    unfolding take_event
    enter-Outcome node fields w p = elim (Option-cases (event_of fields)) [
      | inl f ↦ rw (take_event, f) (stopped crashed w p.kept)
      | inr (e, f) ↦
          rw (take_event, f) (append-Outcome node fields e w p.admitted p.is_body p.valid f p.kept)
    ]

-- Whatever a request to `api_relay` is and however it ends, on clean files: either it is answered with
-- a refusal, the ledger is what it was and the files are clean, or the ledger has exactly one entry
-- more, which carries the id of a node whose token is accepted and that is active and certified, with
-- the operation and payload of a body that `verify` accepts for that node. Then the files are clean
-- again if that entry is one line for `splitlines`, and do not verify if it is not.
pub api_relay_lem :
    {M : Type 0} (out : Outside M) (t : Times) (uuid : String) (r : Request) (body : Option Json)
    (s : Mesh M)
    → IsClean out.digest s.auth.vault
    → Outcome out t uuid body s (api_relay out t uuid r body s)
unfolding api_relay
api_relay_lem out t uuid r body s clean =
    past_guards out t body s (Outcome out t uuid body s) (stopped out t uuid body s clean)
      (λ node b signed.
        take_event crashed b >>= λ e. append out t uuid signed e >>= publish out t e)
      (enter-Outcome out t uuid body s clean) "relay" r
