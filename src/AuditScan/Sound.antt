-- ===== src/AuditScan/Sound.antt =====
-- scripts/audit_identity_scan.py: what a report without anomalies says.
use hermes_k2_monitor.Prelude.{
  ◌⊎◌, ℕ, ◌≡◌, refl, ap, ◌∙◌, String, Bool, true, false, List, [], ◌∷◌, ◌++◌, Option, none, some,
  arith, is_empty, Dict, lookup, Bool-cases, Option-cases, inl, inr,
}
use hermes_k2_monitor.Monad.{ok, Result-cases}
use hermes_k2_monitor.Json.{Json, null, bool, num, str, arr, obj, Fields}
use hermes_k2_monitor.Vault.{Node, is_active}
use hermes_k2_monitor.Vault.Chain.{verify_audit_chain}
use hermes_k2_monitor.Auth.{Crypto, Auth}
use hermes_k2_monitor.Auth.Tokens.{is_certified, mem_text}
use hermes_k2_monitor.AuditScan.{
  Anomaly, Report, load_jsonl, value_of, node_in, state_anomaly, unless, chain_invalid,
  not_certified, registered_not_certified, entry_anomalies, ledger_anomalies, store_anomaly,
  node_anomalies, file_anomalies, scan,
}

-- The predicate holds of every element.
pub data Each {A : Type 0} (P : A → Type 0) : List A → Type 0 where
  none_left : Each P []
  and_each : {x : A} {xs : List A} → P x → Each P xs → Each P (x ∷ xs)

append-nil_left : {A : Type 0} (xs ys : List A) → xs ++ ys ≡ [] → xs ≡ []
append-nil_left [] ys e = refl
append-nil_left (x ∷ xs) ys e = absurd cc

append-nil_right : {A : Type 0} (xs ys : List A) → xs ++ ys ≡ [] → ys ≡ []
append-nil_right [] ys e = e
append-nil_right (x ∷ xs) ys e = absurd cc

unless-nil : (b : Bool) (x : Anomaly) → unless b x ≡ [] → b ≡ true
unless-nil true x e = refl
unless-nil false x e = absurd cc

is_empty-nil : {A : Type 0} (xs : List A) → is_empty xs ≡ true → xs ≡ []
is_empty-nil [] e = refl
is_empty-nil (x ∷ xs) e = absurd cc

node_in-eq : (v : Option Json) (id : String) → node_in v ≡ some id → v ≡ some (str id)
unfolding node_in
node_in-eq (some (str n)) id e = ground arith
node_in-eq none id e = absurd (ground arith)
node_in-eq (some null) id e = absurd (ground arith)
node_in-eq (some (bool _)) id e = absurd (ground arith)
node_in-eq (some (num _)) id e = absurd (ground arith)
node_in-eq (some (arr _)) id e = absurd (ground arith)
node_in-eq (some (obj _)) id e = absurd (ground arith)

module _ (k : Crypto) (now : ℕ) (a : Auth) where
  -- An entry names a node that is registered and active and has a valid certificate.
  pub record IsOwned (r : Option Fields) : Type 0 where
    pub id : String
    pub named : value_of "node" r ≡ some (str id)
    pub node : Node
    pub registered : lookup id a.vault.state.nodes ≡ some node
    pub active : is_active node.status ≡ true
    pub certified : is_certified k now id a ≡ true

  -- A registered node has a valid certificate, and is active or in the store of revoked nodes.
  pub record IsSettled (p : String × Node) : Type 0 where
    pub certified : is_certified k now p.0 a ≡ true
    pub status :
        (is_active p.1.status ≡ true)
        ⊎ ((gone : List String) × (a.revoked_nodes ≡ some gone) × (mem_text p.0 gone ≡ true))

  state_anomaly-nil :
      (id : String) (o : Option Node)
      → state_anomaly id o ≡ []
      → (n : Node) × (o ≡ some n) × (is_active n.status ≡ true)
  state_anomaly-nil id none e = absurd cc
  state_anomaly-nil id (some n) e = elim (Bool-cases (is_active n.status)) [
    | inl y ↦ (n, refl, y)
    | inr y ↦ absurd (ground arith)
  ]

  entry_anomalies-IsOwned : (r : Option Fields) → entry_anomalies k now a r ≡ [] → IsOwned r
  unfolding entry_anomalies
  entry_anomalies-IsOwned r e = elim (Option-cases (node_in (value_of "node" r))) [
    | inl f ↦ absurd (ground arith)
    | inr (id, f) ↦
        let both : state_anomaly id (lookup id a.vault.state.nodes)
              ++ unless (is_certified k now id a) (not_certified id)
            ≡ [] =
          ground arith in
        let (n, old, act) =
          state_anomaly-nil id (lookup id a.vault.state.nodes) (append-nil_left _ _ both) in
        record {
          id = id;
          named = node_in-eq (value_of "node" r) id f;
          node = n;
          registered = old;
          active = act;
          certified =
              unless-nil (is_certified k now id a) (not_certified id)
                (append-nil_right (state_anomaly id (lookup id a.vault.state.nodes)) _ both);
        }
  ]

  ledger_anomalies-IsOwned :
      (rs : List (Option Fields)) → ledger_anomalies k now a rs ≡ [] → Each IsOwned rs
  unfolding ledger_anomalies
  ledger_anomalies-IsOwned [] e = none_left
  ledger_anomalies-IsOwned (r ∷ rs) e =
      and_each (entry_anomalies-IsOwned r (append-nil_left _ _ e))
        (ledger_anomalies-IsOwned rs (append-nil_right (entry_anomalies k now a r) _ e))

  store_anomaly-nil :
      (id : String) (n : Node)
      → store_anomaly a id n ≡ ok []
      → (is_active n.status ≡ true)
        ⊎ ((gone : List String) × (a.revoked_nodes ≡ some gone) × (mem_text id gone ≡ true))
  unfolding store_anomaly
  store_anomaly-nil id n e = elim (Bool-cases (is_active n.status)) [
    | inl y ↦ inl y
    | inr y ↦ elim (Option-cases a.revoked_nodes) [
      | inl f ↦ absurd (ground arith)
      | inr (gone, f) ↦ inr (gone, f, ground arith)
    ]
  ]

  node_anomalies-IsSettled :
      (ns : Dict Node) → node_anomalies k now a ns ≡ ok [] → Each IsSettled ns
  unfolding node_anomalies
  node_anomalies-IsSettled [] e = none_left
  node_anomalies-IsSettled ((id, n) ∷ ns) e = elim (Result-cases (store_anomaly a id n)) [
    | inr (x, f) ↦ absurd (ground arith)
    | inl (found, f) ↦ elim (Result-cases (node_anomalies k now a ns)) [
      | inr (x, g) ↦ absurd (ground arith)
      | inl (rest, g) ↦
          let all : unless (is_certified k now id a) (registered_not_certified id)
                ++ (found ++ rest)
              ≡ [] =
            ground arith in
          let later : found ++ rest ≡ [] =
            append-nil_right (unless (is_certified k now id a) (registered_not_certified id)) _
              all in
          let certified =
            unless-nil (is_certified k now id a) (registered_not_certified id)
              (append-nil_left _ _ all) in
          let quiet : store_anomaly a id n ≡ ok [] =
            f ∙ ap (λ x. ok x) (append-nil_left found rest later) in
          and_each (record { certified = certified; status = store_anomaly-nil id n quiet })
            (node_anomalies-IsSettled ns (g ∙ ap (λ x. ok x) (append-nil_right found rest later)))
    ]
  ]

-- If the report says ok: the audit chain verifies; every line of the ledger is an entry of a node that
-- is registered and active and has a valid certificate; every registered node has a valid certificate,
-- and is active or in the store of revoked nodes.
pub scan-ok :
    (digest : Json → String) (k : Crypto) (now : ℕ) (a : Auth) (r : Report)
    → scan digest k now a ≡ ok r
    → r.is_ok ≡ true
    → (verify_audit_chain digest a.vault ≡ true)
      × Each (IsOwned k now a) (load_jsonl a.vault.ledger)
      × Each (IsSettled k now a) a.vault.state.nodes
unfolding scan file_anomalies
scan-ok digest k now a r e good = elim (Result-cases (node_anomalies k now a a.vault.state.nodes)) [
  | inr (x, f) ↦ absurd (ground arith)
  | inl (about, f) ↦
      let none_found : file_anomalies digest a
            ++ (ledger_anomalies k now a (load_jsonl a.vault.ledger) ++ about)
          ≡ [] =
        is_empty-nil _ (ground arith) in
      let files : file_anomalies digest a ≡ [] = append-nil_left _ _ none_found in
      let rest : ledger_anomalies k now a (load_jsonl a.vault.ledger) ++ about ≡ [] =
        append-nil_right (file_anomalies digest a) _ none_found in
      (
        unless-nil _ chain_invalid (append-nil_left _ _ files),
        ledger_anomalies-IsOwned k now a (load_jsonl a.vault.ledger) (append-nil_left _ _ rest),
        node_anomalies-IsSettled k now a a.vault.state.nodes (
            f
            ∙ ap (λ x. ok x)
                (append-nil_right (ledger_anomalies k now a (load_jsonl a.vault.ledger)) about
                  rest)),
      )
]
