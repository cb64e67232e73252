-- ===== src/Server/Files/Entry.antt =====
-- server.py, `api_collab_file`: what a request does to the files and to the ledger, on every path.
use hermes_k2_monitor.Prelude.{
  ◌≡◌, ◌⊎◌, inl, inr, refl, ap, ◌∙◌, String, false, List, [], ◌∷◌, ◌++◌, Option, none, some, arith,
  eq_iff, str_eq, ltb, Dict, insert, Bool-cases, Option-cases,
}
use mathlib.Core.Path.{subst⁻¹}
use hermes_k2_monitor.Monad.{Result, ok, raised, ◌>>=◌, continue, continue-cases, Result-cases}
use hermes_k2_monitor.Json.{Json, obj, Fields, get_field, is_text}
use hermes_k2_monitor.Trust.{text_field}
use hermes_k2_monitor.Vault.{Vault, Content, utf8, row}
use hermes_k2_monitor.Vault.Paths.{FileError, size, size_limit, safe_path}
use hermes_k2_monitor.Vault.Paths.Files.{write_file-ok, write_file-raised}
use hermes_k2_monitor.Vault.Chain.Clean.{IsClean, IsClean-same}
use hermes_k2_monitor.Vault.Events.Clean.{Checked}
use hermes_k2_monitor.Vault.Events.{entry_of, ensure_audit_clean}
use hermes_k2_monitor.Relay.{ready}
use hermes_k2_monitor.Server.Gates.{Request}
use hermes_k2_monitor.Server.Mesh.{
  Outside, Mesh, Times, Reply, crashed, unavailable, content_read, record_activity, iso_time,
}
use hermes_k2_monitor.Server.Mesh.Keeps.{Kept}
use hermes_k2_monitor.Server.Mesh.Calls.{past_vault_call, ensure_audit_clean-Kept}
use hermes_k2_monitor.Server.Mesh.Guards.{Passed, past_guards}
use hermes_k2_monitor.Server.Relaying.Append.{append-grows, files-append}
use hermes_k2_monitor.Server.Relaying.{Event, event_of, take_event, append, announce}
use hermes_k2_monitor.Server.Tasks.{require_op}
use hermes_k2_monitor.Server.Exporting.Entry.{after_forward-state}
use hermes_k2_monitor.Server.Files.{
  content_of, is_read, write_event, read_value, write_value, read_path, write_call, publish_file,
  write_path, on_file, api_collab_file,
}

module _ (resolve : List String → Option String) (files : Dict Content) where
  -- What a write of two values has done, once it returns.
  pub record Stored (path content : Option String) (name : String) (after : Dict Content)
      : Type 0 where
    pub requested : String
    pub is_path : path ≡ some requested
    pub is_safe : safe_path resolve requested ≡ ok name
    pub contents : String
    pub is_content : content ≡ some contents
    pub is_small : ltb size_limit (size contents) ≡ false
    pub files_after : after ≡ insert name (utf8 contents) files

  write_value-ok :
      (path content : Option String) (name : String)
      → (write_value resolve path content files).0 ≡ ok name
      → Stored path content name (write_value resolve path content files).1
  unfolding write_value
  write_value-ok path none name e = absurd (ground arith)
  write_value-ok none (some c) name e = absurd (ground arith)
  write_value-ok (some p) (some c) name e =
      let (safe, small, put) = write_file-ok resolve p c name files e in
      record {
        requested = p;
        is_path = refl;
        is_safe = safe;
        contents = c;
        is_content = refl;
        is_small = small;
        files_after = put;
      }

  write_value-raised :
      (path content : Option String) (e : FileError)
      → (write_value resolve path content files).0 ≡ raised e
      → (write_value resolve path content files).1 ≡ files
  unfolding write_value
  write_value-raised path none e h = refl
  write_value-raised none (some c) e h = refl
  write_value-raised (some p) (some c) e h = write_file-raised resolve p c files e h

module _ {M : Type 0} (out : Outside M) (t : Times) where
  publish_file-auth :
      (name : String) (entry : Fields) (w : Mesh M)
      → (publish_file out t name entry w).1.auth ≡ w.auth
  unfolding publish_file announce record_activity
  publish_file-auth name entry w = elim (Bool-cases (ready w.hub.relay)) [
    | inl y ↦ rw (publish_file, y) (ap (λ x. x.auth) (after_forward-state _ _ _))
    | inr n ↦ rw (publish_file, n) refl
  ]

module _ {M : Type 0} (out : Outside M) (t : Times) (uuid : String) (body : Option Json)
    (s : Mesh M) where
  -- A file is written for an admitted node, and the ledger has one entry more, which names the file.
  pub record Written (v : Vault) : Type 0 where
    pub node : String
    pub fields : Fields
    pub reached : Mesh M
    pub passed : Passed out t body s node fields reached
    pub event : Event
    pub is_event : event_of fields ≡ some event
    pub is_file : event.op ≡ "file_update"
    pub name : String
    pub stored :
        Stored out.resolve s.auth.vault.files
          (text_field (get_field "path" event.payload))
          (content_of (get_field "content" event.payload))
          name
          v.files
    pub ledger :
        v.ledger
        ≡ s.auth.vault.ledger
          ++ row
              (obj (entry_of uuid (iso_time out t) node "file_update" (write_event name) event.sig))
            ∷ []
    pub checked :
        Checked out.digest
          (entry_of uuid (iso_time out t) node "file_update" (write_event name) event.sig)
          v

  -- The answer is a refusal, or what `read_file` returns for the path that an admitted node asked for.
  pub data Unwritten : Result Reply Reply → Type 0 where
    refused : {e : Reply} → Unwritten (raised e)
    read :
        {node c : String} {fields : Fields} {reached : Mesh M} {e : Event}
        → Passed out t body s node fields reached
        → event_of fields ≡ some e
        → read_value out.resolve (text_field (get_field "path" e.payload)) s.auth.vault.files ≡ ok c
        → Unwritten (ok (content_read (get_field "path" e.payload) c))

  -- Either nothing is written, or one file and one entry are.
  pub record Outcome (o : Result Reply Reply × Mesh M) : Type 0 where
    pub either :
        (Unwritten o.0 × Kept s.auth.vault o.1.auth.vault × IsClean out.digest o.1.auth.vault)
        ⊎ Written o.1.auth.vault

  module _ (clean : IsClean out.digest s.auth.vault) where
    IsClean-Kept : (v : Vault) → Kept s.auth.vault v → IsClean out.digest v
    IsClean-Kept v k = IsClean-same out.digest s.auth.vault v k.ledger k.audit clean

    stopped : (e : Reply) (w : Mesh M) → Kept s.auth.vault w.auth.vault → Outcome (raised e, w)
    stopped e w k = record { either = inl (refused, k, IsClean-Kept w.auth.vault k) }

    read_path-Outcome :
        (node : String) (fields : Fields) (e : Event) (w : Mesh M)
        → Passed out t body s node fields w
        → event_of fields ≡ some e
        → Outcome (read_path out t (get_field "path" e.payload) w)
    unfolding read_path
    read_path-Outcome node fields e w passed is_event =
        let k = passed.kept in
        let path = text_field (get_field "path" e.payload) in
        elim (Result-cases (read_value out.resolve path w.auth.vault.files)) [
          | inr (x, f) ↦ rw (read_path, f) (stopped _ w k)
          | inl (c, f) ↦
              rw (read_path, f)
                (record {
                  either =
                      inl (read passed is_event (rw (← k.files) f), k, IsClean-Kept w.auth.vault k);
                })
        ]

    -- The last two steps, for a file that is written.
    append-Outcome :
        (node : String) (fields : Fields) (reached : Mesh M) (e : Event) (name : String)
        (w : Mesh M)
        → Passed out t body s node fields reached
        → event_of fields ≡ some e
        → e.op ≡ "file_update"
        → Stored out.resolve s.auth.vault.files
            (text_field (get_field "path" e.payload))
            (content_of (get_field "content" e.payload))
            name
            w.auth.vault.files
        → w.auth.vault.ledger ≡ s.auth.vault.ledger
        → w.auth.vault.audit ≡ s.auth.vault.audit
        → Outcome (
            continue (publish_file out t name) (
              append out t uuid node
                (record { op = "file_update"; payload = write_event name; sig = e.sig })
                w))
    append-Outcome node fields reached e name w passed is_event is_file stored kl ka =
        let ev : Event = record { op = "file_update"; payload = write_event name; sig = e.sig } in
        let o = append out t uuid node ev w in
        let v = o.1.auth.vault in
        let cw = IsClean-same out.digest s.auth.vault w.auth.vault kl ka clean in
        let (grown, cv) = append-grows out t uuid node ev w cw in
        let same : v.files ≡ w.auth.vault.files = files-append out t uuid node ev w cw in
        let written : Written v = record {
          node = node;
          fields = fields;
          reached = reached;
          passed = passed;
          event = e;
          is_event = is_event;
          is_file = is_file;
          name = name;
          stored = rw same stored;
          ledger =
              grown
              ∙ ap
                  (λ l.
                    l
                    ++ row (
                        obj (
                          entry_of uuid (iso_time out t) node "file_update" (write_event name)
                            e.sig))
                      ∷ [])
                  kl;
          checked = cv;
        } in
        continue-cases Outcome (publish_file out t name) o (λ x _. record { either = inr written })
          (λ entry _.
            let p : (publish_file out t name entry o.1).1.auth.vault ≡ v =
              ap (λ x. x.vault) (publish_file-auth out t name entry o.1) in
            record { either = inr (subst⁻¹ Written p written) })

    write_path-Outcome :
        (node : String) (fields : Fields) (e : Event) (reached w : Mesh M)
        → Passed out t body s node fields reached
        → event_of fields ≡ some e
        → e.op ≡ "file_update"
        → Kept s.auth.vault w.auth.vault
        → Outcome (write_path out t uuid node e w)
    unfolding write_path write_call
    write_path-Outcome node fields e reached w passed is_event is_file k =
        let path = text_field (get_field "path" e.payload) in
        let content = content_of (get_field "content" e.payload) in
        past_vault_call s Outcome stopped unavailable (ensure_audit_clean out.digest) _ w
          (ensure_audit_clean-Kept out.digest) k
          (λ _ w₁ _ k₁.
            let files = w₁.auth.vault.files in
            elim (Result-cases (write_value out.resolve path content files).0) [
              | inr (x, f) ↦
                  rw (write_call, f)
                    (stopped _ _ (record {
                      ledger = k₁.ledger;
                      audit = k₁.audit;
                      files = write_value-raised out.resolve files path content x f ∙ k₁.files;
                    }))
              | inl (name, f) ↦
                  rw (write_call, f)
                    (append-Outcome node fields reached e name _ passed is_event is_file
                      (rw (← k₁.files) (write_value-ok out.resolve files path content name f))
                      k₁.ledger k₁.audit)
            ])

    on_file-Outcome :
        (node : String) (fields : Fields) (e : Event) (w : Mesh M)
        → Passed out t body s node fields w
        → event_of fields ≡ some e
        → Outcome (on_file out t uuid node e w)
    unfolding on_file require_op
    on_file-Outcome node fields e w passed is_event =
        elim (Bool-cases (str_eq e.op "file_update")) [
          | inr n ↦ rw (on_file, require_op, n) (stopped _ w passed.kept)
          | inl y ↦ elim (Bool-cases (is_read (get_field "action" e.payload))) [
            | inl r ↦
                rw (on_file, require_op, y, r) (read_path-Outcome node fields e w passed is_event)
            | inr n ↦ elim (Bool-cases (is_text "write" (get_field "action" e.payload))) [
              | inr o ↦ rw (on_file, require_op, y, n, o) (stopped _ w passed.kept)
              | inl a ↦
                  rw (on_file, require_op, y, n, a)
                    (write_path-Outcome node fields e w w passed is_event
                      ((eq_iff e.op "file_update").0 y) passed.kept)
            ]
          ]
        ]

    take_event-Outcome :
        (node : String) (fields : Fields) (w : Mesh M)
        → Passed out t body s node fields w
        → Outcome ((take_event crashed fields >>= on_file out t uuid node) w)
    unfolding take_event
    take_event-Outcome node fields w p = elim (Option-cases (event_of fields)) [
      | inl f ↦ rw (take_event, f) (stopped crashed w p.kept)
      | inr (e, f) ↦ rw (take_event, f) (on_file-Outcome node fields e w p f)
    ]

-- Whatever a request to `api_collab_file` is and however it ends, on clean files one of three things
-- has happened. It is refused, or an active and certified node whose body verifies is answered with
-- what `read_file` returns for the path that it asked for, and then the ledger, which stays clean, and
-- every file are what they were. Or such a node has written one file, whose path `safe_path` accepts
-- and whose content is within the limit, and the ledger has exactly one entry more, of that node,
-- which names the file; the files are clean again if that entry is one line for `splitlines`, and do
-- not verify if it is not.
pub api_collab_file_lem :
    {M : Type 0} (out : Outside M) (t : Times) (uuid : String) (r : Request) (body : Option Json)
    (s : Mesh M)
    → IsClean out.digest s.auth.vault
    → Outcome out t uuid body s (api_collab_file out t uuid r body s)
unfolding api_collab_file
api_collab_file_lem out t uuid r body s clean =
    past_guards out t body s (Outcome out t uuid body s) (stopped out t uuid body s clean)
      (λ node b _. take_event crashed b >>= on_file out t uuid node)
      (take_event-Outcome out t uuid body s clean) "file" r
