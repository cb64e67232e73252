-- ===== src/Server/Files.antt =====
-- server.py, `api_collab_file`: a node reads or writes a file of the vault.
pub mod Entry
use hermes_k2_monitor.Prelude.{
  String, Bool, true, false, List, [], ◌∷◌, Option, none, some, ltb, str_eq, if◌then◌else◌, Dict,
}
use hermes_k2_monitor.Monad.{Result, ok, raised, Exec, ◌>>=◌, ◌>>◌, pure, raise}
use hermes_k2_monitor.Json.{Json, str, Fields, end, field, get_field, is_text}
use hermes_k2_monitor.Trust.{text_field}
use hermes_k2_monitor.Vault.{Content}
use hermes_k2_monitor.Vault.Paths.{
  FileError, invalid_path, invalid_file, not_found, not_utf8, size, size_limit, read_file,
  write_file,
}
use hermes_k2_monitor.Vault.Events.{ensure_audit_clean}
use hermes_k2_monitor.Relay.{ready, forward}
use hermes_k2_monitor.Server.Gates.{Request}
use hermes_k2_monitor.Server.Mesh.{
  Outside, Mesh, Times, Route, Reply, error, crashed, unavailable, content_read, file_saved,
  json_body, node_authorized, limit_peer, verify_body, vault_call,
}
use hermes_k2_monitor.Server.Relaying.{Event, take_event, append, announce}
use hermes_k2_monitor.Server.Tasks.{require_op}
use hermes_k2_monitor.Server.Exporting.{after_forward}

-- what the handlers at the end of `api_collab_file` answer
abbrev pub file_answer : FileError → Reply
file_answer not_found = error 404 "collab file not found"
file_answer not_utf8 = error 415 "collab file is not UTF-8"
file_answer _ = error 403 "forbidden collab path"

-- `payload.get("content", "")`; `none` is a value that is no text
abbrev pub content_of : Option Json → Option String
content_of none = some ""
content_of (some v) = text_field (some v)

-- `action == "read"`, of `payload.get("action", "read")`
abbrev is_read : Option Json → Bool
is_read none = true
is_read (some v) = is_text "read" (some v)

-- `{"action": "write", "path": written}`
abbrev pub write_event : String → Fields
write_event name = field "action" (str "write") (field "path" (str name) end)

module _ (resolve : List String → Option String) where
  -- `read_file` of a value
  unfoldable pub read_value : Option String → Dict Content → Result FileError String
  read_value none files = raised invalid_path
  read_value (some p) files = read_file resolve p files

  -- `write_file` of two values
  unfoldable pub write_value : Option String → Option String → Exec FileError (Dict Content) String
  write_value path none files = (raised invalid_file, files)
  write_value none (some c) files =
      (raised (if ltb size_limit (size c) then invalid_file else invalid_path), files)
  write_value (some p) (some c) files = write_file resolve p c files

abbrev file_lift : {M A : Type 0} → Result FileError A → Route M A
file_lift (ok a) = pure a
file_lift (raised x) = raise (file_answer x)

module _ {M : Type 0} (out : Outside M) (t : Times) where
  unfoldable pub read_path : Option Json → Route M Reply
  unfolding read_value
  read_path path s = elim (read_value out.resolve (text_field path) s.auth.vault.files) [
    | ok c ↦ (ok (content_read path c), s)
    | raised x ↦ (raised (file_answer x), s)
  ]

  unfoldable pub write_call : Option String → Option String → Route M String
  unfolding write_value
  write_call path content s =
      let (o, files) = write_value out.resolve path content s.auth.vault.files in
      file_lift o
        (record s { auth = record (s.auth) { vault = record (s.auth.vault) { files = files } } })

  -- the end of a write, once the entry is in the ledger
  unfoldable pub publish_file : String → Fields → Route M Reply
  unfolding announce after_forward
  publish_file name entry s =
      let s' = announce out t entry s in
      let answer = file_saved name (get_field "id" entry) in
      if ready s'.hub.relay
      then (let (o, c) =
            forward out.io out.sign out.running "file_update" (write_event name) s'.hub.relay in
          after_forward o answer (record s' { hub = record (s'.hub) { relay = c } }))
      else (ok answer, s')

  unfoldable pub write_path : String → String → Event → Route M Reply
  unfolding vault_call write_call append publish_file
  write_path uuid node e = do
    vault_call unavailable (ensure_audit_clean out.digest)
    name ←
        write_call (text_field (get_field "path" e.payload))
          (content_of (get_field "content" e.payload))
    entry ←
        append out t uuid node
          (record { op = "file_update"; payload = write_event name; sig = e.sig })
    publish_file name entry

  -- the middle of `api_collab_file`, for the event of a node that is verified
  unfoldable pub on_file : String → String → Event → Route M Reply
  unfolding require_op read_path write_path
  on_file uuid node e = do
    require_op "file_update" e
    if is_read (get_field "action" e.payload)
        then read_path (get_field "path" e.payload)
        else if is_text "write" (get_field "action" e.payload)
        then write_path uuid node e
        else raise (error 400 "action must be read or write")

  -- `api_collab_file`
  unfoldable pub api_collab_file : String → Request → Option Json → Route M Reply
  unfolding node_authorized limit_peer json_body verify_body take_event on_file
  api_collab_file uuid r body = do
    node ← node_authorized out t r
    limit_peer out t "file" node
    b ← json_body body
    verify_body out t node b
    e ← take_event crashed b
    on_file uuid node e
