-- ===== src/Vault/Tests.antt =====
-- collab/vault.py on concrete events.
use hermes_k2_monitor.Prelude.{◌≡◌, refl, String, true, false, List, [], ◌∷◌, none, some, map, Dict}
use hermes_k2_monitor.Monad.{ok, raised}
use hermes_k2_monitor.Json.{Json, str, obj, end, field, Fields, get_field, json_eq}
use hermes_k2_monitor.Vault.Defs.{
  Buckets, node_is_revoked, audit_chain_tampered, revoked, Node, State, row, Vault, save, set_state,
  processing,
}
use hermes_k2_monitor.Text.{lower_is, lower_code}
use hermes_k2_monitor.Vault.Nodes.{register_node, mark_revoked}
use hermes_k2_monitor.Vault.Nodes.Revoked.{IsRevoked}
use hermes_k2_monitor.Vault.Lines.{is_one_line, lines_in, lines_added}
use hermes_k2_monitor.Vault.Chain.{
  split_rows, rows, audit_lines, check_row, check_rows, verify_audit_chain,
}
use hermes_k2_monitor.Vault.Chain.Clean.{IsClean}
use hermes_k2_monitor.Vault.Chain.Pinned.{verify-pins_ledger}
use hermes_k2_monitor.Vault.Tasks.{stored, upsert_task, parse_status}
use hermes_k2_monitor.Vault.Tasks.Board.{IsFiled, IsWritten, carry_out, upsert_task_lem}
use hermes_k2_monitor.Vault.Events.{audit_entry, entry_of, append_event}
use hermes_k2_monitor.Vault.Events.Clean.{Checked, append_event-Checked}
use hermes_k2_monitor.Vault.Broken.{append_event-last, torn_lem}
use hermes_k2_monitor.Vault.Revocation.{here, next, touched}
use hermes_k2_monitor.Vault.Nodes.{touch_node}
use hermes_k2_monitor.Vault.Revocation.{here, next, registered, appended, mark_revoked-stays}

-- A digest with collisions: the first field, if that is a text.
abbrev digest : Json → String
digest (obj (field k (str s) fs)) = s
digest _ = "?"

abbrev repr : Json → String
repr _ = "{}"

abbrev gone : Node
gone = record {
  status = revoked;
  joined_at = none;
  last_seen = some "t0";
  role = "collab";
  ttl = 0;
}

abbrev initial : State
initial = record {
  nodes = ("gone", gone) ∷ [];
  tasks = record { of_pending = []; of_processing = []; of_finished = [] };
  messages = [];
  last_sync = none;
  audit_tampered = false;
}

abbrev fresh : Vault
fresh = record {
  state = initial;
  saved = initial;
  ledger = [];
  audit = [];
  task_ops = [];
  files = [];
}

fresh-IsClean : IsClean digest fresh
unfolding rows split_rows check_rows
fresh-IsClean = record {
  ls = [];
  as' = [];
  ledger_rows = refl;
  audit_rows = refl;
  objects = refl;
  lengths = refl;
  chained = refl;
}

abbrev hello : Fields
hello = field "text" (str "hello") end

append_event-Checked_example :
    let w = (append_event digest repr "u1" "t1" "n1" "message" hello "s" fresh).1 in
    (w.ledger ≡ row (obj (entry_of "u1" "t1" "n1" "message" hello "s")) ∷ [])
    × Checked digest (entry_of "u1" "t1" "n1" "message" hello "s") w
    × (verify_audit_chain digest w
        ≡ is_one_line (obj (entry_of "u1" "t1" "n1" "message" hello "s")))
append_event-Checked_example =
    append_event-Checked digest repr "u1" "t1" "n1" "message" hello "s" fresh fresh-IsClean

-- The vault with one ledger row, whose "op" is the argument.
abbrev one_row : String → Vault
one_row op = record fresh {
  ledger = row (obj (entry_of "u1" "t1" "n1" op hello "s")) ∷ [];
  audit = row (audit_entry "u1" "" "u1" "u1" "t1") ∷ [];
}

verify-pins_ledger_example :
    (ls ms : List Json) × (rows (one_row "message").ledger ≡ some ls)
    × (rows (one_row "forged").ledger ≡ some ms)
    × (map digest ls ≡ map digest ms)
unfolding verify_audit_chain check_rows check_row rows audit_lines get_field json_eq
verify-pins_ledger_example =
    verify-pins_ledger digest (one_row "message") (one_row "forged") refl refl refl

-- A ledger row without its audit row.
abbrev torn : Vault
torn = record (one_row "message") { audit = [] }

abbrev odd_task : Fields
odd_task = field "id" (str "k") (field "status" (str "lost") end)

abbrev gone_again : Fields
gone_again = field "node_id" (str "gone") end

-- The node is marked, and then tries to register and to join.
abbrev tried : Vault
tried =
    (append_event digest repr "u1" "t2" "n1" "join" (field "node_id" (str "n1") end) "s"
      (register_node "t1" "n1" "owner" 0 (mark_revoked "t0" "n1" fresh)).1).1

mark_revoked-stays_example :
    IsRevoked "n1" tried.state.nodes
    × (register_node "t3" "n1" "owner" 9 tried ≡ (raised node_is_revoked, tried))
mark_revoked-stays_example =
    mark_revoked-stays digest repr "n1" "t0" fresh tried
      (next (next here (registered "t1" "n1" "owner" 0 _)) (appended "u1" "t2" "n1" "join" _ "s" _))
      "t3" "owner" 9

abbrev task : Fields
task = field "id" (str "k") (field "status" (str "Working") end)

abbrev no_files : Buckets (Dict Fields)
no_files = record { of_pending = []; of_processing = []; of_finished = [] }

upsert_task_lem_example :
    let t = stored repr "t1" "k" processing task in
    let w = (upsert_task repr "t1" "u" task fresh).1 in
    ((upsert_task repr "t1" "u" task fresh).0 ≡ ok t)
    × IsFiled true "k" t w.state.tasks.of_processing
    × ((after : Buckets (Dict Fields)) × (carry_out w.task_ops no_files ≡ some after)
        × IsWritten processing "k" t no_files after)
    × (w.saved ≡ w.state)
unfolding parse_status lower_is lower_code get_field carry_out
upsert_task_lem_example =
    upsert_task_lem repr "t1" "u" task fresh processing refl refl no_files no_files refl processing

-- U+2028 is written as it is, and splits the row.
abbrev separated : Fields
separated = field "text" (str "a\u{2028}b") end

append_event-last_example :
    let w = (append_event digest repr "u1" "t1" "n1" "message" separated "s" fresh).1 in
    append_event digest repr "u2" "t2" "n2" "message" hello "s" (touch_node "t1" "n1" w) ≡ (
      raised audit_chain_tampered,
      save (
          set_state
            (record ((touch_node "t1" "n1" w).state) { audit_tampered = true })
            (touch_node "t1" "n1" w)),
    )
unfolding lines_in lines_added
append_event-last_example =
    append_event-last digest repr "u1" "t1" "n1" "message" separated "s" "u2" "t2" "n2" "message"
      hello "s" fresh _ fresh-IsClean refl (next here (touched "t1" "n1" _))

torn_lem_example : append_event digest repr "u2" "t2" "n1" "message" hello "s" torn ≡ (
  raised audit_chain_tampered,
  save (set_state (record initial { audit_tampered = true }) torn),
)
torn_lem_example =
    torn_lem digest repr (obj (entry_of "u1" "t1" "n1" "message" hello "s")) "u2" "t2" "n1"
      "message" hello "s" fresh torn torn fresh-IsClean refl refl here
