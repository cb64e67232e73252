-- ===== src/Vault/Defs.antt =====
-- collab/vault.py: the attributes of `CollabVault` and the files that it writes. An instant is the
-- text that `now_iso` returns.
use hermes_k2_monitor.Prelude.{ℕ, String, Bool, true, false, List, Option, Dict}
use hermes_k2_monitor.Json.{Json, Fields}

-- the message of a VaultError
pub data VaultError : Type 0 where
  node_is_revoked audit_chain_tampered invalid_task_status : VaultError

-- the two values of a node's "status"
pub data NodeStatus : Type 0 where
  active revoked : NodeStatus

pub record Node : Type 0 where
  pub status : NodeStatus
  pub joined_at : Option String
  pub last_seen : Option String
  pub role : String
  pub ttl : ℕ

-- TASK_STATUSES
pub data TaskStatus : Type 0 where
  pending processing finished : TaskStatus

-- A value for each status; "done" is `finished`.
pub record Buckets (A : Type 0) : Type 0 where
  pub of_pending : A
  pub of_processing : A
  pub of_finished : A

abbrev pub bucket : {A : Type 0} → TaskStatus → Buckets A → A
bucket pending b = b.of_pending
bucket processing b = b.of_processing
bucket finished b = b.of_finished

abbrev pub set_bucket : {A : Type 0} → TaskStatus → A → Buckets A → Buckets A
set_bucket pending x b = record b { of_pending = x }
set_bucket processing x b = record b { of_processing = x }
set_bucket finished x b = record b { of_finished = x }

-- `_state`, and what state.json holds
pub record State : Type 0 where
  pub nodes : Dict Node
  pub tasks : Buckets (List Fields)
  pub messages : List Json
  pub last_sync : Option String
  pub audit_tampered : Bool

-- A line of a .jsonl file, up to the line feed: blank, no JSON, or a JSON value; Lines says what
-- `splitlines` makes of it.
pub data Line : Type 0 where
  blank garbage : Line
  row : Json → Line

-- What a file holds: a text in UTF-8, or as many bytes that are none.
pub data Content : Type 0 where
  utf8 : String → Content
  binary : ℕ → Content

-- A write to the path tasks/<status>/<id>.json, and an unlink of it, if it is there. The id is not
-- checked: with a slash the path can be one in another directory. That such a write raises, where the
-- directory does not exist, is not modelled.
pub data TaskOp : Type 0 where
  wrote : TaskStatus → String → Fields → TaskOp
  unlinked : TaskStatus → String → TaskOp

pub record Vault : Type 0 where
  pub state : State
  -- state.json
  pub saved : State
  -- ledger.jsonl and .auth/audit.jsonl
  pub ledger : List Line
  pub audit : List Line
  -- what has been done to the files of the tasks, in order
  pub task_ops : List TaskOp
  -- the other files that a client may name, by their path from the root
  pub files : Dict Content

-- `_save_state`
abbrev pub save : Vault → Vault
save v = record v { saved = v.state }

abbrev pub set_state : State → Vault → Vault
set_state s v = record v { state = s }

abbrev pub is_active : NodeStatus → Bool
is_active active = true
is_active revoked = false
