-- ===== src/Server/Mesh/State.antt =====
-- server.py: the state of the mesh's routes, and what a request is answered.
use hermes_k2_monitor.Prelude.{ℕ, String, Bool, List, Option, Dict}
use hermes_k2_monitor.Monad.{Exec}
use hermes_k2_monitor.Json.{Json, Fields}
use hermes_k2_monitor.Trust.{Stamp, Manager, Verdict}
use hermes_k2_monitor.RateLimit.{Limiter}
use hermes_k2_monitor.Vault.{VaultError, Line}
use hermes_k2_monitor.Relay.{Io}
use hermes_k2_monitor.Auth.{Crypto, Auth, AuthError}
use hermes_k2_monitor.Auth.Codes.{Joined}
use hermes_k2_monitor.Server.Gates.{Gate}
use hermes_k2_monitor.Server.Forward.{Hub}

-- What the server takes from the libraries it calls and from its settings. `place name task files` is
-- what a write to the path `PENDING / name` makes of the files of PENDING, `none` if it raises; a name
-- with a slash can be a path that leaves the directory.
pub record Outside (M : Type 0) : Type 0 where
  pub gate : Gate
  pub crypto : Crypto
  pub float_of : String → Option Stamp
  pub text_of : Json → String
  pub canonical : Json → String
  pub hmac : String → String
  pub internal_ip : List ℕ → Bool
  pub digest : Json → String
  pub resolve : List String → Option String
  pub place : String → Fields → Dict Fields → Option (Dict Fields)
  pub io : Io M
  pub sign : ℕ → String → String → Fields → Option M
  pub running : Bool

-- An entry of `mesh_challenges`.
pub record Challenge : Type 0 where
  pub node_id : String
  pub phrase : String
  pub expires_at : ℕ

-- An item of `collab_activity`, its "timestamp" apart. An absent op is shown as "unknown".
pub data Activity : Type 0 where
  rate_limit : String → String → ℕ → Activity
  tamper : String → Option Json → Verdict → Activity
  audit : Option Json → Option Json → Option Json → Activity
  kill_switch : String → String → Activity
  node_joined : String → ℕ → Activity

-- What is handed to `broadcast`.
pub data Frame : Type 0 where
  collab_activity_frame : String → Activity → Frame
  collab_event : Fields → Frame
  mesh_message : Option Json → Json → Option Json → Frame
  collab_node : String → String → String → Frame
  tasks_update : Frame
  discussion_frame : Json → Json → String → Frame

-- The state of the routes: `mesh_auth` with `collab_vault`, `mesh_trust`, the two limiters, the relay's
-- links and client, the files of the local queue of pending tasks, the discussion with its log file,
-- and the module's own lists.
pub record Mesh (M : Type 0) : Type 0 where
  pub auth : Auth
  pub trust : Manager
  pub rate_limiter : Limiter
  pub ws_rate_limiter : Limiter
  pub hub : Hub M
  pub rate_limit_429 : ℕ
  pub last_rate_limit_429 : Option String
  pub collab_activity : List (String × Activity)
  pub mesh_challenges : Dict Challenge
  pub pending_files : Dict Fields
  pub discussion : List Json
  pub live_jsonl : List Line
  pub frames : List Frame

-- An answer: a status with its text, what `verify` or the vault says against the request, 429 with the
-- seconds to wait, 500 for an exception that no handler catches, a frame that is passed over, and the answers of a success.
pub data Reply : Type 0 where
  error : ℕ → String → Reply
  rejected : Verdict → Reply
  unavailable bad_task : VaultError → Reply
  too_many : ℕ → ℕ → ℕ → Reply
  crashed dropped : Reply
  relayed : Option Json → Reply
  task_saved : Fields → Option Json → Reply
  challenge_issued : String → String → Reply
  revoked_node : String → Reply
  adopted : Fields → String → Reply
  bad_invite : AuthError → Reply
  invited : String → ℕ → Option String → Reply
  joined : Joined → Reply
  content_read : Option Json → String → Reply
  file_saved : String → Option Json → Reply
  ledger_read : List Json → Reply

-- What the clock reads in a request: in `verify_token` or `time.time()`, in the limiter, in
-- `TrustManager.verify` and when it saves the nonces, and in the vault.
pub record Times : Type 0 where
  pub caller : ℕ
  pub limiter : ℕ
  pub envelope : ℕ
  pub nonces : ℕ
  pub event : ℕ

abbrev pub Route : Type 0 → Type 0 → Type 0
Route M A = Exec Reply (Mesh M) A
