-- ===== src/Lib.antt =====
-- Hermes K2 Monitor: the collaboration mesh of collab/ and its use in server.py.
--
-- A node of the mesh keeps a vault on disk (collab/vault.py): node registry, task board, and an
-- append-only ledger with a hash-chained audit file. Events reach partner nodes through the HTTP
-- relay (collab/relay.py), as envelopes that collab/trust.py signs and verifies, and through one
-- WebSocket link for each partner (collab/wsrelay.py); server.py chooses between the two in
-- `_relay_forward`. Its routes are limited by collab/ratelimit.py and guarded by collab/auth.py,
-- which enrolls nodes with one-time codes, certificates (collab/identity.py) and tokens.
--
-- Files and code:
--   Prelude, Monad, Text   shared notation and lemmas; results with state for code that raises;
--                          Python's text operations.
--   Json                   the values of json.loads, for the dicts that events and tasks are.
--   RateLimit              SQLiteRateLimiter; the table rate_hits is the list of its rows.
--   Trust                  TrustManager: verify, with the nonces (`_remember_nonce`, `_save_nonces`);
--                          Payload holds validate_payload, Sign holds sign, Nonces holds
--                          `_load_nonces` and the restart of a process.
--   Relay                  RelayClient: `_available`, `_mark_ok`, `_mark_fail`, `_queue_safe`, the two
--                          `_post_*` (post), the two `_dispatch*` (dispatch), a turn of `drain_loop`
--                          (drain, with Tries for one envelope), `ready`, `forward`; Partners holds
--                          `_parse_partner_urls`, with `_ws_url` of wsrelay.py.
--   WsRelay                WSRelayClient: the loop `_run`, as a run over how each dial ended; Socket:
--                          the handshake, `send`, `_drop` and the frames that come in.
--   Identity               NodeIdentityManager: issue, revoke, verify.
--   Vault                  CollabVault: Defs (attributes and files), Nodes (register_node, touch_node,
--                          mark_revoked, revoke_node), Chain (verify_audit_chain), Tasks (upsert_task),
--                          Events (append_event), Audit (audit_status, read_ledger), Paths (safe_path,
--                          read_file, write_file), Lines (what splitlines makes of a row), Revocation
--                          (sequences of the calls on nodes), Broken (ledgers that do not verify).
--   Auth                   MeshAuth: State (its encrypted stores), Codes (create_invite, join), Tokens
--                          (verify_owner, verify_token, revoke_node, the loop of __init__).
--   Server                 server.py: Gates (`_bearer` to `_write_allowed`), Feeds (append_discussion,
--                          `_record_collab_activity`), Slots (the links that api_ws_relay counts),
--                          Opening (its first frame and the answer),
--                          Forward (`_relay_forward`), Mesh (the routes' state, `_rate_limit`,
--                          `_json_body`, `_node_authorized`), Relaying (api_relay, the frames of
--                          api_ws_relay; Arrival adds `_sign_envelope`), Tasks (api_collab_task), Adopting (api_collab_adopt),
--                          LocalTasks (read_task, scan_tasks, update_agents), Exporting
--                          (api_collab_export), Files (api_collab_file), Reading (api_collab_ledger), Joining (api_invite,
--                          api_join), Revoking (api_mesh_prepare_revoke, api_mesh_revoke), Viewers
--                          (load_discussion, ws_handler, aio_ws, process_request). A route's early answer is raised in the monad.
--   AuditScan              scripts/audit_identity_scan.py: load_jsonl and scan.
-- The child modules of a part hold its lemmas, its theorems, and its Tests on concrete values.
--
-- Representation. Times are natural numbers of milliseconds; in the vault an instant is the text
-- that now_iso returns. Fresh ids are arguments, and so are the digest of a JSON value (sha256 of
-- the canonical text) and str() of a value that is no text; for the relay the signer; for verify
-- the keyed digest, the reading of a text as an ISO time or a float, and ipaddress; for
-- certificates the Ed25519 keys; for tokens and codes their sha256. What the network answers and the
-- clock reads is an oracle by the number of the attempt, or of the call of `_available`; a route takes its clock readings, and what
-- it needs of the settings and libraries, as records (Times, Outside). A method that can raise
-- returns a result and a state, so that what it has changed before is seen. Loops run over the list
-- that the code iterates; no function needs fuel.
-- Python's floats matter in three places: the powers in `_mark_fail` and `_run`, which overflow at
-- an exponent of 1024, and a timestamp that is inf or nan. The numbers of a JSON value are naturals.
--
-- Not modelled: JSON numbers that are negative, fractions or NaN, with the ValueError of
-- `allow_nan=False`; whether a write to a path that the id of a task makes raises; the file
-- system below the lines and files named in Vault.Defs (directories, a path that runs through a
-- file, and the task files as files that a node may read), sockets and HTTP, the interleaving
-- of a drain with other tasks, the Fernet encryption and the locks of the stores in
-- collab/auth.py, the other handlers of server.py, and the scripts that run against a live
-- server.
pub mod Prelude
pub mod Monad
pub mod Text
pub mod Json
pub mod RateLimit
pub mod Relay
pub mod WsRelay
pub mod Trust
pub mod Identity
pub mod Auth
pub mod AuditScan
pub mod Vault
pub mod Server
