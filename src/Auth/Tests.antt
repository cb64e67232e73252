-- ===== src/Auth/Tests.antt =====
-- collab/auth.py on concrete stores, after tests/test_collab_core.py.
use hermes_k2_monitor.Prelude.{
  ◌≤◌, ◌≡◌, ◌≢◌, refl, String, true, false, [], ◌∷◌, none, some, arith, str_eq, lookup, insert,
}
use hermes_k2_monitor.Monad.{ok, raised}
use hermes_k2_monitor.Identity.{issue, is_valid_id, verify as verify_cert_of, verify_cert}
use hermes_k2_monitor.Vault.{State, Vault, active}
use hermes_k2_monitor.Vault.Nodes.{register_node}
use hermes_k2_monitor.Vault.Revocation.{here}
use hermes_k2_monitor.Auth.State.{Crypto, Auth, invalid_code}
use hermes_k2_monitor.Auth.Codes.{
  unsaid, Joined, is_valid_node_id, create_invite, use_up, join, new_code,
}
use hermes_k2_monitor.Auth.Codes.Once.{Attempt, joins, joins-le-unused}
use hermes_k2_monitor.Auth.Tokens.{search_token, verify_token, revoke_node}
use hermes_k2_monitor.Auth.Tokens.Denied.{verify_token-revoke_node}
use hermes_k2_monitor.Auth.Codes.Invited.{join-create_invite}

abbrev crypto : Crypto
crypto = record {
  hash = λ s. s;
  material = λ id key issued expires. id;
  sign = λ m. m;
  check = str_eq;
  is_key = λ s. true;
  iso = λ n. "t";
  is_alnum_above = λ c. false;
}

abbrev empty_state : State
empty_state = record {
  nodes = [];
  tasks = record { of_pending = []; of_processing = []; of_finished = [] };
  messages = [];
  last_sync = none;
  audit_tampered = false;
}

abbrev empty_vault : Vault
empty_vault = record {
  state = empty_state;
  saved = empty_state;
  ledger = [];
  audit = [];
  task_ops = [];
  files = [];
}

-- One invitation is open: the code "c", for any node, until 300000.
abbrev invited : Auth
invited = record {
  join_codes = some (new_code crypto 0 "c" none 300 ∷ []);
  tokens = some [];
  revoked_nodes = some [];
  identity = record { validity = 1000000; nodes = []; saved = [] };
  vault = empty_vault;
}

abbrev joined : Auth
joined = (join crypto 10 "node-1" "c" unsaid "tok" "key" invited).1

invited_lem :
    (create_invite crypto 0 "c" none (some 300) (record invited { join_codes = some [] })).1
    ≡ invited
unfolding create_invite
invited_lem = refl

abbrev attempt : String → Attempt
attempt id = record { now = 10; node_id = id; expiry = unsaid; token = "tok"; key = "key" }

joins-le-unused_example :
    (joins crypto "c" (attempt "node-1" ∷ attempt "node-2" ∷ []) invited).0 ≤ 1
joins-le-unused_example =
    joins-le-unused crypto "c" (attempt "node-1" ∷ attempt "node-2" ∷ []) invited

second_join : (join crypto 11 "node-2" "c" unsaid "tok2" "key" joined).0 ≡ raised invalid_code
unfolding join is_valid_node_id use_up issue is_valid_id register_node lookup insert
second_join = refl

abbrev receipt : Joined
receipt = record {
  node_id = "node-1";
  token = "tok";
  expires_at = 86400010;
  certificate = record {
    node_id = "node-1";
    public_key = "key";
    issued_at = 10;
    expires_at = 1000010;
    revoked = false;
    signature = "node-1";
  };
}

abbrev inviting : Auth
inviting =
    (create_invite crypto 0 "c" (some "node-1") (some 300)
      (record invited { join_codes = some [] })).1

join-create_invite_example :
    (join crypto 10 "node-1" "c" unsaid "tok" "key" inviting).0 ≡ ok receipt
unfolding create_invite is_valid_node_id issue is_valid_id lookup insert
join-create_invite_example =
    join-create_invite crypto 0 10 "node-1" "c" unsaid "tok" "key" receipt.certificate
      (record invited { join_codes = some [] }) 300 [] refl refl (omega arith) refl refl refl refl

verify_token-joined : (verify_token crypto 500 (some "tok") joined).0 ≡ ok (some "node-1")
unfolding verify_token search_token join is_valid_node_id use_up issue is_valid_id register_node
    lookup insert verify_cert_of verify_cert
verify_token-joined = refl

verify_token-revoke_node_example :
    (verify_token crypto 600 (some "tok") (revoke_node crypto 550 "node-1" joined).1).0
    ≢ ok (some "node-1")
unfolding join is_valid_node_id use_up issue is_valid_id register_node lookup insert
verify_token-revoke_node_example =
    verify_token-revoke_node (λ v. "d") (λ v. "x") crypto 550 600 "node-1"
      (record {
        status = active;
        joined_at = some "t";
        last_seen = some "t";
        role = "collab";
        ttl = 86400;
      })
      (some "tok") joined (revoke_node crypto 550 "node-1" joined).1 refl here
