-- ===== src/Server/RouteTests/State.antt =====
-- A mesh with one node, its token "tok", a shared task "t1" and a revocation challenge.
use hermes_k2_monitor.Prelude.{
  refl, String, true, false, [], ◌∷◌, Option, none, some, str_eq, insert,
}
use hermes_k2_monitor.Json.{str, end, field, Fields}
use hermes_k2_monitor.Vault.{Vault, State, Node, active}
use hermes_k2_monitor.Vault.Chain.{rows, split_rows, check_rows}
use hermes_k2_monitor.Vault.Chain.Clean.{IsClean}
use hermes_k2_monitor.Relay.{status}
use hermes_k2_monitor.Auth.{Crypto}
use hermes_k2_monitor.Server.Gates.{Request}
use hermes_k2_monitor.Server.Mesh.{Outside, Mesh, Times}

abbrev pub crypto : Crypto
crypto = record {
  hash = λ s. s;
  material = λ id key issued expires. id;
  sign = λ m. m;
  check = str_eq;
  is_key = λ s. true;
  iso = λ n. "t";
  is_alnum_above = λ c. false;
}

abbrev pub outside : Outside Fields
outside = record {
  gate = record { view_token = ""; write_token = ""; trust_xff = false; owner_token = "owner" };
  crypto = crypto;
  float_of = λ s. none;
  text_of = λ j. "1000";
  canonical = λ j. "{}";
  hmac = λ s. s;
  internal_ip = λ cs. false;
  digest = λ j. "d";
  resolve = λ parts. elim parts [ p ∷ q ∷ [] ↦ some q | _ ↦ none ];
  place = λ name task files. some (insert name task files);
  io = record { time = λ n. n; reply = λ n url m. status 200; time_after = λ n. n };
  sign = λ n node op payload. some payload;
  running = true;
}

abbrev pub times : Times
times = record { caller = 500; limiter = 500; envelope = 1000; nonces = 1000; event = 1000 }

abbrev pub member : Node
member = record {
  status = active;
  joined_at = some "t";
  last_seen = some "t";
  role = "collab";
  ttl = 86400;
}

abbrev pub members : State
members = record {
  nodes = ("node-1", member) ∷ [];
  tasks = record {
    of_pending = [];
    of_processing = field "id" (str "t1") end ∷ [];
    of_finished = [];
  };
  messages = [];
  last_sync = none;
  audit_tampered = false;
}

abbrev pub vault : Vault
vault = record {
  state = members;
  saved = members;
  ledger = [];
  audit = [];
  task_ops = [];
  files = [];
}

abbrev pub mesh : Mesh Fields
mesh = record {
  auth = record {
    join_codes = some [];
    tokens = some (
        record {
          node_id = "node-1";
          token_hash = "tok";
          issued_at = 0;
          expires_at = 90000;
          revoked = false;
        }
        ∷ []);
    revoked_nodes = some [];
    identity = record {
      validity = 1000000;
      nodes =
          (
            "node-1",
            record {
              node_id = "node-1";
              public_key = "key";
              issued_at = 0;
              expires_at = 90000;
              revoked = false;
              signature = "node-1";
            },
          )
          ∷ [];
      saved = [];
    };
    vault = vault;
  };
  trust = record { replay_window = 30000; nonce_limit = 100; nonces = [] };
  rate_limiter = record { limit = 5; window_seconds = 60; rate_hits = [] };
  ws_rate_limiter = record { limit = 5; window_seconds = 60; rate_hits = [] };
  hub = record {
    links = [];
    relay = record {
      partners = "https://a" ∷ [];
      local_node_id = "mesh-local";
      trust = true;
      mesh_key = true;
      max_retry = 3;
      break_seconds = 15000;
      queue_cap = 500;
      failure = [];
      queue = [];
      scheduled = [];
      attempts = 0;
      readings = 0;
      signatures = 0;
    };
    unawaited = [];
  };
  rate_limit_429 = 0;
  last_rate_limit_429 = none;
  collab_activity = [];
  mesh_challenges =
      ("s3cret", record { node_id = "node-1"; phrase = "REVOKE node-1"; expires_at = 60000 }) ∷ [];
  pending_files = [];
  discussion = [];
  live_jsonl = [];
  frames = [];
}

pub mesh-IsClean : IsClean outside.digest mesh.auth.vault
unfolding rows split_rows check_rows
mesh-IsClean = record {
  ls = [];
  as' = [];
  ledger_rows = refl;
  audit_rows = refl;
  objects = refl;
  lengths = refl;
  chained = refl;
}

abbrev pub request : Option String → Request
request token = record {
  authorization = none;
  x_mesh_token = token;
  x_collab_owner = some "owner";
  x_view_token = none;
  x_write_token = none;
  x_forwarded_for = none;
  query_token = none;
  query_wt = none;
  remote = some "10.0.0.1";
}
