-- ===== src/Server/Forward/Tests.antt =====
-- server.py, `_relay_forward` on concrete links.
use hermes_k2_monitor.Prelude.{
  ℕ, ◌+◌, ◌*◌, ◌≡◌, refl, String, Bool, true, false, [], ◌∷◌, Option, some, none, ltb, str_eq, ◌&&◌,
  if◌then◌else◌,
}
use hermes_k2_monitor.Relay.{Client, Io, status}
use hermes_k2_monitor.Server.Forward.{Hub, relay_forward}
use hermes_k2_monitor.Server.Forward.Fanout.{relay_forward_down}

abbrev relay : Client ℕ
relay = record {
  partners = "https://a" ∷ "https://b" ∷ [];
  local_node_id = "mesh-local";
  trust = false;
  mesh_key = true;
  max_retry = 3;
  break_seconds = 15000;
  queue_cap = 500;
  failure = [];
  queue = [];
  scheduled = [];
  attempts = 0;
  readings = 0;
  signatures = 0;
}

abbrev io : Io ℕ
io = record { time = λ n. n; reply = λ n url m. status 200; time_after = λ n. n }

abbrev both : Bool → Hub ℕ
both up = record {
  links =
      record { url = "https://a"; connected = up }
      ∷ record { url = "https://b"; connected = up }
      ∷ [];
  relay = relay;
  unawaited = [];
}

abbrev envelope : ℕ → String → String → ℕ → ℕ
envelope n node op payload = 100 * n + payload

abbrev sign : ℕ → String → String → ℕ → Option ℕ
sign n node op payload =
    if str_eq op "message" && ltb payload 50 then some (envelope n node op payload) else none

connected_hub :
    relay_forward io sign true "message" 7 (both true)
    ≡ (true, record (both true) { unawaited = "https://a" ∷ "https://b" ∷ [] })
unfolding relay_forward
connected_hub = refl

relay_forward_down_example : relay_forward io sign true "message" 7 (both false) ≡ (
  false,
  record (both false) { relay = record relay { scheduled = 7 ∷ 107 ∷ []; signatures = 2 } },
)
relay_forward_down_example =
    relay_forward_down io sign envelope "message" refl 7 (λ n node. refl) (both false) refl
      (refl, (refl, tt)) refl
