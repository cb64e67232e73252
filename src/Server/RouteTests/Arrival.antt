-- ===== src/Server/RouteTests/Arrival.antt =====
-- server.py, collab/wsrelay.py: an event over a relay link on a concrete state.
use hermes_k2_monitor.Prelude.{◌≡◌, refl, true, false, ◌∷◌, [], some, lookup}
use hermes_k2_monitor.Json.{str, num, obj, end, field, Fields}
use hermes_k2_monitor.Trust.{at, is_stale, timestamp_seconds}
use hermes_k2_monitor.Trust.Payload.{validate_payload, is_sensitive, is_safe_text}
use hermes_k2_monitor.Trust.Sign.{sign, envelope}
use hermes_k2_monitor.RateLimit.{check, admit}
use hermes_k2_monitor.WsRelay.Socket.{Socket, send}
use hermes_k2_monitor.Server.Mesh.{Outside, limit_link}
use hermes_k2_monitor.Server.Relaying.{receive}
use hermes_k2_monitor.Server.Relaying.Arrival.{sign_envelope, sign_at, Arrived, receive-send}
use hermes_k2_monitor.Server.RouteTests.State.{outside, times, mesh, mesh-IsClean}

-- Every digest is "s".
abbrev shared : Outside Fields
shared = record outside { hmac = λ s. "s" }

abbrev client : Socket
client = record { ws = some false }

abbrev greeting : Fields
greeting = field "text" (str "hello") end

abbrev greeted : Fields
greeted = envelope "node-1" "message" greeting "a" (num 1000) "s"

receive-send_example :
    (send
        (some (λ op p. sign_envelope (sign_at shared times "a" (num 1000) "node-1" op p)))
        true
        "message"
        greeting
        client
      ≡ (true, greeted ∷ [], client))
    × Arrived shared times "u1" "node-1" "message" greeting mesh
        (receive shared times "u1" "node-1" (some (obj greeted)) mesh).1
unfolding sign validate_payload is_sensitive is_safe_text timestamp_seconds is_stale lookup
    limit_link check admit
receive-send_example =
    receive-send shared times "u1" "node-1" "message" greeting "a" (num 1000) greeted client mesh
      refl refl (λ x. refl) refl
      (record { not_empty = refl; stamp = at 1000; read = refl; current = refl; fresh = refl }) refl
      mesh-IsClean
