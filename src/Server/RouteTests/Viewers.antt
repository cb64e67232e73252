-- ===== src/Server/RouteTests/Viewers.antt =====
-- server.py: the sockets of the dashboard on a concrete state.
use hermes_k2_monitor.Prelude.{◌≡◌, refl, true, List, [], ◌∷◌, none, some, arith}
use hermes_k2_monitor.Json.{Json, str, obj, end, field, Fields, get_field}
use hermes_k2_monitor.RateLimit.{check, admit}
use hermes_k2_monitor.Vault.{garbage, row}
use hermes_k2_monitor.Server.Feeds.{push}
use hermes_k2_monitor.Server.Mesh.{Mesh}
use hermes_k2_monitor.Server.Viewers.{
  Arrival, AioArrival, ws_message, load_discussion, on_frame, take_message, limit_viewer,
  decide_viewer, append_discussion, ws_loop, aio_loop,
}
use hermes_k2_monitor.Server.Viewers.Log.{ShowsLog, Viewed, ws_loop-Viewed}
use hermes_k2_monitor.Server.Viewers.Aio.{Silent, aio_loop-Silent}
use hermes_k2_monitor.Server.RouteTests.State.{outside, times, mesh, request}

-- The log has a broken line and an entry, which is shown.
abbrev talking : Mesh Fields
talking = record mesh { discussion = str "old" ∷ []; live_jsonl = garbage ∷ row (str "old") ∷ [] }

abbrev add : Json
add = obj (field "type" (str "add_discussion") (field "message" (str "hi") end))

-- An entry, a text that is no JSON, and a list, which ends the loop.
abbrev frames : List Arrival
frames =
    record { t = times; writable = true; raw = some add }
    ∷ record { t = times; writable = true; raw = none }
    ∷ record { t = times; writable = true; raw = some (str "x") }
    ∷ record { t = times; writable = true; raw = some add }
    ∷ []

talking-ShowsLog : ShowsLog 200 talking
unfolding load_discussion
talking-ShowsLog = record { gone = []; suffix = refl; enough = omega arith; within = omega arith }

ws_loop-Viewed_example : Viewed 200 talking (ws_loop outside "10.0.0.9" frames talking)
ws_loop-Viewed_example =
    ws_loop-Viewed outside 200 "10.0.0.9" frames talking (omega arith)
      (refl, (refl, (refl, (refl, tt)))) talking-ShowsLog

talking_added :
    (ws_loop outside "10.0.0.9" frames talking).discussion
    ≡ str "old"
      ∷ obj (
          field "from"
            (str "system")
            (field "message" (str "hi") (field "timestamp" (str "t") end)))
      ∷ []
unfolding ws_loop on_frame limit_viewer decide_viewer take_message append_discussion get_field push
    check admit
talking_added = refl

abbrev messages : List AioArrival
messages =
    record {
      t = times;
      writable = true;
      message = ws_message 1 "{\"type\": \"add_discussion\", \"message\": \"hi\"}";
    }
    ∷ []

aio_loop-Silent_example :
    Silent talking (aio_loop outside "unknown" (request none) messages talking)
aio_loop-Silent_example = aio_loop-Silent outside "unknown" (request none) messages talking
