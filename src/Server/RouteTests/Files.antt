-- ===== src/Server/RouteTests/Files.antt =====
-- server.py: api_collab_file on a concrete state.
use hermes_k2_monitor.Prelude.{some}
use hermes_k2_monitor.Json.{Json, str, num, obj, end, field}
use hermes_k2_monitor.Server.Files.{api_collab_file}
use hermes_k2_monitor.Server.Files.Entry.{Outcome, api_collab_file_lem}
use hermes_k2_monitor.Server.RouteTests.State.{outside, times, mesh, mesh-IsClean, request}

abbrev update : Json
update = obj (
    field "node_id" (str "node-1") (
      field "op" (str "file_update") (
        field "payload"
          (obj (
            field "action" (str "write")
              (field "path" (str "t1/a.txt") (field "content" (str "hi") end))))
          (field "nonce" (str "c")
            (field "ts" (num 1000) (field "sig" (str "node-1|file_update|{}|c|1000") end))))))

api_collab_file_lem_example :
    Outcome outside times "u1"
      (some update)
      mesh
      (api_collab_file outside times "u1" (request (some "tok")) (some update) mesh)
api_collab_file_lem_example =
    api_collab_file_lem outside times "u1" (request (some "tok")) (some update) mesh mesh-IsClean
