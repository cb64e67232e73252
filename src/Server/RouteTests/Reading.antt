-- ===== src/Server/RouteTests/Reading.antt =====
-- server.py: api_collab_ledger on a concrete state.
use hermes_k2_monitor.Prelude.{ℕ, String, Option, some}
use hermes_k2_monitor.Json.{Fields}
use hermes_k2_monitor.Trust.{at}
use hermes_k2_monitor.Server.Mesh.{Outside}
use hermes_k2_monitor.Server.Reading.{Query, api_collab_ledger}
use hermes_k2_monitor.Server.Reading.Answered.{Outcome, api_collab_ledger_lem}
use hermes_k2_monitor.Server.RouteTests.State.{outside, times, mesh, request}

-- Every text is read as the time 1000.
abbrev reading : Outside Fields
reading = record outside { float_of = λ s. some (at 1000) }

abbrev query : Query
query = record {
  limit = some "5";
  nonce = some "c";
  ts = some "1000";
  sig = some "node-1|broadcast|{}|c|1000";
}

abbrev five : String → Option ℕ
five s = some 5

api_collab_ledger_lem_example :
    Outcome reading times five query mesh
      (api_collab_ledger reading times five (request (some "tok")) query mesh)
api_collab_ledger_lem_example =
    api_collab_ledger_lem reading times five (request (some "tok")) query mesh
