-- ===== src/Server/RouteTests/Opening.antt =====
-- server.py: the first frame of an inbound relay link on a concrete state.
use hermes_k2_monitor.Prelude.{◌≡◌, ◌⊎◌, refl, true, [], ◌∷◌, some, lookup, arith}
use hermes_k2_monitor.WsRelay.Socket.{Message, auth_frame, text_of_json, accepts}
use hermes_k2_monitor.Identity.{verify, verify_cert}
use hermes_k2_monitor.Auth.Tokens.{verify_token}
use hermes_k2_monitor.Server.Slots.{Slots}
use hermes_k2_monitor.Server.Opening.{
  answer, open_link, one_more, IsShut, IsUp, open_link_lem, open_link-auth_frame,
}
use hermes_k2_monitor.Server.RouteTests.State.{crypto, mesh}

-- One link of "node-1" is up.
abbrev slots : Slots
slots = record { ws_relay_conns = ("node-1", 1) ∷ []; streaming = ("node-1", 1) ∷ [] }

abbrev first : Message
first = text_of_json (auth_frame "node-1" "tok")

open_link_lem_example :
    IsShut slots (open_link crypto 500 2 first (mesh.auth) slots)
    ⊎ IsUp crypto 500 2 first (mesh.auth) slots (open_link crypto 500 2 first (mesh.auth) slots)
open_link_lem_example = open_link_lem crypto 500 2 first (mesh.auth) slots

open_link-auth_frame_example :
    (open_link crypto 500 2 first (mesh.auth) slots
      ≡ (true, (verify_token crypto 500 (some "tok") mesh.auth).1, one_more "node-1" slots))
    × (accepts (answer (open_link crypto 500 2 first (mesh.auth) slots).0) ≡ true)
unfolding verify_token lookup verify verify_cert
open_link-auth_frame_example =
    open_link-auth_frame crypto 500 2 "node-1" "tok" (mesh.auth) _ slots refl refl (omega arith)
