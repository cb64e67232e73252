-- ===== src/WsRelay/Socket.antt =====
-- collab/wsrelay.py: the socket of one link: the handshake, `send`, `_drop`, and the frames that come in.
use hermes_k2_monitor.Prelude.{
  String, Bool, true, false, not, List, [], ◌∷◌, Option, none, some, if◌then◌else◌,
}
use hermes_k2_monitor.Json.{Json, str, obj, Fields, end, field, get_field, is_text}

-- aiohttp's WSMsgType, as far as the code tells the types apart
pub data MessageType : Type 0 where
  text_message close_message other_message : MessageType

-- A message of a socket: its type, whether its data are empty, and what `json.loads` makes of them,
-- `none` if it raises.
pub record Message : Type 0 where
  pub kind : MessageType
  pub is_blank : Bool
  pub json : Option Json

-- the first frame of `_dial_and_stream`
abbrev pub auth_frame : String → String → Json
auth_frame node_id token =
    obj (field "type" (str "auth") (field "node_id" (str node_id) (field "token" (str token) end)))

abbrev pub text_of_json : Json → Message
text_of_json v = record { kind = text_message; is_blank = false; json = some v }

-- `isinstance(data, dict) and data.get("status") != "ok"`, for what `json.loads` or its handler gives
abbrev is_refusal : Option Json → Bool
is_refusal none = true
is_refusal (some (obj fs)) = not (is_text "ok" (get_field "status" fs))
is_refusal (some _) = false

-- Whether the client takes the link for established.
unfoldable pub accepts : Message → Bool
accepts m = elim m.kind [
  | text_message ↦ not (is_refusal m.json)
  | close_message ↦ false
  | other_message ↦ false
]

-- The part of the object that `send` reads: whether there is a socket and it is closed.
pub record Socket : Type 0 where
  pub ws : Option Bool

-- `connected`
abbrev pub connected : Socket → Bool
connected s = elim s.ws [ none ↦ false | some closed ↦ not closed ]

-- `_drop`
abbrev pub drop_link : Socket → Socket
drop_link s = record { ws = none }

-- `send`: the result, what has gone out, and the socket; `goes` says whether `send_str` returns.
unfoldable pub send :
    {P E : Type 0} → Option (String → P → E) → Bool → String → P → Socket → Bool × List E × Socket
send none goes op payload s = (false, [], s)
send (some signer) goes op payload s =
    if connected s
    then (if goes then (true, signer op payload ∷ [], s) else (false, [], drop_link s))
    else (false, [], s)

-- The loop over the frames that come in: those that are handed to `_on_event`.
unfoldable pub stream : List Message → List Fields
stream [] = []
stream (m ∷ ms) =
    let rest = stream ms in
    elim m.kind [
      | close_message ↦ []
      | other_message ↦ rest
      | text_message ↦
          if m.is_blank then rest else elim m.json [ some (obj fs) ↦ fs ∷ rest | _ ↦ rest ]
    ]
