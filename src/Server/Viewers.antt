-- ===== src/Server/Viewers.antt =====
-- server.py: the sockets of the dashboard, `ws_handler` and `aio_ws`, and the discussion that they
-- write. What is sent to the socket itself is the result of a frame.
pub mod Log
pub mod Aio
use Prim.Native.String.{◌++◌ as append_text}
use hermes_k2_monitor.Prelude.{
  ℕ, suc, String, Bool, true, false, List, [], ◌∷◌, ◌++◌, Option, none, some, str_eq, if◌then◌else◌,
}
use hermes_k2_monitor.Text.{DigestError, compare_digest}
use hermes_k2_monitor.Monad.{Result, ok, raised, Exec, ◌>>=◌, ◌>>◌, pure, raise, modify}
use hermes_k2_monitor.Json.{Json, str, obj, Fields, end, field, get_field, truthy, is_text}
use hermes_k2_monitor.RateLimit.{Limiter, Decision, check}
use hermes_k2_monitor.Vault.{Line, blank, garbage, row}
use hermes_k2_monitor.Server.Gates.{Gate, Request, view_allowed}
use hermes_k2_monitor.Server.Feeds.{push_discussion}
use hermes_k2_monitor.Server.Mesh.{
  Outside, Mesh, Times, Route, Reply, crashed, rate_limit, discussion_frame, broadcast,
  record_activity, iso_time,
}

-- `load_discussion`
unfoldable pub load_discussion : List Line → List Json
load_discussion [] = []
load_discussion (blank ∷ ls) = load_discussion ls
load_discussion (garbage ∷ ls) = load_discussion ls
load_discussion (row v ∷ ls) = v ∷ load_discussion ls

-- `process_request`: whether the raw socket refuses the query's "token", "" if there is none
unfoldable pub refuses : Gate → String → Result DigestError Bool
refuses g token =
    if str_eq g.view_token "" then ok false else elim (compare_digest token g.view_token) [
      | raised e ↦ raised e
      | ok true ↦ ok false
      | ok false ↦ ok true
    ]

-- `msg.get(key) or default`
abbrev pub or_default : Option Json → String → Json
or_default none s = str s
or_default (some v) s = if truthy v then v else str s

-- A frame as it arrives: the clock, whether the log file can be written, and what `json.loads` makes
-- of it, `none` if it raises.
pub record Arrival : Type 0 where
  pub t : Times
  pub writable : Bool
  pub raw : Option Json

-- What aiohttp hands to `async for`: not a text but a tuple of type, data and extra.
pub data WsMessage : Type 0 where
  ws_message : ℕ → String → WsMessage

-- A frame as it arrives there: the clock, whether the log file can be written, and what it is.
pub record AioArrival : Type 0 where
  pub t : Times
  pub writable : Bool
  pub message : WsMessage

-- `json.loads` of what is no text raises the TypeError.
unfoldable pub loads_message : WsMessage → Option Json
loads_message _ = none

abbrev pub discussion_entry : Json → Json → String → Json
discussion_entry from_ message now =
    obj (field "from" from_ (field "message" message (field "timestamp" (str now) end)))

module _ {M : Type 0} (out : Outside M) where
  -- `append_discussion`
  unfoldable pub append_discussion : Times → Bool → Json → Json → Mesh M → Mesh M
  append_discussion t writable from_ message s =
      let entry = discussion_entry from_ message (iso_time out t) in
      record s {
        live_jsonl = if writable then s.live_jsonl ++ row entry ∷ [] else s.live_jsonl;
        discussion = push_discussion entry s.discussion;
      }

  -- what `_ws_rate_limited` does with the decision for a peer: `some` is the answer, with the seconds
  -- to wait
  unfoldable pub decide_viewer : Times → String → Option (Limiter × Decision) → Route M (Option ℕ)
  unfolding record_activity
  decide_viewer t peer none s = (raised crashed, s)
  decide_viewer t peer (some (l, d)) s =
      if d.allowed then (ok none, record s { ws_rate_limiter = l }) else (
        ok (some d.retry_after),
        record_activity (iso_time out t) (rate_limit "ws" peer d.retry_after) (record s {
          ws_rate_limiter = l;
          rate_limit_429 = suc s.rate_limit_429;
          last_rate_limit_429 = some (iso_time out t);
        }),
      )

  -- `_ws_rate_limited`, for what `_ws_peer` returns
  unfoldable pub limit_viewer : Times → String → Route M (Option ℕ)
  unfolding decide_viewer
  limit_viewer t peer s =
      decide_viewer t peer (check (append_text "ws:" peer) t.limiter s.ws_rate_limiter) s

  -- an "add_discussion", entered and handed to `broadcast`
  abbrev pub discuss : Times → Bool → Fields → Mesh M → Mesh M
  discuss t writable msg s =
      let from_ = or_default (get_field "from" msg) "system" in
      let message = or_default (get_field "message" msg) "" in
      broadcast (discussion_frame from_ message (iso_time out t))
        (append_discussion t writable from_ message s)

  -- The rest of the loop's body in `ws_handler`; a value that is no dict raises AttributeError.
  unfoldable pub take_message : Times → Bool → Option Json → Route M Unit
  unfolding append_discussion
  take_message t writable none s = (ok tt, s)
  take_message t writable (some (obj msg)) s = (
    ok tt,
    if is_text "add_discussion" (get_field "type" msg) then discuss t writable msg s else s,
  )
  take_message t writable (some _) s = (raised crashed, s)

  -- the rest of the loop's body, or the answer to a frame too many
  abbrev pub unless_limited : Option ℕ → Route M Unit → Route M (Option ℕ)
  unless_limited (some n) rest = pure (some n)
  unless_limited none rest = rest >> pure none

  -- A frame in the loop of `ws_handler`.
  unfoldable pub on_frame : String → Arrival → Route M (Option ℕ)
  unfolding limit_viewer take_message
  on_frame peer a = do
    limited ← limit_viewer a.t peer
    unless_limited limited (take_message a.t a.writable a.raw)

  -- The loop of `ws_handler`: what is raised ends it.
  unfoldable pub ws_loop : String → List Arrival → Mesh M → Mesh M
  unfolding on_frame
  ws_loop peer [] s = s
  ws_loop peer (a ∷ as') s =
      let (o, s') = on_frame peer a s in
      let rest = ws_loop peer as' s' in elim o [ ok _ ↦ rest | raised _ ↦ s' ]

  -- The rest of the loop's body in `aio_ws`, for what `json.loads` returns.
  unfoldable pub take_aio : Request → Times → Bool → Option Json → Route M Unit
  unfolding append_discussion
  take_aio r t writable none s = (ok tt, s)
  take_aio r t writable (some (obj msg)) s =
      if is_text "add_discussion" (get_field "type" msg)
      then elim (view_allowed out.gate r) [
        | ok true ↦ (ok tt, discuss t writable msg s)
        | ok false ↦ (ok tt, s)
        | raised _ ↦ (raised crashed, s)
      ]
      else (ok tt, s)
  take_aio r t writable (some _) s = (raised crashed, s)

  -- A frame in the loop of `aio_ws`.
  unfoldable pub on_aio_frame : String → Request → AioArrival → Route M (Option ℕ)
  unfolding limit_viewer take_aio loads_message
  on_aio_frame peer r a = do
    limited ← limit_viewer a.t peer
    unless_limited limited (take_aio r a.t a.writable (loads_message a.message))

  -- The loop of `aio_ws`, for a request that has passed `_view_allowed`.
  unfoldable pub aio_loop : String → Request → List AioArrival → Mesh M → Mesh M
  unfolding on_aio_frame
  aio_loop peer r [] s = s
  aio_loop peer r (a ∷ as') s =
      let (o, s') = on_aio_frame peer r a s in
      let rest = aio_loop peer r as' s' in elim o [ ok _ ↦ rest | raised _ ↦ s' ]
