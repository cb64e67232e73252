-- ===== src/Server/Slots.antt =====
-- server.py: `api_ws_relay`, the slots of the inbound relay links. `ws_relay_conns` counts a peer's
-- links; `streaming` counts those that have passed the handshake and have not ended.
pub mod Overrun
use hermes_k2_monitor.Prelude.{
  ℕ, suc, ◌-◌, ◌+◌, String, Bool, true, false, Option, none, some, ltb, leb, ◌==◌, ◌&&◌, str_eq,
  if◌then◌else◌, Dict, lookup, insert, erase,
}

pub record Slots : Type 0 where
  pub ws_relay_conns : Dict ℕ
  pub streaming : Dict ℕ

-- `.get(peer, 0)`
abbrev pub count_of : String → Dict ℕ → ℕ
count_of peer d = elim (lookup peer d) [ none ↦ 0 | some n ↦ n ]

abbrev pub not_empty : String → Bool
not_empty s = if str_eq s "" then false else true

-- the `finally` block, for a peer that is known
unfoldable pub release : String → Dict ℕ → Dict ℕ
release peer d =
    let remaining = count_of peer d - 1 in
    if ltb 0 remaining then insert peer remaining d else erase peer d

-- What the first frame claims to be: nothing or no text, or a node id.
abbrev pub claims : String → Option String → Bool
claims peer none = true
claims peer (some claimed) = str_eq claimed peer

-- The handshake: whether the link may stream. `peer` is what `verify_token` says of the token. A
-- refused link runs the `finally` block at once.
unfoldable pub handshake : ℕ → Option String → Option String → Slots → Bool × Slots
unfolding release
handshake cap none claimed s = (false, s)
handshake cap (some peer) claimed s =
    if not_empty peer && claims peer claimed
    then (let current = count_of peer s.ws_relay_conns in
        if leb cap current
        then (false, record s { ws_relay_conns = release peer s.ws_relay_conns })
        else (
          true,
          record {
            ws_relay_conns = insert peer (current + 1) s.ws_relay_conns;
            streaming = insert peer (count_of peer s.streaming + 1) s.streaming;
          },
        ))
    else (
      false,
      record s {
        ws_relay_conns = if not_empty peer then release peer s.ws_relay_conns else s.ws_relay_conns;
      },
    )

-- The end of a link that streams.
unfoldable pub close : String → Slots → Slots
unfolding release
close peer s = record {
  ws_relay_conns = release peer s.ws_relay_conns;
  streaming = insert peer (count_of peer s.streaming - 1) s.streaming;
}
