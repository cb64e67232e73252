-- ===== src/WsRelay.antt =====
-- collab/wsrelay.py: the loop that keeps one outbound WebSocket link to a partner up. Times are
-- milliseconds.
pub mod Backoff
pub mod Socket
mod Tests
use hermes_k2_monitor.Prelude.{
  ℕ, suc, ◌*◌, ◌^◌, min, Bool, true, false, List, [], ◌∷◌, Option, none, some, ltb, if◌then◌else◌,
}

-- RECONNECT_BASE and RECONNECT_MAX
abbrev pub reconnect_base : ℕ
reconnect_base = 4000

abbrev pub reconnect_max : ℕ
reconnect_max = 120000

-- `RECONNECT_MULT ** n` at the float 2.0: from n = 1024 on it is an OverflowError, `none`.
pub float_power : ℕ → Option ℕ
float_power n = if ltb n 1024 then some (2 ^ n) else none

-- `delay = min(RECONNECT_BASE * (RECONNECT_MULT ** self._reconnects), RECONNECT_MAX)`
pub delay : ℕ → Option ℕ
unfolding float_power
delay n = elim (float_power n) [
  | none ↦ none
  | some p ↦ some (min (reconnect_base * p) reconnect_max)
]

-- How `_dial_and_stream` ends: before the partner has accepted the handshake, or after; in either
-- case `stop` may have been called meanwhile.
pub data Dial : Type 0 where
  rejected dropped : Dial
  stopped_early stopped_late : Dial

-- What the background task is doing: sleeping for a delay before it dials again, over because
-- `stop` was called, or dead with an OverflowError.
pub data Task : Type 0 where
  sleeping : ℕ → Task
  over : Task
  dead : Task

pub record Link : Type 0 where
  pub running : Bool
  pub reconnects : ℕ
  pub task : Task

-- `self._reconnects = 0` once the handshake is through, and `self._running = False` of `stop`
abbrev pub after_dial : Dial → Link → Link
after_dial rejected l = l
after_dial dropped l = record l { reconnects = 0 }
after_dial stopped_early l = record l { running = false }
after_dial stopped_late l = record l { running = false; reconnects = 0 }

-- The rest of a round of `_run`, after `_dial_and_stream` has ended.
abbrev pub pause : Link → Link
pause l =
    if l.running
    then elim (delay l.reconnects) [
      | none ↦ record l { task = dead }
      | some d ↦ record l { reconnects = suc l.reconnects; task = sleeping d }
    ]
    else record l { task = over }

-- A round of `_run`: only a task that sleeps wakes up to dial.
pub round : Dial → Link → Link
unfolding delay
round d l = elim l.task [ sleeping _ ↦ pause (after_dial d l) | over ↦ l | dead ↦ l ]

pub run : List Dial → Link → Link
unfolding round
run [] l = l
run (d ∷ ds) l = run ds (round d l)

-- `start`: the task is about to dial for the first time.
pub start : Link
start = record { running = true; reconnects = 0; task = sleeping 0 }
