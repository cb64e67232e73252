-- ===== src/Trust/Once.antt =====
-- collab/trust.py: what a sequence of `verify` calls accepts.
use hermes_k2_monitor.Prelude.{
  ℕ, ◌+◌, ◌*◌, ◌≤◌, ◌<◌, ◌≡◌, ◌∙◌, String, Bool, true, false, List, [], ◌∷◌, Option, none, some,
  arith, eq_iff, eq_refl, length, lookup, insert, lookup-insert, inl, inr,
}
use hermes_k2_monitor.Json.{Json, str, obj, Fields, get_field}
use hermes_k2_monitor.Trust.{Stamp, at, Manager, is_stale, save_nonces, timestamp_seconds, verify}
use hermes_k2_monitor.Trust.Nonces.{restarted, lookup-restarted}
use hermes_k2_monitor.Trust.Replay.{
  IsSpent, accepts, verify-cases, save_nonces-IsSpent, length-insert-le, replay_window-save_nonces,
}

-- A call of `verify` on a dict, with the clock's two answers.
pub record Call : Type 0 where
  pub now : ℕ
  pub later : ℕ
  pub expected : Option String
  pub message : Fields

-- A call, or a restart of the process.
pub data Turn : Type 0 where
  called_with : Call → Turn
  restart : Turn

IsSpent-later :
    (k : String) (t from now : ℕ) (m : Manager)
    → from ≤ now
    → IsSpent k t from m
    → IsSpent k t now m
IsSpent-later k t from now m le (inl l) = inl l
IsSpent-later k t from now m le (inr p) = inr (omega arith)

-- The nonce that is written is on file, or its stamp is long past.
written-IsSpent :
    (k : String) (t now : ℕ) (m : Manager)
    → length m.nonces < m.nonce_limit
    → IsSpent k t now (save_nonces now (record m { nonces = insert k (at t) m.nonces }))
written-IsSpent k t now m room =
    save_nonces-IsSpent k t now (record m { nonces = insert k (at t) m.nonces })
      (omega (arith, length-insert-le k (at t) m.nonces))
      (ground (arith, lookup-insert k k (at t) m.nonces, eq_refl k))

written-at :
    (k : String) (t now : ℕ) (a : Stamp) (m : Manager)
    → some a ≡ some (at t)
    → length m.nonces < m.nonce_limit
    → IsSpent k t now (save_nonces now (record m { nonces = insert k a m.nonces }))
written-at k t now a m e room = let f : a ≡ at t = cc e in rw f (written-IsSpent k t now m room)

saved-IsSpent :
    (k n : String) (t from now : ℕ) (a : Stamp) (m : Manager)
    → from ≤ now
    → length m.nonces < m.nonce_limit
    → lookup n m.nonces ≡ none
    → IsSpent k t from m
    → IsSpent k t now (save_nonces now (record m { nonces = insert n a m.nonces }))
saved-IsSpent k n t from now a m le room new (inr p) =
    inr
      (rw (replay_window-save_nonces now (record m { nonces = insert n a m.nonces })) (omega arith))
saved-IsSpent k n t from now a m le room new (inl l) =
    save_nonces-IsSpent k t now (record m { nonces = insert n a m.nonces })
      (omega (arith, length-insert-le n a m.nonces))
      (ground (arith, lookup-insert n k a m.nonces, eq_iff n k))

restarted-IsSpent :
    (k : String) (t now : ℕ) (m : Manager) → IsSpent k t now m → IsSpent k t now (restarted m)
unfolding restarted
restarted-IsSpent k t now m (inl l) = inl (lookup-restarted k m ∙ l)
restarted-IsSpent k t now m (inr p) = inr p

long_past-is_stale : (t w now : ℕ) → t + 4 * w < now → is_stale w now (at t) ≡ true
unfolding is_stale
long_past-is_stale t w now h = ground arith

spent-Accepted :
    (k n : String) (t now : ℕ) (m : Manager) (a : Stamp)
    → some (str n) ≡ some (str k)
    → some a ≡ some (at t)
    → lookup n m.nonces ≡ none
    → is_stale m.replay_window now a ≡ false
    → IsSpent k t now m
    → ⊥
spent-Accepted k n t now m a e f new current (inl l) = ground arith
spent-Accepted k n t now m a e f new current (inr p) =
    ground (arith, long_past-is_stale t m.replay_window now p)

module _ (float_of : String → Option Stamp) (text_of : Json → String) (canonical : Json → String)
    (hmac : String → String) (internal_ip : List ℕ → Bool) where
  -- The manager after a call, and whether the call has accepted its message.
  abbrev pub called : Call → Manager → Manager
  called c m =
      (verify float_of text_of canonical hmac internal_ip c.now c.later c.expected (obj c.message)
        m).1

  abbrev pub accepted : Call → Manager → Bool
  accepted c m =
      accepts
        (verify float_of text_of canonical hmac internal_ip c.now c.later c.expected (obj c.message)
          m).0

  pub run : List Turn → Manager → Manager
  unfolding restarted
  run [] m = m
  run (called_with c ∷ cs) m = run cs (called c m)
  run (restart ∷ cs) m = run cs (restarted m)

  -- The clock does not go back, and before each call the store is below its limit.
  abbrev pub IsQuiet : ℕ → List Turn → Manager → Type 0
  IsQuiet from [] m = Unit
  IsQuiet from (restart ∷ cs) m = IsQuiet from cs (restarted m)
  IsQuiet from (called_with c ∷ cs) m =
      (from ≤ c.now)
      × (c.now ≤ c.later)
      × (length m.nonces < m.nonce_limit)
      × IsQuiet c.later cs (called c m)

  abbrev pub ends : ℕ → List Turn → ℕ
  ends from [] = from
  ends from (restart ∷ cs) = ends from cs
  ends from (called_with c ∷ cs) = ends c.later cs

  -- A call leaves a spent nonce spent.
  called-IsSpent :
      (k : String) (t from : ℕ) (c : Call) (m : Manager)
      → from ≤ c.later
      → length m.nonces < m.nonce_limit
      → IsSpent k t from m
      → IsSpent k t c.later (called c m)
  called-IsSpent k t from c m le room s =
      elim (verify-cases float_of text_of canonical hmac internal_ip c.now c.later c.expected
        c.message m) [
          | inl (_, e) ↦ rw e (IsSpent-later k t from c.later m le s)
          | inr (_, n, _, a) ↦
              rw (a.saved) (saved-IsSpent k n t from c.later a.stamp m le room a.new s)
        ]

  run-IsSpent :
      (k : String) (t from : ℕ) (cs : List Turn) (m : Manager)
      → IsQuiet from cs m
      → IsSpent k t from m
      → IsSpent k t (ends from cs) (run cs m)
  unfolding run
  run-IsSpent k t from [] m q s = s
  run-IsSpent k t from (restart ∷ cs) m q s =
      run-IsSpent k t from cs (restarted m) q (restarted-IsSpent k t from m s)
  run-IsSpent k t from (called_with c ∷ cs) m q s =
      run-IsSpent k t c.later cs (called c m) q.3
        (called-IsSpent k t from c m (omega (arith, q.0, q.1)) q.2 s)

  -- A dict whose nonce is spent is refused.
  spent-accepts :
      (k : String) (t : ℕ) (d : Call) (m : Manager)
      → get_field "nonce" d.message ≡ some (str k)
      → timestamp_seconds float_of text_of canonical hmac internal_ip (get_field "ts" d.message)
        ≡ some (at t)
      → IsSpent k t d.now m
      → accepted d m ≡ false
  spent-accepts k t d m en et s =
      elim (verify-cases float_of text_of canonical hmac internal_ip d.now d.later d.expected
        d.message m) [
          | inl (e, _) ↦ e
          | inr (_, n, f, a) ↦ absurd (
              spent-Accepted k n t d.now m a.stamp (cc (f, en)) (cc (a.read, et)) a.new a.current s)
        ]

  -- After a call that accepts, the nonce of its message is spent.
  accepted-written :
      (c : Call) (t : ℕ) (m : Manager)
      → timestamp_seconds float_of text_of canonical hmac internal_ip (get_field "ts" c.message)
        ≡ some (at t)
      → accepted c m ≡ true
      → length m.nonces < m.nonce_limit
      → (k : String) × (get_field "nonce" c.message ≡ some (str k))
        × IsSpent k t c.later (called c m)
  accepted-written c t m et acc room =
      elim (verify-cases float_of text_of canonical hmac internal_ip c.now c.later c.expected
        c.message m) [
          | inl (e, _) ↦ absurd (ground arith)
          | inr (_, k, f, a) ↦
              let e : some a.stamp ≡ some (at t) = cc (a.read, et) in
              (k, f, rw (a.saved) (written-at k t c.later a.stamp m e room))
        ]

-- A dict that `verify` has accepted, with a stamp that is an instant, is refused ever after, whatever
-- calls and restarts of the process come between and whomever the later call expects: as long as the
-- clock does not go back and the store of nonces is below its limit before each of the calls.
pub not_accepted_twice :
    (float_of : String → Option Stamp) (text_of : Json → String) (canonical : Json → String)
    (hmac : String → String) (internal_ip : List ℕ → Bool) (c d : Call) (t : ℕ) (cs : List Turn)
    (m : Manager)
    → timestamp_seconds float_of text_of canonical hmac internal_ip (get_field "ts" c.message)
      ≡ some (at t)
    → accepted float_of text_of canonical hmac internal_ip c m ≡ true
    → length m.nonces < m.nonce_limit
    → IsQuiet float_of text_of canonical hmac internal_ip c.later cs
        (called float_of text_of canonical hmac internal_ip c m)
    → d.message ≡ c.message
    → ends float_of text_of canonical hmac internal_ip c.later cs ≤ d.now
    → accepted float_of text_of canonical hmac internal_ip d (
        run float_of text_of canonical hmac internal_ip cs
          (called float_of text_of canonical hmac internal_ip c m))
      ≡ false
not_accepted_twice float_of text_of canonical hmac internal_ip c d t cs m et acc room quiet same
      le =
    let (k, en, s) =
      accepted-written float_of text_of canonical hmac internal_ip c t m et acc room in
    let m' = called float_of text_of canonical hmac internal_ip c m in
    let s' = run-IsSpent float_of text_of canonical hmac internal_ip k t c.later cs m' quiet s in
    let m'' = run float_of text_of canonical hmac internal_ip cs m' in
    spent-accepts float_of text_of canonical hmac internal_ip k t d m'' (rw same en) (rw same et) (
      IsSpent-later k t (ends float_of text_of canonical hmac internal_ip c.later cs) d.now m'' le
        s')
