-- ===== src/Server/Opening.antt =====
-- server.py: `api_ws_relay`, the first frame of an inbound relay link, up to the answer that the
-- client of collab/wsrelay.py waits for.
use hermes_k2_monitor.Prelude.{
  ℕ, ◌+◌, ◌<◌, ◌≡◌, refl, ap, ◌∙◌, ◌⊎◌, inl, inr, String, Bool, true, false, ◌&&◌, Option, none,
  some, arith, eq_refl, leb, if◌then◌else◌, Bool-cases, insert,
}
use hermes_k2_monitor.Monad.{Result, ok, raised}
use hermes_k2_monitor.Json.{Json, str, obj, Fields, end, field, get_field, is_text}
use hermes_k2_monitor.Trust.{text_field}
use hermes_k2_monitor.Auth.{Crypto, Auth, AuthError}
use hermes_k2_monitor.Auth.Tokens.{verify_token}
use hermes_k2_monitor.WsRelay.Socket.{
  Message, text_message, close_message, other_message, auth_frame, text_of_json, accepts,
}
use hermes_k2_monitor.Server.Slots.{Slots, count_of, not_empty, claims, handshake}

-- What the handler sends back: `{"status": "ok"}`, or a close frame.
abbrev pub answer : Bool → Message
answer true = text_of_json (obj (field "status" (str "ok") end))
answer false = record { kind = close_message; is_blank = false; json = none }

-- The first frame's JSON dict, `none` if the handler closes for want of one or of its type.
unfoldable pub auth_of : Message → Option Fields
auth_of m = elim m.kind [
  | text_message ↦ if m.is_blank then none else elim m.json [
    | some (obj auth) ↦ if is_text "auth" (get_field "type" auth) then some auth else none
    | _ ↦ none
  ]
  | close_message ↦ none
  | other_message ↦ none
]

-- What follows `verify_token`; an error that it raises ends the link before its peer is known.
abbrev pub let_in :
    ℕ → Option String → Result AuthError (Option String) × Auth → Slots → Bool × Auth × Slots
let_in cap claimed (ok peer, a) s =
    let (streams, s') = handshake cap peer claimed s in (streams, a, s')
let_in cap claimed (raised e, a) s = (false, a, s)

module _ (k : Crypto) (now cap : ℕ) where
  -- The dict's token and claim decide.
  abbrev pub open_auth : Option Fields → Auth → Slots → Bool × Auth × Slots
  open_auth none a s = (false, a, s)
  open_auth (some auth) a s =
      let_in cap (text_field (get_field "node_id" auth))
        (verify_token k now (text_field (get_field "token" auth)) a) s

  -- Whether the link streams, and what the frame leaves behind.
  unfoldable pub open_link : Message → Auth → Slots → Bool × Auth × Slots
  open_link first a s = open_auth (auth_of first) a s

-- Both ends agree on whether the link is up.
accepts-answer : (streams : Bool) → accepts (answer streams) ≡ streams
unfolding accepts get_field
accepts-answer true = refl
accepts-answer false = refl

-- A link that streams is one more of a known peer whose count in `ws_relay_conns` was below `cap`.
pub record Slotted (cap : ℕ) (peer claimed : Option String) (s : Slots) (r : Bool × Slots)
    : Type 0 where
  pub node_id : String
  pub known : peer ≡ some node_id
  pub room : count_of node_id s.ws_relay_conns < cap
  pub slots : r ≡ (
    true,
    record {
      ws_relay_conns = insert node_id (count_of node_id s.ws_relay_conns + 1) s.ws_relay_conns;
      streaming = insert node_id (count_of node_id s.streaming + 1) s.streaming;
    },
  )

handshake-cases :
    (cap : ℕ) (peer claimed : Option String) (s : Slots)
    → ((handshake cap peer claimed s).0 ≡ false)
        × ((handshake cap peer claimed s).1.streaming ≡ s.streaming)
      ⊎ Slotted cap peer claimed s (handshake cap peer claimed s)
unfolding handshake
handshake-cases cap none claimed s = inl (refl, refl)
handshake-cases cap (some peer) claimed s =
    elim (Bool-cases (not_empty peer && claims peer claimed)) [
      | inr n ↦ inl (rw n (refl, refl))
      | inl y ↦ elim (Bool-cases (leb cap (count_of peer s.ws_relay_conns))) [
        | inl full ↦ inl (rw y (rw full (refl, refl)))
        | inr room ↦ inr (record {
          node_id = peer;
          known = refl;
          room = ground arith;
          slots = rw y (rw room refl);
        })
      ]
    ]

-- The slots with one link more of a node.
abbrev pub one_more : String → Slots → Slots
one_more id s = record {
  ws_relay_conns = insert id (count_of id s.ws_relay_conns + 1) s.ws_relay_conns;
  streaming = insert id (count_of id s.streaming + 1) s.streaming;
}

-- The client takes the answer for a refusal, and no link more streams.
abbrev pub IsShut : Slots → Bool × Auth × Slots → Type 0
IsShut s r = (accepts (answer r.0) ≡ false) × (r.2.streaming ≡ s.streaming)

module _ (k : Crypto) (now cap : ℕ) where
  -- The client takes the link for established: the first frame was a dict of type "auth" with a
  -- token that `verify_token` accepts, for a node whose count in `ws_relay_conns` was below `cap`.
  pub record IsUp (first : Message) (a : Auth) (s : Slots) (r : Bool × Auth × Slots) : Type 0 where
    pub auth : Fields
    pub node_id : String
    pub token : String
    pub framed : auth_of first ≡ some auth
    pub carried : get_field "token" auth ≡ some (str token)
    pub trusted : verify_token k now (some token) a ≡ (ok (some node_id), r.1)
    pub room : count_of node_id s.ws_relay_conns < cap
    pub up : accepts (answer r.0) ≡ true
    pub slots : r.2 ≡ one_more node_id s

  let_in-cases :
      (claimed : Option String) (v : Result AuthError (Option String) × Auth) (s : Slots)
      → (((let_in cap claimed v s).0 ≡ false)
          × ((let_in cap claimed v s).2.streaming ≡ s.streaming))
        ⊎ ((id : String) × (v ≡ (ok (some id), v.1))
            × (count_of id s.ws_relay_conns < cap)
            × (let_in cap claimed v s ≡ (true, v.1, one_more id s)))
  let_in-cases claimed (raised e, a) s = inl (refl, refl)
  let_in-cases claimed (ok peer, a) s = elim (handshake-cases cap peer claimed s) [
    | inl (n, e) ↦ inl (n, e)
    | inr c ↦ inr (c.node_id, ap (λ p. (ok p, a)) c.known, c.room, rw (c.slots) refl)
  ]

  -- `verify_token` knows no node without a text for a token.
  token_of :
      (t : Option Json) (a : Auth) (id : String)
      → verify_token k now (text_field t) a
        ≡ (ok (some id), (verify_token k now (text_field t) a).1)
      → (token : String) × (t ≡ some (str token))
  unfolding verify_token
  token_of (some (str t)) a id e = (t, refl)
  token_of t a id e = absurd cc

  open_auth-cases :
      (first : Message) (auth : Option Fields) (a : Auth) (s : Slots)
      → auth_of first ≡ auth
      → IsShut s (open_auth k now cap auth a s) ⊎ IsUp first a s (open_auth k now cap auth a s)
  open_auth-cases first none a s e = inl (accepts-answer false, refl)
  open_auth-cases first (some auth) a s e =
      let v = verify_token k now (text_field (get_field "token" auth)) a in
      elim (let_in-cases (text_field (get_field "node_id" auth)) v s) [
        | inl (n, f) ↦ inl (accepts-answer _ ∙ n, f)
        | inr (id, t, room, up) ↦
            let (token, c) = token_of (get_field "token" auth) a id t in
            inr (record {
              auth = auth;
              node_id = id;
              token = token;
              framed = e;
              carried = c;
              trusted = rw up (cc (t, c));
              room = room;
              up = accepts-answer _ ∙ ap (λ r. r.0) up;
              slots = ap (λ r. r.2) up;
            })
      ]

  -- Whatever the first frame of a link is, either the client takes the answer for a refusal and no
  -- link more streams, or it takes the link for established, the frame was a dict of type "auth"
  -- with a token that `verify_token` accepts, the count of its node in
  -- `ws_relay_conns` was below `cap`, and one link more of it is counted and streams.
  pub open_link_lem :
      (first : Message) (a : Auth) (s : Slots)
      → IsShut s (open_link k now cap first a s) ⊎ IsUp first a s (open_link k now cap first a s)
  unfolding open_link
  open_link_lem first a s = open_auth-cases first (auth_of first) a s refl

  handshake-below :
      (id : String) (s : Slots)
      → not_empty id ≡ true
      → count_of id s.ws_relay_conns < cap
      → handshake cap (some id) (some id) s ≡ (true, one_more id s)
  unfolding handshake
  handshake-below id s known room = ground (arith, eq_refl id)

  let_in-below :
      (id : String) (v : Result AuthError (Option String) × Auth) (a : Auth) (s : Slots)
      → v ≡ (ok (some id), a)
      → handshake cap (some id) (some id) s ≡ (true, one_more id s)
      → let_in cap (some id) v s ≡ (true, a, one_more id s)
  let_in-below id v a s e h = rw e (rw h refl)

  -- The client's own first frame, for a node that is known: with a token that `verify_token` accepts
  -- and a count in `ws_relay_conns` below `cap`, the client takes the answer for an established link, and the node has
  -- one link more.
  pub open_link-auth_frame :
      (id token : String) (a a' : Auth) (s : Slots)
      → verify_token k now (some token) a ≡ (ok (some id), a')
      → not_empty id ≡ true
      → count_of id s.ws_relay_conns < cap
      → (open_link k now cap (text_of_json (auth_frame id token)) a s ≡ (true, a', one_more id s))
        × (accepts (answer (open_link k now cap (text_of_json (auth_frame id token)) a s).0) ≡ true)
  unfolding open_link auth_of get_field
  open_link-auth_frame id token a a' s e known room =
      let r =
        let_in-below id (verify_token k now (some token) a) a' s e
          (handshake-below id s known room) in
      (r, accepts-answer _ ∙ ap (λ r. r.0) r)
