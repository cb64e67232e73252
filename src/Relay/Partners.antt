-- ===== src/Relay/Partners.antt =====
-- collab/relay.py: `_parse_partner_urls`, and `_ws_url` of collab/wsrelay.py, which is given its URLs.
use Prim.Native.Char.{code}
use Prim.Native.String.{◌++◌ as append_text}
use hermes_k2_monitor.Prelude.{
  ℕ, ◌≡◌, refl, String, Bool, true, false, not, ◌&&◌, ◌||◌, List, [], ◌∷◌, ◌++◌, Option, none, some,
  arith, str_eq, ◌==◌, if◌then◌else◌, any, map, keep_if, is_empty, is_some, Bool-cases, inl, inr,
}
use hermes_k2_monitor.Text.{codes, starts_with, split, strip_text, drop_text}

-- `raw.replace(";", ",")`
unfoldable replace_semicolon : String → String
replace_semicolon String.[] = ""
replace_semicolon (String.◌∷◌ c s) =
    let rest = replace_semicolon s in
    if code c == b';' then String.◌∷◌ "," rest else String.◌∷◌ c rest

-- `s.rstrip("/")`
unfoldable rstrip_slash : String → String
rstrip_slash String.[] = ""
rstrip_slash (String.◌∷◌ c s) =
    let rest = rstrip_slash s in
    if (code c == b'/') && is_empty (codes rest) then "" else String.◌∷◌ c rest

-- `piece and piece.startswith(("http://", "https://"))`
abbrev is_partner : String → Bool
is_partner p =
    not (str_eq p "")
    && (starts_with (codes "http://") (codes p) || starts_with (codes "https://") (codes p))

-- the pieces that the loop of `_parse_partner_urls` tests
unfoldable pieces : String → List String
unfolding replace_semicolon rstrip_slash split
pieces raw = map (λ piece. rstrip_slash (strip_text piece)) (split b',' (replace_semicolon raw))

-- `_parse_partner_urls`
unfoldable pub parse_partner_urls : Option String → List String
unfolding pieces
parse_partner_urls none = []
parse_partner_urls (some raw) = if str_eq raw "" then [] else keep_if is_partner (pieces raw)

-- `s.split("://", 1)[1]`; `none` is the IndexError
abbrev after_scheme : String → Option String
after_scheme String.[] = none
after_scheme (String.◌∷◌ c s) =
    let rest = after_scheme s in
    if starts_with (codes "://") (code c ∷ codes s) then some (drop_text 2 s) else rest

-- `_ws_url`
unfoldable pub ws_url : String → Option String
unfolding rstrip_slash
ws_url p = elim (after_scheme p) [
  | none ↦ none
  | some host ↦
      let scheme = if starts_with (codes "https") (codes p) then "wss" else "ws" in
      some (append_text scheme (append_text "://" (append_text (rstrip_slash host) "/ws/relay")))
]

two_partners :
    parse_partner_urls (some " https://a.example/ ;ftp://b, http://c")
    ≡ "https://a.example" ∷ "http://c" ∷ []
unfolding parse_partner_urls
two_partners = refl

socket_url : ws_url "https://a.example" ≡ some "wss://a.example/ws/relay"
unfolding ws_url
socket_url = refl

-- Past a prefix that ends in "://" there is something to split off.
after_scheme-prefix :
    (p : List ℕ) (s : String)
    → starts_with (p ++ codes "://") (codes s) ≡ true
    → is_some (after_scheme s) ≡ true
after_scheme-prefix [] String.[] e = absurd cc
after_scheme-prefix (d ∷ p) String.[] e = absurd cc
after_scheme-prefix [] (String.◌∷◌ c s) e =
    elim (Bool-cases (starts_with (codes "://") (code c ∷ codes s))) [
      | inl y ↦ rw y refl
      | inr n ↦ absurd cc
    ]
after_scheme-prefix (d ∷ p) (String.◌∷◌ c s) e =
    elim (Bool-cases (starts_with (codes "://") (code c ∷ codes s))) [
      | inl y ↦ rw y refl
      | inr n ↦ rw n (after_scheme-prefix p s (ground arith))
    ]

ws_url-partner : (p : String) → is_partner p ≡ true → is_some (ws_url p) ≡ true
unfolding ws_url
ws_url-partner p e = elim (Bool-cases (starts_with (codes "http://") (codes p))) [
  | inl y ↦ ground (arith, after_scheme-prefix (codes "http") p y)
  | inr n ↦ ground (arith, after_scheme-prefix (codes "https") p)
]

any-keep_if :
    {A : Type 0} (q r : A → Bool) (xs : List A)
    → ((x : A) → q x ≡ true → r x ≡ false)
    → any r (keep_if q xs) ≡ false
any-keep_if q r [] h = refl
any-keep_if q r (x ∷ xs) h = elim (Bool-cases (q x)) [
  | inl y ↦ rw (y, h x y) (any-keep_if q r xs h)
  | inr n ↦ rw n (any-keep_if q r xs h)
]

-- `_ws_url` raises on none of the partners that are configured.
pub parse_partner_urls-ws_url :
    (raw : Option String) → any (λ p. not (is_some (ws_url p))) (parse_partner_urls raw) ≡ false
unfolding parse_partner_urls
parse_partner_urls-ws_url none = refl
parse_partner_urls-ws_url (some raw) = elim (Bool-cases (str_eq raw "")) [
  | inl y ↦ rw y refl
  | inr n ↦ rw n (
      any-keep_if is_partner (λ p. not (is_some (ws_url p))) (pieces raw)
        (λ p e. rw (ws_url-partner p e) refl))
]
