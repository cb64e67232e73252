-- ===== src/Text.antt =====
-- Python's text operations, on the native strings. `codes` are the code points of a text.
use Prim.Native.Char.{code}
use hermes_k2_monitor.Monad.{Result, ok, raised}
use hermes_k2_monitor.Prelude.{
  ◌||◌, str_eq, zero, suc, not, Option, none, some, is_empty, ℕ, ◌+◌, ◌≡◌, refl, String, Bool, true,
  false, ◌&&◌, List, [], ◌∷◌, map, leb, ◌==◌, if◌then◌else◌, any,
}

abbrev pub codes : String → List ℕ
codes String.[] = []
codes (String.◌∷◌ c s) = code c ∷ codes s

abbrev pub codes_eq : List ℕ → List ℕ → Bool
codes_eq [] [] = true
codes_eq (a ∷ as') (b ∷ bs) = if a == b then codes_eq as' bs else false
codes_eq _ _ = false

-- `s.lower()`, as far as the result can be ASCII: the capital letters, and the Kelvin sign.
unfoldable pub lower_code : ℕ → ℕ
lower_code c = if leb b'A' c && leb c b'Z' then c + 32 else if c == 0x212A then b'k' else c

-- `s.lower() == t` for an ASCII text t
unfoldable pub lower_is : String → String → Bool
unfolding lower_code
lower_is s t = codes_eq (map lower_code (codes s)) (codes t)

-- `s.lower() in ts`
unfoldable pub lower_in : String → List String → Bool
unfolding lower_is
lower_in s ts = any (lower_is s) ts

abbrev pub starts_with : List ℕ → List ℕ → Bool
starts_with [] s = true
starts_with (a ∷ p) [] = false
starts_with (a ∷ p) (b ∷ s) = if a == b then starts_with p s else false

-- `c in s`
abbrev pub has_code : ℕ → List ℕ → Bool
has_code c s = any (λ d. d == c) s

-- `s.split(c)`
unfoldable pub split : ℕ → String → List String
split c String.[] = "" ∷ []
split c (String.◌∷◌ d s) =
    let rest = split c s in
    if code d == c
    then "" ∷ rest
    else elim rest [ [] ↦ String.◌∷◌ d "" ∷ [] | p ∷ ps ↦ String.◌∷◌ d p ∷ ps ]

split_path : split b'/' "collab/t1/a.txt" ≡ "collab" ∷ "t1" ∷ "a.txt" ∷ []
unfolding split
split_path = refl

lower_done : lower_is "DoNe" "done" ≡ true
unfolding lower_is
lower_done = refl

-- `p in s`
abbrev pub contains : List ℕ → List ℕ → Bool
contains p [] = starts_with p []
contains p (c ∷ s) = if starts_with p (c ∷ s) then true else contains p s

-- `str.isspace` of a code point
abbrev pub is_space : ℕ → Bool
is_space c =
    leb 9 c && leb c 13
    || leb 28 c && leb c 32
    || (c == 133)
    || (c == 160)
    || (c == 5760)
    || leb 8192 c && leb c 8202
    || (c == 8232)
    || (c == 8233)
    || (c == 8239)
    || (c == 8287)
    || (c == 12288)

abbrev lstrip : List ℕ → List ℕ
lstrip [] = []
lstrip (c ∷ s) = if is_space c then lstrip s else c ∷ s

abbrev rstrip : List ℕ → List ℕ
rstrip [] = []
rstrip (c ∷ s) = let rest = rstrip s in if is_space c && is_empty rest then [] else c ∷ rest

-- `s.strip()`
abbrev pub strip : List ℕ → List ℕ
strip s = rstrip (lstrip s)

-- `s[n:]`
abbrev pub drop_text : ℕ → String → String
drop_text zero s = s
drop_text (suc n) String.[] = ""
drop_text (suc n) (String.◌∷◌ c s) = drop_text n s

abbrev lstrip_text : String → String
lstrip_text String.[] = ""
lstrip_text (String.◌∷◌ c s) =
    let rest = lstrip_text s in if is_space (code c) then rest else String.◌∷◌ c s

abbrev rstrip_text : String → String
rstrip_text String.[] = ""
rstrip_text (String.◌∷◌ c s) =
    let rest = rstrip_text s in
    if is_space (code c) && is_empty (codes rest) then "" else String.◌∷◌ c rest

-- `s.strip()`, as a text
abbrev pub strip_text : String → String
strip_text s = rstrip_text (lstrip_text s)

-- `a or b` of what `get` returns: the first, if it is there and not empty
abbrev pub or_text : Option String → Option String → Option String
or_text none b = b
or_text (some s) b = if str_eq s "" then b else some s

-- the TypeError of `compare_digest` for a text that is not ASCII
pub data DigestError : Type 0 where
  non_ascii : DigestError

abbrev pub is_ascii : String → Bool
is_ascii s = not (any (leb 128) (codes s))

-- `compare_digest(a, b)`
unfoldable pub compare_digest : String → String → Result DigestError Bool
compare_digest a b = if is_ascii a && is_ascii b then ok (str_eq a b) else raised non_ascii

-- `s.split(",")[0]`
abbrev pub before_comma : String → String
before_comma String.[] = ""
before_comma (String.◌∷◌ c s) =
    let rest = before_comma s in if code c == b',' then "" else String.◌∷◌ c rest
