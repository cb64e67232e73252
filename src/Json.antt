-- ===== src/Json.antt =====
-- The values of `json.loads`, as collab/ reads and writes them, as far as their numbers are naturals: a
-- negative number, a fraction and NaN, which a client may send, are not modelled. A timestamp in
-- seconds is read in milliseconds.
use hermes_k2_monitor.Prelude.{
  suc, ℕ, ◌≡◌, refl, String, Bool, true, false, ◌&&◌, Option, none, some, arith, str_eq, eq_iff,
  ◌==◌, if◌then◌else◌,
}

mutual
  pub data Json : Type 0 where
    null : Json
    bool : Bool → Json
    num : ℕ → Json
    str : String → Json
    arr : Items → Json
    obj : Fields → Json

  pub data Items : Type 0 where
    nil : Items
    cons : Json → Items → Items

  pub data Fields : Type 0 where
    end : Fields
    field : String → Json → Fields → Fields

-- `d.get(k)`
unfoldable pub get_field : String → Fields → Option Json
get_field k end = none
get_field k (field j v fs) = if str_eq j k then some v else get_field k fs

-- `d[k] = v`
unfoldable pub set_field : String → Json → Fields → Fields
set_field k v end = field k v end
set_field k v (field j w fs) = if str_eq j k then field k v fs else field j w (set_field k v fs)

pub get-set_field :
    (k j : String) (v : Json) (fs : Fields)
    → get_field j (set_field k v fs) ≡ (if str_eq k j then some v else get_field j fs)
unfolding get_field set_field
get-set_field k j v end = refl
get-set_field k j v (field i w fs) =
    ground (arith, eq_iff k j, eq_iff i k, eq_iff i j, get-set_field k j v fs)

abbrev pub is_obj : Json → Bool
is_obj (obj _) = true
is_obj _ = false

-- `isinstance(v, str) and v == s`, for what `get` returns
abbrev pub is_text : String → Option Json → Bool
is_text s none = false
is_text s (some (str t)) = str_eq t s
is_text s (some _) = false

-- `bool(v)`: None, False, 0, "", [] and {} are false
abbrev pub truthy : Json → Bool
truthy null = false
truthy (bool b) = b
truthy (num n) = if n == 0 then false else true
truthy (str s) = if str_eq s "" then false else true
truthy (arr nil) = false
truthy (arr (cons _ _)) = true
truthy (obj end) = false
truthy (obj (field _ _ _)) = true

abbrev fields_count : Fields → ℕ
fields_count end = 0
fields_count (field _ _ fs) = suc (fields_count fs)

-- `v == w`: True and 1 are equal, False and 0 too, and a dict forgets the order of its keys
unfoldable mutual
  pub json_eq : Json → Json → Bool
  json_eq null null = true
  json_eq (bool true) (bool b) = b
  json_eq (bool false) (bool true) = false
  json_eq (bool false) (bool false) = true
  json_eq (bool true) (num n) = n == 1
  json_eq (bool false) (num n) = n == 0
  json_eq (num n) (bool true) = n == 1
  json_eq (num n) (bool false) = n == 0
  json_eq (num m) (num n) = m == n
  json_eq (str s) (str t) = str_eq s t
  json_eq (arr xs) (arr ys) = items_eq xs ys
  json_eq (obj fs) (obj gs) = fields_count fs == fields_count gs && fields_in fs gs
  json_eq _ _ = false

  items_eq : Items → Items → Bool
  items_eq nil nil = true
  items_eq (cons x xs) (cons y ys) = json_eq x y && items_eq xs ys
  items_eq _ _ = false

  fields_in : Fields → Fields → Bool
  fields_in end gs = true
  fields_in (field k v fs) gs = elim (get_field k gs) [
    | none ↦ false
    | some w ↦ json_eq v w && fields_in fs gs
  ]

-- {"a": 1, "b": {}} == {"b": {}, "a": True}
json_eq-order :
    json_eq
      (obj (field "a" (num 1) (field "b" (obj end) end)))
      (obj (field "b" (obj end) (field "a" (bool true) end)))
    ≡ true
unfolding json_eq items_eq fields_in get_field
json_eq-order = refl

pub json_eq-str : (s : String) → json_eq (str s) (str s) ≡ true
unfolding json_eq items_eq fields_in
json_eq-str s = ground (arith, eq_iff s s)
