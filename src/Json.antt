-- ===== src/Json.antt =====
-- What `json.loads` and the SDKs answer: a JSON value, with a number as the rational that it prints.
-- `Decimal(text)` is a parameter, `parse`, of the code that reads a number from a text.
use Prim.Native.String.{String as Text}
use capital.Prelude.{
  ℕ, zero, suc, String, ◌==◌, Bool, true, false, not, Option, none, some, List, [], ◌∷◌,
  if◌then◌else◌,
}
use capital.Rational.{ℚ, of_ℕ}
use capital.Rational.Order.{eq?}
use capital.Effects.{Result, ok, err, key_error, arithmetic_error, other_error}

mutual
  pub data Json : Type 0 where
    null : Json
    bool : Bool → Json
    num : ℚ → Json
    text : String → Json
    arr : Items → Json
    obj : Fields → Json

  pub data Items : Type 0 where
    nil : Items
    cons : Json → Items → Items

  pub data Fields : Type 0 where
    end : Fields
    field : String → Json → Fields → Fields

abbrev pub to_list : Items → List Json
to_list nil = []
to_list (cons x xs) = x ∷ to_list xs

abbrev pub find_field : String → Fields → Option Json
find_field key end = none
find_field key (field k v fs) = if k == key then some v else find_field key fs

-- `bool(x)`
abbrev pub truthy : Json → Bool
truthy null = false
truthy (bool b) = b
truthy (num q) = not (eq? q (of_ℕ 0))
truthy (text s) = not (s == "")
truthy (arr nil) = false
truthy (arr (cons x xs)) = true
truthy (obj end) = false
truthy (obj (field k v fs)) = true

-- `x.get(key)`: only a dictionary has `get`.
abbrev pub get : String → Json → Result (Option Json)
get key (obj fs) = ok (find_field key fs)
get key null = err other_error
get key (bool b) = err other_error
get key (num q) = err other_error
get key (text s) = err other_error
get key (arr xs) = err other_error

abbrev pub present : Option Json → Result Json
present (some v) = ok v
present none = err key_error

-- `x[key]` with a text as the key.
abbrev pub at_key : String → Json → Result Json
at_key key (obj fs) = present (find_field key fs)
at_key key null = err other_error
at_key key (bool b) = err other_error
at_key key (num q) = err other_error
at_key key (text s) = err other_error
at_key key (arr xs) = err other_error

-- `for y in x`, for a list.
abbrev pub elements : Json → Result (List Json)
elements (arr xs) = ok (to_list xs)
elements null = err other_error
elements (bool b) = err other_error
elements (num q) = err other_error
elements (text s) = err other_error
elements (obj fs) = err other_error

abbrev pub keys_of : Fields → List Json
keys_of end = []
keys_of (field k v fs) = text k ∷ keys_of fs

abbrev pub chars_of : String → List Json
chars_of Text.[] = []
chars_of (Text.◌∷◌ ch s) = text (Text.◌∷◌ ch Text.[]) ∷ chars_of s

-- `for y in x`, for any value: a dictionary gives its keys, and a text its characters.
abbrev pub iterate : Json → Result (List Json)
iterate (arr xs) = ok (to_list xs)
iterate (obj fs) = ok (keys_of fs)
iterate (text s) = ok (chars_of s)
iterate null = err other_error
iterate (bool b) = err other_error
iterate (num q) = err other_error

-- A text where the code takes one as it is.
abbrev pub as_text : Json → Result String
as_text (text s) = ok s
as_text null = err other_error
as_text (bool b) = err other_error
as_text (num q) = err other_error
as_text (arr xs) = err other_error
as_text (obj fs) = err other_error

-- `Decimal(str(x))`
abbrev pub decimal : (String → Result ℚ) → Json → Result ℚ
decimal parse (num q) = ok q
decimal parse (text s) = parse s
decimal parse null = err arithmetic_error
decimal parse (bool b) = err arithmetic_error
decimal parse (arr xs) = err arithmetic_error
decimal parse (obj fs) = err arithmetic_error

-- `x.get(key, default)`
abbrev pub or_json : Json → Option Json → Json
or_json default none = default
or_json default (some v) = v

-- `x.get(key) or default`
abbrev pub or_truthy : Json → Option Json → Json
or_truthy default none = default
or_truthy default (some v) = if truthy v then v else default

abbrev pub first_of : List Json → Result Json
first_of [] = err other_error
first_of (x ∷ xs) = ok x

abbrev pub nth : ℕ → List Json → Result Json
nth i [] = err other_error
nth zero (x ∷ xs) = ok x
nth (suc i) (x ∷ xs) = nth i xs

-- `x[i]` of a list.
abbrev pub at_index : ℕ → Json → Result Json
at_index i (arr xs) = nth i (to_list xs)
at_index i null = err other_error
at_index i (bool b) = err other_error
at_index i (num q) = err other_error
at_index i (text s) = err other_error
at_index i (obj fs) = err other_error

-- `x == text`
abbrev pub is_text : String → Json → Bool
is_text s (text t) = t == s
is_text s null = false
is_text s (bool b) = false
is_text s (num q) = false
is_text s (arr xs) = false
is_text s (obj fs) = false

abbrev pub is_list : Json → Bool
is_list (arr xs) = true
is_list null = false
is_list (bool b) = false
is_list (num q) = false
is_list (text s) = false
is_list (obj fs) = false

abbrev pub is_dict : Json → Bool
is_dict (obj fs) = true
is_dict null = false
is_dict (bool b) = false
is_dict (num q) = false
is_dict (text s) = false
is_dict (arr xs) = false

-- `Decimal(text)`, `int(x)` and `str(x)`, as the code calls them.
pub record Reader : Type 0 where
  pub parse : String → Result ℚ
  pub int : Json → Result ℕ
  pub show : Json → String
