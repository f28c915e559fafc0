-- ===== src/Users/Json.antt =====
-- The values of a request body, as JSON.parse gives them, and what the services read of them. A number
-- is given by its text, as `String(n)` writes it. Also the length of `JSON.stringify` in UTF-8.
use cli_server_node.Common.{
  ℕ, ◌+◌, ◌*◌, ◌-◌, Bool, true, false, ◌&&◌, ◌||◌, Option, none, some, List, [], ◌∷◌, Text, text_eq,
  ltb, leb, ◌==◌, if◌then◌else◌, length, is_nil,
}

mutual
  pub data Json : Type 0 where
    null : Json
    boolean : Bool → Json
    number : Text → Json
    string : Text → Json
    array : Items → Json
    object : Fields → Json

  pub data Items : Type 0 where
    no_items : Items
    item : Json → Items → Items

  pub data Fields : Type 0 where
    no_fields : Fields
    field : Text → Json → Fields → Fields

-- `body[key]`, which is undefined where the key is missing.
unfoldable pub field_of : Text → Fields → Option Json
field_of key no_fields = none
field_of key (field k v fs) = if text_eq k key then some v else field_of key fs

-- The strings of an array that holds nothing else, none of them empty.
unfoldable pub strings_of : Items → Option (List Text)
strings_of no_items = some []
strings_of (item (string t) rest) = elim (strings_of rest) [
  | none ↦ none
  | some ts ↦ if is_nil t then none else some (t ∷ ts)
]
strings_of (item _ rest) = none

-- The value of decimal digits.
unfoldable pub digits_from : ℕ → Text → Option ℕ
digits_from n [] = some n
digits_from n (c ∷ s) =
    let rest = digits_from (n * 10 + (c - b'0')) s in
    if leb b'0' c && leb c b'9' then rest else none

-- A natural number of such a text; `none` stands for all others.
unfoldable pub natural_of : Text → Option ℕ
natural_of [] = none
natural_of (c ∷ s) = digits_from 0 (c ∷ s)

is_high : ℕ → Bool
is_high c = leb 0xd800 c && leb c 0xdbff

is_low : ℕ → Bool
is_low c = leb 0xdc00 c && leb c 0xdfff

-- The bytes of a code unit in a JSON string; a high surrogate waits for the next unit.
unit_bytes : ℕ → ℕ
unit_bytes c =
    if is_high c
    then 0
    else if is_low c
    then 6
    else if c == b'"' || c == 92
    then 2
    else if c == 8 || c == 9 || c == 10 || c == 12 || c == 13
    then 2
    else if ltb c 32
    then 6
    else if ltb c 128
    then 1
    else if ltb c 2048
    then 2
    else 3

unfoldable pub units_bytes : Bool → Text → ℕ
unfolding unit_bytes is_high is_low
units_bytes waits [] = if waits then 6 else 0
units_bytes waits (c ∷ s) =
    let rest = units_bytes (is_high c) s in
    (if waits then (if is_low c then 4 else 6 + unit_bytes c) else unit_bytes c) + rest

unfoldable pub string_bytes : Text → ℕ
string_bytes t = 2 + units_bytes false t

unfoldable mutual
  pub json_bytes : Json → ℕ
  json_bytes null = 4
  json_bytes (boolean true) = 4
  json_bytes (boolean false) = 5
  json_bytes (number t) = length t
  json_bytes (string t) = string_bytes t
  json_bytes (array no_items) = 2
  json_bytes (array (item v rest)) = 2 + (json_bytes v + items_bytes rest)
  json_bytes (object no_fields) = 2
  json_bytes (object (field k v rest)) =
      2 + (string_bytes k + 1 + (json_bytes v + fields_bytes rest))

  pub items_bytes : Items → ℕ
  items_bytes no_items = 0
  items_bytes (item v rest) = 1 + (json_bytes v + items_bytes rest)

  pub fields_bytes : Fields → ℕ
  fields_bytes no_fields = 0
  fields_bytes (field k v rest) = 1 + (string_bytes k + 1 + (json_bytes v + fields_bytes rest))
