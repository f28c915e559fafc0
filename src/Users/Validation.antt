-- ===== src/Users/Validation.antt =====
-- The validation of request bodies: the first part of plugins/users/services/directory-service.ts and
-- permission-validation.ts. The regular expressions are tests on the characters.
use cli_server_node.Common.{
  ℕ, Bool, true, false, not, ◌||◌, ◌&&◌, Option, none, some, List, [], ◌∷◌, ◌++◌, Text, codes,
  text_eq, split_on, has_code, is_nil, ltb, leb, ◌==◌, length, take, all, String,
}
use cli_server_node.Users.{UsersError}
use cli_server_node.Users.Json.{
  Json, null, boolean, string, array, object, Fields, no_fields, field_of, strings_of, json_bytes,
}
use cli_server_node.Users.Actions.{
  Action, Done, done, pure, raise, raise_if, ◌>>=◌, ◌>>◌, bad_request, has_control_chars,
  strip_controls,
}

abbrev pub is_letter : ℕ → Bool
is_letter c = (leb b'A' c && leb c b'Z') || (leb b'a' c && leb c b'z')

abbrev pub is_digit_code : ℕ → Bool
is_digit_code c = leb b'0' c && leb c b'9'

abbrev pub is_alnum : ℕ → Bool
is_alnum c = is_letter c || is_digit_code c

abbrev pub max_name_length : ℕ
max_name_length = 64

abbrev pub max_email_length : ℕ
max_email_length = 254

abbrev pub max_description_length : ℕ
max_description_length = 256

abbrev pub max_data_bytes : ℕ
max_data_bytes = 16384

abbrev pub max_home_dir_length : ℕ
max_home_dir_length = 1024

-- `[A-Za-z0-9._@-]`
abbrev is_name_code : ℕ → Bool
is_name_code c = is_alnum c || c == b'.' || c == b'_' || c == b'@' || c == b'-'

-- `NAME_RE`
unfoldable pub is_name : Text → Bool
is_name [] = false
is_name (c ∷ s) = is_alnum c && all is_name_code s

-- The characters of an atom of the local part.
abbrev is_atom_code : ℕ → Bool
is_atom_code c = is_alnum c || has_code c (codes "!#$%&'*+/=?^_`{|}~-")

abbrev is_atom : Text → Bool
is_atom s = not (is_nil s) && all is_atom_code s

abbrev is_label_code : ℕ → Bool
is_label_code c = is_alnum c || c == b'-'

-- All but the last character, and the last.
unfoldable pub ends_alnum : Text → Bool
ends_alnum [] = false
ends_alnum (c ∷ []) = is_alnum c
ends_alnum (c ∷ d ∷ s) = ends_alnum (d ∷ s)

-- `[A-Za-z0-9](?:[A-Za-z0-9-]{0,61}[A-Za-z0-9])?`
unfoldable pub is_label : Text → Bool
unfolding ends_alnum
is_label [] = false
is_label (c ∷ s) =
    is_alnum c && all is_label_code s && ends_alnum (c ∷ s) && leb (length (c ∷ s)) 63

-- Labels that end in a top-level domain, at least one before it.
unfoldable pub are_labels : List Text → Bool
unfolding is_label
are_labels [] = false
are_labels (tld ∷ []) = false
are_labels (label ∷ tld ∷ []) =
    is_label label && all is_letter tld && leb 2 (length tld) && leb (length tld) 63
are_labels (label ∷ next ∷ more ∷ rest) = is_label label && are_labels (next ∷ more ∷ rest)

-- The parts of an address before and after its only `@`.
unfoldable pub is_address : List Text → Bool
unfolding are_labels
is_address (before ∷ domain ∷ []) =
    leb 1 (length before)
    && leb (length before) 64
    && all is_atom (split_on b'.' before)
    && (text_eq domain (codes "localhost") || are_labels (split_on b'.' domain))
is_address _ = false

-- `EMAIL_RE`
unfoldable pub is_email : Text → Bool
unfolding is_address
is_email value = is_address (split_on b'@' value)

abbrev pub after_field : Text → String → Text
after_field name message = name ++ codes message

unfoldable pub validate_name : Text → Text → Action Text
unfolding is_name
validate_name value name = do
  raise_if (ltb (length value) 1 || ltb max_name_length (length value) || not (is_name value)) (
      bad_request (
        after_field name
          " must be 1-64 characters of [A-Za-z0-9._@-], starting with a letter or digit"))
  pure value

unfoldable pub validate_email : Text → Action Text
unfolding is_email
validate_email value = do
  raise_if (ltb max_email_length (length value) || has_control_chars value || not (is_email value))
      (bad_request
        (codes "email must be a valid address (name@example.com, at most 254 characters)"))
  pure value

-- `max_text` is the text of `max`.
unfoldable pub validate_free_text : Text → Text → ℕ → String → Action Text
validate_free_text value name max max_text = do
  raise_if (ltb max (length value)) (
      bad_request (after_field name " must be at most " ++ (codes max_text ++ codes " characters")))
  raise_if (has_control_chars value)
      (bad_request (after_field name " must not contain control characters"))
  pure value

unfoldable pub validate_data : Fields → Action Fields
validate_data value = do
  raise_if (ltb max_data_bytes (json_bytes (object value)))
      (bad_request (codes "data must be at most 16 KB when serialized"))
  pure value

abbrev pub is_missing : Option Json → Bool
is_missing none = true
is_missing (some null) = true
is_missing _ = false

abbrev required_of : Text → UsersError
required_of name = bad_request (after_field name " is required")

-- `stringField` with `required`.
abbrev pub required_text : Text → Option Json → Action Text
required_text name (some (string t)) = raise_if (is_nil t) (required_of name) >> pure t
required_text name _ = raise (required_of name)

-- `stringField` without it.
abbrev pub optional_text : Text → Option Json → Action (Option Text)
optional_text name none = pure none
optional_text name (some null) = pure none
optional_text name (some (string t)) = pure (some t)
optional_text name (some _) = raise (bad_request (after_field name " must be a string"))

unfoldable pub required_string : Fields → Text → Action Text
required_string body name = required_text name (field_of name body)

unfoldable pub optional_string : Fields → Text → Action (Option Text)
optional_string body name = optional_text name (field_of name body)

abbrev pub texts_of : Text → Option Json → Action (Option (List Text))
texts_of name none = pure none
texts_of name (some null) = pure none
texts_of name (some (array items)) = elim (strings_of items) [
  | none ↦ raise (bad_request (after_field name " must be an array of strings"))
  | some ts ↦ pure (some ts)
]
texts_of name (some _) = raise (bad_request (after_field name " must be an array of strings"))

unfoldable pub optional_string_array : Fields → Text → Action (Option (List Text))
optional_string_array body name = texts_of name (field_of name body)

abbrev pub flag_of : Text → Option Json → Action (Option Bool)
flag_of name none = pure none
flag_of name (some null) = pure none
flag_of name (some (boolean b)) = pure (some b)
flag_of name (some _) = raise (bad_request (after_field name " must be a boolean"))

unfoldable pub optional_boolean : Fields → Text → Action (Option Bool)
optional_boolean body name = flag_of name (field_of name body)

abbrev pub fields_of : Text → Option Json → Action (Option Fields)
fields_of name none = pure none
fields_of name (some null) = pure none
fields_of name (some (object fs)) = pure (some fs)
fields_of name (some _) = raise (bad_request (after_field name " must be an object"))

unfoldable pub optional_object : Fields → Text → Action (Option Fields)
optional_object body name = fields_of name (field_of name body)

-- The check of a value that is given.
abbrev pub checked : {A : Type 0} → (A → Action A) → Option A → Action (Option A)
checked check none = pure none
checked check (some a) = check a >>= λ b. pure (some b)

abbrev body_object : Option Json → Action Fields
body_object none = pure no_fields
body_object (some null) = pure no_fields
body_object (some (object fs)) = pure fs
body_object (some (string [])) = pure no_fields
body_object (some _) = raise (bad_request (codes "request body must be a JSON object"))

unfoldable pub body_of : Option Json → Action Fields
body_of body = body_object body

abbrev pub max_permission_length : ℕ
max_permission_length = 128

abbrev pub max_permissions_per_group : ℕ
max_permissions_per_group = 100

abbrev is_segment_code : ℕ → Bool
is_segment_code c = is_alnum c || c == b'_' || c == b'.' || c == b'-'

abbrev is_segment : Text → Bool
is_segment s = not (is_nil s) && all is_segment_code s

abbrev is_star : Text → Bool
is_star s = text_eq s (codes "*")

-- `PERMISSION_RE`, on the segments between colons.
abbrev pub are_segments : List Text → Bool
are_segments [] = false
are_segments (s ∷ []) = is_star s || is_segment s
are_segments (s ∷ rest) = is_segment s && all (λ r. is_segment r || is_star r) rest

unfoldable pub is_valid_permission : Text → Bool
is_valid_permission p = leb (length p) max_permission_length && are_segments (split_on b':' p)

-- The loop of `validatePermissions`.
unfoldable pub check_permissions : List Text → Action Done
unfolding is_valid_permission
check_permissions [] = done
check_permissions (p ∷ ps) =
    raise_if (not (is_valid_permission p))
      (bad_request (codes "invalid permission: " ++ strip_controls (take max_permission_length p)))
    >> check_permissions ps

unfoldable pub validate_permissions : List Text → Action (List Text)
unfolding check_permissions
validate_permissions values = do
  raise_if (ltb max_permissions_per_group (length values))
      (bad_request (codes "a group may have at most 100 permissions"))
  check_permissions values
  pure values
