-- ===== src/Files.antt =====
-- plugins/filesystem/providers/in-memory-provider.ts: files in a tree of directories. The time is an
-- argument of the operations that read the clock; content is text.
pub mod Paths
pub mod Provider
pub mod Written
pub mod Removed
pub mod Untouched
pub mod Directories
mod Tests
use cli_server_node.Common.{
  ℕ, zero, suc, ◌+◌, Bool, true, false, not, ◌&&◌, ◌||◌, Option, none, some, List, [], ◌∷◌, ◌++◌,
  Text, codes, text_eq, split_on, starts_with, is_nil, filter, ltb, leb, ◌==◌, if◌then◌else◌,
}
use mathlib.Core.Option

pub record NodeInfo : Type 0 where
  pub name : Text
  pub created_at : ℕ
  pub modified_at : ℕ
  pub size : ℕ
  pub permissions : Text

-- A node, and the `Map` of a directory's children in insertion order.
mutual
  pub data FileNode : Type 0 where
    file : NodeInfo → Text → FileNode
    directory : NodeInfo → Children → FileNode

  pub data Children : Type 0 where
    no_child : Children
    child : Text → FileNode → Children → Children

pub data FileError : Type 0 where
  file_not_found is_a_directory not_a_directory file_exists : Text → FileError

pub data Result {ℓ} (A : Type ℓ) : Type ℓ where
  ok : A → Result A
  err : FileError → Result A

unfoldable pub get : Text → Children → Option FileNode
get name no_child = none
get name (child key node cs) = if text_eq key name then some node else get name cs

unfoldable pub set : Text → FileNode → Children → Children
set name new no_child = child name new no_child
set name new (child key node cs) =
    let rest = set name new cs in
    if text_eq key name then child name new cs else child key node rest

unfoldable pub delete : Text → Children → Children
delete name no_child = no_child
delete name (child key node cs) =
    let rest = delete name cs in if text_eq key name then rest else child key node rest

abbrev is_high_surrogate : ℕ → Bool
is_high_surrogate c = leb 55296 c && ltb c 56320

abbrev is_low_surrogate : ℕ → Bool
is_low_surrogate c = leb 56320 c && ltb c 57344

-- The bytes of a code unit; those of a high surrogate are counted with the next unit.
abbrev unit_length : ℕ → ℕ
unit_length c =
    if ltb c 128 then 1 else if ltb c 2048 then 2 else if is_high_surrogate c then 0 else 3

-- The bytes of what follows, and of a high surrogate before it that waits: four with a low one, and
-- three where it stands alone.
unfoldable pub utf8_length : Bool → Text → ℕ
utf8_length waits [] = if waits then 3 else 0
utf8_length waits (c ∷ s) =
    let rest = utf8_length (is_high_surrogate c) s in
    (if waits then (if is_low_surrogate c then 4 else 3 + unit_length c) else unit_length c) + rest

-- `Buffer.byteLength(content, 'utf-8')`
unfoldable pub byte_length : Text → ℕ
unfolding utf8_length
byte_length content = utf8_length false content

abbrev pub create_dir_node : ℕ → Text → FileNode
create_dir_node now name =
    directory
      (record {
        name = name;
        created_at = now;
        modified_at = now;
        size = 0;
        permissions = codes "755";
      })
      no_child

abbrev pub create_file_node : ℕ → Text → Text → FileNode
create_file_node now name content =
    file
      (record {
        name = name;
        created_at = now;
        modified_at = now;
        size = byte_length content;
        permissions = codes "644";
      })
      content

unfoldable pub collapse : Bool → Text → Text
collapse after [] = []
collapse after (c ∷ s) =
    let rest = collapse (c == b'/') s in if c == b'/' && after then rest else c ∷ rest

unfoldable pub strip : Text → Text
strip [] = []
strip (c ∷ s) = let rest = strip s in if c == b'/' && is_nil rest then [] else c ∷ rest

unfoldable pub normalize : Text → Text
normalize p = let n = strip (collapse false p) in if starts_with n (codes "/") then n else b'/' ∷ n

-- What stands before the last slash, and after it.
unfoldable pub split_last : Text → Option (Text × Text)
split_last [] = none
split_last (c ∷ s) = elim (split_last s) [
  | some (a, b) ↦ some (c ∷ a, b)
  | none ↦ if c == b'/' then some ([], s) else none
]

abbrev pub parent_of : Text → Option (Text × Text) → Text × Text
parent_of n none = (codes "/", n)
parent_of n (some (a, b)) = (if is_nil a then codes "/" else a, b)

unfoldable pub parent_and_name : Text → Text × Text
parent_and_name n = if text_eq n (codes "/") then (codes "/", []) else parent_of n (split_last n)

unfoldable pub parts : Text → List Text
parts n = filter (λ s. not (is_nil s)) (split_on b'/' n)

unfoldable pub walk : FileNode → List Text → Option FileNode
walk node [] = some node
walk (file info content) (part ∷ ps) = none
walk (directory info cs) (part ∷ ps) = elim (get part cs) [ none ↦ none | some node ↦ walk node ps ]
