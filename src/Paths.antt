-- ===== src/Paths.antt =====
-- What the program uses of Python's `PurePosixPath`, and the text methods on paths.
pub mod RoundTrip
use Prim.Native.Char.{Char, code}
use Prim.Native.String.{String}
use worker_harness.Base.{
  ℕ, Bool, true, false, ◌&&◌, ◌||◌, not, List, [], ◌∷◌, ◌==◌, nat_eq, string_eq, if◌then◌else◌,
  starts_with, is_empty, text_append,
}
use worker_harness.Table.{select}

abbrev pub slash : ℕ
slash = 47

abbrev pub is_slash : Char → Bool
is_slash c = code c == slash

-- `c in s`
unfoldable pub has_char : ℕ → String → Bool
has_char k String.[] = false
has_char k (String.◌∷◌ c s) = code c == k || has_char k s

-- `s.rstrip(c)`
unfoldable pub rstrip_char : ℕ → String → String
rstrip_char k String.[] = ""
rstrip_char k (String.◌∷◌ c s) =
    let rest = rstrip_char k s in if code c == k && is_empty rest then "" else String.◌∷◌ c rest

-- `s.rsplit("/", 1)[-1]`
unfoldable pub base_name : String → String
base_name String.[] = ""
base_name (String.◌∷◌ c s) =
    let rest = base_name s in
    if has_char slash s then rest else if is_slash c then s else String.◌∷◌ c s

unfoldable pub push_char : Char → List String → List String
push_char c [] = String.◌∷◌ c "" ∷ []
push_char c (x ∷ xs) = String.◌∷◌ c x ∷ xs

-- `s.split("/")`
unfoldable pub split_path : String → List String
split_path String.[] = "" ∷ []
split_path (String.◌∷◌ c s) =
    let rest = split_path s in if is_slash c then "" ∷ rest else push_char c rest

pub record PosixPath : Type 0 where
  pub root : String
  pub parts : List String

-- What a path keeps of the pieces between slashes.
abbrev pub is_part : String → Bool
is_part x = not (x == "" || x == ".")

unfoldable pub path_root : String → String
path_root s =
    if starts_with "///" s
    then "/"
    else if starts_with "//" s
    then "//"
    else if starts_with "/" s
    then "/"
    else ""

-- `PurePosixPath(s)`
unfoldable pub parse_path : String → PosixPath
parse_path s = record { root = path_root s; parts = select is_part (split_path s) }

-- `"/".join(parts)`
unfoldable pub join_parts : List String → String
join_parts [] = ""
join_parts (x ∷ []) = x
join_parts (x ∷ y ∷ xs) = text_append x (text_append "/" (join_parts (y ∷ xs)))

-- `str(path)`
unfoldable pub render_path : PosixPath → String
render_path p =
    let text = text_append p.root (join_parts p.parts) in if is_empty text then "." else text

-- `x in xs`
unfoldable pub mem_text : String → List String → Bool
mem_text x [] = false
mem_text x (y ∷ ys) = y == x || mem_text x ys

unfoldable pub is_prefix : List String → List String → Bool
is_prefix [] ys = true
is_prefix (x ∷ xs) [] = false
is_prefix (x ∷ xs) (y ∷ ys) = x == y && is_prefix xs ys

-- `path.is_relative_to(base)`
unfoldable pub is_relative_to : PosixPath → PosixPath → Bool
is_relative_to p base = p.root == base.root && is_prefix base.parts p.parts
