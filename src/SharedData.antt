-- ===== src/SharedData.antt =====
-- src/worker_harness/data.py: which paths may be copied between workers, and the commands that copy.
pub mod Safe
pub mod Examples
use worker_harness.Base.{
  ℕ, String, Bool, true, false, ◌&&◌, ◌||◌, not, Option, none, some, List, [], ◌∷◌, ◌++◌, leb, ltb,
  ◌==◌, string_eq, if◌then◌else◌, starts_with, is_empty, text_append,
}
use worker_harness.Dict
use worker_harness.Dict.{Dict}
use worker_harness.Models.{Worker, is_online}
use worker_harness.Paths.{PosixPath, parse_path, render_path, mem_text}
use worker_harness.Shell.{quote, show, join}
use worker_harness.Table.{select}
use worker_harness.Table.Order.{order_by, text_le}

-- A `DataPathError` or `ValueError` with its message, or the value.
pub data Checked {ℓ} (A : Type ℓ) : Type ℓ where
  ok : A → Checked A
  refused : String → Checked A

unfoldable pub validate_data_path : String → Checked String
validate_data_path path =
    let parsed = parse_path path in
    let normalized = render_path parsed in
    if not (starts_with "/" path)
    then refused "path must be absolute"
    else if normalized == "/" || normalized == "." || mem_text ".." parsed.parts
    then refused "path must not be the filesystem root or contain '..'"
    else ok normalized

abbrev pub is_below : String → String → Bool
is_below candidate root = candidate == root || starts_with (text_append root "/") candidate

abbrev pub advertises : String → Checked String → Bool
advertises candidate (refused e) = false
advertises candidate (ok root) = is_below candidate root

-- The loop of `is_advertised_data_path`.
unfoldable pub is_below_any : String → List String → Bool
is_below_any candidate [] = false
is_below_any candidate (root ∷ roots) =
    advertises candidate (validate_data_path root) || is_below_any candidate roots

unfoldable pub is_advertised_data_path : String → List String → Checked Bool
is_advertised_data_path path advertised = elim (validate_data_path path) [
  | refused e ↦ refused e
  | ok candidate ↦ ok (is_below_any candidate advertised)
]

-- `set(paths)`, each path once.
unfoldable pub once : List String → List String
once [] = []
once (x ∷ xs) = x ∷ select (λ y. not (y == x)) (once xs)

abbrev Holders : Type 0
Holders = Dict (List (String × String))

-- The `defaultdict(list)`.
abbrev or_none : Option (List (String × String)) → List (String × String)
or_none none = []
or_none (some holders) = holders

abbrev add_holder : Worker → Holders → Checked String → Holders
add_holder w paths (refused e) = paths
add_holder w paths (ok path) =
    Dict.put path (or_none (Dict.get path paths) ++ (w.id, w.name) ∷ []) paths

unfoldable pub add_paths : Worker → List String → Holders → Holders
add_paths w [] paths = paths
add_paths w (x ∷ xs) paths = add_paths w xs (add_holder w paths (validate_data_path x))

unfoldable pub collect_paths : Bool → List Worker → Holders → Holders
collect_paths include_offline [] paths = paths
collect_paths include_offline (w ∷ ws) paths = collect_paths include_offline ws (
    if not include_offline && not (is_online w.status)
    then paths
    else add_paths w (order_by text_le (once w.data_paths)) paths)

unfoldable pub reverse_data_paths : Bool → List Worker → Holders
reverse_data_paths include_offline workers =
    order_by (λ a b. text_le a.0 b.0) (collect_paths include_offline workers [])

abbrev pub without_last : List String → List String
without_last [] = []
without_last (x ∷ []) = []
without_last (x ∷ y ∷ ys) = x ∷ without_last (y ∷ ys)

-- `str(PurePosixPath(path).parent)`
abbrev parent_path : String → String
parent_path path =
    let parsed = parse_path path in
    render_path (record parsed { parts = without_last parsed.parts })

unfoldable pub with_worker_dir : Worker → String → String
with_worker_dir w command =
    text_append "WH_DIR=" (join " " (quote (parent_path w.harness_dir) ∷ command ∷ []))

unfoldable pub source_export_command : String → String → ℕ → Checked String
source_export_command path transfer_id ttl_seconds = elim (validate_data_path path) [
  | refused e ↦ refused e
  | ok normalized ↦ ok (
      join " " (
        "/usr/local/lib/worker-harness/wh-data-export"
        ∷ "--path"
        ∷ quote normalized
        ∷ "--transfer-id"
        ∷ quote transfer_id
        ∷ "--ttl-seconds"
        ∷ show ttl_seconds
        ∷ []))
]

unfoldable pub source_cleanup_command : String → String
source_cleanup_command transfer_id = join " " (
    "/usr/local/lib/worker-harness/wh-data-export"
    ∷ "--cleanup"
    ∷ "--transfer-id"
    ∷ quote transfer_id
    ∷ [])

unfoldable pub destination_copy_command : String → ℕ → String → String → String → Checked String
destination_copy_command source_host source_port destination username password_file =
    if not (leb 22000 source_port && leb source_port 22999)
    then refused "source port is outside the reserved data range"
    else elim (validate_data_path destination) [
      | refused e ↦ refused e
      | ok normalized ↦ ok (
          join " " (
            "/usr/local/lib/worker-harness/wh-data-import"
            ∷ "--host"
            ∷ quote source_host
            ∷ "--port"
            ∷ show source_port
            ∷ "--destination"
            ∷ quote normalized
            ∷ "--username"
            ∷ quote username
            ∷ "--password-file"
            ∷ quote password_file
            ∷ []))
    ]
