-- ===== src/SharedData/Examples.antt =====
-- Paths under a bind root.
use worker_harness.Base.{String, true, [], ◌∷◌, ◌≡◌, refl, inl, inr, starts_with, string_discrete}
use worker_harness.Paths.{
  PosixPath, split_path, push_char, parse_path, path_root, render_path, join_parts, mem_text,
  has_char,
}
use worker_harness.Paths.RoundTrip.{IsPath, parse_path-render_path}
use worker_harness.SharedData.{ok, validate_data_path, is_below_any, is_advertised_data_path}
use worker_harness.SharedData.Safe.{
  IsSafe, Reaches, validate_data_path-IsSafe, is_advertised_data_path_sound,
}
use worker_harness.Table.{select}

validated : validate_data_path "/data/./set//" ≡ ok "/data/set"
unfolding validate_data_path parse_path path_root split_path push_char select render_path join_parts
    mem_text starts_with string_discrete
validated = refl

validate_data_path-IsSafe_example : IsSafe "/data/set"
validate_data_path-IsSafe_example = validate_data_path-IsSafe "/data/./set//" validated

double_root : parse_path "//." ≡ record { root = "//"; parts = [] }
unfolding parse_path path_root split_path push_char select starts_with string_discrete
double_root = refl

advertised : is_advertised_data_path "/data/set/a" ("/data/set" ∷ []) ≡ ok true
unfolding is_advertised_data_path is_below_any validate_data_path parse_path path_root split_path
    push_char select render_path join_parts mem_text starts_with string_discrete
advertised = refl

is_advertised_data_path_sound_example :
    (candidate : String) × (validate_data_path "/data/set/a" ≡ ok candidate)
    × IsSafe candidate
    × Reaches candidate ("/data/set" ∷ [])
is_advertised_data_path_sound_example =
    is_advertised_data_path_sound "/data/set/a" ("/data/set" ∷ []) advertised

abbrev path : PosixPath
path = record { root = "/"; parts = "data" ∷ "set" ∷ [] }

path-IsPath : IsPath path
unfolding has_char string_discrete
path-IsPath = record { root_is = inr (inl refl); parts_are = ((refl, refl), ((refl, refl), tt)) }

parse_path-render_path_example : parse_path (render_path path) ≡ path
parse_path-render_path_example = parse_path-render_path path path-IsPath
