-- ===== src/PullRequests.antt =====
-- src/worker_harness/pr.py: the checks on the text of a pull request, and which address is its own. The
-- calls of herdr between them are outside.
pub mod Examples
use Prim.Native.Char.{code}
use Prim.Native.String as Text
use Prim.Native.String.{◌∷◌ as cons}
use Prim.Native.String.{String}
use worker_harness.Base.{
  ℕ, Bool, true, false, ◌&&◌, ◌||◌, not, Option, none, some, List, [], ◌∷◌, leb, ◌==◌, nat_eq,
  string_eq, if◌then◌else◌, is_empty, is_space, strip, rstrip, lstrip, prefix, starts_with,
  text_append,
}
use worker_harness.Paths.{push_char}
use worker_harness.Table.{select}

abbrev pub pr_sections : List String
pr_sections =
    "## Task" ∷ "## Planned implementation" ∷ "## Deviations and issues"
    ∷ "## Surprises and decisions" ∷ "## Outcome" ∷ "## Change size and architecture impact" ∷ []

abbrev is_line_break : ℕ → Bool
is_line_break c =
    (leb 10 c && leb c 13) || (leb 28 c && leb c 30) || c == 133 || c == 8232 || c == 8233

-- `s.splitlines()`; a carriage return before a line feed ends no line of its own.
unfoldable pub split_lines : String → List String
split_lines Text.[] = []
split_lines (cons c s) =
    let rest = split_lines s in
    if code c == 13 && starts_with "\n" s
    then rest
    else if is_line_break (code c)
    then "" ∷ rest
    else push_char c rest

-- `re.fullmatch(rf"{re.escape(section)}\s*", line)` of a section without white space at its end
abbrev pub is_heading : String → String → Bool
is_heading section line = rstrip line == section

unfoldable pub has_line : (String → Bool) → List String → Bool
has_line test [] = false
has_line test (l ∷ ls) = test l || has_line test ls

unfoldable pub missing_sections : String → List String
missing_sections summary =
    select (λ section. not (has_line (is_heading section) (split_lines summary))) pr_sections

-- The lines that are left, and whether the task section has begun.
unfoldable pub title_from : Bool → List String → Option String
title_from in_task [] = none
title_from in_task (l ∷ ls) =
    let in_section = title_from true ls in
    let rest = title_from in_task ls in
    if is_heading "## Task" l
    then in_section
    else if in_task && starts_with "## " l
    then none
    else if in_task && not (is_empty (strip l))
    then some (prefix 72 (strip l))
    else rest

-- `_task_title`; `none` is its ValueError.
unfoldable pub task_title : String → Option String
task_title summary = title_from false (split_lines summary)

-- What follows a prefix.
unfoldable pub after_prefix : String → String → Option String
after_prefix Text.[] s = some s
after_prefix (cons c t) Text.[] = none
after_prefix (cons c t) (cons d s) = if code c == code d then after_prefix t s else none

unfoldable pub all_digits : String → Bool
all_digits Text.[] = true
all_digits (cons c s) = leb 48 (code c) && leb (code c) 57 && all_digits s

-- `[1-9][0-9]*`
unfoldable pub is_number : String → Bool
is_number Text.[] = false
is_number (cons c s) = leb 49 (code c) && leb (code c) 57 && all_digits s

unfoldable pub is_pr_url : String → String → Bool
is_pr_url remote line =
    elim (after_prefix (text_append "https://github.com/" (text_append remote "/pull/")) line)
      as (λ _. Bool) [ none ↦ false | some number ↦ is_number number ]

-- The last line of the output that is an address of a pull request of the project.
unfoldable pub last_url : String → List String → Option String
last_url remote [] = none
last_url remote (l ∷ ls) = elim (last_url remote ls) as (λ _. Option String) [
  | some url ↦ some url
  | none ↦ if is_pr_url remote (strip l) then some (strip l) else none
]

unfoldable pub opened_url : String → String → Option String
opened_url remote output = last_url remote (split_lines output)
