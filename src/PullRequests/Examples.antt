-- ===== src/PullRequests/Examples.antt =====
-- Summaries and outputs of `gh`.
use worker_harness.Base.{
  some, [], ◌∷◌, ◌≡◌, refl, strip, rstrip, lstrip, starts_with, prefix, string_discrete,
}
use worker_harness.Paths.{push_char}
use worker_harness.Table.{select}
use worker_harness.PullRequests.{
  split_lines, has_line, missing_sections, title_from, task_title, after_prefix, all_digits,
  is_number, is_pr_url, last_url, opened_url,
}

missing_all : missing_sections "## Task\nx" ≡ (
    "## Planned implementation" ∷ "## Deviations and issues" ∷ "## Surprises and decisions"
    ∷ "## Outcome" ∷ "## Change size and architecture impact" ∷ [])
unfolding missing_sections select has_line split_lines push_char rstrip starts_with string_discrete
missing_all = refl

title : task_title "intro\n## Task \r\n\nFix it \n## Outcome" ≡ some "Fix it"
unfolding task_title title_from split_lines push_char rstrip lstrip strip starts_with prefix
    string_discrete
title = refl

own_url :
    opened_url "me/x" "noise\n https://github.com/me/x/pull/12 \nhttps://github.com/me/y/pull/3"
    ≡ some "https://github.com/me/x/pull/12"
unfolding opened_url last_url is_pr_url after_prefix is_number all_digits split_lines push_char
    rstrip lstrip strip starts_with string_discrete
own_url = refl
