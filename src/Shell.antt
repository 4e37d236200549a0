-- ===== src/Shell.antt =====
-- `shlex.quote` and the texts of numbers, which the command lines are built with.
use Prim.Native.Char.{code}
use Prim.Native.String.{String, [], ◌∷◌}
use worker_harness.Base.{
  ℕ, zero, suc, ◌+◌, ◌/◌, ◌%◌, Bool, true, ◌&&◌, ◌||◌, List, ltb, leb, ◌==◌, nat_eq, if◌then◌else◌,
  is_empty, text_append,
}

-- `[a-zA-Z0-9@%+=:,./-]` and the underscore
unfoldable pub is_safe : ℕ → Bool
is_safe c =
    (leb 97 c && leb c 122)
    || (leb 64 c && leb c 90)
    || (leb 43 c && leb c 58)
    || c == 37
    || c == 61
    || c == 95

unfoldable pub all_safe : String → Bool
all_safe [] = true
all_safe (c ∷ s) = is_safe (code c) && all_safe s

-- Each quote is closed, put between double quotes, and opened again.
unfoldable pub escape_quotes : String → String
escape_quotes [] = []
escape_quotes (c ∷ s) =
    let rest = escape_quotes s in if code c == 39 then text_append "'\"'\"'" rest else c ∷ rest

-- `shlex.quote(s)`
unfoldable pub quote : String → String
quote s =
    if is_empty s
    then "''"
    else if all_safe s
    then s
    else text_append "'" (text_append (escape_quotes s) "'")

abbrev digit : ℕ → String
digit n =
    if n == 0
    then "0"
    else if n == 1
    then "1"
    else if n == 2
    then "2"
    else if n == 3
    then "3"
    else if n == 4
    then "4"
    else if n == 5
    then "5"
    else if n == 6
    then "6"
    else if n == 7
    then "7"
    else if n == 8
    then "8"
    else "9"

-- The decimal digits of a number, on fuel: a number has fewer digits than its value plus one.
unfoldable pub digits : ℕ → ℕ → String
digits zero n = ""
digits (suc fuel) n =
    let rest = digits fuel (n / 10) in
    if ltb n 10 then digit n else text_append rest (digit (n % 10))

-- `str(n)`
unfoldable pub show : ℕ → String
show n = digits (n + 1) n

-- `sep.join(texts)`
unfoldable pub join : String → List String → String
join sep List.[] = ""
join sep (List.◌∷◌ x List.[]) = x
join sep (List.◌∷◌ x (List.◌∷◌ y xs)) = text_append x (text_append sep (join sep (List.◌∷◌ y xs)))
