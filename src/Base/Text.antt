-- ===== src/Base/Text.antt =====
-- Python's text methods, by characters.
use Prim.Native.Nat.{ℕ, zero, suc}
use Prim.Native.Char.{Char, code}
use Prim.Native.String.{String, [], ◌∷◌, ◌++◌ as concat}
use mathlib.Core.Bool.{Bool, true, false, ◌&&◌, ◌||◌}
use worker_harness.Base.Tests.{leb, if◌then◌else◌}
use worker_harness.Base.Equality.{◌==◌, nat_eq}

-- `c.isspace()`
abbrev pub is_space : ℕ → Bool
is_space c =
    (leb 9 c && leb c 13)
    || (leb 28 c && leb c 32)
    || c == 133
    || c == 160
    || c == 5760
    || (leb 8192 c && leb c 8202)
    || c == 8232
    || c == 8233
    || c == 8239
    || c == 8287
    || c == 12288

unfoldable pub lstrip : String → String
lstrip [] = []
lstrip (c ∷ s) = let rest = lstrip s in if is_space (code c) then rest else c ∷ s

abbrev pub is_empty : String → Bool
is_empty [] = true
is_empty (c ∷ s) = false

unfoldable pub rstrip : String → String
rstrip [] = []
rstrip (c ∷ s) = let rest = rstrip s in if is_space (code c) && is_empty rest then [] else c ∷ rest

-- `s.strip()`
unfoldable pub strip : String → String
strip s = rstrip (lstrip s)

-- `s.replace(a, b)` of one character by another
unfoldable pub replace_char : Char → Char → String → String
replace_char a b [] = []
replace_char a b (c ∷ s) =
    let rest = replace_char a b s in if code c == code a then b ∷ rest else c ∷ rest

-- `s[:n]`
unfoldable pub prefix : ℕ → String → String
prefix zero s = []
prefix (suc n) [] = []
prefix (suc n) (c ∷ s) = c ∷ prefix n s

abbrev pub text_append : String → String → String
text_append = concat

-- `s.startswith(t)`, with the prefix first
unfoldable pub starts_with : String → String → Bool
starts_with [] s = true
starts_with (c ∷ t) [] = false
starts_with (c ∷ t) (d ∷ s) = code c == code d && starts_with t s
