-- ===== src/SharedData/Safe.antt =====
-- What a path that passed validation can be, and what an advertised path can reach.
use Prim.Native.Char.{Char}
use mathlib.Core.List.{append-nil}
use Prim.Native.String.{String}
use text.Mathlib.TextEquality.{eq_iff, Char-path}
use text.Mathlib.TextLemmas.{nil-append, cons-append, append_assoc}
use worker_harness.Base.{
  Bool, true, false, List, [], ◌∷◌, ◌++◌, ◌≡◌, ◌⊎◌, inl, inr, refl, sym, subst, ap, ◌∙◌, arith,
  ◌==◌, nat_eq, string_eq, string_discrete, starts_with, is_empty, text_append, Bool-cases,
}
use worker_harness.Paths.{
  is_slash, push_char, split_path, is_part, path_root, parse_path, render_path, mem_text,
  join_parts,
}
use worker_harness.Paths.RoundTrip.{
  parse_path-IsPath, parse_path-render_path, slash-text_append, slashes-text_append,
  split_path-slash,
}
use worker_harness.SharedData.{
  Checked, ok, refused, validate_data_path, is_below, advertises, is_below_any,
  is_advertised_data_path,
}
use worker_harness.Table.{select}

parse_path-normal : (s : String) → parse_path (render_path (parse_path s)) ≡ parse_path s
parse_path-normal s = parse_path-render_path (parse_path s) (parse_path-IsPath s)

starts_with-nil : (s : String) → starts_with "" s ≡ true
unfolding starts_with
starts_with-nil s = refl

starts_with-shown :
    (r j : String)
    → (r ≡ "/") ⊎ (r ≡ "//")
    → (starts_with "/" (text_append r j) ≡ true) × (is_empty (text_append r j) ≡ false)
unfolding starts_with
starts_with-shown r j (inl e) = rw e (rw (slash-text_append j) (refl, refl))
starts_with-shown r j (inr e) = rw e (rw (slashes-text_append j) (refl, refl))

rooted : (s : String) → starts_with "/" s ≡ true → (path_root s ≡ "/") ⊎ (path_root s ≡ "//")
unfolding path_root
rooted s h = ground arith

starts_with-render_path :
    (s : String) → starts_with "/" s ≡ true → starts_with "/" (render_path (parse_path s)) ≡ true
unfolding render_path parse_path
starts_with-render_path s h =
    let (first, full) =
      starts_with-shown (path_root s) (join_parts (select is_part (split_path s))) (rooted s h) in
    rw full first

-- A path that passes is absolute, is not the root `/`, holds no `..`, and passes unchanged.
pub record IsSafe (q : String) : Type 0 where
  pub absolute : starts_with "/" q ≡ true
  pub not_root : (q == "/") ≡ false
  pub no_parent : mem_text ".." (parse_path q).parts ≡ false
  pub unchanged : validate_data_path q ≡ ok q

-- A path that passes is absolute, is not `/`, has no part `..`, and is its own normal form: it passes
-- again and comes out unchanged.
pub validate_data_path-IsSafe : (s : String) {q : String} → validate_data_path s ≡ ok q → IsSafe q
unfolding validate_data_path
validate_data_path-IsSafe s {q} e =
    let same : q ≡ render_path (parse_path s) = ground arith in
    let again = ap parse_path same ∙ parse_path-normal s in
    let first : starts_with "/" q ≡ true =
      subst (λ t. starts_with "/" t ≡ true) (sym same) (starts_with-render_path s (ground arith)) in
    record {
      absolute = first;
      not_root = ground arith;
      no_parent = rw again (ground arith);
      unchanged = unfold validate_data_path in rw (first, again) (ground arith);
    }

root-absolute : (s : String) → path_root s ≡ "//" → starts_with "/" s ≡ true
unfolding path_root starts_with
root-absolute String.[] h = absurd (ground (arith, eq_iff "" "//"))
root-absolute (String.◌∷◌ c s) h = ground (arith, eq_iff "" "//")

-- A path of two slashes and nothing that counts after them, which is the filesystem root too, passes as `//`.
pub validate_data_path-double_root :
    (s : String)
    → (parse_path s).root ≡ "//"
    → (parse_path s).parts ≡ []
    → validate_data_path s ≡ ok "//"
unfolding validate_data_path render_path join_parts mem_text string_discrete
validate_data_path-double_root s r e = rw (r, e, root-absolute s (unfold parse_path in r)) refl

split_path_nonempty : (s : String) → (x : String) × (xs : List String) × (split_path s ≡ x ∷ xs)
unfolding split_path push_char
split_path_nonempty String.[] = ("", [], refl)
split_path_nonempty (String.◌∷◌ c s) = elim (Bool-cases (is_slash c)) [
  | inl e ↦ ("", split_path s, rw e refl)
  | inr e ↦ let (x, xs, f) = split_path_nonempty s in (String.◌∷◌ c x, xs, rw e (rw f refl))
]

push_char-append :
    (c : Char) (s : String) (ys : List String)
    → push_char c (split_path s ++ ys) ≡ push_char c (split_path s) ++ ys
unfolding push_char
push_char-append c s ys = let (x, xs, e) = split_path_nonempty s in rw e refl

split_path-joined :
    (x r : String) → split_path (text_append x (text_append "/" r)) ≡ split_path x ++ split_path r
unfolding split_path push_char
split_path-joined String.[] r = rw nil-append (split_path-slash r)
split_path-joined (String.◌∷◌ c x) r =
    rw cons-append (ground (arith, split_path-joined x r, push_char-append c x (split_path r)))

starts_with-split :
    (x s : String) → starts_with x s ≡ true → (rest : String) × (s ≡ text_append x rest)
unfolding starts_with
starts_with-split String.[] s h = (s, sym (nil-append s))
starts_with-split (String.◌∷◌ c x) String.[] h = absurd (ground arith)
starts_with-split (String.◌∷◌ c x) (String.◌∷◌ d s) h =
    let (rest, e) = starts_with-split x s (ground arith) in
    let same = Char-path d c (ground arith) in (rest, cc (cons-append c x rest))

select-joined :
    (xs ys : List String) → select is_part (xs ++ ys) ≡ select is_part xs ++ select is_part ys
unfolding select
select-joined [] ys = refl
select-joined (x ∷ xs) ys = ground (arith, select-joined xs ys)

-- `candidate` lies in `root`: its parts are those of `root` and then some.
abbrev pub Below : String → String → Type 0
Below candidate root =
    (rest : List String) × ((parse_path candidate).parts ≡ (parse_path root).parts ++ rest)

is_below-Below : (candidate root : String) → is_below candidate root ≡ true → Below candidate root
is_below-Below candidate root h = elim (Bool-cases (candidate == root)) [
  | inl same ↦ ([], rw ((string_eq.eq?_iff candidate root).0 same) (sym (append-nil _)))
  | inr other ↦
      let (rest, e) = starts_with-split (text_append root "/") candidate (ground arith) in
      (
        (parse_path rest).parts,
        unfold parse_path in rw (e, append_assoc, split_path-joined, select-joined) refl,
      )
]

-- An advertised root that passes validation, and holds the candidate.
pub data Reaches (candidate : String) : List String → Type 0 where
  here :
      {root : String} {roots : List String} {r : String}
      → validate_data_path root ≡ ok r
      → Below candidate r
      → Reaches candidate (root ∷ roots)
  there :
      {root : String} {roots : List String}
      → Reaches candidate roots
      → Reaches candidate (root ∷ roots)

advertises-cases :
    (candidate : String) (v : Checked String)
    → advertises candidate v ≡ true
    → (r : String) × (v ≡ ok r) × Below candidate r
advertises-cases candidate (refused e) h = absurd (ground arith)
advertises-cases candidate (ok r) h = (r, refl, is_below-Below candidate r h)

is_below_any-Reaches :
    (candidate : String) (roots : List String)
    → is_below_any candidate roots ≡ true
    → Reaches candidate roots
unfolding is_below_any
is_below_any-Reaches candidate [] h = absurd (ground arith)
is_below_any-Reaches candidate (root ∷ roots) h =
    elim (Bool-cases (advertises candidate (validate_data_path root))) [
      | inl e ↦
          let (r, valid, below) = advertises-cases candidate (validate_data_path root) e in
          here valid below
      | inr e ↦ there (is_below_any-Reaches candidate roots (ground arith))
    ]

-- A path that may be copied has no `..` and lies, by its parts, in an advertised path that is safe
-- itself: a name that merely begins like an advertised one does not pass.
pub is_advertised_data_path_sound :
    (path : String) (advertised : List String)
    → is_advertised_data_path path advertised ≡ ok true
    → (candidate : String) × (validate_data_path path ≡ ok candidate)
      × IsSafe candidate
      × Reaches candidate advertised
unfolding is_advertised_data_path
is_advertised_data_path_sound path advertised h = by_result (validate_data_path path) refl h
  where
    by_result :
        (v : Checked String)
        → validate_data_path path ≡ v
        → elim v as (λ _. Checked Bool) [
          | refused e ↦ refused e
          | ok c ↦ ok (is_below_any c advertised)
        ]
          ≡ ok true
        → (candidate : String) × (validate_data_path path ≡ ok candidate)
          × IsSafe candidate
          × Reaches candidate advertised
    by_result (refused e) same h = absurd (ground arith)
    by_result (ok c) same h = (
      c,
      same,
      validate_data_path-IsSafe path same,
      is_below_any-Reaches c advertised (ground arith),
    )
