-- ===== src/Paths/RoundTrip.antt =====
-- Paths: what is printed reads back as the same path.
use Prim.Native.String.{String}
use Prim.Native.Char.{Char}
use text.Mathlib.TextLemmas.{nil-append, cons-append, append-nil}
use worker_harness.Base.{
  subst, sym, true, false, List, [], ◌∷◌, ◌≡◌, refl, ◌⊎◌, inl, inr, arith, ap, ◌∙◌, nat_eq,
  string_eq, if◌then◌else◌, starts_with, is_empty, string_discrete, text_append, Bool-cases,
}
use worker_harness.Table.{select, All}
use worker_harness.Paths.{
  slash, is_slash, has_char, push_char, split_path, PosixPath, is_part, path_root, parse_path,
  join_parts, render_path,
}

-- A piece that a path keeps: neither empty nor a dot, and with no slash.
abbrev pub IsPart : String → Type 0
IsPart x = (is_part x ≡ true) × (has_char slash x ≡ false)

pub record IsPath (p : PosixPath) : Type 0 where
  pub root_is : (p.root ≡ "") ⊎ (p.root ≡ "/") ⊎ (p.root ≡ "//")
  pub parts_are : All IsPart p.parts

split_path-whole : (x : String) → has_char slash x ≡ false → split_path x ≡ x ∷ []
unfolding split_path has_char push_char
split_path-whole String.[] h = refl
split_path-whole (String.◌∷◌ c x) h = ground (arith, split_path-whole x)

-- A slash in front of a text, and a text in front of a slash.
pub slash-text_append : (r : String) → text_append "/" r ≡ String.◌∷◌ "/" r
slash-text_append r = cons-append "/" "" r ∙ ap (String.◌∷◌ "/") (nil-append r)

pub split_path-slash : (r : String) → split_path (text_append "/" r) ≡ "" ∷ split_path r
unfolding split_path
split_path-slash r = rw (slash-text_append r) refl

split_path-text_append :
    (x r : String)
    → has_char slash x ≡ false
    → split_path (text_append x (text_append "/" r)) ≡ x ∷ split_path r
unfolding split_path has_char push_char
split_path-text_append String.[] r h = rw nil-append (split_path-slash r)
split_path-text_append (String.◌∷◌ c x) r h =
    rw cons-append (ground (arith, split_path-text_append x r))

-- The pieces of a printed path are its parts.
split_path-join_parts :
    (x : String) (xs : List String)
    → All IsPart (x ∷ xs)
    → split_path (join_parts (x ∷ xs)) ≡ x ∷ xs
unfolding join_parts
split_path-join_parts x [] (p, tt) = split_path-whole x p.1
split_path-join_parts x (y ∷ ys) (p, rest) =
    split_path-text_append x (join_parts (y ∷ ys)) p.1
    ∙ ap (◌∷◌ x) (split_path-join_parts y ys rest)

select-parts : (xs : List String) → All IsPart xs → select is_part xs ≡ xs
unfolding select
select-parts [] h = refl
select-parts (x ∷ xs) (p, rest) = rw p.0 (ap (◌∷◌ x) (select-parts xs rest))

-- A text that begins with a part does not begin with a slash, and is not empty.
abbrev IsBare : String → Type 0
IsBare s = (starts_with "/" s ≡ false) × (is_empty s ≡ false)

IsPart-text_append : (x r : String) → IsPart x → IsBare (text_append x r)
unfolding starts_with has_char
IsPart-text_append String.[] r p = absurd (ground arith)
IsPart-text_append (String.◌∷◌ c x) r p = rw cons-append (ground arith)

IsBare-join_parts :
    (x : String) (xs : List String) → All IsPart (x ∷ xs) → IsBare (join_parts (x ∷ xs))
unfolding join_parts
IsBare-join_parts x [] (p, tt) = subst IsBare (append-nil x) (IsPart-text_append x "" p)
IsBare-join_parts x (y ∷ ys) (p, rest) =
    IsPart-text_append x (text_append "/" (join_parts (y ∷ ys))) p

pub slashes-text_append : (r : String) → text_append "//" r ≡ String.◌∷◌ "/" (String.◌∷◌ "/" r)
slashes-text_append r = cons-append "/" "/" r ∙ ap (String.◌∷◌ "/") (slash-text_append r)

path_root-bare : (j : String) → starts_with "/" j ≡ false → path_root j ≡ ""
unfolding path_root starts_with
path_root-bare String.[] h = refl
path_root-bare (String.◌∷◌ c j) h = ground arith

path_root-slash : (j : String) → starts_with "/" j ≡ false → path_root (text_append "/" j) ≡ "/"
unfolding path_root starts_with
path_root-slash String.[] h = refl
path_root-slash (String.◌∷◌ c j) h = rw slash-text_append (ground arith)

path_root-slashes : (j : String) → starts_with "/" j ≡ false → path_root (text_append "//" j) ≡ "//"
unfolding path_root starts_with
path_root-slashes String.[] h = refl
path_root-slashes (String.◌∷◌ c j) h = rw slashes-text_append (ground arith)

-- The printed parts: a slash or nothing in front, and what `split_path` finds in them.
pub record IsBody (j : String) (xs : List String) : Type 0 where
  pub no_root : starts_with "/" j ≡ false
  pub pieces : select is_part (split_path j) ≡ xs
  pub empty_if : is_empty j ≡ true → xs ≡ []

join_parts-IsBody : (xs : List String) → All IsPart xs → IsBody (join_parts xs) xs
join_parts-IsBody [] h =
    unfold join_parts starts_with select split_path string_discrete in
    record { no_root = refl; pieces = refl; empty_if = λ _. refl }
join_parts-IsBody (x ∷ xs) h = record {
  no_root = (IsBare-join_parts x xs h).0;
  pieces = rw (split_path-join_parts x xs h) (select-parts (x ∷ xs) h);
  empty_if = λ e. absurd (ground (arith, IsBare-join_parts x xs h));
}

abbrev shown : String → String
shown text = if is_empty text then "." else text

abbrev Reads : String → String → List String → Type 0
Reads r j xs = parse_path (shown (text_append r j)) ≡ record { root = r; parts = xs }

module _ (j : String) (xs : List String) (b : IsBody j xs) where
  Reads-bare : Reads "" j xs
  unfolding parse_path path_root starts_with split_path select push_char string_discrete
  Reads-bare = rw (nil-append j) (elim (Bool-cases (is_empty j)) [
    | inl e ↦ rw e (ap (λ (l : List String). record { root = ""; parts = l }) (sym (b.empty_if e)))
    | inr e ↦ rw e (unfold parse_path in ground (arith, path_root-bare j b.no_root, b.pieces))
  ])

  drop_piece : (r : String) → split_path r ≡ "" ∷ split_path j → select is_part (split_path r) ≡ xs
  unfolding select string_discrete
  drop_piece r e = rw e b.pieces

  Reads-slash : Reads "/" j xs
  Reads-slash = rw (slash-text_append j) (
      unfold parse_path in
      ground (
        arith,
        slash-text_append j,
        path_root-slash j b.no_root,
        drop_piece (text_append "/" j) (split_path-slash j),
      ))

  drop_pieces : select is_part (split_path (text_append "//" j)) ≡ xs
  unfolding select string_discrete split_path
  drop_pieces = rw (slashes-text_append j) b.pieces

  Reads-slashes : Reads "//" j xs
  Reads-slashes = rw (slashes-text_append j) (
      unfold parse_path in
      ground (arith, slashes-text_append j, path_root-slashes j b.no_root, drop_pieces))

  root-Reads : (r : String) → (r ≡ "") ⊎ (r ≡ "/") ⊎ (r ≡ "//") → Reads r j xs
  root-Reads r (inl e) = subst (λ t. Reads t j xs) (sym e) Reads-bare
  root-Reads r (inr (inl e)) = subst (λ t. Reads t j xs) (sym e) Reads-slash
  root-Reads r (inr (inr e)) = subst (λ t. Reads t j xs) (sym e) Reads-slashes

-- What is printed for a path reads back as that path.
pub parse_path-render_path : (p : PosixPath) → IsPath p → parse_path (render_path p) ≡ p
unfolding render_path
parse_path-render_path p h =
    root-Reads (join_parts p.parts) p.parts (join_parts-IsBody p.parts h.parts_are) p.root h.root_is

AllBare : List String → Type 0
AllBare = All (λ x. has_char slash x ≡ false)

push_char-AllBare :
    (c : Char) (xs : List String) → is_slash c ≡ false → AllBare xs → AllBare (push_char c xs)
unfolding AllBare push_char has_char
push_char-AllBare c [] h b = ground arith
push_char-AllBare c (x ∷ xs) h b = ground arith

split_path-AllBare : (s : String) → AllBare (split_path s)
unfolding AllBare split_path has_char
split_path-AllBare String.[] = (refl, tt)
split_path-AllBare (String.◌∷◌ c s) = elim (Bool-cases (is_slash c)) [
  | inl e ↦ rw e (refl, split_path-AllBare s)
  | inr e ↦ rw e (push_char-AllBare c (split_path s) e (split_path-AllBare s))
]

select-IsPart : (xs : List String) → AllBare xs → All IsPart (select is_part xs)
unfolding AllBare select
select-IsPart [] h = tt
select-IsPart (x ∷ xs) (p, rest) = elim (Bool-cases (is_part x)) [
  | inl e ↦ rw e ((e, p), select-IsPart xs rest)
  | inr e ↦ rw e (select-IsPart xs rest)
]

path_root-cases : (s : String) → (path_root s ≡ "") ⊎ (path_root s ≡ "/") ⊎ (path_root s ≡ "//")
unfolding path_root
path_root-cases s = ground arith

pub parse_path-IsPath : (s : String) → IsPath (parse_path s)
unfolding parse_path
parse_path-IsPath s = record {
  root_is = path_root-cases s;
  parts_are = select-IsPart (split_path s) (split_path-AllBare s);
}
