-- ===== src/Machines/Checked.antt =====
-- Every machine and project that is loaded passed its checks.
use worker_harness.Base.{
  String, true, false, Option, none, some, [], ◌∷◌, ◌≡◌, ◌≤◌, ◌∙◌, ap, sym, subst, refl, arith, inl,
  inr, ◌==◌, string_eq, starts_with, is_empty, if◌then◌else◌, Bool-cases,
}
use worker_harness.Dict
use worker_harness.Dict.{Dict}
use worker_harness.Dict.Laws.{get-put, get-put-other}
use worker_harness.Paths.{slash, has_char, rstrip_char}
use worker_harness.Machines.{
  Project, Item, table, other, Document, unreadable, not_a_table, entries, project_of, load_entries,
  load_document, load_projects, text_of,
}
use worker_harness.Table.{All}

module _ {A : Type 0} (P : String → A → Type 0) where
  abbrev AllEntries : Dict A → Type 0
  AllEntries = All (λ e. P e.0 e.1)

  put-AllEntries :
      (k : String) (a : A) (d : Dict A) → P k a → AllEntries d → AllEntries (Dict.put k a d)
  unfolding Dict.put
  put-AllEntries k a [] p h = (p, tt)
  put-AllEntries k a ((j, b) ∷ d) p (q, rest) = elim (Bool-cases (j == k)) [
    | inl e ↦ rw e (p, rest)
    | inr e ↦ rw e (q, put-AllEntries k a d p rest)
  ]

  module _ (accept : String → Dict String → Option A)
      (sound : (name : String) (entry : Dict String) (a : A)
        → accept name entry ≡ some a
        → P name a) where
    accepted-AllEntries :
        (name : String) (r : Option A) (found : Dict A)
        → ((a : A) → r ≡ some a → P name a)
        → AllEntries found
        → AllEntries (elim r as (λ _. Dict A) [ none ↦ found | some a ↦ Dict.put name a found ])
    accepted-AllEntries name none found s h = h
    accepted-AllEntries name (some a) found s h = put-AllEntries name a found (s a refl) h

    load_entries-AllEntries :
        (es : Dict Item) (found : Dict A)
        → AllEntries found
        → AllEntries (load_entries accept es found)
    unfolding load_entries
    load_entries-AllEntries [] found h = h
    load_entries-AllEntries ((name, other) ∷ es) found h = load_entries-AllEntries es found h
    load_entries-AllEntries ((name, table entry) ∷ es) found h =
        load_entries-AllEntries es _
          (accepted-AllEntries name (accept name entry) found (sound name entry) h)

    load_document-AllEntries : (d : Document) → AllEntries (load_document accept d)
    unfolding load_document
    load_document-AllEntries unreadable = tt
    load_document-AllEntries not_a_table = tt
    load_document-AllEntries (entries es) = load_entries-AllEntries es [] tt

pub record IsProject (name : String) (p : Project) : Type 0 where
  pub named : p.name ≡ name
  pub machine_given : is_empty p.machine ≡ false
  pub repo_absolute : starts_with "/" p.repo ≡ true
  pub remote_slug : has_char slash p.remote ≡ true

project_of-IsProject :
    (name : String) (entry : Dict String) (p : Project)
    → project_of name entry ≡ some p
    → IsProject name p
unfolding project_of
project_of-IsProject name entry p e = record {
  named = ground arith;
  machine_given = ground arith;
  repo_absolute = ground arith;
  remote_slug = ground arith;
}

module _ {A : Type 0} (accept : String → Dict String → Option A) where
  -- What a later entry of another name leaves.
  accept_other :
      (name k : String) (item : Item) (found : Dict A)
      → (k == name) ≡ false
      → Dict.get name (load_entries accept ((k, item) ∷ []) found) ≡ Dict.get name found
  unfolding load_entries
  accept_other name k other found ne = refl
  accept_other name k (table entry) found ne = by_result (accept k entry)
    where
      by_result :
          (r : Option A)
          → Dict.get name (elim r as (λ _. Dict A) [ none ↦ found | some a ↦ Dict.put k a found ])
            ≡ Dict.get name found
      by_result none = refl
      by_result (some a) =
          get-put-other k name a found
            (λ same. absurd (ground (arith, same, string_eq.eq?_iff k name)))

  accept_own :
      (name : String) (entry : Dict String) (a : A) (found : Dict A)
      → accept name entry ≡ some a
      → Dict.get name (load_entries accept ((name, table entry) ∷ []) found) ≡ some a
  unfolding load_entries
  accept_own name entry a found accepted = by_result (accept name entry) accepted
    where
      by_result :
          (r : Option A)
          → r ≡ some a
          → Dict.get name
              (elim r as (λ _. Dict A) [ none ↦ found | some b ↦ Dict.put name b found ])
            ≡ some a
      by_result none h = absurd (ground arith)
      by_result (some b) h = get-put name b found ∙ h

  load_entries_split :
      (k : String) (item : Item) (es : Dict Item) (found : Dict A)
      → load_entries accept ((k, item) ∷ es) found
        ≡ load_entries accept es (load_entries accept ((k, item) ∷ []) found)
  unfolding load_entries
  load_entries_split k item es found = refl

  -- A name that no entry has keeps what was found.
  load_entries_absent :
      (name : String) (es : Dict Item) (found : Dict A)
      → Dict.count_key name es ≡ 0
      → Dict.get name (load_entries accept es found) ≡ Dict.get name found
  unfolding Dict.count_key
  load_entries_absent name [] found h = unfold load_entries in refl
  load_entries_absent name ((k, item) ∷ es) found h =
      ap (λ d. Dict.get name d) (load_entries_split k item es found)
      ∙ load_entries_absent name es _ (ground (arith, h))
      ∙ accept_other name k item found (ground (arith, h))

  -- An entry that is accepted is loaded, whatever the other entries are.
  load_entries_complete :
      (name : String) (es : Dict Item) (found : Dict A) (entry : Dict String) (a : A)
      → Dict.count_key name es ≤ 1
      → Dict.get name es ≡ some (table entry)
      → accept name entry ≡ some a
      → Dict.get name (load_entries accept es found) ≡ some a
  unfolding Dict.count_key Dict.get load_entries
  load_entries_complete name [] found entry a one e accepted = absurd (ground arith)
  load_entries_complete name ((k, item) ∷ es) found entry a one e accepted =
      elim (Bool-cases (k == name)) [
        | inr differs ↦
            load_entries_complete name es (load_entries accept ((k, item) ∷ []) found) entry a
              (ground (arith, one, differs)) (ground (arith, e, differs)) accepted
        | inl same ↦
            let alone =
              load_entries_absent name es (load_entries accept ((k, item) ∷ []) found)
                (ground (arith, one, same)) in
            let own : item ≡ table entry = ground (arith, e, same) in
            let key : k ≡ name = (string_eq.eq?_iff k name).0 same in
            alone
            ∙ subst (λ i. Dict.get name (load_entries accept ((k, i) ∷ []) found) ≡ some a)
                (sym own)
                (subst
                  (λ n. Dict.get name (load_entries accept ((n, table entry) ∷ []) found) ≡ some a)
                  (sym key) (accept_own name entry a found accepted))
      ]

-- An entry with a machine, an absolute repository and a remote with an owner.
pub record IsComplete (entry : Dict String) : Type 0 where
  pub machine_given : is_empty (text_of "machine" "" entry) ≡ false
  pub repo_absolute : starts_with "/" (rstrip_char slash (text_of "repo" "" entry)) ≡ true
  pub remote_slug : has_char slash (text_of "remote" "" entry) ≡ true

-- The project of an entry.
pub record IsOf (name : String) (entry : Dict String) (p : Project) : Type 0 where
  pub named : p.name ≡ name
  pub machine : p.machine ≡ text_of "machine" "" entry
  pub repo : p.repo ≡ rstrip_char slash (text_of "repo" "" entry)
  pub remote : p.remote ≡ text_of "remote" "" entry

project_of-IsOf :
    (name : String) (entry : Dict String)
    → IsComplete entry
    → (p : Project) × (project_of name entry ≡ some p) × IsOf name entry p
unfolding project_of
project_of-IsOf name entry h = (
  record {
    name = name;
    machine = text_of "machine" "" entry;
    repo = rstrip_char slash (text_of "repo" "" entry);
    remote = text_of "remote" "" entry;
    base_branch =
        if is_empty (text_of "base_branch" "main" entry)
        then "main"
        else text_of "base_branch" "main" entry;
  },
  ground (arith, h.machine_given, h.repo_absolute, h.remote_slug),
  record { named = refl; machine = refl; repo = refl; remote = refl },
)

-- Every project that is loaded is kept under its own name and has a machine, an absolute repository
-- and a remote with an owner, whatever the file holds. Every complete entry whose name occurs once is
-- loaded with its machine, repository and remote, whatever the other entries are: one that is refused
-- stops no other.
pub load_projects-IsProject :
    (d : Document)
    → All (λ e. IsProject e.0 e.1) (load_projects d)
      × ((es : Dict Item) (name : String) (entry : Dict String)
          → d ≡ entries es
          → Dict.count_key name es ≤ 1
          → Dict.get name es ≡ some (table entry)
          → IsComplete entry
          → (p : Project) × (Dict.get name (load_projects d) ≡ some p) × IsOf name entry p)
unfolding load_projects load_document
load_projects-IsProject d = (
  load_document-AllEntries IsProject project_of project_of-IsProject d,
  λ es name entry same once there complete.
      let (p, accepted, of) = project_of-IsOf name entry complete in
      (p, rw same (load_entries_complete project_of name es [] entry p once there accepted), of),
)
