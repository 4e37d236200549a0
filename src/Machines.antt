-- ===== src/Machines.antt =====
-- src/worker_harness/machines.py and projects.py: the machines that host agents and the projects
-- that they work on, as read from their TOML files.
pub mod Checked
mod Examples
use worker_harness.Base.{
  ℕ, String, Bool, true, false, ◌&&◌, ◌||◌, not, Option, none, some, List, [], ◌∷◌, ◌==◌, string_eq,
  if◌then◌else◌, starts_with, strip, is_empty, text_append,
}
use worker_harness.Dict
use worker_harness.Dict.{Dict}
use worker_harness.Paths.{slash, has_char, rstrip_char, base_name}

pub record Machine : Type 0 where
  pub name : String
  pub ssh_target : String
  pub home : String
  pub herdr_session : String
  pub key_path : String

-- `f"{home.rstrip('/')}/.cache/worker-harness"`
unfoldable pub cache_root : Machine → String
cache_root m = text_append (rstrip_char slash m.home) "/.cache/worker-harness"

unfoldable pub session_dir : Machine → String → String
session_dir m session_id = text_append (cache_root m) (text_append "/" session_id)

unfoldable pub worktree_dir : Machine → String → String → String
worktree_dir m repo_name slug =
    text_append (cache_root m)
      (text_append "/worktrees/" (text_append repo_name (text_append "/" slug)))

pub record Project : Type 0 where
  pub name : String
  pub machine : String
  pub repo : String
  pub remote : String
  pub base_branch : String

unfoldable pub repo_name : String → String
repo_name repo = base_name (rstrip_char slash repo)

-- An entry of the file: a table, as the texts of its values, or something else.
pub data Item : Type 0 where
  table : Dict String → Item
  other : Item

-- The file: missing or not readable, or the table at the top with its entries, or no table there.
pub data Document : Type 0 where
  unreadable : Document
  not_a_table : Document
  entries : Dict Item → Document

-- `str(entry.get(key, default)).strip()`
unfoldable pub text_of : String → String → Dict String → String
text_of key default entry =
    strip (elim (Dict.get key entry) as (λ _. String) [ none ↦ default | some text ↦ text ])

abbrev or_text : String → String → String
or_text text default = if is_empty text then default else text

unfoldable pub machine_of : (String → String) → String → String → Dict String → Option Machine
machine_of expanduser default_key name entry =
    let ssh_target = text_of "ssh_target" "" entry in
    let home = text_of "home" "" entry in
    let key_path : String = elim (Dict.get "key_path" entry) [ none ↦ default_key | some k ↦ k ] in
    if is_empty ssh_target
      || starts_with "-" ssh_target
      || not (starts_with "/" home)
      || home == "/"
    then none
    else some (record {
      name = name;
      ssh_target = ssh_target;
      home = rstrip_char slash home;
      herdr_session = or_text (text_of "herdr_session" "wh" entry) "wh";
      key_path = expanduser key_path;
    })

unfoldable pub project_of : String → Dict String → Option Project
project_of name entry =
    let machine = text_of "machine" "" entry in
    let repo = rstrip_char slash (text_of "repo" "" entry) in
    let remote = text_of "remote" "" entry in
    if is_empty machine || not (starts_with "/" repo) || not (has_char slash remote)
    then none
    else some (record {
      name = name;
      machine = machine;
      repo = repo;
      remote = remote;
      base_branch = or_text (text_of "base_branch" "main" entry) "main";
    })

module _ {A : Type 0} (accept : String → Dict String → Option A) where
  abbrev accept_item : String → Item → Dict A → Dict A
  accept_item name other found = found
  accept_item name (table entry) found = elim (accept name entry) [
    | none ↦ found
    | some a ↦ Dict.put name a found
  ]

  -- The loop over the entries; those that are refused are logged.
  unfoldable pub load_entries : Dict Item → Dict A → Dict A
  load_entries [] found = found
  load_entries ((name, item) ∷ es) found = load_entries es (accept_item name item found)

  unfoldable pub load_document : Document → Dict A
  load_document unreadable = []
  load_document not_a_table = []
  load_document (entries es) = load_entries es []

-- `load_machines` and `load_projects`, from the file on.
unfoldable pub load_machines : (String → String) → String → Document → Dict Machine
load_machines expanduser default_key = load_document (machine_of expanduser default_key)

unfoldable pub load_projects : Document → Dict Project
load_projects = load_document project_of
