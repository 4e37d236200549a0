-- ===== src/Fleet/Names.antt =====
-- src/worker_harness/orchestration.py: `herdr_agent_name` and `_launch_spec`.
use Prim.Native.Char.{code}
use Prim.Native.String.{String, [], ◌∷◌}
use worker_harness.Base.{
  ℕ, Bool, true, false, ◌&&◌, ◌||◌, List, leb, ◌==◌, nat_eq, if◌then◌else◌, is_empty, prefix,
  replace_char, text_append,
}
use worker_harness.Machines.{Machine}
use worker_harness.PiSessions.{PiSessionType, interactive, global_router}

-- `[a-z0-9_-]`
unfoldable pub is_name_char : ℕ → Bool
is_name_char c = (leb 97 c && leb c 122) || (leb 48 c && leb c 57) || c == 95 || c == 45

unfoldable pub is_letter : ℕ → Bool
is_letter c = leb 97 c && leb c 122

-- `re.sub(r"[^a-z0-9_-]+", "-", s)`; the flag tells that a run of other characters is open.
unfoldable pub squeeze : Bool → String → String
squeeze within [] = []
squeeze within (c ∷ s) =
    let kept = squeeze false s in
    let skipped = squeeze true s in
    if is_name_char (code c) then c ∷ kept else if within then skipped else "-" ∷ skipped

unfoldable pub lstrip_dash : String → String
lstrip_dash [] = []
lstrip_dash (c ∷ s) = let rest = lstrip_dash s in if code c == 45 then rest else c ∷ s

-- `s.rstrip("-")`, and `s.rstrip("-_")` with the flag
unfoldable pub rstrip_dash : Bool → String → String
rstrip_dash underscore [] = []
rstrip_dash underscore (c ∷ s) =
    let rest = rstrip_dash underscore s in
    if (code c == 45 || (underscore && code c == 95)) && is_empty rest then [] else c ∷ rest

-- Of a text that is cleaned `isalpha` asks for a letter.
unfoldable pub starts_alpha : String → Bool
starts_alpha [] = false
starts_alpha (c ∷ s) = is_letter (code c)

abbrev pub or_agent : String → String
or_agent s = if is_empty s then "agent" else s

-- `lower` is Python's, for all of Unicode.
unfoldable pub herdr_agent_name : (String → String) → String → String
herdr_agent_name lower name =
    let cleaned = rstrip_dash false (lstrip_dash (squeeze false (lower name))) in
    let led = if starts_alpha cleaned then cleaned else "a" ∷ cleaned in
    or_agent (rstrip_dash true (prefix 32 led))

pub data Role : Type 0 where
  orchestrator pm task : Role

abbrev pub role_name : Role → String
role_name orchestrator = "orchestrator"
role_name pm = "pm"
role_name task = "task"

pub record LaunchSpec : Type 0 where
  pub role : Role
  pub machine : Machine
  pub cwd : String
  pub project_name : String
  pub repo : String
  pub remote : String
  pub base_branch : String
  pub name : String
  pub label : String
  pub session_type : PiSessionType
  pub prompt_path : String
  pub add_dirs : List String

-- `orchestrator_repo() / "prompts" / filename`
unfoldable pub prompt_path : String → Role → String
prompt_path prompts orchestrator = text_append prompts "/orchestrator-system.md"
prompt_path prompts pm = text_append prompts "/pm.md"
prompt_path prompts task = text_append prompts "/task.md"

unfoldable pub session_name : Role → String → String → String
session_name orchestrator project branch = "orchestrator"
session_name pm project branch = text_append "pm-" project
session_name task project branch =
    text_append "task-" (text_append project (text_append "-" (replace_char "/" "-" branch)))

abbrev task_dirs : Role → String → List String
task_dirs task repo = List.◌∷◌ repo List.[]
task_dirs _ repo = List.[]

-- The arguments of a launch.
pub record LaunchRequest : Type 0 where
  pub role : Role
  pub machine : Machine
  pub cwd : String
  pub project_name : String
  pub repo : String
  pub remote : String
  pub base_branch : String

unfoldable pub spec_for : String → LaunchRequest → String → String → Role → LaunchSpec
spec_for prompts r cwd branch orchestrator = record {
  role = orchestrator;
  machine = r.machine;
  cwd = cwd;
  project_name = "";
  repo = cwd;
  remote = "";
  base_branch = "";
  name = "orchestrator";
  label = "orchestrator";
  session_type = global_router;
  prompt_path = prompt_path prompts orchestrator;
  add_dirs = List.[];
}
spec_for prompts r cwd branch role = record {
  role = role;
  machine = r.machine;
  cwd = cwd;
  project_name = r.project_name;
  repo = r.repo;
  remote = r.remote;
  base_branch = r.base_branch;
  name = session_name role r.project_name branch;
  label = session_name role r.project_name branch;
  session_type = interactive;
  prompt_path = prompt_path prompts role;
  add_dirs = task_dirs role r.repo;
}

-- `_launch_spec`; `launch` has its `ValueError` where the project or the repository is missing.
unfoldable pub launch_spec : String → LaunchRequest → String → String → LaunchSpec
unfolding spec_for
launch_spec prompts r cwd branch = spec_for prompts r cwd branch r.role
