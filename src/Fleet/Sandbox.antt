-- ===== src/Fleet/Sandbox.antt =====
-- src/worker_harness/sandbox.py: the launch lines of sandboxed agents.
use worker_harness.Base.{String, List, [], ◌∷◌, ◌++◌, map, if◌then◌else◌, starts_with, text_append}
use Prim.Native.String.{◌∷◌ as cons}
use worker_harness.Machines.{Machine, session_dir}
use worker_harness.Paths.{slash, rstrip_char}
use worker_harness.Shell.{quote, join}
use worker_harness.Fleet.Names.{Role, orchestrator, task, role_name}

abbrev pub role_paths : List String
role_paths =
    "~/Work" ∷ "~/mnt" ∷ "~/.omp" ∷ "~/.config/local-vault-production"
    ∷ "~/.config/pi/local-vault.token" ∷ []

abbrev tail : String → String
tail String.[] = ""
tail (cons c s) = s

-- `path.replace("~", home, 1) if path.startswith("~/") else path`
abbrev under_home : String → String → String
under_home home path = if starts_with "~/" path then text_append home (tail path) else path

unfoldable pub paths_file_content : Role → String → String
paths_file_content role home =
    let lines =
      text_append "# worker-harness " (text_append (role_name role) " sandbox paths")
      ∷ map (under_home (rstrip_char slash home)) role_paths in
    text_append (join "\n" lines) "\n"

abbrev assignment : String × String → String
assignment (key, value) = text_append key (text_append "=" (quote value))

abbrev vault_readonly : Role → String
vault_readonly task = "1"
vault_readonly _ = "0"

abbrev prompt_flag : Role → String
prompt_flag orchestrator = "--system-prompt"
prompt_flag _ = "--append-system-prompt"

abbrev tools : Role → List String
tools orchestrator = "--tools" ∷ "read,grep,glob,todo,hub,web_search" ∷ []
tools _ = []

abbrev add_dir_flags : List String → List String
add_dir_flags [] = []
add_dir_flags (d ∷ ds) = "--add-dir" ∷ d ∷ add_dir_flags ds

unfoldable pub environment :
    Machine → Role → String → String → String → String → List (String × String)
environment m role paths_file session_id token base_url =
    ("AGENT_SANDBOX_NO_GIT_CREDENTIALS", "1")
    ∷ ("AGENT_SANDBOX_PATHS", paths_file)
    ∷ ("AGENT_SANDBOX_SESSION_DIR", session_dir m session_id)
    ∷ ("WH_ORCHESTRATOR_URL", rstrip_char slash base_url)
    ∷ ("WH_SESSION_ID", session_id)
    ∷ ("WH_SESSION_TOKEN", token)
    ∷ ("WH_SESSION_ROLE", role_name role)
    ∷ ("LOCAL_VAULT_READONLY", vault_readonly role)
    ∷ []

unfoldable pub launch_command :
    Machine → Role → String → String → String → String → String → List String → String
unfolding environment
launch_command m role paths_file session_id token base_url prompt_file add_dirs =
    let argv =
      text_append (rstrip_char slash m.home) "/.local/bin/omp"
        ∷ prompt_flag role
        ∷ prompt_file
        ∷ tools role
      ++ add_dir_flags add_dirs in
    join " " (
      "exec env -u WH_PI_SESSION_ID -u WH_OPERATOR_TOKEN -u WH_OPERATOR_TOKEN_FILE"
      ∷ join " " (map assignment (environment m role paths_file session_id token base_url))
      ∷ join " " (map quote argv)
      ∷ [])
