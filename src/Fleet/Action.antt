-- ===== src/Fleet/Action.antt =====
-- Actions that send calls to machines, change the tables, and can raise.
use worker_harness.Base.{
  ℕ, ◌+◌, String, Bool, true, false, Option, none, some, List, [], ◌∷◌, ◌++◌, if◌then◌else◌,
}
use worker_harness.Dict.{Dict}
use worker_harness.Machines.{Machine, Project}
use worker_harness.PiSessions.{Store}

-- The exceptions that the code tells apart.
pub data Kind : Type 0 where
  shim_error herdr_error herdr_unavailable lane_timeout os_error : Kind
  worktree_error runtime_error timeout_error key_error value_error integrity_error : Kind
  cancelled : Kind
  -- HTTPException, with its status
  http_exception : ℕ → Kind

pub record Exception : Type 0 where
  pub kind : Kind
  pub text : String

pub data Outcome {ℓ} (A : Type ℓ) : Type ℓ where
  ok : A → Outcome A
  raise : Exception → Outcome A

-- What herdr_host.py asks of a machine.
pub data Call : Type 0 where
  worktree_add : (repo branch base path : String) → Call
  worktree_remove : (repo path : String) → Call
  branch_delete : (repo branch : String) → Call
  workspace_create : (cwd label : String) → Call
  write_file : (path content : String) → Call
  remove_file : (path : String) → Call
  pane_run : (pane command : String) → Call
  pane_read : (pane : String) → Call
  pane_close : (pane : String) → Call
  agent_rename : (pane name : String) → Call
  report_agent : (pane state agent : String) (sequence : ℕ) (message resume_path : String) → Call
  report_metadata : (pane agent display : String) → Call
  release_agent : (pane agent : String) (sequence : ℕ) → Call

-- A call with the name of its machine.
abbrev pub Sent : Type 0
Sent = List (String × Call)

-- What a wrapper of herdr_host.py returns: its text, or the workspace.
pub record Reply : Type 0 where
  pub text : String
  pub workspace_id : String
  pub pane_id : String

-- What is outside: the machines, the other tasks, the clock, fresh ids and tokens, the files and the
-- environment.
pub record Env : Type 0 where
  pub answer : Sent → String → Call → Outcome Reply
  -- the tables after the n-th sleep of a poll loop
  pub between : ℕ → Store → Store
  -- the tables when a lock is got
  pub locked : Store → Store
  -- how many polls end before the deadline
  pub polls : ℕ
  pub now : ℕ
  pub uuid : ℕ → String
  pub token : ℕ → String
  pub sha256 : String → String
  pub json : List (String × String) → String
  pub repr : String → String
  pub lower : String → String
  pub type_name : Kind → String
  -- a prompt, where it can be read
  pub read_text : String → Option String
  pub prompts : String
  pub base_url : String
  pub orchestrator_machine : String
  pub orchestrator_cwd : String
  pub idle_seconds : ℕ
  pub machines : Dict Machine
  pub projects : Dict Project

pub record World : Type 0 where
  pub store : Store
  pub sent : Sent
  -- how many ids were drawn
  pub drawn : ℕ

abbrev pub Action : Type 0 → Type 0
Action A = World → Outcome A × World

module _ {A : Type 0} where
  abbrev pub pure : A → Action A
  pure a w = (ok a, w)

  abbrev pub throw : Kind → String → Action A
  throw kind text w = (raise (record { kind = kind; text = text }), w)

  abbrev pub rethrow : Exception → Action A
  rethrow e w = (raise e, w)

  abbrev pub gets : (Store → A) → Action A
  gets f w = (ok (f w.store), w)

  unfoldable pub or_throw : Kind → String → Option A → Action A
  or_throw kind text none = throw kind text
  or_throw kind text (some a) = pure a

  -- `except` for the kinds that it names.
  unfoldable pub recover :
      (Kind → Bool) → (Exception → Action A) → Outcome A × World → Outcome A × World
  recover handles handler (ok a, w) = (ok a, w)
  recover handles handler (raise e, w) = if handles e.kind then handler e w else (raise e, w)

  abbrev pub catch : (Kind → Bool) → (Exception → Action A) → Action A → Action A
  catch handles handler m w = recover handles handler (m w)

unfoldable pub bind : {A B : Type 0} → Outcome A × World → (A → Action B) → Outcome B × World
bind (ok a, w) f = f a w
bind (raise e, w) f = (raise e, w)

infixl 5 ◌>>=◌ ◌>>◌
abbrev pub ◌>>=◌ : {A B : Type 0} → Action A → (A → Action B) → Action B
◌>>=◌ m f w = bind (m w) f

abbrev pub ◌>>◌ : {A B : Type 0} → Action A → Action B → Action B
m >> k = m >>= λ _. k

abbrev pub Done : Type 0
Done = Unit {0}

abbrev pub modify : (Store → Store) → Action Done
modify f w = (ok tt, record w { store = f w.store })

-- `if not test:`
unfoldable pub unless : Bool → Action Done → Action Done
unless true m = pure tt
unless false m = m

-- `_REMOTE_ERRORS`
abbrev pub is_remote : Kind → Bool
is_remote shim_error = true
is_remote herdr_error = true
is_remote herdr_unavailable = true
is_remote lane_timeout = true
is_remote os_error = true
is_remote _ = false

abbrev pub is_shim : Kind → Bool
is_shim shim_error = true
is_shim _ = false

abbrev pub is_herdr : Kind → Bool
is_herdr herdr_error = true
is_herdr _ = false

abbrev pub is_worktree : Kind → Bool
is_worktree worktree_error = true
is_worktree _ = false

abbrev pub is_cancelled : Kind → Bool
is_cancelled cancelled = true
is_cancelled _ = false

-- `except (Exception, asyncio.CancelledError)`
abbrev pub any_kind : Kind → Bool
any_kind k = true

module _ (env : Env) where
  unfoldable pub request : Machine → Call → Action Reply
  request m call w =
      (env.answer w.sent m.name call, record w { sent = w.sent ++ (m.name, call) ∷ [] })

  -- `str(uuid4())`
  unfoldable pub new_id : Action String
  new_id w = (ok (env.uuid w.drawn), record w { drawn = w.drawn + 1 })
