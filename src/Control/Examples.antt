-- ===== src/Control/Examples.antt =====
-- One manager with a token, its task, and two terminals where one is allowed.
use worker_harness.Base.{
  ℕ, String, true, false, Option, some, [], ◌∷◌, ◌≡◌, ◌⊎◌, refl, arith, string_discrete, strip,
  rstrip, lstrip,
}
use worker_harness.Paths.{mem_text}
use worker_harness.PiSessions.{
  PiSession, working, stopped, get_pi_session_by_token_hash, finish_pi_session, has_session_id,
}
use worker_harness.Table.{find_where, update_where}
use worker_harness.Jobs.Examples.{two_jobs, two_jobs-Reach}
use worker_harness.Jobs.History.{Reach-Valid}
use worker_harness.JobManager.Examples.{worker, remote}
use worker_harness.Fleet.Action.{World}
use worker_harness.Fleet.Examples.{env, manager, world}
use worker_harness.Fleet.Phases.{NoRemoval}
use worker_harness.Fleet.Removals.{OnlyWorktree}
use worker_harness.Fleet.Traces.{Extends}
use worker_harness.Control.Admission.{IsActive, opened, next, admitted, Served-IsActive}
use worker_harness.Control.Auth.{
  session, Settings, bearer, partition_space, is_ascii, admit, admit_token, require_role,
}
use worker_harness.Control.Gateway.{Attachment, Gateway, active_of, reserve_gateway_attachment}
use worker_harness.Control.Handling.{Handles, jobs-Handles}
use worker_harness.Control.Queue.{Plane}
use worker_harness.Control.Ownership.{MayTearDown, pi_session_teardown-Removes}
use worker_harness.Control.Permitted.{
  IsPermitted, senders, pi_session_send_route, pi_session_send-IsPermitted,
}
use worker_harness.Control.Revoked.{IsGranted, require_role-IsGranted, require_role-finished}
use worker_harness.Control.Tasks.{pi_session_teardown}
use worker_harness.Control.Victim.{IsAdmission, reserve_gateway_attachment-IsAdmission}

abbrev settings : Settings
settings = record {
  operator_token = "secret";
  has_machines = true;
  lower = λ (s : String). s;
  sha256 = λ (s : String). "h";
}

abbrev header : Option String
header = some "bearer token"

abbrev child : PiSession
child = record manager {
  id = "t";
  role = "task";
  parent_session_id = some "m";
  state = working;
  token_hash = "t";
}

abbrev two_sessions : World
two_sessions = record world { store = record world.store { sessions = manager ∷ child ∷ [] } }

require_role-IsGranted_example :
    IsGranted settings senders two_sessions.store header
      (require_role settings senders two_sessions.store header)
require_role-IsGranted_example = require_role-IsGranted settings senders two_sessions.store header

admitted_still :
    require_role settings senders (finish_pi_session "t" stopped "" 7 two_sessions.store) header
    ≡ session manager
unfolding require_role admit_token admit bearer partition_space is_ascii
    get_pi_session_by_token_hash finish_pi_session find_where update_where mem_text string_discrete
    strip rstrip lstrip
admitted_still = refl

require_role-finished_example : has_session_id "t" manager ≡ false
require_role-finished_example =
    require_role-finished settings senders two_sessions.store header "t" stopped "" 7 manager
      (λ token. refl) admitted_still

pi_session_send-IsPermitted_example :
    IsGranted settings senders two_sessions.store header
      (require_role settings senders two_sessions.store header)
    × IsPermitted env "go on"
        (require_role settings senders two_sessions.store header)
        "t"
        two_sessions
        (pi_session_send_route env settings header "t" "go on" two_sessions)
pi_session_send-IsPermitted_example =
    pi_session_send-IsPermitted env settings header "t" "go on" two_sessions

pi_session_teardown-Removes_example :
    ((may : MayTearDown env "t" true manager two_sessions) × Extends
        (OnlyWorktree may.target)
        []
        (pi_session_teardown env "t" true manager two_sessions).1.sent)
    ⊎ Extends NoRemoval [] (pi_session_teardown env "t" true manager two_sessions).1.sent
pi_session_teardown-Removes_example = pi_session_teardown-Removes env "t" true manager two_sessions

abbrev terminal : String → ℕ → Attachment
terminal x t = record { id = x; object = t; last_activity = t; rows = 24; cols = 80 }

abbrev empty_gateway : Gateway
empty_gateway = record { attachments = []; max_per_session = 1; evictions_total = 0 }

abbrev one_terminal : Gateway
one_terminal = (reserve_gateway_attachment "t" (terminal "a" 1) empty_gateway).1

abbrev second_terminal : Gateway
second_terminal = (reserve_gateway_attachment "t" (terminal "b" 2) one_terminal).1

Served-IsActive_example : IsActive 1 (active_of "t" second_terminal)
Served-IsActive_example =
    Served-IsActive 1 (omega arith)
      (next (next opened (admitted "t" (terminal "a" 1))) (admitted "t" (terminal "b" 2))) "t"

reserve_gateway_attachment-IsAdmission_example :
    IsAdmission
      (terminal "b" 2)
      one_terminal.max_per_session
      (active_of "t" one_terminal)
      (reserve_gateway_attachment "t" (terminal "b" 2) one_terminal).0
      (active_of "t" second_terminal)
reserve_gateway_attachment-IsAdmission_example =
    reserve_gateway_attachment-IsAdmission "t" (terminal "b" 2) one_terminal

abbrev plane : Plane
plane = record { workers = worker ∷ []; jobs = two_jobs; failures = [] }

jobs-Handles_example : Handles remote (λ s. s) plane
jobs-Handles_example = jobs-Handles remote (λ s. s) plane (Reach-Valid two_jobs-Reach)
