-- ===== src/Control/Permitted.antt =====
-- Who may send a message to whom.
use worker_harness.Base.{
  ℕ, String, true, false, Option, none, some, List, [], ◌∷◌, ◌≡◌, ◌⊎◌, inl, inr, refl, sym, arith,
  string_discrete, ◌==◌, string_eq, Bool-cases,
}
use worker_harness.Paths.{mem_text}
use worker_harness.PiSessions.{PiSession, get_pi_session}
use worker_harness.Fleet.Action.{
  Exception, Outcome, raise, http_exception, Env, World, Action, bind,
}
use worker_harness.Control.Auth.{Access, operator, session, refused, Settings, require_role}
use worker_harness.Control.Mailing.{IsDelivered, deliver-IsDelivered}
use worker_harness.Control.Messages.{
  is_own_task, in_own_project, send_refusal, guard_refusal, deliver, send_to, pi_session_send,
  refuse,
}
use worker_harness.Control.Revoked.{IsGranted, by_session, require_role-IsGranted}

-- A handler behind `Depends(require_role(...))`.
unfoldable pub let_in : {A : Type 0} → Access → (Option PiSession → Action A) → Action A
let_in operator handler = handler none
let_in (session caller) handler = handler (some caller)
let_in (refused status) handler = refuse status "not let in"

abbrev pub senders : List String
senders = "operator" ∷ "orchestrator" ∷ "pm" ∷ []

unfoldable pub pi_session_send_route :
    Env → Settings → Option String → String → String → Action String
unfolding let_in
pi_session_send_route env settings header x message w =
    let_in (require_role settings senders w.store header) (pi_session_send env x message) w

-- To whom the caller that was let in may send.
pub data MaySend : Access → PiSession → Type 0 where
  from_operator : (target : PiSession) → MaySend operator target
  to_manager :
      (s target : PiSession)
      → s.role ≡ "orchestrator"
      → target.role ≡ "pm"
      → MaySend (session s) target
  to_own_task :
      (s target : PiSession)
      → s.role ≡ "pm"
      → is_own_task s target ≡ true
      → in_own_project s target ≡ true
      → MaySend (session s) target
  to_orchestrator :
      (s target : PiSession)
      → s.role ≡ "pm"
      → target.role ≡ "orchestrator"
      → MaySend (session s) target
  -- a row with the role of the operator
  of_operator_row : (s target : PiSession) → s.role ≡ "operator" → MaySend (session s) target

-- The answer to a message that is refused.
pub record IsRefused (w : World) (r : Outcome String × World) : Type 0 where
  pub raised : (status : ℕ) × (e : Exception) × (r.0 ≡ raise e) × (e.kind ≡ http_exception status)
  pub unchanged : r.1 ≡ w

sender_role :
    (s : PiSession)
    → mem_text s.role senders ≡ true
    → (s.role ≡ "operator") ⊎ (s.role ≡ "orchestrator") ⊎ (s.role ≡ "pm")
unfolding mem_text
sender_role s h = elim (Bool-cases ("operator" == s.role)) [
  | inl same ↦ inl (sym ((string_eq.eq?_iff "operator" s.role).0 same))
  | inr other ↦ elim (Bool-cases ("orchestrator" == s.role)) [
    | inl same ↦ inr (inl (sym ((string_eq.eq?_iff "orchestrator" s.role).0 same)))
    | inr neither ↦ inr (inr (sym ((string_eq.eq?_iff "pm" s.role).0 (ground arith))))
  ]
]

manager_tests :
    (role : String) → role ≡ "pm" → ((role == "orchestrator") ≡ false) × ((role == "pm") ≡ true)
unfolding string_discrete
manager_tests role r = rw r (refl, refl)

router_tests : (role : String) → role ≡ "orchestrator" → (role == "orchestrator") ≡ true
unfolding string_discrete
router_tests role r = rw r refl

manager_may :
    (s target : PiSession)
    → s.role ≡ "pm"
    → send_refusal (some s) target ≡ none
    → MaySend (session s) target
unfolding send_refusal
manager_may s target r h =
    let (no_router, manager) = manager_tests s.role r in
    elim (Bool-cases (is_own_task s target)) [
      | inl own ↦ to_own_task s target r own (ground arith)
      | inr other ↦
          to_orchestrator s target r
            ((string_eq.eq?_iff target.role "orchestrator").0 (ground arith))
    ]

may_send :
    (s target : PiSession)
    → (s.role ≡ "operator") ⊎ (s.role ≡ "orchestrator") ⊎ (s.role ≡ "pm")
    → send_refusal (some s) target ≡ none
    → MaySend (session s) target
unfolding send_refusal
may_send s target (inl r) h = of_operator_row s target r
may_send s target (inr (inl r)) h =
    let router = router_tests s.role r in
    to_manager s target r ((string_eq.eq?_iff target.role "pm").0 (ground arith))
may_send s target (inr (inr r)) h = manager_may s target r h

-- The caller that the handler is given.
abbrev caller_of : Access → Option PiSession
caller_of operator = none
caller_of (session s) = some s
caller_of (refused _) = none

-- Sent by a caller that may, to the mailbox that it is for; or refused.
abbrev pub IsPermitted : Env → String → Access → String → World → Outcome String × World → Type 0
IsPermitted env message access x w r =
    ((target : PiSession) × (get_pi_session x w.store ≡ some target)
      × MaySend access target
      × IsDelivered env target message (caller_of access) w r)
    ⊎ IsRefused w r

module _ (env : Env) (x message : String) (w : World) where
  guarded :
      (access : Access) (target : PiSession) (o : Option String)
      → (o ≡ none → MaySend access target)
      → get_pi_session x w.store ≡ some target
      → IsPermitted env message access x w
          (bind (guard_refusal o w) (λ _. deliver env target message (caller_of access)))
  unfolding guard_refusal bind
  guarded access target none may found =
      inl (target, found, may refl, deliver-IsDelivered env message (caller_of access) target w)
  guarded access target (some detail) may found =
      inr (record { raised = (403, _, refl, refl); unchanged = refl })

  found_by :
      (access : Access) (o : Option PiSession)
      → get_pi_session x w.store ≡ o
      → ((target : PiSession)
          → send_refusal (caller_of access) target ≡ none
          → MaySend access target)
      → IsPermitted env message access x w (send_to env o message (caller_of access) w)
  unfolding send_to
  found_by access none e may = inr (record { raised = (404, _, refl, refl); unchanged = refl })
  found_by access (some target) e may =
      guarded access target (send_refusal (caller_of access) target) (may target) e

  granted :
      {settings : Settings} {header : Option String} (access : Access)
      → IsGranted settings senders w.store header access
      → IsPermitted env message access x w (let_in access (pi_session_send env x message) w)
  unfolding let_in pi_session_send bind get_pi_session
  granted operator g = found_by operator _ refl (λ target _. from_operator target)
  granted (session s) (by_session _ _ _ _ _ _ _ in_role) =
      found_by (session s) _ refl (λ target. may_send s target (sender_role s in_role))
  granted (refused status) g = inr (record { raised = (status, _, refl, refl); unchanged = refl })

-- A message is delivered only for the operator, for an orchestrator to a project manager, for a
-- manager to its own task in its own project or to an orchestrator (or for a row whose role is the
-- operator's), each let in as `IsGranted` says, a session by its own live token. It then goes to the
-- mailbox of the session that is named and of no other, as a prompt with the stripped text and its
-- sender, or, for a manager, to that of the session that is the manager of its project now; or it
-- raises, and only for a text that is empty once stripped, a new id that is taken, or a manager that
-- has no project or that `ensure_pm` cannot give. Any other request is answered with an error, and
-- nothing is written or asked of any machine.
pub pi_session_send-IsPermitted :
    (env : Env) (settings : Settings) (header : Option String) (x message : String) (w : World)
    → IsGranted settings senders w.store header (require_role settings senders w.store header)
      × IsPermitted env message
          (require_role settings senders w.store header)
          x
          w
          (pi_session_send_route env settings header x message w)
unfolding pi_session_send_route
pi_session_send-IsPermitted env settings header x message w =
    let granting = require_role-IsGranted settings senders w.store header in
    (granting, granted env x message w (require_role settings senders w.store header) granting)
