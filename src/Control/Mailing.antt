-- ===== src/Control/Mailing.antt =====
-- Into which mailbox a message goes.
use worker_harness.Base.{
  String, Option, none, some, true, List, [], ◌∷◌, ◌++◌, ◌≡◌, ◌≢◌, ◌⊎◌, inl, inr, refl, sym, ap,
  ◌∙◌, ◌+◌, ℕ, arith, ◌==◌, string_eq, is_empty, strip, Bool-cases,
}
use mathlib.Core.Option.{some-injective}
use worker_harness.Table.{exists_where}
use worker_harness.PiSessions.{PiSession, PiSessionEvent, PiSessionCommand, Store, insert_event}
use worker_harness.PiSessions.Commands.{enqueue_pi_session_command}
use worker_harness.Fleet.Action.{
  Exception, Outcome, ok, raise, key_error, Env, World, bind, or_throw, new_id, unless, pure, ◌>>◌,
}
use worker_harness.Fleet.Managers.{ensure_pm}
use worker_harness.Fleet.Sessions.{record_event, enqueue_command, written}
use worker_harness.Control.Messages.{caller_id, new_command, queue_command, enqueue_prompt, deliver}

-- One prompt more, in the mailbox of the session and with its sender; or, where nothing is said or the
-- new id is taken, an exception, and no command.
pub data Mailed (env : Env) (x message : String) (caller : Option PiSession) (v : World)
    (r : Outcome String × World) : Type 0 where
  posted :
      (c : PiSessionCommand)
      → r.0 ≡ ok c.id
      → r.1.store.commands ≡ v.store.commands ++ c ∷ []
      → c.session_id ≡ x
      → c.kind ≡ "prompt"
      → c.message ≡ strip message
      → c.payload.rest ≡ env.json (("sender_session_id", caller_id caller) ∷ [])
      → Mailed env x message caller v r
  not_posted :
      (e : Exception)
      → (is_empty (strip message) ≡ true)
        ⊎ (exists_where (λ c. c.id == env.uuid v.drawn) v.store.commands ≡ true)
      → r.0 ≡ raise e
      → r.1.store.commands ≡ v.store.commands
      → Mailed env x message caller v r

-- A message to a session goes to its mailbox, and one to a manager to the session that is the manager
-- of its project when the message is delivered.
pub data IsDelivered (env : Env) (target : PiSession) (message : String) (caller : Option PiSession)
    (w : World) (r : Outcome String × World) : Type 0 where
  direct :
      target.role ≢ "pm"
      → Mailed env target.id message caller w r
      → IsDelivered env target message caller w r
  to_manager_of :
      (project : String) (manager : PiSession) (v : World)
      → target.role ≡ "pm"
      → target.meta.project ≡ some project
      → ensure_pm env project w ≡ (ok manager, v)
      → Mailed env manager.id message caller v r
      → IsDelivered env target message caller w r
  no_project :
      (e : Exception)
      → target.role ≡ "pm"
      → target.meta.project ≡ none
      → r ≡ (raise e, w)
      → IsDelivered env target message caller w r
  no_manager :
      (project : String) (e : Exception)
      → target.role ≡ "pm"
      → target.meta.project ≡ some project
      → r.0 ≡ raise e
      → ensure_pm env project w ≡ (raise e, r.1)
      → IsDelivered env target message caller w r

insert_event-commands :
    (e : PiSessionEvent) (st : Store) → (insert_event e st).1.commands ≡ st.commands
unfolding insert_event
insert_event-commands e st = elim (Bool-cases (exists_where (λ r. r.id == e.id) st.events)) [
  | inl there ↦ rw there refl
  | inr fresh ↦ rw fresh refl
]

not_enqueued :
    (c : PiSessionCommand) (now : ℕ) (st : Store)
    → enqueue_pi_session_command c now st ≡ none
    → exists_where (λ r. r.id == c.id) st.commands ≡ true
unfolding enqueue_pi_session_command
not_enqueued c now st = elim (Bool-cases (exists_where (λ r. r.id == c.id) st.commands)) [
  | inl there ↦ λ _. there
  | inr fresh ↦ rw fresh (λ h. absurd (ground arith))
]

enqueued_commands :
    (c : PiSessionCommand) (now : ℕ) (st after : Store)
    → enqueue_pi_session_command c now st ≡ some after
    → after.commands ≡ st.commands ++ c ∷ []
unfolding enqueue_pi_session_command
enqueued_commands c now st after =
    elim (Bool-cases (exists_where (λ r. r.id == c.id) st.commands)) [
      | inl there ↦ rw there (λ h. absurd (ground arith))
      | inr fresh ↦ rw fresh (λ h. ap (λ t. t.commands) (sym (some-injective _ after h)))
    ]

module _ (env : Env) (message : String) (caller : Option PiSession) where
  abbrev payload : List (String × String)
  payload = ("sender_session_id", caller_id caller) ∷ []

  module _ (x deliver_as : String) (noted : List (String × String)) (v : World) where
    abbrev id : String
    id = env.uuid v.drawn

    abbrev c : PiSessionCommand
    c = new_command env x "prompt" (strip message) deliver_as payload id

    abbrev drawn : World
    drawn = record v { drawn = v.drawn + 1 }

    written-Mailed :
        (o : Option Store)
        → enqueue_pi_session_command c env.now v.store ≡ o
        → Mailed env x message caller v (
            bind
              (written env c.id o drawn)
              (λ _. record_event env x "prompt-queued" (("command_id", id) ∷ noted) >> pure id))
    unfolding written bind record_event new_id
    written-Mailed none e = not_posted _ (inr (not_enqueued c env.now v.store e)) refl refl
    written-Mailed (some st) e =
        posted c refl (insert_event-commands _ st ∙ enqueued_commands c env.now v.store st e) refl
          refl refl refl

    queue_command-Mailed :
        Mailed env x message caller v
          (queue_command env x "prompt" (strip message) deliver_as payload "prompt-queued" noted v)
    unfolding queue_command bind new_id enqueue_command
    queue_command-Mailed = written-Mailed (enqueue_pi_session_command c env.now v.store) refl

  enqueue_prompt-Mailed :
      (target : PiSession) (deliver_as : String) (v : World)
      → Mailed env target.id message caller v
          (enqueue_prompt env target message deliver_as caller v)
  unfolding enqueue_prompt unless bind
  enqueue_prompt-Mailed target deliver_as v = elim (Bool-cases (is_empty (strip message))) [
    | inl blank ↦ rw blank (not_posted _ (inl blank) refl refl)
    | inr filled ↦ rw filled (queue_command-Mailed target.id deliver_as _ v)
  ]

  manager_by :
      (target : PiSession) (project : String) (w : World) (r : Outcome PiSession × World)
      → target.role ≡ "pm"
      → target.meta.project ≡ some project
      → ensure_pm env project w ≡ r
      → IsDelivered env target message caller w
          (bind r (λ manager. enqueue_prompt env manager message "steer" caller))
  unfolding bind
  manager_by target project w (ok manager, v) pm p e =
      to_manager_of project manager v pm p e (enqueue_prompt-Mailed manager "steer" v)
  manager_by target project w (raise x, v) pm p e = no_manager project x pm p refl e

  project_by :
      (target : PiSession) (w : World) (o : Option String)
      → target.role ≡ "pm"
      → target.meta.project ≡ o
      → IsDelivered env target message caller w (
          bind (or_throw key_error "project" o w) (λ project v.
            bind
              (ensure_pm env project v)
              (λ manager. enqueue_prompt env manager message "steer" caller)))
  unfolding bind or_throw
  project_by target w none pm p = no_project _ pm p refl
  project_by target w (some project) pm p =
      manager_by target project w (ensure_pm env project w) pm p refl

  pub deliver-IsDelivered :
      (target : PiSession) (w : World)
      → IsDelivered env target message caller w (deliver env target message caller w)
  unfolding deliver
  deliver-IsDelivered target w = elim (Bool-cases (target.role == "pm")) [
    | inl pm ↦
        rw pm
          (project_by target w target.meta.project ((string_eq.eq?_iff target.role "pm").0 pm) refl)
    | inr other ↦ rw other (
        direct (λ pm. absurd (ground (arith, other, (string_eq.eq?_iff target.role "pm").1 pm)))
          (enqueue_prompt-Mailed target "steer" w))
  ]
