-- ===== src/PiSessions/Waiting.antt =====
-- db.py: a blocked session waits until its prompt is acknowledged.
use worker_harness.Base.{
  ℕ, ◌≡◌, refl, sym, subst, inl, inr, String, true, false, ◌&&◌, Option, some, arith, ◌==◌, nat_eq,
  string_eq, Bool-cases,
}
use worker_harness.Table.{update_where, find_where}
use worker_harness.Table.Laws.{find_where-update_where, find_where_sound}
use worker_harness.PiSessions.{
  PiSession, PiSessionState, working, PiSessionCommand, Store, Result, ok, raise, is_over,
  is_blocked, has_session_id, get_pi_session,
}
use worker_harness.PiSessions.Commands.{
  enqueue_pi_session_command, claim_pi_session_commands, ack_pi_session_command, check_bridge,
  is_prompt, or_now,
}
use worker_harness.PiSessions.Bridge.{
  PiIngestEvent, PiBridgeRegister, register_interactive_pi_session, is_refused,
}
use worker_harness.PiSessions.Activity.{PiBridgeEventBatch, apply_interactive_pi_events}
use worker_harness.PiSessions.Blocking.{
  IsWaiting, update-IsWaiting, after_registration-IsWaiting, apply-IsWaiting,
}

abbrev pub command_row : String → String → Store → Option PiSessionCommand
command_row x command_id st = find_where (λ c. c.id == command_id && c.session_id == x) st.commands

-- Operations that are no answer to the session and do not end it.
pub data Quiet (x : String) (st : Store) : Store → Type 0 where
  registers :
      (fresh_id : PiIngestEvent → String) (p : PiBridgeRegister) (now : ℕ)
      → Quiet x st (register_interactive_pi_session fresh_id p now st).1
  applies :
      (fresh_id : PiIngestEvent → String) (y : String) (p : PiBridgeEventBatch) (now : ℕ)
      → ((r : PiSessionState) → p.state ≡ some r → is_over r ≡ false)
      → Quiet x st (apply_interactive_pi_events fresh_id y p now st).1
  claims :
      (y incarnation : String) (now lease_seconds : ℕ)
      → Quiet x st (claim_pi_session_commands y incarnation now lease_seconds st).1
  enqueued :
      (c : PiSessionCommand) (now : ℕ) {after : Store}
      → enqueue_pi_session_command c now st ≡ some after
      → Quiet x st after
  acks :
      (y command_id incarnation : String) (now : ℕ)
      → is_prompt (command_row y command_id st) ≡ false
      → Quiet x st (ack_pi_session_command y command_id incarnation now st).1

pub data Quietly (x : String) (st : Store) : Store → Type 0 where
  nothing : Quietly x st st
  step : {middle after : Store} → Quietly x st middle → Quiet x middle after → Quietly x st after

claim-sessions :
    (y incarnation : String) (now lease_seconds : ℕ) (st : Store)
    → (claim_pi_session_commands y incarnation now lease_seconds st).1.sessions ≡ st.sessions
unfolding claim_pi_session_commands
claim-sessions y incarnation now lease_seconds st = ground arith

ack-sessions :
    (y command_id incarnation : String) (now : ℕ) (st : Store)
    → is_prompt (command_row y command_id st) ≡ false
    → (ack_pi_session_command y command_id incarnation now st).1.sessions ≡ st.sessions
unfolding ack_pi_session_command
ack-sessions y command_id incarnation now st other = ground (arith, other)

register-IsWaiting :
    (fresh_id : PiIngestEvent → String) (x question : String) (p : PiBridgeRegister) (now : ℕ)
    (st : Store)
    → IsWaiting x question st.sessions
    → IsWaiting x question (register_interactive_pi_session fresh_id p now st).1.sessions
unfolding register_interactive_pi_session
register-IsWaiting fresh_id x question p now st w = elim (Bool-cases (is_refused p st)) [
  | inl refused ↦ rw (refused, register_interactive_pi_session) w
  | inr fine ↦
      rw (fine, register_interactive_pi_session)
        (after_registration-IsWaiting fresh_id x question p now st w)
]

enqueue-IsWaiting :
    (x question : String) (c : PiSessionCommand) (now : ℕ) (st after : Store)
    → enqueue_pi_session_command c now st ≡ some after
    → IsWaiting x question st.sessions
    → IsWaiting x question after.sessions
enqueue-IsWaiting x question c now st after e w =
    let f : PiSession → PiSession =
      λ s. record s { updated_at = or_now c.created_at now; has_pending_messages = true } in
    let same : after.sessions ≡ update_where (has_session_id c.session_id) f st.sessions =
      unfold enqueue_pi_session_command in ground (arith, e) in
    subst (IsWaiting x question) (sym same) (
      update-IsWaiting x question c.session_id f st.sessions (λ s. refl)
        (λ s found still hit. (still, refl)) w)

Quiet-IsWaiting :
    {x question : String} {st after : Store}
    → Quiet x st after
    → IsWaiting x question st.sessions
    → IsWaiting x question after.sessions
Quiet-IsWaiting {x} {question} {st} (registers fresh_id p now) w =
    register-IsWaiting fresh_id x question p now st w
Quiet-IsWaiting {x} {question} {st} (applies fresh_id y p now calm) w =
    apply-IsWaiting fresh_id x question y p now st calm w
Quiet-IsWaiting {x} {question} {st} (claims y incarnation now lease_seconds) w =
    subst (IsWaiting x question) (sym (claim-sessions y incarnation now lease_seconds st)) w
Quiet-IsWaiting {x} {question} {st} {after} (enqueued c now e) w =
    enqueue-IsWaiting x question c now st after e w
Quiet-IsWaiting {x} {question} {st} (acks y command_id incarnation now other) w =
    subst (IsWaiting x question) (sym (ack-sessions y command_id incarnation now st other)) w

-- A blocked session stays blocked, with its question, through registrations of new bridges, event
-- batches that do not report its end, polls, enqueues, and acknowledgements of what is no prompt.
pub waits_for_answer :
    {x question : String} {st after : Store}
    → Quietly x st after
    → IsWaiting x question st.sessions
    → IsWaiting x question after.sessions
waits_for_answer nothing w = w
waits_for_answer (step q s) w = Quiet-IsWaiting s (waits_for_answer q w)

-- An acknowledged prompt lets a blocked session work again, without its question.
pub ack_resumes :
    (x question command_id incarnation : String) (now : ℕ) (st : Store)
    → IsWaiting x question st.sessions
    → is_prompt (command_row x command_id st) ≡ true
    → (ack_pi_session_command x command_id incarnation now st).0 ≡ ok true
    → (s : PiSession) × (find_where
          (has_session_id x)
          (ack_pi_session_command x command_id incarnation now st).1.sessions
        ≡ some s)
      × (s.state ≡ working)
      × (s.question ≡ "")
ack_resumes x question command_id incarnation now st w prompt acked =
    by_bridge (check_bridge x incarnation st) refl
  where
    f : PiSession → PiSession
    f r = record r { state = working; question = ""; updated_at = now }

    by_bridge :
        (r : Result PiSession)
        → check_bridge x incarnation st ≡ r
        → (s : PiSession) × (find_where
              (has_session_id x)
              (ack_pi_session_command x command_id incarnation now st).1.sessions
            ≡ some s)
          × (s.state ≡ working)
          × (s.question ≡ "")
    by_bridge (raise e) h = absurd (unfold ack_pi_session_command in ground (arith, h, acked))
    by_bridge (ok s) h =
        let own : s ≡ w.row = unfold check_bridge get_pi_session in ground (arith, h, w.found) in
        let blocked_still : is_blocked s.state ≡ true =
          subst (λ k. is_blocked k.state ≡ true) (sym own) w.still in
        let same =
          find_where-update_where (has_session_id x) (has_session_id x) f st.sessions
            (λ r k. refl) in
        let at : find_where (has_session_id x) (update_where (has_session_id x) f st.sessions)
            ≡ some (f w.row) =
          ground
            (arith, same, w.found, find_where_sound (has_session_id x) st.sessions w.row w.found) in
        let rows : (ack_pi_session_command x command_id incarnation now st).1.sessions
            ≡ update_where (has_session_id x) f st.sessions =
          unfold ack_pi_session_command in ground (arith, h, acked, prompt, blocked_still) in
        (
          f w.row,
          subst (λ k. find_where (has_session_id x) k ≡ some (f w.row)) (sym rows) at,
          refl,
          refl,
        )
