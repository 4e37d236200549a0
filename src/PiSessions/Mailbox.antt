-- ===== src/PiSessions/Mailbox.antt =====
-- What each operation of db.py does to the deliveries of one command.
use worker_harness.Base.{
  ◌⊎◌, ℕ, ◌+◌, ◌≤◌, ◌<◌, ◌≡◌, refl, inl, inr, String, Bool, true, false, ◌&&◌, not, some, List, [],
  ◌∷◌, ◌++◌, arith, ◌==◌, nat_eq, string_eq, string_discrete, if◌then◌else◌, Bool-cases,
}
use worker_harness.Table.{update_where, count_where, exists_where}
use worker_harness.Table.Laws.{count_where-update_where, count_where-append, count_where-eq-zero}
use worker_harness.PiSessions.{PiSession, PiSessionCommand, Store, Result, ok, raise}
use worker_harness.PiSessions.Commands.{
  enqueue_pi_session_command, claim_pi_session_commands, ack_pi_session_command, check_bridge,
  is_claimable, claimed, is_ackable, delivered, is_undelivered,
}
use worker_harness.PiSessions.Bridge.{
  PiIngestEvent, PiBridgeRegister, register_interactive_pi_session, is_orphan,
}
use worker_harness.PiSessions.Frame.{register-commands, orphaned}

-- One if the command is acknowledged.
abbrev pub successes : String → String → Result Bool → ℕ
successes id command_id (raise e) = 0
successes id command_id (ok false) = 0
successes id command_id (ok true) = if command_id == id then 1 else 0

abbrev pub has_command_id : String → PiSessionCommand → Bool
has_command_id id c = c.id == id

abbrev pub is_done : String → PiSessionCommand → Bool
is_done id c = c.id == id && not (is_undelivered c)

-- Of the commands with the id, at most one, and as many are delivered as were acknowledged.
pub record Inv (id : String) (n : ℕ) (commands : List PiSessionCommand) : Type 0 where
  pub unique : count_where (has_command_id id) commands ≤ 1
  pub counted : n ≤ count_where (is_done id) commands

-- Updates that touch neither ids nor deliveries.
keeps :
    (id : String) (n : ℕ) (p : PiSessionCommand → Bool) (f : PiSessionCommand → PiSessionCommand)
    (cs : List PiSessionCommand)
    → ((c : PiSessionCommand) → (f c).id ≡ c.id)
    → ((c : PiSessionCommand) → (f c).delivered_at ≡ c.delivered_at)
    → Inv id n cs
    → Inv id n (update_where p f cs)
keeps id n p f cs key kept inv = record {
  unique = omega (
    arith,
    inv.unique,
    count_where-update_where (has_command_id id) p f cs (λ c h. rw (key c) refl),
  );
  counted = omega (
    arith,
    inv.counted,
    count_where-update_where (is_done id) p f cs (λ c h. rw (key c, kept c) refl),
  );
}

pub same-Inv : {id : String} {n : ℕ} {a b : List PiSessionCommand} → b ≡ a → Inv id n a → Inv id n b
same-Inv {id} {n} e inv = rw e inv

pub nothing_new :
    {id : String} {n : ℕ} {cs : List PiSessionCommand} → Inv id n cs → Inv id (0 + n) cs
nothing_new inv = record { unique = inv.unique; counted = omega (arith, inv.counted) }

pub enqueue-Inv :
    (id : String) (n : ℕ) (c : PiSessionCommand) (now : ℕ) (st after : Store)
    → enqueue_pi_session_command c now st ≡ some after
    → Inv id n st.commands
    → Inv id n after.commands
enqueue-Inv id n c now st after e inv =
    elim (Bool-cases (exists_where (has_command_id c.id) st.commands)) [
      | inl taken ↦ absurd (unfold enqueue_pi_session_command in ground arith)
      | inr free ↦
          let written : after.commands ≡ st.commands ++ c ∷ [] =
            unfold enqueue_pi_session_command in ground arith in
          same-Inv written (record {
            unique =
                unfold count_where in
                ground (
                  arith,
                  inv.unique,
                  count_where-append (has_command_id id) st.commands (c ∷ []),
                  count_where-eq-zero (has_command_id c.id) st.commands free,
                );
            counted =
                omega (arith, inv.counted, count_where-append (is_done id) st.commands (c ∷ []));
          })
    ]

pub claim-Inv :
    (id : String) (n : ℕ) (x incarnation : String) (now lease_seconds : ℕ) (st : Store)
    → Inv id n st.commands
    → Inv id n (claim_pi_session_commands x incarnation now lease_seconds st).1.commands
unfolding claim_pi_session_commands
claim-Inv id n x incarnation now lease_seconds st inv =
    by_bridge (check_bridge x incarnation st) refl
  where
    by_bridge :
        (r : Result PiSession)
        → check_bridge x incarnation st ≡ r
        → Inv id n (claim_pi_session_commands x incarnation now lease_seconds st).1.commands
    by_bridge (raise e) h = rw (h, claim_pi_session_commands) inv
    by_bridge (ok s) h =
        rw (h, claim_pi_session_commands)
          (keeps id n (is_claimable x incarnation now lease_seconds) (claimed incarnation now)
            st.commands (λ c. refl) (λ c. refl) inv)

-- An acknowledgement marks as many commands as it matches.
marked :
    (id : String) (p : PiSessionCommand → Bool) (now : ℕ) (cs : List PiSessionCommand)
    → 0 < now
    → ((c : PiSessionCommand) → p c ≡ true → is_done id c ≡ false)
    → ((c : PiSessionCommand) → p c ≡ true → c.id ≡ id)
    → count_where (is_done id) (update_where p (delivered now) cs)
      ≡ count_where (is_done id) cs + count_where p cs
unfolding count_where update_where
marked id p now [] positive fresh mine = refl
marked id p now (c ∷ cs) positive fresh mine =
    ground (arith, fresh c, mine c, marked id p now cs positive fresh mine)

ack_some :
    (id x command_id incarnation : String) (now : ℕ) (st : Store)
    → ((ack_pi_session_command x command_id incarnation now st).1.commands
          ≡ update_where (is_ackable x command_id incarnation) (delivered now) st.commands)
        × (successes id command_id (ack_pi_session_command x command_id incarnation now st).0 ≤ (
            if command_id == id
            then count_where (is_ackable x command_id incarnation) st.commands
            else 0))
      ⊎ ((ack_pi_session_command x command_id incarnation now st).1 ≡ st)
        × (successes id command_id (ack_pi_session_command x command_id incarnation now st).0 ≡ 0)
unfolding ack_pi_session_command
ack_some id x command_id incarnation now st = ground arith

pub ack-Inv :
    (id : String) (n : ℕ) (x command_id incarnation : String) (now : ℕ) (st : Store)
    → 0 < now
    → Inv id n st.commands
    → Inv id
        (successes id command_id (ack_pi_session_command x command_id incarnation now st).0 + n)
        (ack_pi_session_command x command_id incarnation now st).1.commands
ack-Inv id n x command_id incarnation now st positive inv =
    elim (ack_some id x command_id incarnation now st) [
      | inr (same, none_new) ↦ rw (same, none_new) (nothing_new inv)
      | inl (after, few) ↦ same-Inv after (record {
        unique = omega (
          arith,
          inv.unique,
          count_where-update_where (has_command_id id) (is_ackable x command_id incarnation)
              (delivered now) st.commands (λ c h. refl),
        );
        counted = more (string_discrete command_id id) few;
      })
    ]
  where
    p : PiSessionCommand → Bool
    p = is_ackable x command_id incarnation

    more :
        Dec (command_id ≡ id)
        → successes id command_id (ack_pi_session_command x command_id incarnation now st).0
          ≤ (if command_id == id then count_where p st.commands else 0)
        → successes id command_id (ack_pi_session_command x command_id incarnation now st).0 + n
          ≤ count_where (is_done id) (update_where p (delivered now) st.commands)
    more (yes same) few =
        let new =
          marked id p now st.commands positive (λ c h. ground arith) (λ c h. ground arith) in
        ground (arith, few, new, inv.counted, same)
    more (no ne) few =
        let kept =
          count_where-update_where (is_done id) p (delivered now) st.commands
            (λ c h. ground arith) in
        ground (arith, few, kept, inv.counted, ne)

pub register-Inv :
    (id : String) (n : ℕ) (fresh_id : PiIngestEvent → String) (p : PiBridgeRegister) (now : ℕ)
    (st : Store)
    → Inv id n st.commands
    → Inv id n (register_interactive_pi_session fresh_id p now st).1.commands
register-Inv id n fresh_id p now st inv = elim (register-commands fresh_id p now st) [
  | inl same ↦ same-Inv same inv
  | inr freed ↦ same-Inv freed (
      keeps id n (is_orphan p.session_id p.incarnation) orphaned st.commands (λ c. refl) (λ c. refl)
        inv)
]
