-- ===== src/PiSessions/Commands.antt =====
-- db.py: the mailbox of a session. A bridge claims commands for a lease and acknowledges them.
use worker_harness.Base.{
  ℕ, ◌+◌, String, Bool, true, false, ◌&&◌, ◌||◌, not, Option, none, some, List, [], ◌∷◌, ◌++◌, leb,
  ◌==◌, nat_eq, string_eq, if◌then◌else◌,
}
use worker_harness.Table.{select, update_where, find_where, exists_where, count_where}
use worker_harness.Table.Order.{order_by}
use worker_harness.PiSessions.{
  PiSession, working, PiSessionCommand, Store, Result, ok, raise, key_error, permission_error,
  bridge_backed, is_blocked, get_pi_session, update_session,
}

-- `command.created_at or int(time.time())`
abbrev pub or_now : ℕ → ℕ → ℕ
or_now t now = if t == 0 then now else t

unfoldable pub enqueue_pi_session_command : PiSessionCommand → ℕ → Store → Option Store
enqueue_pi_session_command c now st =
    if exists_where (λ r. r.id == c.id) st.commands
    then none
    else some (
        update_session c.session_id
          (λ s. record s { updated_at = or_now c.created_at now; has_pending_messages = true })
          (record st { commands = st.commands ++ c ∷ [] }))

-- `session.bridge_incarnation != incarnation`
abbrev pub is_incarnation : String → PiSession → Bool
is_incarnation incarnation s = elim s.bridge_incarnation [
  | none ↦ false
  | some i ↦ i == incarnation
]

-- The guards of `claim_pi_session_commands` and `ack_pi_session_command`.
unfoldable pub check_bridge : String → String → Store → Result PiSession
check_bridge x incarnation st = elim (get_pi_session x st) [
  | none ↦ raise key_error
  | some s ↦
      if not (bridge_backed s.session_type)
      then raise key_error
      else if is_incarnation incarnation s
      then ok s
      else raise permission_error
]

abbrev pub is_undelivered : PiSessionCommand → Bool
is_undelivered c = c.delivered_at == 0

-- `claimed_at <= now - lease_seconds`, where the difference may be negative
abbrev pub lease_over : ℕ → ℕ → PiSessionCommand → Bool
lease_over now lease_seconds c = leb (c.claimed_at + lease_seconds) now

unfoldable pub is_claimable : String → String → ℕ → ℕ → PiSessionCommand → Bool
is_claimable x incarnation now lease_seconds c =
    c.session_id == x
    && is_undelivered c
    && (c.claimed_by == "" || c.claimed_by == incarnation || lease_over now lease_seconds c)

abbrev pub claimed : String → ℕ → PiSessionCommand → PiSessionCommand
claimed incarnation now c = record c { claimed_at = now; claimed_by = incarnation }

abbrev pub is_held : String → String → PiSessionCommand → Bool
is_held x incarnation c = c.session_id == x && is_undelivered c && c.claimed_by == incarnation

abbrev pub created_le : PiSessionCommand → PiSessionCommand → Bool
created_le a b = leb a.created_at b.created_at

unfoldable pub claim_pi_session_commands :
    String → String → ℕ → ℕ → Store → Result (List PiSessionCommand) × Store
claim_pi_session_commands x incarnation now lease_seconds st =
    let after = record st {
      commands =
          update_where (is_claimable x incarnation now lease_seconds) (claimed incarnation now)
            st.commands;
    } in
    elim (check_bridge x incarnation st) [
      | raise e ↦ (raise e, st)
      | ok s ↦ (ok (order_by created_le (select (is_held x incarnation) after.commands)), after)
    ]

-- `id = ? AND session_id = ? AND claimed_by = ? AND delivered_at = 0`
abbrev pub is_ackable : String → String → String → PiSessionCommand → Bool
is_ackable x command_id incarnation c =
    c.id == command_id && c.session_id == x && c.claimed_by == incarnation && is_undelivered c

abbrev pub delivered : ℕ → PiSessionCommand → PiSessionCommand
delivered now c = record c { delivered_at = now }

-- `command_row and command_row["kind"] == "prompt"`
abbrev pub is_prompt : Option PiSessionCommand → Bool
is_prompt none = false
is_prompt (some c) = c.kind == "prompt"

unfoldable pub ack_pi_session_command : String → String → String → ℕ → Store → Result Bool × Store
ack_pi_session_command x command_id incarnation now st = elim (check_bridge x incarnation st) [
  | raise e ↦ (raise e, st)
  | ok s ↦
      let row = find_where (λ c. c.id == command_id && c.session_id == x) st.commands in
      let matched = not (count_where (is_ackable x command_id incarnation) st.commands == 0) in
      let marked = record st {
        commands = update_where (is_ackable x command_id incarnation) (delivered now) st.commands;
      } in
      let resumed =
        update_session x (λ r. record r { state = working; question = ""; updated_at = now })
          marked in
      (ok matched, if matched && is_prompt row && is_blocked s.state then resumed else marked)
]
