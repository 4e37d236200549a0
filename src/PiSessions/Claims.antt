-- ===== src/PiSessions/Claims.antt =====
-- `claim_pi_session_commands` in db.py: which commands a bridge is given.
use worker_harness.Base.{
  ℕ, ◌+◌, ◌≤◌, ◌<◌, ◌≡◌, ◌≢◌, ◌⊎◌, none, if◌then◌else◌, refl, subst, String, Bool, true, false,
  some, List, [], ◌∷◌, length, arith, ◌==◌, nat_eq, string_eq,
}
use worker_harness.Table.{select, update_where, find_where, count_where, All}
use worker_harness.Table.Laws.{select-All, find_where-update_where}
use worker_harness.Table.Removal.{length-select, length-order_by}
use worker_harness.Table.Order.{order_by}
use worker_harness.Table.Order.Sorted.{IsTotal, All-order_by}
use worker_harness.Table.Order.Stable.{IsSorted, order_by-IsSorted}
use worker_harness.PiSessions.{PiSession, PiSessionCommand, Store, Result, ok, raise}
use worker_harness.PiSessions.Commands.{
  claim_pi_session_commands, check_bridge, is_claimable, is_held, claimed, created_le,
}

pub created_le-IsTotal : IsTotal created_le
created_le-IsTotal = record { total = λ a b h. ground arith; trans = λ a b c h k. ground arith }

-- What a successful claim gives, and what it leaves.
pub record IsClaim (x incarnation : String) (now lease_seconds : ℕ) (before : List PiSessionCommand)
    (rows : List PiSessionCommand) (after : List PiSessionCommand) : Type 0 where
  -- Each is an undelivered command of the session that the bridge now holds,
  pub held : All (λ c. is_held x incarnation c ≡ true) rows
  -- they are as many as were free, or its own, or whose lease was over,
  pub all_of_them : length rows ≡ count_where (is_claimable x incarnation now lease_seconds) before
  -- in the order of their creation;
  pub in_order : IsSorted created_le-IsTotal rows
  -- a command of the session that is not delivered is among them if nobody holds it, the bridge
  -- itself does, or the lease of the other has ended;
  pub free :
      (id : String) (c : PiSessionCommand)
      → find_where (λ r. r.id == id) before ≡ some c
      → c.session_id ≡ x
      → c.delivered_at ≡ 0
      → (c.claimed_by ≡ "") ⊎ (c.claimed_by ≡ incarnation) ⊎ (c.claimed_at + lease_seconds ≤ now)
      → find_where (λ r. r.id == id) after ≡ some (claimed incarnation now c)
  -- one that another bridge holds within its lease is as it was,
  pub leased :
      (id : String) (c : PiSessionCommand)
      → find_where (λ r. r.id == id) before ≡ some c
      → c.claimed_by ≢ ""
      → c.claimed_by ≢ incarnation
      → now < c.claimed_at + lease_seconds
      → find_where (λ r. r.id == id) after ≡ some c
  -- and so is one that is delivered or of another session.
  pub others :
      (id : String) (c : PiSessionCommand)
      → find_where (λ r. r.id == id) before ≡ some c
      → (c.session_id ≢ x) ⊎ (0 < c.delivered_at)
      → find_where (λ r. r.id == id) after ≡ some c

claim_test :
    (x incarnation : String) (now lease_seconds : ℕ) (c : PiSessionCommand)
    → (c.session_id ≡ x
        → c.delivered_at ≡ 0
        → (c.claimed_by ≡ "") ⊎ (c.claimed_by ≡ incarnation) ⊎ (c.claimed_at + lease_seconds ≤ now)
        → is_claimable x incarnation now lease_seconds c ≡ true)
      × (c.claimed_by ≢ ""
          → c.claimed_by ≢ incarnation
          → now < c.claimed_at + lease_seconds
          → is_claimable x incarnation now lease_seconds c ≡ false)
      × ((c.session_id ≢ x) ⊎ (0 < c.delivered_at)
          → is_claimable x incarnation now lease_seconds c ≡ false)
unfolding is_claimable
claim_test x incarnation now lease_seconds c =
    let own = string_eq.eq?_iff c.session_id x in
    let empty = string_eq.eq?_iff c.claimed_by "" in
    let same = string_eq.eq?_iff c.claimed_by incarnation in
    (
      λ s d f. ground (arith, s, d, f, own, empty, same),
      λ e i l. ground (arith, e, i, l, empty, same),
      λ o. ground (arith, o, own),
    )

held_after :
    (x incarnation : String) (now lease_seconds : ℕ) (cs : List PiSessionCommand)
    → count_where
        (is_held x incarnation)
        (update_where (is_claimable x incarnation now lease_seconds) (claimed incarnation now) cs)
      ≡ count_where (is_claimable x incarnation now lease_seconds) cs
unfolding count_where update_where is_claimable
held_after x incarnation now lease_seconds [] = refl
held_after x incarnation now lease_seconds (c ∷ cs) =
    ground (arith, held_after x incarnation now lease_seconds cs)

pub claim_pi_session_commands-IsClaim :
    (x incarnation : String) (now lease_seconds : ℕ) (st : Store) (rows : List PiSessionCommand)
    → (claim_pi_session_commands x incarnation now lease_seconds st).0 ≡ ok rows
    → IsClaim x incarnation now lease_seconds st.commands rows
        (claim_pi_session_commands x incarnation now lease_seconds st).1.commands
claim_pi_session_commands-IsClaim x incarnation now lease_seconds st rows e =
    by_bridge (check_bridge x incarnation st) refl
  where
    p : PiSessionCommand → Bool
    p = is_claimable x incarnation now lease_seconds

    after : List PiSessionCommand
    after = update_where p (claimed incarnation now) st.commands

    listed : List PiSessionCommand
    listed = order_by created_le (select (is_held x incarnation) after)

    claimed_row :
        (id : String)
        → find_where (λ r. r.id == id) after ≡ elim (find_where (λ r. r.id == id) st.commands) [
          | none ↦ none
          | some c ↦ some (if p c then claimed incarnation now c else c)
        ]
    claimed_row id =
        find_where-update_where p (λ r. r.id == id) (claimed incarnation now) st.commands
          (λ r h. refl)

    claim : IsClaim x incarnation now lease_seconds st.commands listed after
    claim = record {
      held =
          All-order_by created_le (λ c. is_held x incarnation c ≡ true)
            (select (is_held x incarnation) after) (select-All (is_held x incarnation) after);
      all_of_them = omega (
        arith,
        length-order_by created_le (select (is_held x incarnation) after),
        length-select (is_held x incarnation) after,
        held_after x incarnation now lease_seconds st.commands,
      );
      in_order = order_by-IsSorted created_le-IsTotal (select (is_held x incarnation) after);
      free = λ id c found s d f.
          let test = (claim_test x incarnation now lease_seconds c).0 s d f in
          ground (arith, found, test, claimed_row id);
      leased = λ id c found e i l.
          let test = (claim_test x incarnation now lease_seconds c).1 e i l in
          ground (arith, found, test, claimed_row id);
      others = λ id c found o.
          let test = (claim_test x incarnation now lease_seconds c).2 o in
          ground (arith, found, test, claimed_row id);
    }

    by_bridge :
        (r : Result PiSession)
        → check_bridge x incarnation st ≡ r
        → IsClaim x incarnation now lease_seconds st.commands rows
            (claim_pi_session_commands x incarnation now lease_seconds st).1.commands
    by_bridge (raise err) h = absurd (unfold claim_pi_session_commands in ground (arith, e, h))
    by_bridge (ok s) h =
        let same : listed ≡ rows = unfold claim_pi_session_commands in ground (arith, e, h) in
        let left : after
            ≡ (claim_pi_session_commands x incarnation now lease_seconds st).1.commands =
          unfold claim_pi_session_commands in ground (arith, h) in
        subst
          (λ rs.
            IsClaim x incarnation now lease_seconds st.commands rs
              (claim_pi_session_commands x incarnation now lease_seconds st).1.commands)
          same (subst (IsClaim x incarnation now lease_seconds st.commands listed) left claim)
