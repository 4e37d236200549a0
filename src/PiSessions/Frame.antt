-- ===== src/PiSessions/Frame.antt =====
-- What the operations of db.py leave of the commands table.
use worker_harness.Base.{
  ℕ, ◌≡◌, ◌⊎◌, ◌∙◌, map, refl, ap, inl, inr, String, Bool, true, false, List, [], ◌∷◌, arith, ◌==◌,
  nat_eq, string_eq, if◌then◌else◌, Bool-cases,
}
use worker_harness.Table.{update_where, select}
use worker_harness.PiSessions.{
  PiSession, PiSessionCommand, PiSessionEvent, Store, insert_event, set_pi_session_blocked,
  update_session,
}
use worker_harness.PiSessions.Bridge.{
  PiIngestEvent, PiBridgeRegister, register_interactive_pi_session, snapshot_event, snapshot_events,
  persist_events, upsert_session, release_claims, after_registration, is_refused, is_orphan,
  event_of,
}
use worker_harness.PiSessions.Activity.{
  PiBridgeEventBatch, apply_interactive_pi_events, expire_session, is_stale, expire_all,
  sweep_stale_interactive_pi_sessions,
}

-- The other tables do not matter.
insert_event-commands :
    (e : PiSessionEvent) (st : Store) → (insert_event e st).1.commands ≡ st.commands
unfolding insert_event
insert_event-commands e st = ground arith

persist_events-commands :
    (fresh_id : PiIngestEvent → String) (x : String) (now : ℕ) (es : List PiIngestEvent)
    (st : Store)
    → (persist_events fresh_id x now es st).1.commands ≡ st.commands
unfolding persist_events
persist_events-commands fresh_id x now [] st = refl
persist_events-commands fresh_id x now (e ∷ es) st = ground (
  arith,
  persist_events-commands fresh_id x now es (insert_event (event_of x fresh_id now e) st).1,
  insert_event-commands (event_of x fresh_id now e) st,
)

snapshot_event-commands :
    (fresh_id : PiIngestEvent → String) (x : String) (now : ℕ) (e : PiIngestEvent) (st : Store)
    → (snapshot_event fresh_id x now e st).commands ≡ st.commands
unfolding snapshot_event
snapshot_event-commands fresh_id x now e st =
    ground (arith, insert_event-commands (event_of x fresh_id now e) st)

snapshot_events-commands :
    (fresh_id : PiIngestEvent → String) (x : String) (now : ℕ) (es : List PiIngestEvent)
    (st : Store)
    → (snapshot_events fresh_id x now es st).commands ≡ st.commands
unfolding snapshot_events
snapshot_events-commands fresh_id x now [] st = refl
snapshot_events-commands fresh_id x now (e ∷ es) st =
    snapshot_events-commands fresh_id x now es (snapshot_event fresh_id x now e st)
    ∙ snapshot_event-commands fresh_id x now e st

expire_session-commands :
    (fresh_id : String → String) (now : ℕ) (x : String) (st : Store)
    → (expire_session fresh_id now x st).commands ≡ st.commands
unfolding expire_session insert_event
expire_session-commands fresh_id now x st = ground arith

expire_all-commands :
    (fresh_id : String → String) (now : ℕ) (xs : List String) (st : Store)
    → (expire_all fresh_id now xs st).commands ≡ st.commands
unfolding expire_all
expire_all-commands fresh_id now [] st = refl
expire_all-commands fresh_id now (x ∷ xs) st =
    expire_all-commands fresh_id now xs (expire_session fresh_id now x st)
    ∙ expire_session-commands fresh_id now x st

pub sweep-commands :
    (fresh_id : String → String) (cutoff_ts now : ℕ) (st : Store)
    → (sweep_stale_interactive_pi_sessions fresh_id cutoff_ts now st).1.commands ≡ st.commands
unfolding sweep_stale_interactive_pi_sessions
sweep-commands fresh_id cutoff_ts now st =
    expire_all-commands fresh_id now (map (λ s. s.id) (select (is_stale cutoff_ts) st.sessions)) st

pub apply-commands :
    (fresh_id : PiIngestEvent → String) (x : String) (p : PiBridgeEventBatch) (now : ℕ) (st : Store)
    → (apply_interactive_pi_events fresh_id x p now st).1.commands ≡ st.commands
unfolding apply_interactive_pi_events
apply-commands fresh_id x p now st =
    ground (arith, persist_events-commands fresh_id x now p.events st)

pub blocks-commands :
    (x question event_id : String) (now : ℕ) (st : Store)
    → (set_pi_session_blocked x question event_id now st).1.commands ≡ st.commands
unfolding set_pi_session_blocked insert_event
blocks-commands x question event_id now st = ground arith

abbrev pub orphaned : PiSessionCommand → PiSessionCommand
orphaned c = record c { claimed_at = 0; claimed_by = "" }

upsert_session-commands :
    (p : PiBridgeRegister) (now : ℕ) (st : Store) → (upsert_session p now st).commands ≡ st.commands
unfolding upsert_session
upsert_session-commands p now st = ground arith

resumed-commands :
    (b : Bool) (x : String) (f : PiSession → PiSession) (st : Store)
    → (if b then st else update_session x f st).commands ≡ st.commands
resumed-commands true x f st = refl
resumed-commands false x f st = refl

after_registration-commands :
    (fresh_id : PiIngestEvent → String) (p : PiBridgeRegister) (now : ℕ) (st : Store)
    → (after_registration fresh_id p now st).commands
      ≡ update_where (is_orphan p.session_id p.incarnation) orphaned st.commands
unfolding after_registration release_claims
after_registration-commands fresh_id p now st =
    snapshot_events-commands fresh_id p.session_id now p.initial_events _
    ∙ ap (update_where (is_orphan p.session_id p.incarnation) orphaned) (
        resumed-commands (p.resume_path == "") p.session_id _ (upsert_session p now st)
        ∙ upsert_session-commands p now st)

-- A registration releases claims, or is refused.
pub register-commands :
    (fresh_id : PiIngestEvent → String) (p : PiBridgeRegister) (now : ℕ) (st : Store)
    → ((register_interactive_pi_session fresh_id p now st).1.commands ≡ st.commands)
      ⊎ ((register_interactive_pi_session fresh_id p now st).1.commands
          ≡ update_where (is_orphan p.session_id p.incarnation) orphaned st.commands)
unfolding register_interactive_pi_session
register-commands fresh_id p now st = elim (Bool-cases (is_refused p st)) [
  | inl refused ↦ inl (ground (arith, refused))
  | inr fine ↦ inr (ground (arith, fine, after_registration-commands fresh_id p now st))
]
