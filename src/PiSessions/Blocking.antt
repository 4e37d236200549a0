-- ===== src/PiSessions/Blocking.antt =====
-- A session that waits for an answer: what keeps it blocked, and what lets it go on.
use worker_harness.Base.{
  ◌++◌, ℕ, ◌≡◌, refl, sym, subst, ap, ◌∙◌, inl, inr, String, Bool, true, false, not, some, List, [],
  ◌∷◌, arith, ◌==◌, nat_eq, string_eq, if◌then◌else◌, Bool-cases, Option-cases,
}
use worker_harness.Table.{update_where, find_where}
use worker_harness.Table.Removal.{find_where-append}
use worker_harness.Table.Laws.{find_where-update_where, find_where_sound}
use worker_harness.PiSessions.{
  PiSession, PiSessionState, PiSessionEvent, Store, Result, ok, raise, is_over, is_blocked,
  has_session_id, get_pi_session, update_session, insert_event,
}
use worker_harness.PiSessions.Commands.{check_bridge}
use worker_harness.PiSessions.Bridge.{
  PiIngestEvent, PiBridgeRegister, after_registration, snapshot_event, snapshot_events,
  persist_events, upsert_session, release_claims, reregistered, registered, event_of,
}
use worker_harness.PiSessions.Activity.{
  PiBridgeEventBatch, apply_interactive_pi_events, next_state, advanced, written, is_empty_events,
}

-- The session waits for an answer to that question.
pub record IsWaiting (x question : String) (sessions : List PiSession) : Type 0 where
  pub row : PiSession
  pub found : find_where (has_session_id x) sessions ≡ some row
  pub still : is_blocked row.state ≡ true
  pub asked : row.question ≡ question

-- An UPDATE of a session that keeps the key, the question and the block.
pub update-IsWaiting :
    (x question y : String) (f : PiSession → PiSession) (sessions : List PiSession)
    → ((s : PiSession) → (f s).id ≡ s.id)
    → ((s : PiSession)
        → find_where (has_session_id x) sessions ≡ some s
        → is_blocked s.state ≡ true
        → (s.id == y) ≡ true
        → (is_blocked (f s).state ≡ true) × ((f s).question ≡ s.question))
    → IsWaiting x question sessions
    → IsWaiting x question (update_where (has_session_id y) f sessions)
update-IsWaiting x question y f sessions key keep w =
    let same =
      find_where-update_where (has_session_id y) (has_session_id x) f sessions
        (λ s h. rw (key s) refl) in
    elim (Bool-cases (w.row.id == y)) [
      | inl hit ↦
          let (blocked_still, question_still) = keep w.row w.found w.still hit in
          record {
            row = f w.row;
            found = ground (arith, same, w.found, hit);
            still = blocked_still;
            asked = question_still ∙ w.asked;
          }
      | inr miss ↦ record {
        row = w.row;
        found = ground (arith, same, w.found, miss);
        still = w.still;
        asked = w.asked;
      }
    ]

insert_event-sessions :
    (e : PiSessionEvent) (st : Store) → (insert_event e st).1.sessions ≡ st.sessions
unfolding insert_event
insert_event-sessions e st = ground arith

persist_events-sessions :
    (fresh_id : PiIngestEvent → String) (x : String) (now : ℕ) (es : List PiIngestEvent)
    (st : Store)
    → (persist_events fresh_id x now es st).1.sessions ≡ st.sessions
unfolding persist_events
persist_events-sessions fresh_id x now [] st = refl
persist_events-sessions fresh_id x now (e ∷ es) st = ground (
  arith,
  persist_events-sessions fresh_id x now es (insert_event (event_of x fresh_id now e) st).1,
  insert_event-sessions (event_of x fresh_id now e) st,
)

snapshot_event-sessions :
    (fresh_id : PiIngestEvent → String) (x : String) (now : ℕ) (e : PiIngestEvent) (st : Store)
    → (snapshot_event fresh_id x now e st).sessions ≡ st.sessions
unfolding snapshot_event
snapshot_event-sessions fresh_id x now e st =
    ground (arith, insert_event-sessions (event_of x fresh_id now e) st)

snapshot_events-sessions :
    (fresh_id : PiIngestEvent → String) (x : String) (now : ℕ) (es : List PiIngestEvent)
    (st : Store)
    → (snapshot_events fresh_id x now es st).sessions ≡ st.sessions
unfolding snapshot_events
snapshot_events-sessions fresh_id x now [] st = refl
snapshot_events-sessions fresh_id x now (e ∷ es) st =
    snapshot_events-sessions fresh_id x now es (snapshot_event fresh_id x now e st)
    ∙ snapshot_event-sessions fresh_id x now e st

upsert_session-IsWaiting :
    (x question : String) (p : PiBridgeRegister) (now : ℕ) (st : Store)
    → IsWaiting x question st.sessions
    → IsWaiting x question (upsert_session p now st).sessions
upsert_session-IsWaiting x question p now st w =
    elim (Option-cases (get_pi_session p.session_id st)) [
      | inl absent ↦
          let e : (upsert_session p now st).sessions ≡ st.sessions ++ registered p now ∷ [] =
            unfold upsert_session in ground (arith, absent) in
          subst (IsWaiting x question) (sym e) (record {
            row = w.row;
            found =
                find_where-append (has_session_id x) st.sessions (registered p now) w.row w.found;
            still = w.still;
            asked = w.asked;
          })
      | inr (s, there) ↦
          let e : (upsert_session p now st).sessions
              ≡ update_where (has_session_id p.session_id) (reregistered p now) st.sessions =
            unfold upsert_session in ground (arith, there) in
          subst (IsWaiting x question) (sym e) (
            update-IsWaiting x question p.session_id (reregistered p now) st.sessions
              (λ r. unfold reregistered in refl)
              (λ r found still hit. unfold reregistered in (ground (arith, still), refl)) w)
    ]

pub after_registration-IsWaiting :
    (fresh_id : PiIngestEvent → String) (x question : String) (p : PiBridgeRegister) (now : ℕ)
    (st : Store)
    → IsWaiting x question st.sessions
    → IsWaiting x question (after_registration fresh_id p now st).sessions
unfolding after_registration release_claims
after_registration-IsWaiting fresh_id x question p now st w =
    subst (IsWaiting x question)
      (sym (snapshot_events-sessions fresh_id p.session_id now p.initial_events _))
      (resumed (p.resume_path == "") (upsert_session p now st)
        (upsert_session-IsWaiting x question p now st w))
  where
    resumed :
        (b : Bool) (t : Store)
        → IsWaiting x question t.sessions
        → IsWaiting x question
            (if b
              then t
              else update_session p.session_id
                  (λ s. record s { meta = record (s.meta) { resume_path = some p.resume_path } })
                  t).sessions
    resumed true t k = k
    resumed false t k =
        update-IsWaiting x question p.session_id
          (λ s. record s { meta = record (s.meta) { resume_path = some p.resume_path } }) t.sessions
          (λ s. refl) (λ s f b hit. (b, refl)) k

bridge_row :
    (x y incarnation : String) (st : Store) (s r : PiSession)
    → check_bridge y incarnation st ≡ ok s
    → find_where (has_session_id x) st.sessions ≡ some r
    → (r.id == y) ≡ true
    → s ≡ r
bridge_row x y incarnation st s r checked found hit =
    let there : find_where (has_session_id y) st.sessions ≡ some s =
      unfold check_bridge get_pi_session in ground (arith, checked) in
    let same : x ≡ y =
      ground (arith, hit, find_where_sound (has_session_id x) st.sessions r found) in
    let again : find_where (has_session_id y) st.sessions ≡ some r =
      subst (λ k. find_where (has_session_id k) st.sessions ≡ some r) same found in
    ground (arith, there, again)

advanced_blocked :
    (p : PiBridgeEventBatch) (x : String) (now : ℕ) (st : Store) (any_new : Bool) (s : PiSession)
    → ((r : PiSessionState) → p.state ≡ some r → is_over r ≡ false)
    → is_blocked s.state ≡ true
    → (is_blocked (advanced p x now st any_new s).state ≡ true)
      × ((advanced p x now st any_new s).question ≡ s.question)
unfolding advanced next_state
advanced_blocked p x now st any_new s calm still = elim (Option-cases p.state) [
  | inl silent ↦ ground (arith, silent, still)
  | inr (r, says) ↦ ground (arith, says, still, calm r says)
]

pub apply-IsWaiting :
    (fresh_id : PiIngestEvent → String) (x question y : String) (p : PiBridgeEventBatch) (now : ℕ)
    (st : Store)
    → ((r : PiSessionState) → p.state ≡ some r → is_over r ≡ false)
    → IsWaiting x question st.sessions
    → IsWaiting x question (apply_interactive_pi_events fresh_id y p now st).1.sessions
apply-IsWaiting fresh_id x question y p now st calm w =
    by_bridge (check_bridge y p.incarnation st) refl
  where
    by_bridge :
        (r : Result PiSession)
        → check_bridge y p.incarnation st ≡ r
        → IsWaiting x question (apply_interactive_pi_events fresh_id y p now st).1.sessions
    by_bridge (raise e) h =
        let same : (apply_interactive_pi_events fresh_id y p now st).1.sessions ≡ st.sessions =
          unfold apply_interactive_pi_events in ground (arith, h) in
        subst (IsWaiting x question) (sym same) w
    by_bridge (ok s) h =
        let (persisted, with_events) = persist_events fresh_id y now p.events st in
        let session = advanced p y now with_events (not (is_empty_events persisted)) s in
        let rows : with_events.sessions ≡ st.sessions =
          persist_events-sessions fresh_id y now p.events st in
        let same : (apply_interactive_pi_events fresh_id y p now st).1.sessions
            ≡ update_where (has_session_id y) (written session) with_events.sessions =
          unfold apply_interactive_pi_events in ground (arith, h) in
        subst (IsWaiting x question)
          (sym (same ∙ ap (update_where (has_session_id y) (written session)) rows))
          (update-IsWaiting x question y (written session) st.sessions (λ r. refl)
            (λ r found still hit.
              let own : s ≡ r = bridge_row x y p.incarnation st s r h found hit in
              subst (λ k. (is_blocked session.state ≡ true) × (session.question ≡ k.question)) own
                (advanced_blocked p y now with_events (not (is_empty_events persisted)) s calm
                  (subst (λ k. is_blocked k.state ≡ true) (sym own) still)))
            w)
