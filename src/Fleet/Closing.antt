-- ===== src/Fleet/Closing.antt =====
-- Actions that end with a session over, or do so where they raise.
use worker_harness.Base.{
  Bool, true, false, String, some, List, ◌≡◌, ◌⊎◌, inl, inr, refl, sym, subst, arith, if◌then◌else◌,
  Bool-cases,
}
use worker_harness.PiSessions.{PiSession, has_session_id, is_over}
use worker_harness.Table.{find_where}
use worker_harness.Fleet.Action.{
  Kind, Exception, Outcome, ok, raise, World, Action, recover, catch, bind, any_kind, ◌>>=◌,
}
use worker_harness.Fleet.Rows.{SameRows}

-- The session is over, or there is none.
abbrev pub IsOver : String → List PiSession → Type 0
IsOver x rows =
    (s : PiSession) → find_where (has_session_id x) rows ≡ some s → is_over s.state ≡ true

-- Whatever happens in it, an action ends with the session over.
pub record Ends (x : String) {A : Type 0} (m : Action A) : Type 0 where
  pub ends : (w : World) → IsOver x (m w).1.store.sessions

-- Where the action raises, the session is over, or the error is of a kind that is let through.
pub record Closes (x : String) (passes : Kind → Bool) {A : Type 0} (m : Action A) : Type 0 where
  pub closes :
      (w : World) (e : Exception)
      → (m w).0 ≡ raise e
      → IsOver x (m w).1.store.sessions ⊎ (passes e.kind ≡ true)

abbrev pub never : Kind → Bool
never k = false

module _ (x : String) where
  bind-IsOver :
      {A B : Type 0} (r : Outcome A × World) (f : A → Action B)
      → IsOver x r.1.store.sessions
      → ((a : A) → SameRows (f a))
      → IsOver x (bind r f).1.store.sessions
  unfolding bind
  bind-IsOver (ok a, w) f h k = subst (IsOver x) (sym ((k a).same w)) h
  bind-IsOver (raise e, w) f h k = h

  pub Ends-bind :
      {A B : Type 0} {m : Action A} {f : A → Action B}
      → Ends x m
      → ((a : A) → SameRows (f a))
      → Ends x (m >>= f)
  Ends-bind {m = m} {f = f} h k = record { ends = λ w. bind-IsOver (m w) f (h.ends w) k }

  pub Ends-Closes :
      {A : Type 0} {m : Action A} (passes : Kind → Bool) → Ends x m → Closes x passes m
  Ends-Closes passes h = record { closes = λ w e _. inl (h.ends w) }

  module _ (passes : Kind → Bool) where
    bind-Closes :
        {A B : Type 0} (r : Outcome A × World) (f : A → Action B) (e : Exception)
        → ((e' : Exception)
            → r.0 ≡ raise e'
            → IsOver x r.1.store.sessions ⊎ (passes e'.kind ≡ true))
        → ((a : A) → Closes x passes (f a))
        → (bind r f).0 ≡ raise e
        → IsOver x (bind r f).1.store.sessions ⊎ (passes e.kind ≡ true)
    unfolding bind
    bind-Closes (ok a, w) f e h k same = (k a).closes w e same
    bind-Closes (raise e', w) f e h k same =
        let same_error : e' ≡ e = ground arith in
        subst (λ y. IsOver x w.store.sessions ⊎ (passes y.kind ≡ true)) same_error (h e' refl)

    pub Closes-bind :
        {A B : Type 0} {m : Action A} {f : A → Action B}
        → Closes x passes m
        → ((a : A) → Closes x passes (f a))
        → Closes x passes (m >>= f)
    Closes-bind {m = m} {f = f} h k = record {
      closes = λ w e same. bind-Closes (m w) f e (h.closes w) k same;
    }

    -- What a handler takes it closes; the rest was closed before.
    recover-Closes :
        {A : Type 0} (r : Outcome A × World) (handles : Kind → Bool)
        (handler : Exception → Action A) (e : Exception)
        → ((e' : Exception)
            → r.0 ≡ raise e'
            → IsOver x r.1.store.sessions ⊎ (handles e'.kind ≡ true))
        → ((e' : Exception) → Closes x passes (handler e'))
        → (recover handles handler r).0 ≡ raise e
        → IsOver x (recover handles handler r).1.store.sessions ⊎ (passes e.kind ≡ true)
    unfolding recover
    recover-Closes (ok a, w) handles handler e h k same = absurd (ground arith)
    recover-Closes (raise e', w) handles handler e h k same = elim (Bool-cases (handles e'.kind)) [
      | inl taken ↦ rw taken ((k e').closes w e (rw taken at same))
      | inr left ↦
          rw left (elim (h e' refl) [ inl over ↦ inl over | inr taken ↦ absurd (ground arith) ])
    ]

    pub Closes-catch :
        {A : Type 0} (handles : Kind → Bool) {handler : Exception → Action A} {m : Action A}
        → ((e : Exception) → Closes x passes (handler e))
        → Closes x handles m
        → Closes x passes (catch handles handler m)
    Closes-catch handles {handler} {m} k h = record {
      closes = λ w e same. recover-Closes (m w) handles handler e (h.closes w) k same;
    }

  -- Everything is handled.
  pub Closes-any : {A : Type 0} {m : Action A} → Closes x any_kind m
  Closes-any = record { closes = λ w e _. inr refl }

  pub Closes-if :
      {A : Type 0} {passes : Kind → Bool} (b : Bool) {m k : Action A}
      → Closes x passes m
      → Closes x passes k
      → Closes x passes (if b then m else k)
  Closes-if true h k = h
  Closes-if false h k = k
