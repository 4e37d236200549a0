-- ===== src/Fleet/Traces.antt =====
-- Which calls an action can send, by the way it is composed.
use mathlib.Core.List.{append-nil, append_assoc}
use worker_harness.Base.{Bool, true, false, [], ◌∷◌, ◌++◌, ◌≡◌, refl, sym, ap, ◌∙◌, if◌then◌else◌}
use worker_harness.Machines.{Machine}
use worker_harness.PiSessions.{Store}
use worker_harness.Table.{All}
use worker_harness.Fleet.Action.{
  Kind, Exception, Outcome, ok, raise, Call, Sent, Env, World, Action, Done, pure, rethrow, gets,
  modify, recover, catch, bind, unless, ◌>>=◌, request, new_id,
}

All-append :
    (P : Call → Type 0) (xs ys : Sent)
    → All (λ c. P c.1) xs
    → All (λ c. P c.1) ys
    → All (λ c. P c.1) (xs ++ ys)
All-append P [] ys h k = k
All-append P (x ∷ xs) ys (p, h) k = (p, All-append P xs ys h k)

module _ (P : Call → Type 0) where
  -- More was sent, and only calls that meet `P`.
  pub record Extends (before after : Sent) : Type 0 where
    pub new : Sent
    pub appended : after ≡ before ++ new
    pub allowed : All (λ c. P c.1) new

  pub Extends-refl : (s : Sent) → Extends s s
  Extends-refl s = record { new = []; appended = sym (append-nil s); allowed = tt }

  pub Extends-trans : (a b c : Sent) → Extends a b → Extends b c → Extends a c
  Extends-trans a b c h k = record {
    new = h.new ++ k.new;
    appended = k.appended ∙ ap (λ s. s ++ k.new) h.appended ∙ append_assoc a h.new k.new;
    allowed = All-append P h.new k.new h.allowed k.allowed;
  }

  pub record Sends {A : Type 0} (m : Action A) : Type 0 where
    pub extends : (w : World) → Extends w.sent (m w).1.sent

  Extends-bind :
      {A B : Type 0} (s : Sent) (r : Outcome A × World) (f : A → Action B)
      → Extends s r.1.sent
      → ((a : A) → Sends (f a))
      → Extends s (bind r f).1.sent
  unfolding bind
  Extends-bind s (ok a, w) f h k = Extends-trans s w.sent _ h ((k a).extends w)
  Extends-bind s (raise e, w) f h k = h

  pub Sends-bind :
      {A B : Type 0} {m : Action A} {f : A → Action B}
      → Sends m
      → ((a : A) → Sends (f a))
      → Sends (m >>= f)
  Sends-bind {m = m} {f = f} h k = record {
    extends = λ w. Extends-bind w.sent (m w) f (h.extends w) k;
  }

  Extends-recover :
      {A : Type 0} (s : Sent) (r : Outcome A × World) (handles : Kind → Bool)
      (handler : Exception → Action A)
      → Extends s r.1.sent
      → ((e : Exception) → Sends (handler e))
      → Extends s (recover handles handler r).1.sent
  unfolding recover
  Extends-recover s (ok a, w) handles handler h k = h
  Extends-recover s (raise e, w) handles handler h k = by_kind (handles e.kind)
    where
      by_kind : (b : Bool) → Extends s (if b then handler e w else (raise e, w)).1.sent
      by_kind true = Extends-trans s w.sent _ h ((k e).extends w)
      by_kind false = h

  pub Sends-catch :
      {A : Type 0} (handles : Kind → Bool) {handler : Exception → Action A} {m : Action A}
      → ((e : Exception) → Sends (handler e))
      → Sends m
      → Sends (catch handles handler m)
  Sends-catch handles {handler} {m} k h = record {
    extends = λ w. Extends-recover w.sent (m w) handles handler (h.extends w) k;
  }

  pub Sends-pure : {A : Type 0} (a : A) → Sends (pure a)
  Sends-pure a = record { extends = λ w. Extends-refl w.sent }

  pub Sends-raise : {A : Type 0} (e : Exception) → Sends (rethrow {A = A} e)
  Sends-raise e = record { extends = λ w. Extends-refl w.sent }

  pub Sends-modify : (f : Store → Store) → Sends (modify f)
  Sends-modify f = record { extends = λ w. Extends-refl w.sent }

  pub Sends-gets : {A : Type 0} (f : Store → A) → Sends (gets f)
  Sends-gets f = record { extends = λ w. Extends-refl w.sent }

  pub Sends-unless : (b : Bool) {m : Action Done} → Sends m → Sends (unless b m)
  unfolding unless
  Sends-unless true h = record { extends = λ w. Extends-refl w.sent }
  Sends-unless false h = record { extends = h.extends }

  pub Sends-if :
      (b : Bool) {A : Type 0} {m k : Action A} → Sends m → Sends k → Sends (if b then m else k)
  Sends-if true h k = h
  Sends-if false h k = k

  module _ (env : Env) where
    pub Sends-request :
        (machine : Machine) {call : Call} → P call → Sends (request env machine call)
    unfolding request
    Sends-request machine {call} p = record {
      extends = λ w. record { new = (machine.name, call) ∷ []; appended = refl; allowed = (p, tt) };
    }

    pub Sends-new_id : Sends (new_id env)
    unfolding new_id
    Sends-new_id = record { extends = λ w. Extends-refl w.sent }
