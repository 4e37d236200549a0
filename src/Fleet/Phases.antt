-- ===== src/Fleet/Phases.antt =====
-- Actions that send some calls only before others.
use worker_harness.Base.{Bool, true, false, ◌≡◌, arith, if◌then◌else◌}
use worker_harness.Fleet.Action.{Outcome, ok, raise, Call, Sent, World, Action, bind, ◌>>=◌}
use worker_harness.Fleet.Quiet.{is_removal, is_run, IsNeutral}
use worker_harness.Fleet.Traces.{Extends, Extends-refl, Extends-trans, Sends}

abbrev pub NoRun : Call → Type 0
NoRun c = is_run c ≡ false

abbrev pub NoRemoval : Call → Type 0
NoRemoval c = is_removal c ≡ false

pub neutral-NoRun : (c : Call) → IsNeutral c → NoRun c
neutral-NoRun c h = ground arith

pub neutral-NoRemoval : (c : Call) → IsNeutral c → NoRemoval c
neutral-NoRemoval c h = ground arith

-- What an action sends is first without `pane_run`, and from some point on without a removal.
pub record RunsLast {A : Type 0} (m : Action A) : Type 0 where
  pub middle : World → Sent
  pub first : (w : World) → Extends NoRun w.sent (middle w)
  pub second : (w : World) → Extends NoRemoval (middle w) (m w).1.sent

pub RunsLast-before : {A : Type 0} {m : Action A} → Sends NoRun m → RunsLast m
RunsLast-before {m = m} h = record {
  middle = λ w. (m w).1.sent;
  first = h.extends;
  second = λ w. Extends-refl NoRemoval (m w).1.sent;
}

pub RunsLast-after : {A : Type 0} {m : Action A} → Sends NoRemoval m → RunsLast m
RunsLast-after h = record {
  middle = λ w. w.sent;
  first = λ w. Extends-refl NoRun w.sent;
  second = h.extends;
}

module _ {A B : Type 0} (f : A → Action B) (k : (a : A) → RunsLast (f a)) where
  middle_of : Outcome A × World → Sent
  middle_of (ok a, w) = (k a).middle w
  middle_of (raise e, w) = w.sent

  first_of :
      (s : Sent) (r : Outcome A × World) → Extends NoRun s r.1.sent → Extends NoRun s (middle_of r)
  unfolding middle_of
  first_of s (ok a, w) h = Extends-trans NoRun s w.sent _ h ((k a).first w)
  first_of s (raise e, w) h = h

  second_of : (r : Outcome A × World) → Extends NoRemoval (middle_of r) (bind r f).1.sent
  unfolding middle_of bind
  second_of (ok a, w) = (k a).second w
  second_of (raise e, w) = Extends-refl NoRemoval w.sent

pub RunsLast-bind :
    {A B : Type 0} {m : Action A} {f : A → Action B}
    → Sends NoRun m
    → ((a : A) → RunsLast (f a))
    → RunsLast (m >>= f)
RunsLast-bind {m = m} {f = f} h k = record {
  middle = λ w. middle_of f k (m w);
  first = λ w. first_of f k w.sent (m w) (h.extends w);
  second = λ w. second_of f k (m w);
}

pub RunsLast-if :
    {A : Type 0} (b : Bool) {m k : Action A}
    → RunsLast m
    → RunsLast k
    → RunsLast (if b then m else k)
RunsLast-if true h k = h
RunsLast-if false h k = k
