-- ===== src/Fleet/Attempts.antt =====
-- Which names `create_worktree` tries, and how it ends.
use mathlib.Core.List.{append-nil, append_assoc}
use worker_harness.Base.{
  String, true, false, List, [], ◌∷◌, ◌++◌, ◌≡◌, inl, inr, refl, sym, ap, ◌∙◌, map, Bool-cases,
}
use worker_harness.Machines.{Machine}
use worker_harness.Fleet.Action.{
  Exception, Outcome, ok, raise, Call, Sent, Reply, worktree_add, Env, World, recover, bind,
  is_shim, request, pure,
}
use worker_harness.Fleet.Worktrees.{attempts, worktree_path, try_branches, create_worktree}

module _ (env : Env) (m : Machine) (repo base : String) where
  -- The calls for some of the names.
  abbrev pub adds : List String → Sent
  adds = map (λ name. (m.name, worktree_add repo name base (worktree_path env m repo name)))

  -- The machine refused each of the names with a `ShimError`, one after the other.
  pub Refused : List String → Sent → Type 0
  Refused [] before = Unit {0}
  Refused (name ∷ names) before =
      ((e : Exception) × (env.answer before m.name
            (worktree_add repo name base (worktree_path env m repo name))
          ≡ raise e)
        × (is_shim e.kind ≡ true))
      × Refused names (before ++ adds (name ∷ []))

  -- How the attempts end: with a name that the machine accepts, after it refused the names before
  -- it; with all names refused; or with another error of the machine at the first name that it did
  -- not refuse.
  pub data Ends (names : List String) (before : Sent)
      : Outcome (String × String) → Sent → Type 0 where
    made :
        (earlier : List String) (name : String) (later : List String) (reply : Reply) {after : Sent}
        → names ≡ earlier ++ name ∷ later
        → Refused earlier before
        → env.answer
            (before ++ adds earlier)
            m.name
            (worktree_add repo name base (worktree_path env m repo name))
          ≡ ok reply
        → after ≡ before ++ adds (earlier ++ name ∷ [])
        → Ends names before (ok (worktree_path env m repo name, name)) after
    all_refused :
        {e : Exception} {after : Sent}
        → Refused names before
        → after ≡ before ++ adds names
        → Ends names before (raise e) after
    broke :
        (earlier : List String) (name : String) (later : List String) (e : Exception) {after : Sent}
        → names ≡ earlier ++ name ∷ later
        → Refused earlier before
        → env.answer
            (before ++ adds earlier)
            m.name
            (worktree_add repo name base (worktree_path env m repo name))
          ≡ raise e
        → is_shim e.kind ≡ false
        → after ≡ before ++ adds (earlier ++ name ∷ [])
        → Ends names before (raise e) after

  Ends-cons :
      (name : String) (names : List String) (before : Sent) {r : Outcome (String × String)}
      {after : Sent} (x : Exception)
      → env.answer before m.name (worktree_add repo name base (worktree_path env m repo name))
        ≡ raise x
      → is_shim x.kind ≡ true
      → Ends names (before ++ adds (name ∷ [])) r after
      → Ends (name ∷ names) before r after
  unfolding Refused
  Ends-cons name names before x refusal shim
        (made earlier y later reply split refused answered sent) =
      made (name ∷ earlier) y later reply (ap (◌∷◌ name) split) ((x, refusal, shim), refused)
        (rw (append_assoc before (adds (name ∷ [])) (adds earlier)) at answered)
        (sent ∙ append_assoc before (adds (name ∷ [])) (adds (earlier ++ y ∷ [])))
  Ends-cons name names before x refusal shim (all_refused refused sent) =
      all_refused ((x, refusal, shim), refused)
        (sent ∙ append_assoc before (adds (name ∷ [])) (adds names))
  Ends-cons name names before x refusal shim
        (broke earlier y later e split refused answered other sent) =
      broke (name ∷ earlier) y later e (ap (◌∷◌ name) split) ((x, refusal, shim), refused)
        (rw (append_assoc before (adds (name ∷ [])) (adds earlier)) at answered) other
        (sent ∙ append_assoc before (adds (name ∷ [])) (adds (earlier ++ y ∷ [])))

  module _ (branch name : String) (names : List String) (w : World) where
    abbrev call : Call
    call = worktree_add repo name base (worktree_path env m repo name)

    abbrev next : World
    next = record w { sent = w.sent ++ (m.name, call) ∷ [] }

    abbrev rest : Outcome (String × String) × World
    rest = try_branches env m repo branch base names next

    -- What one answer makes of a turn of the loop.
    abbrev turn : Outcome Reply → Outcome (String × String) × World
    turn r =
        recover is_shim (λ _. try_branches env m repo branch base names)
          (bind (r, next) (λ _. pure (worktree_path env m repo name, name)))

    turn-Ends :
        (r : Outcome Reply)
        → env.answer w.sent m.name call ≡ r
        → Ends names next.sent rest.0 rest.1.sent
        → Ends (name ∷ names) w.sent (turn r).0 (turn r).1.sent
    unfolding recover bind Refused
    turn-Ends (ok reply) e later = made [] name names reply refl tt (rw append-nil e) refl
    turn-Ends (raise x) e later = elim (Bool-cases (is_shim x.kind)) [
      | inl shim ↦ rw shim (Ends-cons name names w.sent x e shim later)
      | inr other ↦ rw other (broke [] name names x refl tt (rw append-nil e) other refl)
    ]

  module _ (branch : String) where
    try_branches-Ends :
        (names : List String) (w : World)
        → Ends names w.sent
            (try_branches env m repo branch base names w).0
            (try_branches env m repo branch base names w).1.sent
    unfolding try_branches request Refused
    try_branches-Ends [] w = all_refused tt (sym (append-nil w.sent))
    try_branches-Ends (name ∷ names) w = turn-Ends branch name names w _ refl (
        try_branches-Ends names (record w {
          sent =
              w.sent ++ (m.name, worktree_add repo name base (worktree_path env m repo name)) ∷ [];
        }))

-- A worktree is made under the first of the five names that the machine accepts, at the path of that
-- name, after one call for each name before it, which the machine refused; or the machine refused all
-- five, or failed in another way at the first name that it did not refuse. Each name is asked once.
pub create_worktree-Ends :
    (env : Env) (m : Machine) (repo branch base : String) (w : World)
    → let (r, after) = create_worktree env m repo branch base w in
      Ends env m repo base (attempts branch) w.sent r after.sent
unfolding create_worktree
create_worktree-Ends env m repo branch base w =
    try_branches-Ends env m repo base branch (attempts branch) w
