-- ===== src/Fleet/Waits.antt =====
-- The wait for the bridge starts nothing and removes no worktree.
use worker_harness.Base.{ℕ, zero, suc, ◌+◌, Option, none, some, refl}
use worker_harness.Machines.{Machine}
use worker_harness.PiSessions.{PiSession}
use worker_harness.Fleet.Action.{Call, Env, Action}
use worker_harness.Fleet.Launch.{
  read_pane, bridge_timeout, stopped_early, polled, wait_polls, is_terminal, is_bridged,
}
use worker_harness.Fleet.Quiet.{IsNeutral, record_event-Sends, close_after_failed_launch-Sends}
use worker_harness.Fleet.Traces.{
  Sends, Sends-bind, Sends-catch, Sends-pure, Sends-raise, Sends-modify, Sends-gets, Sends-if,
  Sends-request,
}

module _ (P : Call → Type 0) (neutral : (c : Call) → IsNeutral c → P c) (env : Env) where
  read_pane-Sends : (m : Machine) (s : PiSession) → Sends P (read_pane env m s)
  unfolding read_pane
  read_pane-Sends m s =
      Sends-catch P _ (λ e. Sends-bind P (record_event-Sends P env _ _ _) (λ _. Sends-pure P _))
        (Sends-bind P (Sends-request P env m (neutral _ refl)) (λ r. Sends-pure P _))

  bridge_timeout-Sends : (m : Machine) (s : PiSession) → Sends P (bridge_timeout env m s)
  unfolding bridge_timeout
  bridge_timeout-Sends m s = Sends-bind P (read_pane-Sends m s) (λ output.
      Sends-bind P (Sends-modify P _) (λ _.
        Sends-bind P (close_after_failed_launch-Sends P neutral env m s)
          (λ _. Sends-bind P (record_event-Sends P env _ _ _) (λ _. Sends-raise P _))))

  polled-Sends :
      (m : Machine) {sleep : Action PiSession} (o : Option PiSession)
      → Sends P sleep
      → Sends P (polled env m sleep o)
  unfolding polled stopped_early
  polled-Sends m none h = h
  polled-Sends m (some current) h =
      Sends-if P (is_terminal current.state)
        (Sends-bind P (close_after_failed_launch-Sends P neutral env m current)
          (λ _. Sends-raise P _))
        (Sends-if P (is_bridged current) (Sends-pure P current) h)

  pub wait_polls-Sends :
      (left n : ℕ) (m : Machine) (s : PiSession) → Sends P (wait_polls env left n m s)
  unfolding wait_polls
  wait_polls-Sends zero n m s = bridge_timeout-Sends m s
  wait_polls-Sends (suc left) n m s = Sends-bind P (Sends-gets P _) (λ found.
      polled-Sends m found
        (Sends-bind P (Sends-modify P _) (λ _. wait_polls-Sends left (n + 1) m s)))
