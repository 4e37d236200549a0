-- ===== src/JobManager/Stop.antt =====
-- `stop_job` in job.py: a job that it reports stopped has ended for good.
use worker_harness.Base.{
  ◌≡◌, ◌⊎◌, refl, sym, subst, inl, inr, String, Bool, true, false, ◌&&◌, ◌||◌, not, Option, some,
  none, arith, nat_eq, string_eq, if◌then◌else◌, Bool-cases,
}
use worker_harness.Models.{
  Job, Worker, JobStatus, negsuc, failed, is_active, is_pending, is_terminal,
}
use worker_harness.Table.{find_where}
use worker_harness.Table.Laws.{find_where_sound}
use worker_harness.Jobs.{Jobs, has_id, equals_sql, get_job, update_job}
use worker_harness.Jobs.Exclusive.{Valid}
use worker_harness.Jobs.Rewrites.{fail_pending_job-Valid, with_status, with_status-Valid}
use worker_harness.JobManager.{Remote}
use worker_harness.JobManager.Ended.{
  HasEnded, ended_by, fail_pending_job-HasEnded, Untouched-HasEnded,
}
use worker_harness.JobManager.Dispatch.{dispatch_worker-IsDispatched}
use worker_harness.JobManager.Commands.{
  stop_running, stop_pending, stop_locked, stop_job, is_stopped,
}

-- What stopping has done, before a dispatch: whether it succeeded, whether to dispatch, and the table.
pub data Stopped (x : String) (jobs : Jobs) : Bool → Bool → Jobs → Type 0 where
  refused : Stopped x jobs false false jobs
  absent : find_where (has_id x) jobs ≡ none → Stopped x jobs true false jobs
  ended :
      (again : Bool) {after : Jobs}
      → Valid after
      → HasEnded x after
      → Stopped x jobs true again after

module _ (remote : Remote) (w : Worker) (x : String) (jobs : Jobs) (v : Valid jobs) where
  Settled : Bool × Bool × Jobs → Type 0
  Settled r = Stopped x jobs r.0 r.1 r.2

  kill_row :
      (row : Job)
      → find_where (has_id x) jobs ≡ some row
      → Stopped x jobs true row.queue_managed
          (update_job (with_status row failed (some (negsuc 0)) remote.now) jobs)
  unfolding update_job with_status
  kill_row row found =
      let key : row.id ≡ x = ground (arith, find_where_sound (has_id x) jobs row found) in
      let stopped = with_status row failed (some (negsuc 0)) remote.now in
      ended row.queue_managed
        (with_status-Valid row failed (some (negsuc 0)) remote.now jobs
          (subst (λ k. find_where (has_id k) jobs ≡ some row) (sym key) found) (λ h. absurd (cc)) v)
        (ended_by x (has_id row.id) (λ _. stopped) jobs row (λ j h. ground arith) found
          (ground arith) refl)

  stop_running-Stopped :
      (b : Bool) (o : Option Job)
      → is_stopped (remote.ssh_tmux_kill w x) ≡ b
      → find_where (has_id x) jobs ≡ o
      → Settled (stop_running remote w x jobs)
  unfolding Settled stop_running get_job with_status
  stop_running-Stopped false o k found = rw k refused
  stop_running-Stopped true none k found =
      rw (k, stop_running) (rw (found, stop_running) (absent found))
  stop_running-Stopped true (some row) k found =
      elim (Bool-cases (is_active row.status || is_pending row.status)) [
        | inl unfinished ↦
            rw (k, stop_running)
              (rw (found, stop_running) (rw (unfinished, stop_running) (kill_row row found)))
        | inr over ↦
            rw (k, stop_running)
              (rw (found, stop_running)
                (rw (over, stop_running)
                  (ended false v
                    (record { row = row; found = found; terminal = terminal row.status over }))))
      ]
    where
      terminal : (s : JobStatus) → is_active s || is_pending s ≡ false → is_terminal s ≡ true
      terminal s over = ground (arith, over)

  stop_pending-Stopped :
      (row : Job)
      → find_where (has_id x) jobs ≡ some row
      → row.queue_managed && is_pending row.status ≡ true
      → Settled (stop_pending remote x jobs)
  unfolding Settled stop_pending
  stop_pending-Stopped row found queued =
      let (done_it, gone) =
        fail_pending_job-HasEnded x remote.now jobs row found
          (ground (arith, queued, find_where_sound (has_id x) jobs row found)) in
      rw done_it (ended true (fail_pending_job-Valid x remote.now jobs v) gone)

  stop_row :
      (row : Job) (foreign over queued : Bool)
      → find_where (has_id x) jobs ≡ some row
      → is_terminal row.status ≡ over
      → row.queue_managed && is_pending row.status ≡ queued
      → Settled (
          if foreign
          then (false, false, jobs)
          else if over
          then (true, false, jobs)
          else if queued
          then stop_pending remote x jobs
          else stop_running remote w x jobs)
  unfolding Settled
  stop_row row true over queued found o q = refused
  stop_row row false true queued found o q =
      ended false v (record { row = row; found = found; terminal = o })
  stop_row row false false true found o q = stop_pending-Stopped row found q
  stop_row row false false false found o q =
      stop_running-Stopped (is_stopped (remote.ssh_tmux_kill w x)) (some row) refl found

  stop_locked-Stopped :
      (o : Option Job) → find_where (has_id x) jobs ≡ o → Settled (stop_locked remote w x jobs)
  unfolding stop_locked get_job
  stop_locked-Stopped none found =
      rw (found, stop_locked)
        (stop_running-Stopped (is_stopped (remote.ssh_tmux_kill w x)) none refl found)
  stop_locked-Stopped (some row) found =
      rw (found, stop_locked)
        (stop_row row (not (equals_sql row.worker_id (some w.id))) (is_terminal row.status)
          (row.queue_managed && is_pending row.status) found refl refl)

-- What `stop_job` has done when it returns.
pub record IsStop (x : String) (jobs : Jobs) (success : Bool) (after : Jobs) : Type 0 where
  pub valid : Valid after
  pub gone : success ≡ true → (find_where (has_id x) jobs ≡ none) ⊎ HasEnded x after
  pub unchanged : success ≡ false → after ≡ jobs

settled-IsStop :
    (remote : Remote) (w : Worker) (x : String) (jobs : Jobs)
    → Valid jobs
    → (success again : Bool) (after : Jobs) → stop_locked remote w x jobs ≡ (success, again, after)
    → Stopped x jobs success again after
    → (s : Bool) × (rows : Jobs) × (stop_job remote w x jobs ≡ some (s, rows))
      × IsStop x jobs s rows
unfolding stop_job
settled-IsStop remote w x jobs v false false after e refused = (
  false,
  jobs,
  ground (arith, e),
  record { valid = v; gone = λ h. absurd (cc); unchanged = λ h. refl },
)
settled-IsStop remote w x jobs v false true after e impossible = elim impossible [ ]
settled-IsStop remote w x jobs v true false after e (absent missing) = (
  true,
  jobs,
  ground (arith, e),
  record { valid = v; gone = λ h. inl missing; unchanged = λ h. absurd (cc) },
)
settled-IsStop remote w x jobs v true false after e (ended _ valid gone) = (
  true,
  after,
  ground (arith, e),
  record { valid = valid; gone = λ h. inr gone; unchanged = λ h. absurd (cc) },
)
settled-IsStop remote w x jobs v true true after e (ended _ valid gone) =
    let (launched, rows, result, d, _) = dispatch_worker-IsDispatched remote w after valid in
    (
      true,
      rows,
      ground (arith, e, result),
      record {
        valid = d.valid;
        gone = λ h. inr (Untouched-HasEnded w x after rows d.untouched gone);
        unchanged = λ h. absurd (cc);
      },
    )

-- `stop_job` always returns. If it reports success, then there was no job of that id or that job is
-- done or failed afterwards, whatever the dispatch that follows has launched; if it does not, nothing
-- has changed. No GPU is assigned twice.
pub stop_job-IsStop :
    (remote : Remote) (w : Worker) (x : String) (jobs : Jobs)
    → Valid jobs
    → (success : Bool) × (after : Jobs) × (stop_job remote w x jobs ≡ some (success, after))
      × IsStop x jobs success after
stop_job-IsStop remote w x jobs v =
    let r = stop_locked remote w x jobs in
    settled-IsStop remote w x jobs v r.0 r.1 r.2 refl
      (unfold Settled in stop_locked-Stopped remote w x jobs v (find_where (has_id x) jobs) refl)
