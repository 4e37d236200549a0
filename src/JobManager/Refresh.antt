-- ===== src/JobManager/Refresh.antt =====
-- `enqueue_job`, `start_job` and `refresh_job_status` in job.py.
use worker_harness.Base.{
  String, Option, ◌||◌, ap, zero, suc, false, true, ◌≡◌, ◌⊎◌, refl, ◌++◌, [], ◌∷◌, sym, subst, inl,
  inr, some, none, List, arith, nat_eq, string_eq, if◌then◌else◌, Bool-cases, Option-cases,
}
use worker_harness.Models.{
  Job, Worker, Failure, JobStatus, is_running, is_pending, starting, ℤ, pos, negsuc, running,
  pending, done, failed,
}
use worker_harness.Table.{find_where}
use worker_harness.Table.Laws.{find_where_sound, find_where-update_where}
use worker_harness.Jobs.{Jobs, equals_sql, has_id, is_queued_on, get_job, update_job}
use worker_harness.Jobs.Exclusive.{Valid}
use worker_harness.Jobs.Rewrites.{with_status, with_status-Valid}
use worker_harness.JobManager.{Remote, is_nonzero}
use worker_harness.JobManager.Dispatch.{dispatch_worker-IsDispatched}
use worker_harness.JobManager.Commands.{
  exit_code_or, refresh_job_status, ended_with, mark_finished, record_failure,
}

-- The exit code of a job of the worker that runs no more: it was running, or pending and not of the
-- queue, and the worker answers that its session is gone and with which code.
pub record HasExited (remote : Remote) (w : Worker) (row : Job) (exit_code : ℤ) : Type 0 where
  pub own : row.worker_id ≡ some w.id
  pub began : (row.status ≡ running) ⊎ ((row.status ≡ pending) × (row.queue_managed ≡ false))
  pub gone : remote.ssh_tmux_running w row.id ≡ some false
  pub code : remote.ssh_get_exit_code w row.id ≡ some exit_code

-- The row of a job that has ended now, otherwise as it was.
pub record IsFinished (remote : Remote) (exit_code : ℤ) (row ended : Job) : Type 0 where
  pub status : ended.status ≡ (if is_nonzero exit_code then failed else done)
  pub code : ended.exit_code ≡ some exit_code
  pub finished_at : ended.finished_at ≡ remote.now
  pub rest :
      record ended { status = row.status; exit_code = row.exit_code; finished_at = row.finished_at }
      ≡ row

-- The failures after a job has ended: one more where the exit code is not zero.
pub data IsNoted (remote : Remote) (w : Worker) (x : String) (exit_code : ℤ) (before : List Failure)
    : List Failure → Type 0 where
  success : is_nonzero exit_code ≡ false → IsNoted remote w x exit_code before before
  failure :
      (f : Failure)
      → is_nonzero exit_code ≡ true
      → f.job_id ≡ x
      → f.worker_id ≡ w.id
      → f.exit_code ≡ exit_code
      → f.timestamp ≡ remote.now
      → IsNoted remote w x exit_code before (before ++ f ∷ [])

nonzero_code : (code : ℤ) → is_nonzero code ≡ true → exit_code_or (some code) ≡ code
nonzero_code (pos zero) bad = absurd (ground arith)
nonzero_code (pos (suc n)) bad = refl
nonzero_code (negsuc n) bad = refl

own_worker : (o : Option String) (x : String) → equals_sql o (some x) ≡ true → o ≡ some x
own_worker none x e = absurd (ground arith)
own_worker (some y) x e = ap (λ t. some t) ((string_eq.eq?_iff y x).0 e)

owns_worker : (o : Option String) (x : String) → o ≡ some x → equals_sql o (some x) ≡ true
owns_worker o x e = rw e ((string_eq.eq?_iff x x).1 refl)

job_began : (t : JobStatus) → (is_running t || is_pending t) ≡ true → (t ≡ running) ⊎ (t ≡ pending)
job_began running e = inl refl
job_began pending e = inr refl
job_began starting e = absurd (ground arith)
job_began done e = absurd (ground arith)
job_began failed e = absurd (ground arith)

module _ (remote : Remote) (w : Worker) where
  exited-HasExited :
      (row : Job) (exit_code : ℤ)
      → ended_with remote w row ≡ some exit_code
      → HasExited remote w row exit_code
  unfolding ended_with
  exited-HasExited row exit_code e = record {
    own = ground (arith, own_worker row.worker_id w.id);
    began = ground (arith, job_began row.status);
    gone = ground arith;
    code = ground arith;
  }

  HasExited-exited :
      (row : Job) (exit_code : ℤ)
      → HasExited remote w row exit_code
      → ended_with remote w row ≡ some exit_code
  unfolding ended_with
  HasExited-exited row exit_code h =
      let is_own = owns_worker row.worker_id w.id h.own in
      elim h.began [
        | inl runs ↦ rw (h.gone, h.code) (ground (arith, is_own, runs))
        | inr (waits, unmanaged) ↦ rw (h.gone, h.code) (ground (arith, is_own, waits, unmanaged))
      ]

  ended-IsFinished :
      (row : Job) (exit_code : ℤ)
      → IsFinished remote exit_code row (mark_finished remote exit_code row)
  ended-IsFinished row exit_code = record {
    status = refl;
    code = refl;
    finished_at = refl;
    rest = refl;
  }

  ended-IsNoted :
      (row : Job) (exit_code : ℤ) (failures : List Failure)
      → IsNoted remote w row.id exit_code failures (
          if is_nonzero exit_code
          then record_failure remote w (mark_finished remote exit_code row) failures
          else failures)
  unfolding record_failure
  ended-IsNoted row exit_code failures = elim (Bool-cases (is_nonzero exit_code)) [
    | inl bad ↦ rw bad (failure _ bad refl refl (nonzero_code exit_code bad) refl)
    | inr good ↦ rw good (success good)
  ]

module _ (remote : Remote) (w : Worker) (job : Job) (jobs : Jobs) (failures : List Failure) where
  -- What a refresh has done: nothing where the row is missing or the job has not ended, and else the
  -- row is finished with the exit code, and a nonzero one is noted as a failure.
  pub data IsRefresh : Job → Jobs → List Failure → Type 0 where
    missing : find_where (has_id job.id) jobs ≡ none → IsRefresh job jobs failures
    kept :
        (row : Job)
        → find_where (has_id job.id) jobs ≡ some row
        → ((exit_code : ℤ) → ¬ HasExited remote w row exit_code)
        → IsRefresh row jobs failures
    written :
        (row ended : Job) (exit_code : ℤ) (after : Jobs) (noted : List Failure)
        → find_where (has_id job.id) jobs ≡ some row
        → HasExited remote w row exit_code
        → IsFinished remote exit_code row ended
        → find_where (has_id job.id) after ≡ some ended
        → IsNoted remote w row.id exit_code failures noted
        → IsRefresh ended after noted

  finish_row :
      (row : Job) (exit_code : ℤ)
      → Valid jobs
      → find_where (has_id job.id) jobs ≡ some row
      → Valid (update_job (mark_finished remote exit_code row) jobs)
        × (find_where (has_id job.id) (update_job (mark_finished remote exit_code row) jobs)
            ≡ some (mark_finished remote exit_code row))
  unfolding update_job with_status
  finish_row row exit_code v found =
      let key : row.id ≡ job.id = ground (arith, find_where_sound (has_id job.id) jobs row found) in
      let own = subst (λ k. find_where (has_id k) jobs ≡ some row) (sym key) found in
      let status = if is_nonzero exit_code then failed else done in
      let same =
        find_where-update_where (has_id row.id) (has_id job.id)
          (λ _. mark_finished remote exit_code row) jobs (λ j h. ground arith) in
      (
        with_status-Valid row status (some exit_code) remote.now jobs own
            (λ h. absurd (ground arith)) v,
        ground (arith, same, found, key),
      )

  -- `refresh_job_status` always returns, with the outcome that `IsRefresh` describes, also after the
  -- dispatch that follows; no GPU is assigned twice.
  pub refresh_job_status-IsRefresh :
      Valid jobs
      → (row : Job) × (after : Jobs) × (noted : List Failure) × (refresh_job_status remote w job
            jobs failures
          ≡ some (row, after, noted))
        × IsRefresh row after noted
        × Valid after
  unfolding refresh_job_status get_job
  refresh_job_status-IsRefresh v = elim (Option-cases (find_where (has_id job.id) jobs)) [
    | inl absent ↦ (job, jobs, failures, ground (arith, absent), missing absent, v)
    | inr (row, found) ↦ elim (Option-cases (ended_with remote w row)) [
      | inl early ↦ (
        row,
        jobs,
        failures,
        ground (arith, found, early),
        kept row found (λ code h. absurd (cc (HasExited-exited remote w row code h, early))),
        v,
      )
      | inr (exit_code, late) ↦
          let ended = mark_finished remote exit_code row in
          let noted =
            if is_nonzero exit_code then record_failure remote w ended failures else failures in
          let (valid, at) = finish_row row exit_code v found in
          elim (Bool-cases row.queue_managed) [
            | inl queued ↦
                let (launched, rows, result, d, _) =
                  dispatch_worker-IsDispatched remote w (update_job ended jobs) valid in
                (
                  ended,
                  rows,
                  noted,
                  ground (arith, found, late, queued, result),
                  written row ended exit_code rows noted found
                      (exited-HasExited remote w row exit_code late)
                      (ended-IsFinished remote w row exit_code)
                      (d.untouched job.id ended at (unfold is_queued_on in ground arith))
                      (ended-IsNoted remote w row exit_code failures),
                  d.valid,
                )
            | inr other ↦ (
              ended,
              update_job ended jobs,
              noted,
              ground (arith, found, late, other),
              written row ended exit_code (update_job ended jobs) noted found
                  (exited-HasExited remote w row exit_code late)
                  (ended-IsFinished remote w row exit_code) at
                  (ended-IsNoted remote w row exit_code failures),
              valid,
            )
          ]
    ]
  ]
