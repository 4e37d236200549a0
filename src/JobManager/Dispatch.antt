-- ===== src/JobManager/Dispatch.antt =====
-- `dispatch_worker` in job.py: the whole loop.
use worker_harness.Base.{
  ℕ, zero, suc, ◌<◌, ◌≡◌, refl, sym, ap, ◌∙◌, inl, inr, true, false, some, List, [], ◌∷◌, ◌++◌,
  length, arith, Bool-cases,
}
use worker_harness.Models.{Job, Worker, is_online}
use worker_harness.Table.{count_where, All}
use worker_harness.Jobs.{Jobs, ids, is_queued_on, pending_rows}
use worker_harness.Jobs.Exclusive.{Valid}
use worker_harness.Jobs.Taken.{length-pending_rows}
use worker_harness.JobManager.{Remote, free_gpu_indices, dispatch_loop, dispatch_worker}
use worker_harness.JobManager.Free.{free_distinct}
use worker_harness.JobManager.Turn.{
  IsBlocked, IsAssigned, Untouched, SameIds, TurnResult, stops, launches, dispatch_turn-TurnResult,
}

-- What a dispatch of a worker's queue has done when it returns.
pub record IsDispatched (w : Worker) (jobs : Jobs) (launched : List Job) (after : Jobs)
    : Type 0 where
  -- The launched jobs are the first ones of the queue, in its order.
  pub order :
      ids (pending_rows (some w.id) jobs) ≡ ids launched ++ ids (pending_rows (some w.id) after)
  -- Each has the GPUs it asked for, from the free ones.
  pub assigned : All (IsAssigned (free_gpu_indices w)) launched
  -- A worker that is online has nothing left to start.
  pub blocked : is_online w.status ≡ true → IsBlocked w (free_gpu_indices w) after
  pub valid : Valid after
  pub untouched : Untouched w jobs after
  pub same_ids : SameIds jobs after

module _ (remote : Remote) (w : Worker) where
  loop_ends :
      (n : ℕ) (jobs : Jobs)
      → Valid jobs
      → length (pending_rows (some w.id) jobs) < n
      → (launched : List Job) × (after : Jobs) × (dispatch_loop remote n w (free_gpu_indices w) jobs
          ≡ some (launched, after))
        × IsDispatched w jobs launched after
  unfolding dispatch_loop
  loop_ends zero jobs v enough = absurd (omega arith)
  loop_ends (suc n) jobs v enough =
      by_turn (dispatch_turn-TurnResult remote w (free_gpu_indices w) jobs (free_distinct w) v)
        (loop_ends n)
    where
      by_turn :
          TurnResult remote w (free_gpu_indices w) jobs
          → ((rows : Jobs)
              → Valid rows
              → length (pending_rows (some w.id) rows) < n
              → (launched : List Job) × (after : Jobs) × (dispatch_loop remote n w
                    (free_gpu_indices w)
                    rows
                  ≡ some (launched, after))
                × IsDispatched w rows launched after)
          → (launched : List Job) × (after : Jobs) × (dispatch_loop remote
                (suc n)
                w
                (free_gpu_indices w)
                jobs
              ≡ some (launched, after))
            × IsDispatched w jobs launched after
      by_turn (stops ends blocked) more = (
        [],
        jobs,
        ground (arith, ends),
        record {
          order = refl;
          assigned = tt;
          blocked = λ _. blocked;
          valid = v;
          untouched = λ x row found idle. found;
          same_ids = λ x. refl;
        },
      )
      by_turn (launches h rest job rows turn queue same fits left valid kept stay) more =
          let (launched, after, result, d) = more rows valid (ground (arith, queue, left)) in
          (
            job ∷ launched,
            after,
            ground (arith, turn, result),
            record {
              order = rw (queue, same) (ap (λ xs. h.id ∷ xs) (ap ids (sym left) ∙ d.order));
              assigned = (fits, d.assigned);
              blocked = d.blocked;
              valid = d.valid;
              untouched = λ x row found idle. d.untouched x row (kept x row found idle) idle;
              same_ids = λ x. d.same_ids x ∙ stay x;
            },
          )

  -- A dispatch always returns, whatever the launches answer: it launches the first jobs of the
  -- worker's queue in their order, each on as many GPUs as it asked for, all of them free by the last
  -- report; afterwards, if the worker is online, no job waits or the first asks for more GPUs than are
  -- free and unassigned; and no GPU is assigned twice. A row that is not queued on
  -- the worker stays as it is, and a worker that is not online launches nothing.
  pub dispatch_worker-IsDispatched :
      (jobs : Jobs)
      → Valid jobs
      → (launched : List Job) × (after : Jobs) × (dispatch_worker remote w jobs
          ≡ some (launched, after))
        × IsDispatched w jobs launched after
        × (is_online w.status ≡ false → (launched ≡ []) × (after ≡ jobs))
  unfolding dispatch_worker
  dispatch_worker-IsDispatched jobs v = elim (Bool-cases (is_online w.status)) [
    | inl online ↦
        let (launched, after, result, d) =
          loop_ends (suc (count_where (is_queued_on (some w.id)) jobs)) jobs v
            (omega (arith, length-pending_rows (some w.id) jobs)) in
        (
          launched,
          after,
          ground (arith, online, result),
          d,
          λ offline. absurd (cc (online, offline)),
        )
    | inr offline ↦ (
      [],
      jobs,
      ground (arith, offline),
      record {
        order = refl;
        assigned = tt;
        blocked = λ online. absurd (cc (online, offline));
        valid = v;
        untouched = λ x row found idle. found;
        same_ids = λ x. refl;
      },
      λ _. (refl, refl),
    )
  ]
