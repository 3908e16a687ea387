-- ===== src/WorkerPool/Tasks.antt =====
-- Every submitted task is run once, in the order of submission.
use multiprocessor_programmi.Prelude.{
  ℕ, ◌+◌, ◌≡◌, refl, ap, ◌∙◌, true, List, [], ◌++◌, ◌==◌, count, arith,
}
use mathlib.Core.List.{append-nil}
use multiprocessor_programmi.WorkerPool.{
  Task, Pool, new_pool, all_finished, History, Reach, start, later,
}
use multiprocessor_programmi.WorkerPool.Invariant.{is_running_task, Inv, running_busy, step-Inv}

reach-Inv : (num : ℕ) (tasks : List Task) (p : Pool) (h : History) → Reach num tasks p h → Inv p h
unfolding new_pool
reach-Inv num tasks p h start = record {
  in_order = refl;
  once = λ t. refl;
  busy = refl;
  bounded = omega arith;
  num_bounded = omega arith;
}
reach-Inv num tasks p h (later {p = before} {h = earlier} {e} r s) =
    step-Inv before p earlier e s (reach-Inv num tasks before earlier r)

-- In every state that a pool reaches, through any sequence of starts, shutdowns, submissions and steps
-- of its workers, the tasks are taken in the order of submission, no other than those still in the
-- queue are left, and each is run as often as it was taken, or is being run.
pub Reach-tasks :
    (num : ℕ) (tasks : List Task) (p : Pool) (h : History)
    → Reach num tasks p h
    → (h.submissions ≡ h.takes ++ p.task_queue)
      × ((task : Task)
          → count (◌==◌ task) h.takes
            ≡ count (◌==◌ task) h.runs + count (is_running_task task) p.workers)
Reach-tasks num tasks p h r = let i = reach-Inv num tasks p h r in (i.in_order, i.once)

-- Where `WaitUntilAllFinished` finds its condition true, in any state that a pool reaches, every task
-- that was submitted has been run as often as it was submitted.
pub all_finished-runs :
    (num : ℕ) (tasks : List Task) (p : Pool) (h : History)
    → Reach num tasks p h
    → all_finished p ≡ true
    → (task : Task) → count (◌==◌ task) h.runs ≡ count (◌==◌ task) h.submissions
unfolding all_finished
all_finished-runs num tasks p h r done task =
    let i = reach-Inv num tasks p h r in
    let empty : p.task_queue ≡ [] = ground arith in
    let all_taken = i.in_order ∙ ap (h.takes ++◌) empty ∙ append-nil h.takes in
    ground (
      arith,
      i.once task,
      i.busy,
      running_busy task p.workers,
      ap (λ (l : List Task). count (◌==◌ task) l) all_taken,
    )
