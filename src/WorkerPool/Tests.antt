-- ===== src/WorkerPool/Tests.antt =====
-- A pool of one thread and one task, from its start to the end of the task.
use multiprocessor_programmi.Prelude.{ℕ, ◌+◌, ◌≡◌, refl, true, List, [], ◌∷◌, ◌++◌, ◌==◌, count}
use multiprocessor_programmi.WorkerPool.{
  Task, Worker, waiting, running, Pool, new_pool, startup, submit_task, all_finished, take_task,
  execute, count_out, work, start_up, submit, History, Reach, start, later,
}
use multiprocessor_programmi.WorkerPool.Invariant.{is_running_task}
use multiprocessor_programmi.WorkerPool.Tasks.{Reach-tasks, all_finished-runs}

abbrev pool : List Worker → List Task → ℕ → Pool
pool workers task_queue busy_workers = record {
  workers = workers;
  num_workers = 1;
  is_running = true;
  task_queue = task_queue;
  busy_workers = busy_workers;
}

abbrev history : List Task → List Task → List Task → History
history submissions takes runs = record { submissions = submissions; takes = takes; runs = runs }

at_work : Reach 1 (7 ∷ []) (pool (running 7 ∷ []) (8 ∷ []) 1) (history (7 ∷ 8 ∷ []) (7 ∷ []) [])
unfolding new_pool startup submit_task
at_work =
    later (later (later start (start_up refl)) (submit {task = 8} refl))
      (work [] [] refl (take_task refl refl))

at_end :
    Reach 1 (7 ∷ []) (pool (waiting ∷ []) [] 0) (history (7 ∷ 8 ∷ []) (7 ∷ 8 ∷ []) (7 ∷ 8 ∷ []))
at_end =
    later
      (later
        (later (later (later at_work (work [] [] refl execute)) (work [] [] refl count_out))
          (work [] [] refl (take_task refl refl)))
        (work [] [] refl execute))
      (work [] [] refl count_out)

Reach-tasks_example :
    ◌≡◌ {A = List Task} (7 ∷ 8 ∷ []) ((7 ∷ []) ++ (8 ∷ []))
    × ((task : Task)
        → count (◌==◌ task) (7 ∷ [])
          ≡ count (◌==◌ task) [] + count (is_running_task task) (running 7 ∷ []))
Reach-tasks_example =
    Reach-tasks 1 (7 ∷ []) (pool (running 7 ∷ []) (8 ∷ []) 1) (history (7 ∷ 8 ∷ []) (7 ∷ []) [])
      at_work

all_finished-runs_example : count (◌==◌ 8) (7 ∷ 8 ∷ []) ≡ count (◌==◌ 8) (7 ∷ 8 ∷ [])
unfolding all_finished
all_finished-runs_example =
    all_finished-runs 1 (7 ∷ []) (pool (waiting ∷ []) [] 0)
      (history (7 ∷ 8 ∷ []) (7 ∷ 8 ∷ []) (7 ∷ 8 ∷ [])) at_end refl 8
