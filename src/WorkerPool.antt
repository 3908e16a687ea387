-- ===== src/WorkerPool.antt =====
-- `WorkerPool` (project3/sourcefile/bwtree/include/worker_pool.h): a queue of tasks and the threads that
-- run them. Each section under `task_lock_` is one step, and so is the run of a task.
pub mod Invariant
pub mod Tasks
mod Tests
use multiprocessor_programmi.Prelude.{
  ℕ, zero, suc, ◌+◌, ◌-◌, ◌%◌, ◌^◌, ◌≡◌, Bool, true, false, ◌&&◌, List, [], ◌∷◌, ◌++◌, Option, none,
  some, ◌==◌, ltb, if◌then◌else◌, length, replicate,
}

-- A task, by its number; what it does is up to its submitter.
abbrev pub Task : Type 0
Task = ℕ

-- Where the thread of `AddThread` is: before the wait at the head of its loop, in `task()`, between it
-- and the second lock, or at its end.
pub data Worker : Type 0 where
  waiting : Worker
  running : Task → Worker
  finishing : Worker
  returned : Worker

pub record Pool : Type 0 where
  pub workers : List Worker
  pub num_workers : ℕ
  pub is_running : Bool
  pub task_queue : List Task
  pub busy_workers : ℕ

-- the constructor
unfoldable pub new_pool : ℕ → List Task → Pool
new_pool num_workers task_queue = record {
  workers = [];
  num_workers = num_workers % 2 ^ 32;
  is_running = false;
  task_queue = task_queue;
  busy_workers = 0;
}

-- `Startup`. `none` is the failed assertion, or the end of the program when `resize` destroys a
-- thread that was not joined.
unfoldable pub startup : Pool → Option Pool
startup p =
    if p.is_running
    then none
    else if ltb p.num_workers (length p.workers)
    then none
    else some (record p {
      is_running = true;
      workers = p.workers ++ replicate (p.num_workers - length p.workers) waiting;
    })

-- `Shutdown` up to the loop of `join`
unfoldable pub shutdown : Pool → Pool
shutdown p = record p { is_running = false }

unfoldable pub all_returned : List Worker → Bool
all_returned [] = true
all_returned (w ∷ ws) = let rest = all_returned ws in elim w [ returned ↦ rest | _ ↦ false ]

-- the rest of `Shutdown`, once every `join` has returned
unfoldable pub join_all : Pool → Option Pool
unfolding all_returned
join_all p = if all_returned p.workers then some (record p { workers = [] }) else none

unfoldable pub submit_task : Task → Pool → Option Pool
submit_task task p =
    if p.is_running then some (record p { task_queue = p.task_queue ++ task ∷ [] }) else none

unfoldable pub set_num_workers : ℕ → Pool → Option Pool
set_num_workers num p =
    if p.is_running then none else some (record p { num_workers = num % 2 ^ 32 })

-- what `WaitUntilAllFinished` waits for
unfoldable pub all_finished : Pool → Bool
all_finished p = p.busy_workers == 0 && (elim p.task_queue [ [] ↦ true | _ ↦ false ])

pub data Event : Type 0 where
  other : Event
  submitted : Task → Event
  taken : Task → Event
  executed : Task → Event

-- One step of a worker: in its first section under the lock it returns or takes the front of the queue,
-- then it runs the task, and in the second section it counts itself out.
pub data Move (p : Pool) : Worker → Event → Pool → Worker → Type 0 where
  leave : p.is_running ≡ false → Move p waiting other p returned
  take_task :
      {task : Task} {rest : List Task}
      → p.is_running ≡ true
      → p.task_queue ≡ task ∷ rest
      → Move p waiting
          (taken task)
          (record p { task_queue = rest; busy_workers = (p.busy_workers + 1) % 2 ^ 32 })
          (running task)
  execute : {task : Task} → Move p (running task) (executed task) p finishing
  count_out :
      Move p finishing other
        (record p { busy_workers = (p.busy_workers + 2 ^ 32 - 1) % 2 ^ 32 })
        waiting

pub data Step (p : Pool) : Event → Pool → Type 0 where
  work :
      (before after : List Worker) {w w' : Worker} {e : Event} {p' : Pool}
      → p.workers ≡ before ++ w ∷ after
      → Move p w e p' w'
      → Step p e (record p' { workers = before ++ w' ∷ after })
  start_up : {p' : Pool} → startup p ≡ some p' → Step p other p'
  shut_down : Step p other (shutdown p)
  joined : {p' : Pool} → join_all p ≡ some p' → Step p other p'
  submit : {task : Task} {p' : Pool} → submit_task task p ≡ some p' → Step p (submitted task) p'
  resize : (num : ℕ) {p' : Pool} → set_num_workers num p ≡ some p' → Step p other p'

-- What happened, oldest first.
pub record History : Type 0 where
  pub submissions : List Task
  pub takes : List Task
  pub runs : List Task

abbrev pub note : Event → History → History
note other h = h
note (submitted task) h = record h { submissions = h.submissions ++ task ∷ [] }
note (taken task) h = record h { takes = h.takes ++ task ∷ [] }
note (executed task) h = record h { runs = h.runs ++ task ∷ [] }

-- The states that a pool reaches; the tasks given to the constructor count as submitted.
pub data Reach (num : ℕ) (tasks : List Task) : Pool → History → Type 0 where
  start :
      Reach num tasks (new_pool num tasks) (record { submissions = tasks; takes = []; runs = [] })
  later :
      {p p' : Pool} {h : History} {e : Event}
      → Reach num tasks p h
      → Step p e p'
      → Reach num tasks p' (note e h)
