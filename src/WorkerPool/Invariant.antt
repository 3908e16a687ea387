-- ===== src/WorkerPool/Invariant.antt =====
-- What every step of a pool keeps.
use multiprocessor_programmi.Prelude.{
  ℕ, zero, suc, ◌+◌, ◌-◌, ◌%◌, ◌^◌, ◌≤◌, ◌<◌, ◌≡◌, refl, sym, ap, ◌∙◌, inl, inr, Bool, true, false,
  List, [], ◌∷◌, ◌++◌, some, ◌==◌, ltb, if◌then◌else◌, length, length-append, replicate, count,
  count-append, arith, Bool-cases, length-replaced, length-replicate,
}
use mathlib.Core.List.{append_assoc}
use multiprocessor_programmi.WorkerPool.{
  Task, Worker, waiting, running, finishing, returned, Pool, startup, shutdown, all_returned,
  join_all, submit_task, set_num_workers, Event, other, Move, leave, take_task, execute, count_out,
  Step, work, start_up, shut_down, joined, submit, resize, History, note,
}

abbrev pub is_busy : Worker → Bool
is_busy waiting = false
is_busy (running task) = true
is_busy finishing = true
is_busy returned = false

abbrev pub is_running_task : Task → Worker → Bool
is_running_task task waiting = false
is_running_task task (running other_task) = task == other_task
is_running_task task finishing = false
is_running_task task returned = false

-- A taken task is run once or is being run, and the counter of busy workers is right.
pub record Inv (p : Pool) (h : History) : Type 0 where
  pub in_order : h.submissions ≡ h.takes ++ p.task_queue
  pub once :
      (task : Task)
      → count (◌==◌ task) h.takes
        ≡ count (◌==◌ task) h.runs + count (is_running_task task) p.workers
  pub busy : p.busy_workers ≡ count is_busy p.workers
  pub bounded : length p.workers < 2 ^ 32
  pub num_bounded : p.num_workers < 2 ^ 32

count-le-length {ℓ} : {A : Type ℓ} (q : A → Bool) (xs : List A) → count q xs ≤ length xs
count-le-length q [] = omega arith
count-le-length q (x ∷ xs) = ground (arith, count-le-length q xs)

count-replicate {ℓ} :
    {A : Type ℓ} (q : A → Bool) (n : ℕ) (a : A) → q a ≡ false → count q (replicate n a) ≡ 0
count-replicate q zero a h = refl
count-replicate q (suc n) a h = rw h (omega (arith, count-replicate q n a h))

none_busy : (ws : List Worker) → all_returned ws ≡ true → count is_busy ws ≡ 0
unfolding all_returned
none_busy [] h = refl
none_busy (waiting ∷ ws) h = absurd (ground arith)
none_busy (running task ∷ ws) h = absurd (ground arith)
none_busy (finishing ∷ ws) h = absurd (ground arith)
none_busy (returned ∷ ws) h = omega (arith, none_busy ws h)

pub running_busy :
    (task : Task) (ws : List Worker) → count (is_running_task task) ws ≤ count is_busy ws
running_busy task [] = omega arith
running_busy task (waiting ∷ ws) = omega (arith, running_busy task ws)
running_busy task (running t ∷ ws) = ground (arith, running_busy task ws)
running_busy task (finishing ∷ ws) = omega (arith, running_busy task ws)
running_busy task (returned ∷ ws) = omega (arith, running_busy task ws)

-- What a step changes when the worker `w` among them becomes `w'`.
module _ (ws before after : List Worker) (w w' : Worker) (at : ws ≡ before ++ w ∷ after) where
  count-replaced :
      (q : Worker → Bool)
      → (if q w' then 1 else 0) + count q ws
        ≡ (if q w then 1 else 0) + count q (before ++ w' ∷ after)
  count-replaced q = omega (
    arith,
    ap (count q) at,
    count-append q before (w ∷ after),
    count-append q before (w' ∷ after),
  )

module _ (p : Pool) (h : History) (before after : List Worker) (w w' : Worker)
    (at : p.workers ≡ before ++ w ∷ after) (i : Inv p h) where
  -- A step that takes and runs no task, and moves no worker into a task or out of it.
  quiet :
      (e : Event) (p' : Pool)
      → note e h ≡ h
      → p'.task_queue ≡ p.task_queue
      → p'.num_workers ≡ p.num_workers
      → ((task : Task) → is_running_task task w ≡ is_running_task task w')
      → p'.busy_workers ≡ count is_busy (before ++ w' ∷ after)
      → Inv (record p' { workers = before ++ w' ∷ after }) (note e h)
  quiet e p' same queue num alike b = rw same (record {
    in_order = i.in_order ∙ ap (h.takes ++◌) (sym queue);
    once = λ task. ground (
      arith,
      i.once task,
      alike task,
      count-replaced p.workers before after w w' at (is_running_task task),
    );
    busy = b;
    bounded = omega (arith, i.bounded, length-replaced p.workers before after w w' at);
    num_bounded = rw num (i.num_bounded);
  })

work-Inv :
    (p : Pool) (h : History) (before after : List Worker) (w w' : Worker) (e : Event) (p' : Pool)
    → p.workers ≡ before ++ w ∷ after
    → Move p w e p' w'
    → Inv p h
    → Inv (record p' { workers = before ++ w' ∷ after }) (note e h)
work-Inv p h before after w w' e p' at (leave stopped) i =
    quiet p h before after waiting returned at i other p refl refl refl (λ task. refl)
      (omega (arith, i.busy, count-replaced p.workers before after waiting returned at is_busy))
work-Inv p h before after w w' e p' at (take_task {task} {rest} runs front) i = record {
  in_order = i.in_order ∙ ap (h.takes ++◌) front ∙ sym (append_assoc h.takes (task ∷ []) rest);
  once = λ t. ground (
    arith,
    i.once t,
    count-replaced p.workers before after waiting (running task) at (is_running_task t),
    count-append (◌==◌ t) h.takes (task ∷ []),
  );
  busy = omega (
    arith,
    i.busy,
    i.bounded,
    count-replaced p.workers before after waiting (running task) at is_busy,
    length-replaced p.workers before after waiting (running task) at,
    count-le-length is_busy (before ++ running task ∷ after),
  );
  bounded =
      omega (arith, i.bounded, length-replaced p.workers before after waiting (running task) at);
  num_bounded = i.num_bounded;
}
work-Inv p h before after w w' e p' at (execute {task}) i = record {
  in_order = i.in_order;
  once = λ t. ground (
    arith,
    i.once t,
    count-replaced p.workers before after (running task) finishing at (is_running_task t),
    count-append (◌==◌ t) h.runs (task ∷ []),
  );
  busy =
      omega
        (arith, i.busy, count-replaced p.workers before after (running task) finishing at is_busy);
  bounded =
      omega (arith, i.bounded, length-replaced p.workers before after (running task) finishing at);
  num_bounded = i.num_bounded;
}
work-Inv p h before after w w' e p' at count_out i =
    quiet p h before after finishing waiting at i other
      (record p { busy_workers = (p.busy_workers + 2 ^ 32 - 1) % 2 ^ 32 }) refl refl refl
      (λ task. refl)
      (omega (
        arith,
        i.busy,
        i.bounded,
        count-replaced p.workers before after finishing waiting at is_busy,
        length-replaced p.workers before after finishing waiting at,
        count-le-length is_busy (before ++ waiting ∷ after),
      ))

new_workers :
    (q : Worker → Bool) (ws : List Worker) (n : ℕ)
    → q waiting ≡ false
    → count q (ws ++ replicate n waiting) ≡ count q ws
new_workers q ws n quiet_one =
    omega (arith, count-append q ws (replicate n waiting), count-replicate q n waiting quiet_one)

startup-Inv : (p p' : Pool) (h : History) → startup p ≡ some p' → Inv p h → Inv p' h
unfolding startup
startup-Inv p p' h e i = elim (Bool-cases p.is_running) [
  | inl runs ↦ absurd (ground arith)
  | inr stopped ↦ elim (Bool-cases (ltb p.num_workers (length p.workers))) [
    | inl more ↦ absurd (ground arith)
    | inr few ↦
        let n = p.num_workers - length p.workers in
        let started : Pool = record p {
          is_running = true;
          workers = p.workers ++ replicate n waiting;
        } in
        let same : started ≡ p' = ground arith in
        rw (sym same) (record {
          in_order = i.in_order;
          once = λ t. omega (arith, i.once t, new_workers (is_running_task t) p.workers n refl);
          busy = omega (arith, i.busy, new_workers is_busy p.workers n refl);
          bounded = ground (
            arith,
            i.bounded,
            i.num_bounded,
            length-append p.workers (replicate n waiting),
            length-replicate n waiting,
          );
          num_bounded = i.num_bounded;
        })
  ]
]

join_all-Inv : (p p' : Pool) (h : History) → join_all p ≡ some p' → Inv p h → Inv p' h
unfolding join_all
join_all-Inv p p' h e i = elim (Bool-cases (all_returned p.workers)) [
  | inl all ↦
      let emptied : Pool = record p { workers = [] } in
      let same : emptied ≡ p' = ground arith in
      rw (sym same) (record {
        in_order = i.in_order;
        once = λ t. omega (arith, i.once t, running_busy t p.workers, none_busy p.workers all);
        busy = omega (arith, i.busy, none_busy p.workers all);
        bounded = omega arith;
        num_bounded = i.num_bounded;
      })
  | inr some_left ↦ absurd (ground arith)
]

pub step-Inv : (p p' : Pool) (h : History) (e : Event) → Step p e p' → Inv p h → Inv p' (note e h)
unfolding shutdown submit_task set_num_workers
step-Inv p p' h e (work before after {w} {w'} at m) i = work-Inv p h before after w w' e _ at m i
step-Inv p p' h e (start_up s) i = startup-Inv p p' h s i
step-Inv p p' h e shut_down i = record {
  in_order = i.in_order;
  once = i.once;
  busy = i.busy;
  bounded = i.bounded;
  num_bounded = i.num_bounded;
}
step-Inv p p' h e (joined s) i = join_all-Inv p p' h s i
step-Inv p p' h e (submit {task} s) i = elim (Bool-cases p.is_running) [
  | inl runs ↦
      let grown : Pool = record p { task_queue = p.task_queue ++ task ∷ [] } in
      let same : grown ≡ p' = ground arith in
      rw (sym same) (record {
        in_order = ap (◌++ (task ∷ [])) i.in_order ∙ append_assoc h.takes p.task_queue (task ∷ []);
        once = i.once;
        busy = i.busy;
        bounded = i.bounded;
        num_bounded = i.num_bounded;
      })
  | inr stopped ↦ absurd (ground arith)
]
step-Inv p p' h e (resize num s) i = elim (Bool-cases p.is_running) [
  | inl runs ↦ absurd (ground arith)
  | inr stopped ↦
      let resized : Pool = record p { num_workers = num % 2 ^ 32 } in
      let same : resized ≡ p' = ground arith in
      rw (sym same) (record {
        in_order = i.in_order;
        once = i.once;
        busy = i.busy;
        bounded = i.bounded;
        num_bounded = omega arith;
      })
]
