-- ===== src/Epoch/Tests.antt =====
-- A node added to the garbage of epoch 1, and freed while a thread is in epoch 2.
use multiprocessor_programmi.Prelude.{
  ℕ, ◌+◌, ◌≤◌, ◌<◌, ◌≡◌, refl, true, false, List, [], ◌∷◌, any, arith,
}
use multiprocessor_programmi.Epoch.{
  Garbage, Worker, outside, joining, inside, resting, testing, freeing, Epochs, System,
  max_thread_count, fetch_add, fetch_sub, push_garbage, create_new_epoch, new_epochs, read, join,
  leave, make, load, cas_win, begin, only_current, older, empty, claim, load_garbage, free, create,
  work, clean, Run, stop, more, Reach, start, later,
}
use multiprocessor_programmi.Epoch.Safe.{nth, joined-kept, joined-is_garbage}
use multiprocessor_programmi.Epoch.Older.{is_pair, is_garbage}
use multiprocessor_programmi.Epoch.Count.{count-between}
use multiprocessor_programmi.Epoch.Stale.{state, joining-deleted}

abbrev idle_threads : List Worker
idle_threads = outside ∷ outside ∷ []

abbrev garbage : Garbage
garbage = record { address = 7; node_p = 99 }

-- the first thread has joined epoch 1, added the garbage, and left
abbrev with_garbage : Epochs
with_garbage = fetch_sub 1 (push_garbage (fetch_add 1 new_epochs 1) 1 garbage) 1

-- epoch 2 is made, and the second thread has joined it
abbrev two_epochs : Epochs
two_epochs = fetch_add 1 (create_new_epoch with_garbage) 2

abbrev threads : List Worker
threads = outside ∷ inside 2 ∷ []

abbrev in_second : System
in_second = state two_epochs resting threads

in_second-Reach : Reach idle_threads in_second
in_second-Reach =
    let a = later (start (refl, (refl, tt))) (work [] (outside ∷ []) refl read) in
    let b = later a (work [] (outside ∷ []) refl (join refl (omega arith))) in
    let c = later b (work [] (outside ∷ []) refl (make 7 99)) in
    let d = later c (work [] (outside ∷ []) refl load) in
    let e = later d (work [] (outside ∷ []) refl (cas_win refl)) in
    let f = later e (work [] (outside ∷ []) refl leave) in
    let g = later (later (later f (clean begin)) (clean (only_current refl))) (clean create) in
    let h = later g (work (outside ∷ []) [] refl read) in
    later h (work (outside ∷ []) [] refl (join refl (omega arith)))

abbrev after_free : Epochs
after_free = record (fetch_sub max_thread_count two_epochs 1) { freed = (99, 1) ∷ [] }

in_second-Run : Run in_second (state after_free (freeing []) threads)
in_second-Run =
    let a = more (more stop (clean begin)) (clean (older (λ e. omega (arith, e)))) in
    let b = more (more a (clean (empty refl))) (clean (claim (omega arith))) in
    more (more b (clean load_garbage)) (clean free)

joined-is_garbage_example : (1 < 2) × (is_garbage 99 1 in_second ≡ true)
joined-is_garbage_example =
    joined-is_garbage (omega arith) in_second-Reach in_second-Run refl 1 2 refl refl 99 1 refl

joined-kept_example :
    ((c : ℕ)
      → 2 ≤ c
      → c ≤ in_second.epochs.current_epoch_p
      → (in_second.epochs.epoch_at c).deleted ≡ false)
    × ((n c : ℕ) → 2 ≤ c → any (is_pair n c) in_second.epochs.freed ≡ false)
joined-kept_example = joined-kept (omega arith) in_second-Reach refl 1 2 refl

count-between_example :
    ((c : ℕ)
      → in_second.epochs.head_epoch_p ≤ c
      → c ≤ in_second.epochs.current_epoch_p
      → ((in_second.epochs.epoch_at c).added ≤ (in_second.epochs.epoch_at c).taken + 2)
        × ((in_second.epochs.epoch_at c).taken
            ≤ (in_second.epochs.epoch_at c).added + max_thread_count))
    × (in_second.cleaner ≡ testing
        → (in_second.epochs.epoch_at in_second.epochs.head_epoch_p).taken
          ≤ (in_second.epochs.epoch_at in_second.epochs.head_epoch_p).added)
count-between_example = count-between (omega arith) in_second-Reach refl

-- a thread that has read the first epoch
joining-deleted_example :
    (t : System) × Run (state with_garbage resting (joining 1 ∷ [])) t
    × (nth t.workers 0 ≡ joining 1)
    × ((t.epochs.epoch_at 1).deleted ≡ true)
    × (t.epochs.undefined ≡ true)
joining-deleted_example = joining-deleted with_garbage (joining 1 ∷ []) 0 refl refl refl
