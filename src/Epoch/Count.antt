-- ===== src/Epoch/Count.antt =====
-- The counts of the epochs in use.
use multiprocessor_programmi.Prelude.{ℕ, ◌+◌, ◌≤◌, ◌<◌, ◌≡◌, false, List, length, ap, arith}
use multiprocessor_programmi.Epoch.{
  Worker, Cleaner, resting, comparing, testing, claiming, undoing, claimed, freeing, creating,
  System, max_thread_count, Reach,
}
use multiprocessor_programmi.Epoch.Invariant.{total-length, taken_by}
use multiprocessor_programmi.Epoch.Clear.{Reach-Inv}

taken_most : (c : Cleaner) → taken_by c ≤ max_thread_count
taken_most resting = omega arith
taken_most comparing = omega arith
taken_most testing = omega arith
taken_most claiming = omega arith
taken_most undoing = omega arith
taken_most claimed = omega arith
taken_most (freeing rest) = omega arith
taken_most creating = omega arith

-- Let fewer than MAX_THREAD_COUNT threads use the epoch manager. In every state that they and the
-- cleaner reach without an access to a deleted epoch, as JoinEpoch can make one, the count of each epoch in use is at most the number of threads and at least
-- -MAX_THREAD_COUNT, so it fits an `int`; and where ClearEpoch loads the count of the head epoch, it is
-- not negative, as it asserts.
pub count-between :
    {ws : List Worker} {s : System}
    → length ws < max_thread_count
    → Reach ws s
    → s.epochs.undefined ≡ false
    → ((c : ℕ)
        → s.epochs.head_epoch_p ≤ c
        → c ≤ s.epochs.current_epoch_p
        → ((s.epochs.epoch_at c).added ≤ (s.epochs.epoch_at c).taken + length ws)
          × ((s.epochs.epoch_at c).taken ≤ (s.epochs.epoch_at c).added + max_thread_count))
      × (s.cleaner ≡ testing
          → (s.epochs.epoch_at s.epochs.head_epoch_p).taken
            ≤ (s.epochs.epoch_at s.epochs.head_epoch_p).added)
count-between {ws} {s} few r d =
    let v = Reach-Inv few r d in
    (
      λ c l u. (
        ground (arith, v.counted c l u, v.many, total-length c s.workers),
        ground (arith, v.counted c l u, taken_most s.cleaner),
      ),
      λ at_load.
          let none_taken = ap taken_by at_load in
          ground (arith, none_taken, v.counted s.epochs.head_epoch_p (omega arith) v.order),
    )
