-- ===== src/Epoch/Stale.antt =====
-- A thread that comes to JoinEpoch's fetch_add too late.
use multiprocessor_programmi.Prelude.{
  ℕ, zero, suc, refl, ap, ◌++◌, ◌≡◌, ◌≢◌, true, List, [], ◌∷◌, arith,
}
use multiprocessor_programmi.Epoch.{
  Garbage, Worker, joining, Cleaner, resting, comparing, freeing, Epochs, System, max_thread_count,
  fetch_sub, create_new_epoch, delete_head, begin, only_current, older, empty, claim, load_garbage,
  free, advance, create, clean, late, Run, stop, more,
}
use multiprocessor_programmi.Epoch.Safe.{nth}

abbrev pub state : Epochs → Cleaner → List Worker → System
state m c ws = record { epochs = m; cleaner = c; workers = ws }

abbrev with_freed : Epochs → List (ℕ × ℕ) → Epochs
with_freed m fs = record m { freed = fs }

-- The loop over the garbage list ends.
free_all :
    (s : System) (m : Epochs) (rest : List Garbage) (ws : List Worker)
    → Run s (state m (freeing rest) ws)
    → (fs : List (ℕ × ℕ)) × Run s (state (with_freed m fs) (freeing []) ws)
free_all s m [] ws r = (m.freed, r)
free_all s m (g ∷ rest) ws r =
    free_all s (with_freed m ((g.node_p, m.head_epoch_p) ∷ m.freed)) rest ws (more r (clean free))

-- A round of the cleaner that makes a new epoch, and one that deletes the one before it.
delete_current :
    (m : Epochs) (ws : List Worker)
    → m.head_epoch_p ≡ m.current_epoch_p
    → (m.epoch_at m.head_epoch_p).added ≡ (m.epoch_at m.head_epoch_p).taken
    → (fs : List (ℕ × ℕ)) × Run (state m resting ws) (
        state
          (delete_head
            (with_freed (fetch_sub max_thread_count (create_new_epoch m) m.head_epoch_p) fs))
          comparing
          ws)
delete_current m ws one quiet =
    let made = create_new_epoch m in
    let same : ((made.epoch_at m.head_epoch_p).added ≡ (made.epoch_at m.head_epoch_p).taken) =
      ground (arith, one) in
    let far : m.head_epoch_p ≢ suc m.current_epoch_p = λ e. omega (arith, e, one) in
    let first_round : Run (state m resting ws) (state made resting ws) =
      more (more (more stop (clean begin)) (clean (only_current one))) (clean create) in
    let at_claim =
      more (more (more first_round (clean begin)) (clean (older far))) (clean (empty same)) in
    let taken = more at_claim (clean (claim (omega (arith, same)))) in
    let (fs, freed) = free_all _ _ _ ws (more taken (clean load_garbage)) in
    (fs, more freed (clean advance))

joining_at :
    (ws : List Worker) (i p : ℕ)
    → nth ws i ≡ joining p
    → (before after : List Worker) × (ws ≡ before ++ joining p ∷ after)
joining_at [] i p e = absurd (ground (arith, e))
joining_at (w ∷ ws) zero p e = ([], ws, ap (λ v. v ∷ ws) e)
joining_at (w ∷ ws) (suc i) p e =
    let (before, after, at) = joining_at ws i p e in (w ∷ before, after, ap (◌∷◌ w) at)

-- Let a thread have read current_epoch_p in JoinEpoch, and let the cleaner rest, with no other epoch
-- in use and no thread counted in it. There is a run in which the thread stays where it is and the
-- epoch is deleted, and then the thread's fetch_add accesses the deleted epoch node.
pub joining-deleted :
    (m : Epochs) (ws : List Worker) (i : ℕ)
    → m.head_epoch_p ≡ m.current_epoch_p
    → (m.epoch_at m.head_epoch_p).added ≡ (m.epoch_at m.head_epoch_p).taken
    → nth ws i ≡ joining m.current_epoch_p
    → (t : System) × Run (state m resting ws) t
      × (nth t.workers i ≡ joining m.current_epoch_p)
      × ((t.epochs.epoch_at m.current_epoch_p).deleted ≡ true)
      × (t.epochs.undefined ≡ true)
joining-deleted m ws i one quiet here =
    let (fs, run) = delete_current m ws one quiet in
    let (before, after, at) = joining_at ws i m.current_epoch_p here in
    (
      _,
      more run (
          late before after (joining m.current_epoch_p) m.current_epoch_p at refl
            (ground (arith, one))),
      here,
      ground (arith, one),
      refl,
    )
