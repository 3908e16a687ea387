-- ===== src/Epoch.antt =====
-- `EpochManager` of project3/sourcefile/bwtree/include/bwtree.h, as USE_OLD_EPOCH selects it: worker
-- threads that join and leave epochs and add garbage, and the cleaner that runs
-- PerformGarbageCollection. A step is one access to shared memory.
pub mod Invariant
pub mod Work
pub mod Placed
pub mod Clear
pub mod Older
pub mod Safe
pub mod Count
pub mod Stale
pub mod FreeChain
mod Tests
use multiprocessor_programmi.Prelude.{
  ℕ, zero, suc, ◌+◌, ◌≤◌, ◌<◌, ◌≡◌, ◌≢◌, Bool, true, false, List, [], ◌∷◌, ◌++◌, Option, none, some,
  ◌==◌, if◌then◌else◌,
}

-- A garbage node, with its own address.
pub record Garbage : Type 0 where
  pub address : ℕ
  pub node_p : ℕ

-- `active_thread_count` is an `int`, which can be negative: it is `added` less `taken`.
pub record EpochNode : Type 0 where
  pub added : ℕ
  pub taken : ℕ
  pub garbage_list_p : List Garbage  -- the list from the head on
  pub next_p : ℕ  -- 0 for nullptr
  pub deleted : Bool  -- its memory was given back

-- MAX_THREAD_COUNT
abbrev pub max_thread_count : ℕ
max_thread_count = 2147483647

abbrev pub new_epoch : EpochNode
new_epoch = record { added = 0; taken = 0; garbage_list_p = []; next_p = 0; deleted = false }

-- What a compare-exchange on the head of the list compares.
abbrev pub first_address : List Garbage → Option ℕ
first_address [] = none
first_address (g ∷ gs) = some g.address

-- Where a worker stands; `e` is the epoch that it has joined.
pub data Worker : Type 0 where
  outside : Worker
  joining : (epoch_p : ℕ) → Worker  -- current_epoch_p is read
  retracting : (epoch_p : ℕ) → Worker  -- the count was negative
  inside : (e : ℕ) → Worker
  adding : (e epoch_p address node_p : ℕ) → Worker  -- the garbage node is made
  pushing : (e epoch_p address node_p : ℕ) (next_p : Option ℕ) → Worker  -- at the compare-exchange

-- Where the cleaner stands.
pub data Cleaner : Type 0 where
  resting : Cleaner
  comparing : Cleaner  -- at the head of the loop of ClearEpoch
  testing : Cleaner  -- at the load of the count
  claiming : Cleaner  -- at the fetch_sub
  undoing : Cleaner  -- at the fetch_add
  claimed : Cleaner  -- at the load of the garbage list
  freeing : (rest : List Garbage) → Cleaner  -- in the loop over it
  creating : Cleaner  -- at CreateNewEpoch

-- Epoch nodes are named by numbers in the order of their creation, from 1 on; `freed` lists what
-- FreeEpochDeltaChain was called for, newest first, each with the epoch of its garbage list. Where
-- `undefined` holds the behaviour is undefined, and what a state says means nothing any more.
pub record Epochs : Type 0 where
  pub epoch_at : ℕ → EpochNode
  pub head_epoch_p : ℕ
  pub current_epoch_p : ℕ
  pub freed : List (ℕ × ℕ)
  pub undefined : Bool  -- the memory of a deleted epoch was accessed

abbrev pub with_node : (ℕ → EpochNode) → ℕ → EpochNode → ℕ → EpochNode
with_node epoch_at p node_p index = if p == index then node_p else epoch_at index

abbrev pub put_node : Epochs → ℕ → EpochNode → Epochs
put_node m p node_p = record m { epoch_at = with_node m.epoch_at p node_p }

-- `fetch_add(n)` and `fetch_sub(n)` on the count of an epoch
abbrev pub fetch_add : ℕ → Epochs → ℕ → Epochs
fetch_add n m p = put_node m p (record (m.epoch_at p) { added = (m.epoch_at p).added + n })

abbrev pub fetch_sub : ℕ → Epochs → ℕ → Epochs
fetch_sub n m p = put_node m p (record (m.epoch_at p) { taken = (m.epoch_at p).taken + n })

abbrev pub push_garbage : Epochs → ℕ → Garbage → Epochs
push_garbage m p g =
    put_node m p (record (m.epoch_at p) { garbage_list_p = g ∷ (m.epoch_at p).garbage_list_p })

-- A step of a worker: JoinEpoch, LeaveEpoch and AddGarbageNode. JoinEpoch's accesses to the counter are
-- those to an epoch that is not deleted; the others are the step `late` of the system.
pub data Move (m : Epochs) : Worker → Epochs → Worker → Type 0 where
  read : Move m outside m (joining m.current_epoch_p)
  join :
      {p : ℕ}
      → (m.epoch_at p).deleted ≡ false
      → (m.epoch_at p).taken ≤ (m.epoch_at p).added
      → Move m (joining p) (fetch_add 1 m p) (inside p)
  miss :
      {p : ℕ}
      → (m.epoch_at p).deleted ≡ false
      → (m.epoch_at p).added < (m.epoch_at p).taken
      → Move m (joining p) (fetch_add 1 m p) (retracting p)
  retract :
      {p : ℕ} → (m.epoch_at p).deleted ≡ false → Move m (retracting p) (fetch_sub 1 m p) outside
  leave : {e : ℕ} → Move m (inside e) (fetch_sub 1 m e) outside
  make :
      {e : ℕ} (address node_p : ℕ) → Move m (inside e) m (adding e m.current_epoch_p address node_p)
  load :
      {e p address node_p : ℕ}
      → Move m
          (adding e p address node_p)
          m
          (pushing e p address node_p (first_address (m.epoch_at p).garbage_list_p))
  cas_win :
      {e p address node_p : ℕ} {next_p : Option ℕ}
      → next_p ≡ first_address (m.epoch_at p).garbage_list_p
      → Move m
          (pushing e p address node_p next_p)
          (push_garbage m p (record { address = address; node_p = node_p }))
          (inside e)
  cas_lose :
      {e p address node_p : ℕ} {next_p : Option ℕ}
      → next_p ≢ first_address (m.epoch_at p).garbage_list_p
      → Move m
          (pushing e p address node_p next_p)
          m
          (pushing e p address node_p (first_address (m.epoch_at p).garbage_list_p))

-- `CreateNewEpoch`
abbrev pub create_new_epoch : Epochs → Epochs
create_new_epoch m =
    let fresh = suc m.current_epoch_p in
    record (put_node
      (put_node m m.current_epoch_p (record (m.epoch_at m.current_epoch_p) { next_p = fresh }))
      fresh new_epoch) { current_epoch_p = fresh }

-- the head epoch deleted, and the next one in its place
abbrev pub delete_head : Epochs → Epochs
delete_head m =
    record (put_node m m.head_epoch_p (record (m.epoch_at m.head_epoch_p) { deleted = true })) {
      head_epoch_p = (m.epoch_at m.head_epoch_p).next_p;
    }

-- A step of the cleaner: PerformGarbageCollection, which calls ClearEpoch and then CreateNewEpoch.
pub data Clean (m : Epochs) : Cleaner → Epochs → Cleaner → Type 0 where
  begin : Clean m resting m comparing
  only_current : m.head_epoch_p ≡ m.current_epoch_p → Clean m comparing m creating
  older : m.head_epoch_p ≢ m.current_epoch_p → Clean m comparing m testing
  not_empty :
      (m.epoch_at m.head_epoch_p).added ≢ (m.epoch_at m.head_epoch_p).taken
      → Clean m testing m creating
  empty :
      (m.epoch_at m.head_epoch_p).added ≡ (m.epoch_at m.head_epoch_p).taken
      → Clean m testing m claiming
  sneaked_in :
      (m.epoch_at m.head_epoch_p).taken < (m.epoch_at m.head_epoch_p).added
      → Clean m claiming (fetch_sub max_thread_count m m.head_epoch_p) undoing
  claim :
      (m.epoch_at m.head_epoch_p).added ≤ (m.epoch_at m.head_epoch_p).taken
      → Clean m claiming (fetch_sub max_thread_count m m.head_epoch_p) claimed
  undo : Clean m undoing (fetch_add max_thread_count m m.head_epoch_p) creating
  load_garbage : Clean m claimed m (freeing (m.epoch_at m.head_epoch_p).garbage_list_p)
  free :
      {g : Garbage} {rest : List Garbage}
      → Clean m
          (freeing (g ∷ rest))
          (record m { freed = (g.node_p, m.head_epoch_p) ∷ m.freed })
          (freeing rest)
  advance : Clean m (freeing []) (delete_head m) comparing
  create : Clean m creating (create_new_epoch m) resting

pub record System : Type 0 where
  pub epochs : Epochs
  pub cleaner : Cleaner
  pub workers : List Worker

-- The epoch node that a worker accesses next.
abbrev pub accesses : Worker → Option ℕ
accesses outside = none
accesses (joining epoch_p) = some epoch_p
accesses (retracting epoch_p) = some epoch_p
accesses (inside e) = some e
accesses (adding e epoch_p address node_p) = some epoch_p
accesses (pushing e epoch_p address node_p next_p) = some epoch_p

pub data Step (s : System) : System → Type 0 where
  work :
      (before after : List Worker) {w w' : Worker} {m : Epochs}
      → s.workers ≡ before ++ w ∷ after
      → Move s.epochs w m w'
      → Step s (record s { epochs = m; workers = before ++ w' ∷ after })
  clean :
      {m : Epochs} {c : Cleaner}
      → Clean s.epochs s.cleaner m c
      → Step s (record s { epochs = m; cleaner = c })
  late :
      (before after : List Worker) (w : Worker) (p : ℕ)
      → s.workers ≡ before ++ w ∷ after
      → accesses w ≡ some p
      → (s.epochs.epoch_at p).deleted ≡ true
      → Step s (record s { epochs = record s.epochs { undefined = true } })

pub data Run (s : System) : System → Type 0 where
  stop : Run s s
  more : {t u : System} → Run s t → Step t u → Run s u

-- The constructor: one epoch, in which no thread is.
abbrev pub new_epochs : Epochs
new_epochs = record {
  epoch_at = λ p. new_epoch;
  head_epoch_p = 1;
  current_epoch_p = 1;
  freed = [];
  undefined = false;
}

abbrev pub IsOutside : List Worker → Type 0
IsOutside [] = Unit
IsOutside (w ∷ ws) = (w ≡ outside) × IsOutside ws

-- The states that any number of workers and the cleaner reach.
pub data Reach (workers : List Worker) : System → Type 0 where
  start :
      IsOutside workers
      → Reach workers (record { epochs = new_epochs; cleaner = resting; workers = workers })
  later : {s t : System} → Reach workers s → Step s t → Reach workers t
