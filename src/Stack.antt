-- ===== src/Stack.antt =====
-- `AtomicStack` (project3/sourcefile/bwtree/include/atomic_stack.h): a lock-free stack in an array, with
-- one pushing thread and any number of popping threads. A step is one access to shared memory.
pub mod Invariant
pub mod Refines
mod Tests
use multiprocessor_programmi.Prelude.{
  ℕ, zero, suc, ◌+◌, ◌%◌, ◌^◌, ◌≡◌, ◌≢◌, ◌==◌, List, [], ◌∷◌, Option, none, some, if◌then◌else◌,
}

-- A pointer into the array: `slot n` is `data - 1 + n`, so `slot 0` is the empty stack's and
-- `slot (suc m)` points to `data[m]`.
pub data Pointer : Type 0 where
  null : Pointer
  slot : ℕ → Pointer

pub record VersionedPointer : Type 0 where
  pub ptr : Pointer
  pub version : ℕ  -- uint64_t

-- `VersionedPointer(nullptr)`
abbrev pub null_pointer : VersionedPointer
null_pointer = record { ptr = null; version = 0 }

abbrev pub to_next_version : ℕ → ℕ
to_next_version version = (version + 1) % 2 ^ 64

module _ {ℓ} {A : Type ℓ} where
  -- An array, or the threads, with one entry written.
  abbrev pub update : (entries : ℕ → A) (at : ℕ) (entry : A) → ℕ → A
  update entries at entry index = if at == index then entry else entries index

module _ (A : Type 0) where
  pub record Shared : Type 0 where
    pub cells : ℕ → A  -- the array `data`, taken to be large enough
    pub top_p : VersionedPointer

  -- Where a thread in `Pop` stands.
  pub data Popper : Type 0 where
    idle : Popper
    loaded : (snapshot_top_p : VersionedPointer) → Popper  -- at the tests of the loop
    ready : (m version : ℕ) (ret : A) → Popper  -- before the compare-exchange; the snapshot is slot (suc m)

  -- Where the pushing thread stands: `base` and `version` are the snapshot's, `cursor` is where
  -- `snapshot_top_p` has moved to, `items` is what is pushed, `rest` what is not yet written.
  pub data Pusher : Type 0 where
    quiet : Pusher
    writing : (base version cursor : ℕ) (items rest : List A) → Pusher

  -- What a step does to the stack, as its callers see it.
  pub data Event : Type 0 where
    internal : Event
    popped : A → Event  -- `Pop` returns {true, value}
    failed : Event  -- `Pop` returns {false, ...}
    pushed : List A → Event  -- `SingleThreadPush` or `SingleThreadCommitPush` ends

  pub record System : Type 0 where
    pub mem : Shared
    pub pusher : Pusher
    pub poppers : ℕ → Popper

module _ {A : Type 0} where
  -- One step of a thread in `Pop`.
  pub data Move (m : Shared A) : Popper A → Event A → Shared A → Popper A → Type 0 where
    load : Move m idle internal m (loaded m.top_p)
    see_null : {snap : VersionedPointer} → snap.ptr ≡ null → Move m (loaded snap) failed m idle
    see_empty : {snap : VersionedPointer} → snap.ptr ≡ slot 0 → Move m (loaded snap) failed m idle
    read :
        {snap : VersionedPointer} {i : ℕ}
        → snap.ptr ≡ slot (suc i)
        → Move m (loaded snap) internal m (ready i snap.version (m.cells i))
    cas_win :
        {i version : ℕ} {ret : A}
        → m.top_p ≡ record { ptr = slot (suc i); version = version }
        → Move m
            (ready i version ret)
            (popped ret)
            (record m { top_p = record { ptr = slot i; version = to_next_version version } })
            idle
    cas_lose :
        {i version : ℕ} {ret : A}
        → m.top_p ≢ record { ptr = slot (suc i); version = version }
        → Move m (ready i version ret) internal m (loaded m.top_p)

  -- One step of the pushing thread. `SingleThreadPush` pushes one item, `SingleThreadCommitPush` its
  -- buffer.
  pub data Push (m : Shared A) : Pusher A → Event A → Shared A → Pusher A → Type 0 where
    prepare :
        {n version : ℕ} (items : List A)
        → m.top_p ≡ record { ptr = slot n; version = version }
        → Push m quiet internal
            (record m { top_p = null_pointer })
            (writing n version n items items)
    write :
        {base version cursor : ℕ} {items rest : List A} {item : A}
        → Push m
            (writing base version cursor items (item ∷ rest))
            internal
            (record m { cells = update m.cells cursor item })
            (writing base version (suc cursor) items rest)
    store :
        {base version cursor : ℕ} {items : List A}
        → Push m
            (writing base version cursor items [])
            (pushed items)
            (record m { top_p = record { ptr = slot cursor; version = to_next_version version } })
            quiet

  pub data Step (s : System A) : Event A → System A → Type 0 where
    pop :
        (i : ℕ) {e : Event A} {m : Shared A} {p : Popper A}
        → Move s.mem (s.poppers i) e m p
        → Step s e (record s { mem = m; poppers = update s.poppers i p })
    push :
        {e : Event A} {m : Shared A} {p : Pusher A}
        → Push s.mem s.pusher e m p
        → Step s e (record s { mem = m; pusher = p })

  -- The constructor of the stack, with no thread in a call; the array's bytes are as they are.
  abbrev pub init : (ℕ → A) → System A
  init cells = record {
    mem = record { cells = cells; top_p = record { ptr = slot 0; version = 0 } };
    pusher = quiet;
    poppers = λ _. idle;
  }

  -- The states that `k` steps reach.
  pub data Reach (cells : ℕ → A) : ℕ → System A → Type 0 where
    start : Reach cells 0 (init cells)
    later :
        {k : ℕ} {e : Event A} {s t : System A}
        → Reach cells k s
        → Step s e t
        → Reach cells (suc k) t
