-- ===== src/Allocation.antt =====
-- `AllocationMeta` (project3/sourcefile/bwtree/include/bwtree.h): the chunks in which a base node
-- allocates its delta nodes, with one step for each access to shared memory.
pub mod Invariant
pub mod Steps
pub mod Fresh
pub mod Disjoint
mod Tests
use multiprocessor_programmi.Prelude.{
  ℕ, suc, ◌+◌, ◌-◌, ◌*◌, ◌%◌, ◌^◌, ◌≤◌, ◌<◌, ◌≡◌, ◌≢◌, ◌⊎◌, All, List, [], ◌∷◌, ◌++◌, Option, none,
  some, ltb, if◌then◌else◌,
}
use multiprocessor_programmi.Stack.{update}

-- The addresses `tail` and `limit` of a chunk. Its `next` is the chunk with the following number.
pub record Chunk : Type 0 where
  pub tail : ℕ
  pub limit : ℕ

-- `tail.load() < limit`, then `fetch_sub` on a 64 bit word and the test of the new value
unfoldable pub try_subtract : ℕ → Chunk → Chunk × Option ℕ
try_subtract size chunk =
    let new_tail = (chunk.tail + 2 ^ 64 - size) % 2 ^ 64 in
    (record chunk { tail = new_tail }, if ltb new_tail chunk.limit then none else some new_tail)

-- The list of chunks, the first of which lies in front of the base node: those below `count`.
pub record Chunks : Type 0 where
  pub chunk_at : ℕ → Chunk
  pub count : ℕ

pub data Event : Type 0 where
  internal : Event
  allocated : (chunk address size : ℕ) → Event

-- Where a thread is in `Allocate(size)`, at the chunk `meta_p`.
pub data Thread : Type 0 where
  idle : Thread
  trying : (size meta_p : ℕ) → Thread  -- before the first load of TryAllocate
  subtracting : (size meta_p : ℕ) → Thread  -- before its fetch_sub
  growing : (size meta_p : ℕ) → Thread  -- before the load of `next` in GrowChunk
  linking : (size meta_p new_chunk : ℕ) → Thread  -- before its compare-exchange

-- sizeof(DeltaNodeUnion), sizeof(AllocationMeta), the largest size that is asked for, and an address below
-- which `new` returns none
pub record Sizes : Type 0 where
  pub delta_size : ℕ
  pub meta_size : ℕ
  pub max_size : ℕ
  pub low_address : ℕ

-- The chunks that threads have from `new`, and not linked yet.
abbrev pub held_by : Thread → List ℕ
held_by idle = []
held_by (trying size meta_p) = []
held_by (subtracting size meta_p) = []
held_by (growing size meta_p) = []
held_by (linking size meta_p new_chunk) = new_chunk ∷ []

abbrev pub held : List Thread → List ℕ
held [] = []
held (t ∷ ts) = held_by t ++ held ts

module _ (z : Sizes) where
  -- CHUNK_SIZE()
  abbrev pub chunk_size : ℕ
  chunk_size = z.delta_size * 8 + z.meta_size

  abbrev pub new_chunk : ℕ → Chunk
  new_chunk base = record { tail = base + chunk_size; limit = base + z.meta_size }

  -- What `new char[CHUNK_SIZE()]` may return: the chunk ends below 2^64.
  abbrev pub IsAddress : ℕ → Type 0
  IsAddress base = (z.low_address ≤ base) × (base + chunk_size < 2 ^ 64)

  -- Chunks at two addresses do not overlap.
  abbrev pub Separate : ℕ → ℕ → Type 0
  Separate base base' = (base + chunk_size ≤ base') ⊎ (base' + chunk_size ≤ base)

  -- `new` returns memory that is not in use: neither for a chunk of the list, which is told by where its
  -- metadata end, nor for one that another thread is about to link.
  pub record IsFresh (in_use : List ℕ) (s : Chunks) (base : ℕ) : Type 0 where
    pub from_list : (c : ℕ) → c < s.count → Separate (base + z.meta_size) (s.chunk_at c).limit
    pub from_held : All (Separate base) in_use

  pub data Move (in_use : List ℕ) (s : Chunks) : Thread → Event → Chunks → Thread → Type 0 where
    call : {size : ℕ} → size ≤ z.max_size → Move in_use s idle internal s (trying size 0)
    depleted :
        {size meta_p : ℕ}
        → (s.chunk_at meta_p).tail < (s.chunk_at meta_p).limit
        → Move in_use s (trying size meta_p) internal s (growing size meta_p)
    has_room :
        {size meta_p : ℕ}
        → (s.chunk_at meta_p).limit ≤ (s.chunk_at meta_p).tail
        → Move in_use s (trying size meta_p) internal s (subtracting size meta_p)
    gets :
        {size meta_p address : ℕ} {chunk : Chunk}
        → try_subtract size (s.chunk_at meta_p) ≡ (chunk, some address)
        → Move in_use s
            (subtracting size meta_p)
            (allocated meta_p address size)
            (record s { chunk_at = update s.chunk_at meta_p chunk })
            idle
    misses :
        {size meta_p : ℕ} {chunk : Chunk}
        → try_subtract size (s.chunk_at meta_p) ≡ (chunk, none)
        → Move in_use s
            (subtracting size meta_p)
            internal
            (record s { chunk_at = update s.chunk_at meta_p chunk })
            (growing size meta_p)
    follow :
        {size meta_p : ℕ}
        → suc meta_p ≢ s.count
        → Move in_use s (growing size meta_p) internal s (trying size (suc meta_p))
    grow :
        {size meta_p : ℕ} (base : ℕ)
        → suc meta_p ≡ s.count
        → IsAddress base
        → IsFresh in_use s base
        → Move in_use s (growing size meta_p) internal s (linking size meta_p base)
    link :
        {size meta_p base : ℕ}
        → suc meta_p ≡ s.count
        → Move in_use s
            (linking size meta_p base)
            internal
            (record { chunk_at = update s.chunk_at s.count (new_chunk base); count = suc s.count })
            (trying size (suc meta_p))
    link_lost :
        {size meta_p base : ℕ}
        → suc meta_p ≢ s.count
        → Move in_use s (linking size meta_p base) internal s (trying size (suc meta_p))

  pub record System : Type 0 where
    pub chunks : Chunks
    pub threads : List Thread

  pub data Step (s : System) : Event → System → Type 0 where
    move :
        (before after : List Thread) {t t' : Thread} {e : Event} {m : Chunks}
        → s.threads ≡ before ++ t ∷ after
        → Move (held s.threads) s.chunks t e m t'
        → Step s e (record { chunks = m; threads = before ++ t' ∷ after })

  -- A base node with its first chunk, and threads that have not called.
  abbrev pub IsIdle : List Thread → Type 0
  IsIdle [] = Unit
  IsIdle (t ∷ ts) = (t ≡ idle) × IsIdle ts

  abbrev pub first_chunk : ℕ → Chunks
  first_chunk base = record { chunk_at = λ _. new_chunk base; count = 1 }

  -- What was allocated, newest first, as (chunk, (address, size)).
  abbrev pub note : Event → List (ℕ × (ℕ × ℕ)) → List (ℕ × (ℕ × ℕ))
  note internal log = log
  note (allocated chunk address size) log = (chunk, (address, size)) ∷ log

  pub data Reach (base : ℕ) (threads : List Thread) : System → List (ℕ × (ℕ × ℕ)) → Type 0 where
    start :
        IsAddress base
        → IsIdle threads
        → Reach base threads (record { chunks = first_chunk base; threads = threads }) []
    later :
        {s s' : System} {e : Event} {log : List (ℕ × (ℕ × ℕ))}
        → Reach base threads s log
        → Step s e s'
        → Reach base threads s' (note e log)
