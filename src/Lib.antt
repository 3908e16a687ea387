-- ===== src/Lib.antt =====
-- Verification of the concurrent data structures of this repository: the Bw-Tree of project3 (leaf
-- and inner delta chains, updates, splits and consolidation, the mapping table and its node ids, its
-- containers, its allocation, its epochs and its garbage lists), the lock-free stack beside it, the worker pool, and
-- the wait-free atomic snapshot of project2.
--
-- The parts, and where they are modelled:
-- - SmallSet: `SortedSmallSet` (project3/sourcefile/bwtree/include/sorted_small_set.h), the sorted array
--   in which a consolidation orders the data nodes of a chain; Insert, InsertNoDedup, PopFront.
-- - Bloom: `BloomFilter` (project3/sourcefile/bwtree/include/bloom_filter.h), the sets of values that
--   the searches of a leaf keep. Its hash and equality are parameters.
-- - Leaf: the leaf nodes of project3/sourcefile/bwtree/include/bwtree.h. A chain of delta nodes is one
--   data type, `LeafChain`, since a node never changes once it is installed; the getters compute the
--   metadata as the constructors of the nodes do. Leaf/Navigate has the searches `NavigateLeafNode` for
--   a pair (Insert, Delete) and for all values of a key (GetValue, which uses Bloom), Leaf/Predicate
--   has the one under a predicate and the round of `ConditionalInsert`. Leaf/Update has
--   the rounds of `Insert` and `Delete`, Leaf/Split has FindSplitPoint, GetSplitSibling and the split
--   of AdjustNodeSize. Leaf/Spec says what a chain holds without any order of search, and when it is
--   well-formed.
-- - Consolidate: `CollectAllValuesOnLeaf` of bwtree.h, which replaces a leaf chain by one base node;
--   it uses SmallSet for the data nodes and Bloom for the pairs met. Consolidate/Weave has the merge of
--   a base node with data nodes item by item, Consolidate/Merge shows that the loops of the source do
--   that merge, Consolidate/Collects, Consolidate/Joined and Consolidate/Chain follow the recursion down
--   the chain, and Consolidate/Listing counts what a chain holds.
-- - Inner: the inner nodes of bwtree.h, again as one data type of chains, with LocateSeparatorByKey and
--   `NavigateInnerNode`. Inner/Spec says which separators a chain has and when it is well-formed,
--   Inner/Floor what the greatest separator up to a key is; Inner/Split has GetSplitSibling and the
--   split of AdjustNodeSize. Inner/Backward has the search for backward iteration, LocateSeparatorByKeyBI
--   and `NavigateInnerNodeBI`. Inner/Collect has `CollectAllSepsOnInner`, the consolidation of an inner
--   chain; Inner/Collect/Merge, Inner/Collect/Sorted, Inner/Collect/Cut and Inner/Collect/Chain follow
--   what a base node and the sorted data nodes give, Inner/Collect/Joined and Inner/Collect/Whole the recursion, and
--   Inner/Collect/Listing and Inner/Collect/Size count the separators.
-- - Stack: `AtomicStack` (project3/sourcefile/bwtree/include/atomic_stack.h), with one step for each
--   access to the shared memory, one pushing thread and any number of popping ones.
-- - Table: the entry of one leaf in the mapping table, and the threads in `Insert` and `Delete` that
--   replace it by InstallNodeToReplace, with one step for each access to the entry. The rounds are
--   those of Leaf/Update.
-- - Snapshot: project2/snapshot.cpp and snapvalue.hpp. `scan` is a function of what each call of
--   `collect` reads; the other threads are a history of stores to the registers.
-- - Gc: GarbageNode, GCMetaData, AddGarbageNode, SummarizeGCEpoch and PerformGC of bwtree.h.
-- - Epoch: `EpochManager` of bwtree.h as USE_OLD_EPOCH, which the file defines, selects it: the epochs
--   that threads join and leave, and the cleaner that deletes the oldest ones, with one step for each
--   access to shared memory. Epoch nodes are named in the order of their creation, a counter is what
--   was added and what was taken from it. An access to an epoch that is deleted is a step of its own,
--   after which the behaviour is undefined.
--   Epoch/Invariant says what the counters stand for, Epoch/Work, Epoch/Placed and Epoch/Clear that the
--   threads and the cleaner keep it, Epoch/Older and Epoch/Safe what is freed, Epoch/Count has the range
--   of the counters, and Epoch/Stale the thread that comes too late. Epoch/FreeChain has
--   FreeEpochDeltaChain, over nodes in memory, each in the chunks of the base node that it was allocated at.
-- - WorkerPool: project3/sourcefile/bwtree/include/worker_pool.h, the queue of tasks and its threads, with
--   one step for each section under the lock.
-- - Allocation: `AllocationMeta` of bwtree.h, the chunks in which delta nodes are allocated, with one step
--   for each access to the shared memory. What `new` returns is a parameter of the step:
--   any memory that no chunk takes. Allocation/Invariant and Allocation/Steps follow the tails, Allocation/Fresh
--   where the chunks lie.
-- - LruCache: `LRUcache` of bwtree.h, from a key to the id of a leaf's parent. LruCache/Recent says which
--   pairs it is to hold.
-- - NodeIds: GetNextNodeID, InvalidateNodeID, InstallNewNode and GetNode of bwtree.h, over the table of
--   MAPPING_TABLE_SIZE ids; each call is one step, since the first two hold a lock and the others are one
--   access.
-- - Iterator: `ForwardIterator` and IteratorContext of bwtree.h. An iterator is a page, which is a copy of a
--   leaf, and a place in it. The pages that Traverse and TraverseBI lead to are parameters: what is loaded
--   at a time for a key, since other threads change the tree between the loads. Iterator/Spec says
--   which pairs an iterator has before it and behind it, Iterator/Forward and Iterator/Backward follow the
--   loops of LowerBound and MoveBackByOne, Iterator/Ordered is about any tree and Iterator/Rest about one
--   that keeps its pairs, Iterator/Scan has the loop of a client, Iterator/Leaves the linked leaves that
--   give the pages, and Iterator/Begin the start at the first one. Iterator/Contexts has the reference
--   counts, as memory and a list of iterators that are alive, each with its two pointers.
-- - Prelude: the names that all files share.
--
-- Keys and values are numbers in their order, as under std::less. Item counts are `int` modulo 2^32,
-- versions and epochs are 64 bit words: the stack is considered over its first 2^64 steps,
-- in which no version number comes back. A label of a snapshot register goes through an `int` and a
-- remainder by UINT_MAX, which is written out. The loop of `scan` runs on fuel, one round more than
-- there are threads, since a register that moves a second time ends it. The loop of
-- FreeEpochDeltaChain runs on fuel, as much as the chain is deep; those of LowerBound and MoveBackByOne on
-- more fuel than the highest key, since each page takes them to a higher, or to a lower, key. All other
-- loops are structural. Failed assertions are `none`, but for two that cannot fail where the functions
-- are called: that of FindSplitPoint on the index, and that of PerformGC on the node count. The reference counts of iterators are numbers: a
-- size_t would take 2^64 references to wrap.
--
-- Arrays that the source takes to be large enough (the small set, the filter's pointers, the stack) are
-- unbounded. Accesses to memory are sequentially consistent, as the source's atomics are; `current_epoch_p`,
-- which is not atomic, is taken to be as well. A subtraction from the tail of a chunk is modulo 2^64; the
-- addresses of chunks are taken to lie above what all threads together could subtract. Ids are considered
-- as long as the table has room for those that were handed out.
--
-- Not modelled are the traversal of the tree and its structure changes under concurrency, the freeing
-- of chunks, the destructor of the epoch manager, the postfix operators of iterators, and the timing and
-- workloads around the programs. The patch of project4 changes a program that is not in the repository.
pub mod Prelude
pub mod SmallSet
pub mod Bloom
pub mod Leaf
pub mod Consolidate
pub mod Inner
pub mod Stack
pub mod Table
pub mod Snapshot
pub mod Gc
pub mod WorkerPool
pub mod Allocation
pub mod LruCache
pub mod NodeIds
pub mod Epoch
pub mod Iterator
