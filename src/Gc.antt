-- ===== src/Gc.antt =====
-- Epoch-based garbage collection of the Bw-Tree (project3/sourcefile/bwtree/include/bwtree.h, class
-- BwTreeBase, AddGarbageNode, PerformGC): each thread keeps a linked list of removed nodes, and frees
-- those that were removed before every thread's last active epoch.
pub mod Laws
pub mod Add
mod Tests
use multiprocessor_programmi.Prelude.{
  ℕ, ◌+◌, ◌-◌, ◌%◌, ◌^◌, ◌==◌, ltb, leb, Bool, List, [], ◌∷◌, if◌then◌else◌, min, get_or, set,
}

-- GC_NODE_COUNT_THREADHOLD
abbrev pub gc_node_count_threshold : ℕ
gc_node_count_threshold = 1024

-- A node of the list, with its address; 0 is the address of the list's header.
pub record GarbageNode : Type 0 where
  pub address : ℕ
  pub delete_epoch : ℕ
  pub node_p : ℕ

-- `nodes` is what hangs on `header.next_p`.
pub record GcMetaData : Type 0 where
  pub last_active_epoch : ℕ
  pub nodes : List GarbageNode
  pub last_p : ℕ
  pub node_count : ℕ

abbrev pub header : ℕ
header = 0

unfoldable pub init : GcMetaData
init = record { last_active_epoch = 0; nodes = []; last_p = header; node_count = 0 }

unfoldable pub update_last_active_epoch : ℕ → GcMetaData → GcMetaData
update_last_active_epoch epoch meta = record meta { last_active_epoch = epoch }

-- `static_cast<uint64_t>(-1)`: a thread that is gone holds no epoch back.
unfoldable pub unregister_thread : GcMetaData → GcMetaData
unregister_thread meta = record meta { last_active_epoch = 2 ^ 64 - 1 }

-- the loop of `SummarizeGCEpoch` over the threads from 1 on
unfoldable pub min_epoch_loop : ℕ → List GcMetaData → ℕ
min_epoch_loop min_epoch [] = min_epoch
min_epoch_loop min_epoch (meta ∷ metas) =
    min_epoch_loop (min meta.last_active_epoch min_epoch) metas

-- `SummarizeGCEpoch`, for the metadata of thread 0 and of the other threads
unfoldable pub summarize_gc_epoch : GcMetaData → List GcMetaData → ℕ
unfolding min_epoch_loop
summarize_gc_epoch first others = min_epoch_loop first.last_active_epoch others

-- `last_p->next_p = garbage_node_p`: what hung on that node is cut off. Through an address that is not
-- in the list nothing in it changes.
unfoldable pub link_after : ℕ → GarbageNode → List GarbageNode → List GarbageNode
link_after last_p node [] = []
link_after last_p node (x ∷ xs) =
    if x.address == last_p then x ∷ node ∷ [] else x ∷ link_after last_p node xs

unfoldable pub link : ℕ → GarbageNode → List GarbageNode → List GarbageNode
unfolding link_after
link last_p node nodes = if last_p == header then node ∷ [] else link_after last_p node nodes

-- The loop of `PerformGC`: the nodes that stay, the count, and the nodes that were freed.
pub record Collected : Type 0 where
  pub kept : List GarbageNode
  pub count : ℕ
  pub freed : List ℕ

-- The loop of PerformGC. Its assertion that the count is not 0 is left out: the count is the number of
-- the nodes in the list.
unfoldable pub free_loop : ℕ → ℕ → List GarbageNode → Collected
free_loop min_epoch count [] = record { kept = []; count = count; freed = [] }
free_loop min_epoch count (x ∷ xs) =
    let rest = free_loop min_epoch (count - 1) xs in
    if ltb x.delete_epoch min_epoch
    then record rest { freed = x.node_p ∷ rest.freed }
    else record { kept = x ∷ xs; count = count; freed = [] }

-- `if (first_p == nullptr) last_p = header_p`
abbrev pub reset_last : List GarbageNode → ℕ → ℕ
reset_last [] last_p = header
reset_last (x ∷ xs) last_p = last_p

-- `PerformGC` on a thread's metadata, for the epoch that `SummarizeGCEpoch` gave.
unfoldable pub perform_gc : ℕ → GcMetaData → GcMetaData × List ℕ
unfolding free_loop
perform_gc min_epoch meta =
    let c = free_loop min_epoch meta.node_count meta.nodes in
    (
      record meta { nodes = c.kept; last_p = reset_last c.kept meta.last_p; node_count = c.count },
      c.freed,
    )

-- `AddGarbageNode` of the current thread, with the new node's address, the global epoch, and the epoch
-- that `SummarizeGCEpoch` gives if the collection is started.
unfoldable pub add_garbage_node : ℕ → ℕ → ℕ → ℕ → GcMetaData → GcMetaData × List ℕ
unfolding link perform_gc
add_garbage_node address epoch node_p min_epoch meta =
    let node : GarbageNode = record { address = address; delete_epoch = epoch; node_p = node_p } in
    let added : GcMetaData = record meta {
      nodes = link meta.last_p node meta.nodes;
      last_p = address;
      node_count = meta.node_count + 1;
    } in
    if ltb gc_node_count_threshold added.node_count then perform_gc min_epoch added else (added, [])
