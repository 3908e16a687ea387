-- ===== src/Gc/Tests.antt =====
-- A thread with two removed nodes.
use multiprocessor_programmi.Prelude.{ℕ, ◌≡◌, refl, ◌++◌, [], ◌∷◌, arith}
use multiprocessor_programmi.Gc.{GarbageNode, GcMetaData, perform_gc, add_garbage_node}
use multiprocessor_programmi.Gc.Laws.{IsValid, Frees, perform_gc-Frees}
use multiprocessor_programmi.Gc.Add.{Adds, add_garbage_node-Adds}

abbrev removed : ℕ → ℕ → ℕ → GarbageNode
removed address epoch node_p = record { address = address; delete_epoch = epoch; node_p = node_p }

abbrev thread : ℕ → GcMetaData
thread epoch = record {
  last_active_epoch = epoch;
  nodes = removed 1 3 100 ∷ removed 2 5 200 ∷ [];
  last_p = 2;
  node_count = 2;
}

thread-IsValid : (epoch : ℕ) → IsValid (thread epoch)
thread-IsValid epoch = record {
  linked = (ground arith, refl, (ground arith, refl, tt));
  last = refl;
  counted = refl;
}

frees_one : (perform_gc 4 (thread 6)).1 ≡ 100 ∷ []
unfolding perform_gc
frees_one = refl

perform_gc-Frees_example :
    IsValid (perform_gc 4 (thread 6)).0
    × Frees 4 (thread 6).nodes (perform_gc 4 (thread 6)).0.nodes (perform_gc 4 (thread 6)).1
perform_gc-Frees_example = perform_gc-Frees 4 (thread 6) (thread-IsValid 6)

add_garbage_node-Adds_example :
    IsValid (add_garbage_node 3 6 300 4 (thread 6)).0
    × Adds 4
        (thread 6)
        ((thread 6).nodes ++ removed 3 6 300 ∷ [])
        (add_garbage_node 3 6 300 4 (thread 6))
add_garbage_node-Adds_example =
    add_garbage_node-Adds 3 6 300 4 (thread 6) (thread-IsValid 6) (ground arith) refl
