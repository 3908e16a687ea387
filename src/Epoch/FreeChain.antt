-- ===== src/Epoch/FreeChain.antt =====
-- `FreeEpochDeltaChain` of the epoch manager: the nodes of a delta chain in memory, freed.
pub mod Owned
pub mod Frees
mod Tests
use multiprocessor_programmi.Prelude.{
  ℕ, zero, suc, ◌≡◌, List, [], ◌∷◌, Option, none, some, ◌==◌, if◌then◌else◌,
}
use multiprocessor_programmi.Leaf.{NodeId}

-- The nodes, with the pointers and the ids that the function reads.
pub data BaseNode : Type 0 where
  leaf_insert : (child_node_p : ℕ) → BaseNode
  leaf_delete : (child_node_p : ℕ) → BaseNode
  leaf_split : (child_node_p : ℕ) → BaseNode
  leaf_merge : (child_node_p right_merge_p : ℕ) → BaseNode
  leaf_remove : (child_node_p : ℕ) (removed_id : NodeId) → BaseNode
  leaf : BaseNode
  inner_insert : (child_node_p : ℕ) → BaseNode
  inner_delete : (child_node_p : ℕ) → BaseNode
  inner_split : (child_node_p : ℕ) → BaseNode
  inner_merge : (child_node_p right_merge_p : ℕ) → BaseNode
  inner_remove : (child_node_p : ℕ) (removed_id : NodeId) → BaseNode
  inner : BaseNode
  inner_abort : (child_node_p : ℕ) → BaseNode

-- Memory: the nodes that are neither destructed nor freed, by address, and the ids that were
-- invalidated, newest first.
pub record Memory : Type 0 where
  pub node_at : ℕ → Option BaseNode
  pub invalidated : List NodeId

abbrev pub release : ℕ → Memory → Memory
release p m = record m { node_at = λ q. if p == q then none else m.node_at q }

-- `Destroy()` of the base node at `p`: its own memory and that of the nodes in its chunks
abbrev pub destroy : (ℕ → ℕ) → ℕ → Memory → Memory
destroy chunk_of p m = record m {
  node_at = λ q. if p == q then none else if p == chunk_of q then none else m.node_at q;
}

abbrev pub recycle : NodeId → Memory → Memory
recycle id m = record m { invalidated = id ∷ m.invalidated }

-- What a case of the switch does: it goes on to the child, it frees two chains, or it is the
-- last one: a node that `new` made, or a base node, which is destroyed with its chunks.
pub data Case : Type 0 where
  goes_on : (next_node_p : ℕ) → Case
  frees_both : (child_node_p right_merge_p : ℕ) → Case
  recycles : (removed_id : NodeId) → Case
  ends : Case
  destroys : Case

unfoldable pub case_of : BaseNode → Case
case_of (leaf_insert child_node_p) = goes_on child_node_p
case_of (leaf_delete child_node_p) = goes_on child_node_p
case_of (leaf_split child_node_p) = goes_on child_node_p
case_of (leaf_merge child_node_p right_merge_p) = frees_both child_node_p right_merge_p
case_of (leaf_remove child_node_p removed_id) = recycles removed_id
case_of leaf = destroys
case_of (inner_insert child_node_p) = goes_on child_node_p
case_of (inner_delete child_node_p) = goes_on child_node_p
case_of (inner_split child_node_p) = goes_on child_node_p
case_of (inner_merge child_node_p right_merge_p) = frees_both child_node_p right_merge_p
case_of (inner_remove child_node_p removed_id) = recycles removed_id
case_of inner = destroys
case_of (inner_abort child_node_p) = ends

-- How a call ends. A fault is an access to a node that is destructed or whose memory is freed, its own
-- destruction included.
pub data Ending : Type 0 where
  returns : (m : Memory) → Ending
  fault : Ending
  out_of_fuel : Ending

-- `chunk_of` is the base node in whose chunks a delta node was allocated, as InlineAllocate does it.
module _ (chunk_of : ℕ → ℕ) where
  -- `FreeEpochDeltaChain`
  unfoldable pub free_epoch_delta_chain : ℕ → ℕ → Memory → Ending
  unfolding case_of
  free_epoch_delta_chain zero node_p m = out_of_fuel
  free_epoch_delta_chain (suc fuel) node_p m = elim (m.node_at node_p) [
    | none ↦ fault
    | some node ↦ elim (case_of node) [
      | goes_on next_node_p ↦ free_epoch_delta_chain fuel next_node_p (release node_p m)
      | frees_both child_node_p right_merge_p ↦ elim (free_epoch_delta_chain fuel child_node_p m) [
        | fault ↦ fault
        | out_of_fuel ↦ out_of_fuel
        | returns m' ↦ elim (free_epoch_delta_chain fuel right_merge_p m') [
          | fault ↦ fault
          | out_of_fuel ↦ out_of_fuel
          | returns m'' ↦ elim (m''.node_at node_p) [
            | none ↦ fault
            | some same ↦ returns (release node_p m'')
          ]
        ]
      ]
      | recycles removed_id ↦ returns (release node_p (recycle removed_id m))
      | ends ↦ returns (release node_p m)
      | destroys ↦ returns (destroy chunk_of node_p m)
    ]
  ]
