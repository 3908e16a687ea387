-- ===== src/NodeIds.antt =====
-- The node ids of the Bw-Tree and their entries in the mapping table (GetNextNodeID, InvalidateNodeID,
-- InstallNewNode and GetNode in project3/sourcefile/bwtree/include/bwtree.h).
pub mod Live
mod Tests
use multiprocessor_programmi.Prelude.{
  ℕ, suc, ◌+◌, ◌%◌, ◌^◌, ◌≡◌, Bool, true, false, ◌||◌, List, [], ◌∷◌, ◌++◌, Option, none, some,
  ◌==◌, leb, if◌then◌else◌,
}
use multiprocessor_programmi.Leaf.{NodeId, invalid_node_id}
use multiprocessor_programmi.Stack.{update}

-- MAPPING_TABLE_SIZE
abbrev pub mapping_table_size : ℕ
mapping_table_size = 2 ^ 27

-- An entry of the table is a node's address, `none` for `nullptr`.
pub record NodeIds : Type 0 where
  pub next_unused_node_id : ℕ
  pub node_id_list : List NodeId
  pub mapping_table : NodeId → Option ℕ

abbrev pub no_ids : NodeIds
no_ids = record { next_unused_node_id = 1; node_id_list = []; mapping_table = λ id. none }

-- under `node_id_list_lock`
unfoldable pub get_next_node_id : NodeIds → NodeId × NodeIds
get_next_node_id s = elim s.node_id_list [
  | [] ↦ (
    s.next_unused_node_id,
    record s { next_unused_node_id = (s.next_unused_node_id + 1) % 2 ^ 64 },
  )
  | id ∷ ids ↦ (id, record s { node_id_list = ids })
]

-- under `node_id_list_lock`; `none` is an access outside the table, here and in InstallNewNode
unfoldable pub invalidate_node_id : NodeId → NodeIds → Option NodeIds
invalidate_node_id id s =
    if leb mapping_table_size id
    then none
    else some (record s {
      mapping_table = update s.mapping_table id none;
      node_id_list = s.node_id_list ++ id ∷ [];
    })

unfoldable pub install_new_node : NodeId → ℕ → NodeIds → Option NodeIds
install_new_node id node_p s =
    if leb mapping_table_size id
    then none
    else some (record s { mapping_table = update s.mapping_table id (some node_p) })

-- The outer `none` is a failed assertion on the id.
unfoldable pub get_node : NodeId → NodeIds → Option (Option ℕ)
get_node id s =
    if id == invalid_node_id || leb mapping_table_size id then none else some (s.mapping_table id)

-- Ids in use, those handed out and not invalidated yet, and how often one was handed out. An id is
-- used, and invalidated, by those only to whom it was handed out.
pub data Reach : NodeIds → List NodeId → ℕ → Type 0 where
  start : Reach no_ids [] 0
  handed :
      {s : NodeIds} {live : List NodeId} {n : ℕ}
      → Reach s live n
      → Reach (get_next_node_id s).1 ((get_next_node_id s).0 ∷ live) (suc n)
  installed :
      {s s' : NodeIds} {n : ℕ} (before after : List NodeId) (id : NodeId) (node_p : ℕ)
      → Reach s (before ++ id ∷ after) n
      → install_new_node id node_p s ≡ some s'
      → Reach s' (before ++ id ∷ after) n
  invalidated :
      {s s' : NodeIds} {n : ℕ} (before after : List NodeId) (id : NodeId)
      → Reach s (before ++ id ∷ after) n
      → invalidate_node_id id s ≡ some s'
      → Reach s' (before ++ after) n
