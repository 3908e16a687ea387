-- ===== src/Inner.antt =====
-- Inner delta chains of the Bw-Tree (project3/sourcefile/bwtree/include/bwtree.h): the node types that
-- an inner node consists of, and `NavigateInnerNode`, which finds the child for a key.
pub mod Floor
pub mod Spec
pub mod Place
pub mod Navigate
pub mod Split
pub mod Backward
pub mod SplitHalves
pub mod Collect
mod Tests
use multiprocessor_programmi.Prelude.{
  ℕ, zero, suc, ◌+◌, ◌-◌, Bool, true, false, ◌&&◌, ◌||◌, List, [], ◌∷◌, Option, none, some, ◌==◌,
  ltb, leb, if◌then◌else◌, take, drop, length, min, max,
}
use multiprocessor_programmi.Leaf.{NodeId, KeyNodeId, invalid_node_id, add_int, sub_int}

-- `location` is a position in the base node, as a distance from its first item. A missing neighbour
-- has the invalid id.
pub data InnerChain : Type 0 where
  inner : (low_key high_key : KeyNodeId) (items : List KeyNodeId) → InnerChain
  inner_insert :
      (item next_item : KeyNodeId) (location : ℕ) (child_node_p : InnerChain) → InnerChain
  inner_delete :
      (item prev_item next_item : KeyNodeId) (location : ℕ) (child_node_p : InnerChain) → InnerChain
  inner_split :
      (insert_item : KeyNodeId) (split_item_count : ℕ) (child_node_p : InnerChain) → InnerChain
  inner_remove : (removed_id : NodeId) (child_node_p : InnerChain) → InnerChain
  inner_merge : (delete_item : KeyNodeId) (right_merge_p child_node_p : InnerChain) → InnerChain
  inner_abort : (child_node_p : InnerChain) → InnerChain

unfoldable pub inner_low_key_pair : InnerChain → KeyNodeId
inner_low_key_pair (inner low_key high_key items) = low_key
inner_low_key_pair (inner_insert item next_item location child) = inner_low_key_pair child
inner_low_key_pair (inner_delete item prev_item next_item location child) = inner_low_key_pair child
inner_low_key_pair (inner_split insert_item n child) = inner_low_key_pair child
inner_low_key_pair (inner_remove removed_id child) = inner_low_key_pair child
inner_low_key_pair (inner_merge delete_item right child) = inner_low_key_pair child
inner_low_key_pair (inner_abort child) = inner_low_key_pair child

unfoldable pub inner_high_key_pair : InnerChain → KeyNodeId
inner_high_key_pair (inner low_key high_key items) = high_key
inner_high_key_pair (inner_insert item next_item location child) = inner_high_key_pair child
inner_high_key_pair (inner_delete item prev_item next_item location child) =
    inner_high_key_pair child
inner_high_key_pair (inner_split insert_item n child) = insert_item
inner_high_key_pair (inner_remove removed_id child) = inner_high_key_pair child
inner_high_key_pair (inner_merge delete_item right child) = inner_high_key_pair right
inner_high_key_pair (inner_abort child) = inner_high_key_pair child

-- `InnerNode::GetNodeHeader(&GetLowKeyPair())`, as its items: the low key stands in the base node that
-- the chain gets it from.
unfoldable pub header_items : InnerChain → List KeyNodeId
header_items (inner low_key high_key items) = items
header_items (inner_insert item next_item location child) = header_items child
header_items (inner_delete item prev_item next_item location child) = header_items child
header_items (inner_split insert_item n child) = header_items child
header_items (inner_remove removed_id child) = header_items child
header_items (inner_merge delete_item right child) = header_items child
header_items (inner_abort child) = header_items child

-- `std::upper_bound` on the key, as a distance from the start
unfoldable pub upper_bound : ℕ → List KeyNodeId → ℕ
upper_bound search_key [] = 0
upper_bound search_key (x ∷ xs) = if ltb search_key x.0 then 0 else suc (upper_bound search_key xs)

-- `it->second`, `none` for a read past the items
unfoldable pub id_at : List KeyNodeId → ℕ → Option NodeId
id_at [] i = none
id_at (x ∷ xs) zero = some x.1
id_at (x ∷ xs) (suc i) = id_at xs i

unfoldable pub locate_separator_by_key : ℕ → List KeyNodeId → ℕ → ℕ → Option NodeId
unfolding upper_bound id_at
locate_separator_by_key search_key items start_p end_p =
    id_at items (start_p + upper_bound search_key (drop start_p (take end_p items)) - 1)

-- The loop of `NavigateInnerNode`. `none` is the failed assertion "Unknown node type." or a read past
-- the items.
unfoldable pub navigate_inner : ℕ → ℕ → ℕ → InnerChain → Option NodeId
unfolding locate_separator_by_key header_items inner_low_key_pair
navigate_inner search_key start_p end_p (inner low_key high_key items) =
    locate_separator_by_key search_key items start_p end_p
navigate_inner search_key start_p end_p (inner_insert item next_item location child) =
    let right_of = navigate_inner search_key (max start_p location) end_p child in
    let left_of = navigate_inner search_key start_p (min end_p location) child in
    if leb item.0 search_key
    then if next_item.1 == invalid_node_id || ltb search_key next_item.0
      then some item.1
      else right_of
    else left_of
navigate_inner search_key start_p end_p (inner_delete item prev_item next_item location child) =
    let right_of = navigate_inner search_key (max location start_p) end_p child in
    let left_of = navigate_inner search_key start_p (min location end_p) child in
    if ((inner_low_key_pair child).1 == prev_item.1 || leb prev_item.0 search_key)
      && (next_item.1 == invalid_node_id || ltb search_key next_item.0)
    then some prev_item.1
    else if leb item.0 search_key
    then right_of
    else left_of
navigate_inner search_key start_p end_p (inner_split insert_item n child) =
    navigate_inner search_key start_p end_p child
navigate_inner search_key start_p end_p (inner_remove removed_id child) = none
navigate_inner search_key start_p end_p (inner_merge delete_item right child) =
    let in_right = navigate_inner search_key 1 (length (header_items right)) right in
    let in_left = navigate_inner search_key 1 (length (header_items child)) child in
    if leb delete_item.0 search_key then in_right else in_left
navigate_inner search_key start_p end_p (inner_abort child) = none

-- `NavigateInnerNode` on the node that `NavigateSiblingChain` ends at.
unfoldable pub navigate_inner_node : ℕ → InnerChain → Option NodeId
unfolding navigate_inner header_items
navigate_inner_node search_key node_p =
    navigate_inner search_key 1 (length (header_items node_p)) node_p
