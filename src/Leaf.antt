-- ===== src/Leaf.antt =====
-- Leaf delta chains of the Bw-Tree (project3/sourcefile/bwtree/include/bwtree.h): the node types
-- that a leaf consists of, and the metadata that each constructor computes from its child.
pub mod Navigate
pub mod Spec
pub mod Point
pub mod Values
pub mod GetValue
pub mod Merged
pub mod Update
pub mod Predicate
pub mod Visible
pub mod Conditional
pub mod Split
pub mod SplitPoint
pub mod SplitHalves
mod Tests
use multiprocessor_programmi.Prelude.{
  ℕ, ◌+◌, ◌-◌, ◌%◌, ◌^◌, Bool, true, false, List, [], ◌∷◌, length, ◌==◌, ltb, leb, not,
  if◌then◌else◌, ◌||◌,
}

-- `NodeID`, and its value for "no node"
abbrev pub NodeId : Type 0
NodeId = ℕ

abbrev pub invalid_node_id : NodeId
invalid_node_id = 0

-- `KeyNodeIDPair` and `KeyValuePair`, as (first, second)
abbrev pub KeyNodeId : Type 0
KeyNodeId = ℕ × NodeId

abbrev pub KeyValue : Type 0
KeyValue = ℕ × ℕ

-- `std::pair<int, bool>`: a position in the base node, and whether the item itself stands there
abbrev pub IndexPair : Type 0
IndexPair = ℕ × Bool

-- `int` arithmetic on item counts, modulo 2^32
abbrev pub add_int : ℕ → ℕ → ℕ
add_int a b = (a + b) % 2 ^ 32

abbrev pub sub_int : ℕ → ℕ → ℕ
sub_int a b = (a + 2 ^ 32 - b % 2 ^ 32) % 2 ^ 32

-- A delta node points to the node that it changes, so a chain is a tree that ends in base nodes.
-- Nodes never change once they are installed.
pub data LeafChain : Type 0 where
  leaf : (low_key high_key : KeyNodeId) (items : List KeyValue) → LeafChain
  leaf_insert : (item : KeyValue) (index_pair : IndexPair) (child_node_p : LeafChain) → LeafChain
  leaf_delete : (item : KeyValue) (index_pair : IndexPair) (child_node_p : LeafChain) → LeafChain
  leaf_split :
      (insert_item : KeyNodeId) (split_item_count : ℕ) (child_node_p : LeafChain) → LeafChain
  leaf_remove : (removed_id : NodeId) (child_node_p : LeafChain) → LeafChain
  leaf_merge : (delete_item : KeyNodeId) (right_merge_p child_node_p : LeafChain) → LeafChain

unfoldable pub get_low_key_pair : LeafChain → KeyNodeId
get_low_key_pair (leaf low_key high_key items) = low_key
get_low_key_pair (leaf_insert item index_pair child) = get_low_key_pair child
get_low_key_pair (leaf_delete item index_pair child) = get_low_key_pair child
get_low_key_pair (leaf_split insert_item n child) = get_low_key_pair child
get_low_key_pair (leaf_remove removed_id child) = get_low_key_pair child
get_low_key_pair (leaf_merge delete_item right child) = get_low_key_pair child

unfoldable pub get_high_key_pair : LeafChain → KeyNodeId
get_high_key_pair (leaf low_key high_key items) = high_key
get_high_key_pair (leaf_insert item index_pair child) = get_high_key_pair child
get_high_key_pair (leaf_delete item index_pair child) = get_high_key_pair child
get_high_key_pair (leaf_split insert_item n child) = insert_item
get_high_key_pair (leaf_remove removed_id child) = get_high_key_pair child
get_high_key_pair (leaf_merge delete_item right child) = get_high_key_pair right

-- the length of the delta chain
unfoldable pub get_depth : LeafChain → ℕ
get_depth (leaf low_key high_key items) = 0
get_depth (leaf_insert item index_pair child) = get_depth child + 1
get_depth (leaf_delete item index_pair child) = get_depth child + 1
get_depth (leaf_split insert_item n child) = get_depth child
get_depth (leaf_remove removed_id child) = get_depth child
get_depth (leaf_merge delete_item right child) = get_depth child + get_depth right

unfoldable pub get_item_count : LeafChain → ℕ
get_item_count (leaf low_key high_key items) = length items
get_item_count (leaf_insert item index_pair child) = add_int (get_item_count child) 1
get_item_count (leaf_delete item index_pair child) = sub_int (get_item_count child) 1
get_item_count (leaf_split insert_item n child) = sub_int (get_item_count child) n
get_item_count (leaf_remove removed_id child) = get_item_count child
get_item_count (leaf_merge delete_item right child) =
    add_int (get_item_count child) (get_item_count right)
