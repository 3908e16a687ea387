-- ===== src/Consolidate.antt =====
-- The consolidation of a leaf delta chain of the Bw-Tree (CollectAllValuesOnLeaf in
-- project3/sourcefile/bwtree/include/bwtree.h): one new base node with what the chain holds.
pub mod Weave
pub mod Merge
pub mod Set
pub mod Base
pub mod Collects
pub mod Joined
pub mod Chain
pub mod Count
pub mod Listing
pub mod Same
mod Tests
use multiprocessor_programmi.Prelude.{
  ℕ, zero, suc, ◌+◌, ◌-◌, Bool, true, false, ◌&&◌, ◌||◌, List, [], ◌∷◌, ◌++◌, Option, none, some,
  ◌==◌, ltb, leb, if◌then◌else◌, take, drop, length,
}
use multiprocessor_programmi.SmallSet
use multiprocessor_programmi.SmallSet.{SmallSet, insert_no_dedup}
use multiprocessor_programmi.Bloom
use multiprocessor_programmi.Bloom.{BloomFilter}
use multiprocessor_programmi.Leaf.{
  LeafChain, leaf, leaf_insert, leaf_delete, leaf_split, leaf_remove, leaf_merge, KeyValue,
  KeyNodeId, IndexPair, invalid_node_id, get_low_key_pair, get_high_key_pair, get_item_count,
}
use multiprocessor_programmi.Leaf.Navigate.{lower_bound}

-- A data node of the chain, as the sorted set keeps it.
pub record Delta : Type 0 where
  pub item : KeyValue
  pub index_pair : IndexPair
  pub is_insert : Bool  -- the node's type

-- `f1`: by key, and by index among equal keys
abbrev pub delta_cmp : Delta → Delta → Bool
delta_cmp a b =
    if ltb a.item.0 b.item.0
    then true
    else if a.item.0 == b.item.0
    then ltb a.index_pair.0 b.index_pair.0
    else false

-- `key_value_pair_eq_obj`
abbrev pub pair_eq : KeyValue → KeyValue → Bool
pair_eq a b = if a.0 == b.0 then a.1 == b.1 else false

-- The locals of the recursion: the sorted set, the set of pairs met, and the new node's items.
pub record Collected : Type 0 where
  pub sss : SmallSet Delta
  pub delta_set : BloomFilter KeyValue
  pub new_items : List KeyValue

-- `copy_end_it`: the items below the high key
unfoldable pub copy_end : KeyNodeId → List KeyValue → ℕ
unfolding lower_bound
copy_end high_key_pair items =
    if high_key_pair.1 == invalid_node_id then length items else lower_bound high_key_pair.0 items

-- The loop that moves `sss_end_it` down from the last element until one is below the high key.
unfoldable pub end_below : ℕ → List Delta → ℕ
end_below high_key [] = 0
end_below high_key (x ∷ xs) =
    let rest = end_below high_key xs in
    if rest == 0 then (if ltb x.item.0 high_key then 1 else 0) else suc rest

unfoldable pub sss_end : KeyNodeId → List Delta → ℕ
unfolding end_below
sss_end high_key_pair xs =
    if high_key_pair.1 == invalid_node_id then length xs else end_below high_key_pair.0 xs

-- `PushBack(Begin() + from, Begin() + to)`
abbrev pub slice : List KeyValue → ℕ → ℕ → List KeyValue
slice items from to = take (to - from) (drop from items)

-- an element of the sorted set popped: an insert node's item is pushed
abbrev pub emit : Delta → List KeyValue → List KeyValue
emit x out = if x.is_insert then out ++ x.item ∷ [] else out

abbrev pub next_start : ℕ → Bool → ℕ
next_start current_index item_overwritten =
    if item_overwritten then suc current_index else current_index

-- The inner loop over the elements with the index `current`; where it stops, the outer loop goes on
-- with the next index, after the items up to there are copied. `none` is a failed assertion on the
-- indices, or a copy that runs past its end.
unfoldable pub copy_group :
    List KeyValue → ℕ → ℕ → Bool → List KeyValue → List Delta → Option (List KeyValue)
copy_group items end current overwritten out [] =
    let start = next_start current overwritten in
    if leb start end then some (out ++ slice items start end) else none
copy_group items end current overwritten out (x ∷ xs) =
    let start = next_start current overwritten in
    let index = x.index_pair.0 in
    let same = copy_group items end current (overwritten || x.index_pair.1) (emit x out) xs in
    let next =
      copy_group items end index x.index_pair.1 (emit x (out ++ slice items start index)) xs in
    if index == current then same else if leb start index && leb index end then next else none

-- The outer loop from the first item on.
unfoldable pub copy_merged : List KeyValue → ℕ → List KeyValue → List Delta → Option (List KeyValue)
unfolding copy_group
copy_merged items end out [] = some (out ++ slice items 0 end)
copy_merged items end out (x ∷ xs) =
    let index = x.index_pair.0 in
    let next = copy_group items end index x.index_pair.1 (emit x (out ++ slice items 0 index)) xs in
    if leb index end then next else none

-- The case of a base node.
unfoldable pub collect_base : KeyNodeId → Collected → List KeyValue → Option Collected
unfolding copy_end sss_end copy_merged
collect_base high_key_pair s items =
    let n = sss_end high_key_pair s.sss.items in
    elim (copy_merged items (copy_end high_key_pair items) s.new_items (take n s.sss.items)) [
      | none ↦ none
      | some new_items ↦
          some (record s { sss = record { items = drop n s.sss.items }; new_items = new_items })
    ]

unfoldable pub start_collect : Collected
start_collect = record { sss = SmallSet.init; delta_set = Bloom.init; new_items = [] }

module _ (pair_hash : KeyValue → ℕ) where
  -- The case of a data node.
  unfoldable pub collect_data : Collected → Delta → Collected
  unfolding insert_no_dedup
  collect_data s x =
      if Bloom.exists_scalar pair_eq pair_hash x.item s.delta_set then s else record s {
        sss = insert_no_dedup delta_cmp x s.sss;
        delta_set = Bloom.insert_scalar pair_eq pair_hash x.item s.delta_set;
      }

  -- `CollectAllValuesOnLeafRecursive`, with the high key of the node that it was called for. `none` is
  -- a failed assertion.
  unfoldable pub collect_values : KeyNodeId → Collected → LeafChain → Option Collected
  unfolding collect_base collect_data get_high_key_pair
  collect_values high_key_pair s (leaf low_key high_key items) = collect_base high_key_pair s items
  collect_values high_key_pair s (leaf_insert item index_pair child) =
      collect_values high_key_pair
        (collect_data s (record { item = item; index_pair = index_pair; is_insert = true })) child
  collect_values high_key_pair s (leaf_delete item index_pair child) =
      collect_values high_key_pair
        (collect_data s (record { item = item; index_pair = index_pair; is_insert = false })) child
  collect_values high_key_pair s (leaf_remove removed_id child) = none
  collect_values high_key_pair s (leaf_split insert_item n child) =
      collect_values high_key_pair s child
  collect_values high_key_pair s (leaf_merge delete_item right child) =
      elim (collect_values (get_high_key_pair child) s child) [
        | none ↦ none
        | some s' ↦ collect_values (get_high_key_pair right) s' right
      ]

  -- `CollectAllValuesOnLeaf` without a node to fill: the new base node, whose size is asserted to be
  -- the item count of the chain.
  unfoldable pub consolidate : LeafChain → Option LeafChain
  unfolding collect_values start_collect get_low_key_pair get_high_key_pair get_item_count
  consolidate node_p = elim (collect_values (get_high_key_pair node_p) start_collect node_p) [
    | none ↦ none
    | some s ↦
        if length s.new_items == get_item_count node_p
        then some (leaf (get_low_key_pair node_p) (get_high_key_pair node_p) s.new_items)
        else none
  ]
