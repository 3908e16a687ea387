-- ===== src/Inner/Collect.antt =====
-- The consolidation of an inner delta chain (CollectAllSepsOnInner in
-- project3/sourcefile/bwtree/include/bwtree.h): one new base node with the chain's separators.
pub mod Merge
pub mod Sorted
pub mod Cut
pub mod Chain
pub mod Joined
pub mod Whole
pub mod Listing
pub mod Size
pub mod Same
pub mod Result
mod Tests
use multiprocessor_programmi.Prelude.{
  ℕ, zero, suc, ◌-◌, Bool, true, false, ◌||◌, List, [], ◌∷◌, ◌++◌, Option, none, some, ◌==◌, ltb,
  if◌then◌else◌, take, drop, length,
}
use multiprocessor_programmi.SmallSet
use multiprocessor_programmi.SmallSet.{SmallSet, insert}
use multiprocessor_programmi.Leaf.{NodeId, KeyNodeId, invalid_node_id, add_int, sub_int}
use multiprocessor_programmi.Inner.{
  InnerChain, inner, inner_insert, inner_delete, inner_split, inner_remove, inner_merge,
  inner_abort, inner_low_key_pair, inner_high_key_pair,
}

-- `GetItemCount()`, as the constructors compute it: an `int`, modulo 2^32.
unfoldable pub inner_item_count : InnerChain → ℕ
inner_item_count (inner low_key high_key items) = length items
inner_item_count (inner_insert item next_item location child) = add_int (inner_item_count child) 1
inner_item_count (inner_delete item prev_item next_item location child) =
    sub_int (inner_item_count child) 1
inner_item_count (inner_split insert_item n child) = sub_int (inner_item_count child) n
inner_item_count (inner_remove removed_id child) = inner_item_count child
inner_item_count (inner_merge delete_item right child) =
    add_int (inner_item_count child) (inner_item_count right)
inner_item_count (inner_abort child) = inner_item_count child

-- An `InnerDataNode` of the chain, as the sorted set keeps it.
pub record Change : Type 0 where
  pub item : KeyNodeId
  pub is_insert : Bool  -- the node's type

-- `f1` and `f2`
abbrev pub change_cmp : Change → Change → Bool
change_cmp a b = ltb a.item.0 b.item.0

abbrev pub change_eq : Change → Change → Bool
change_eq a b = a.item.0 == b.item.0

-- `sss`, and the items pushed to the new node so far
pub record Seps : Type 0 where
  pub sss : SmallSet Change
  pub new_items : List KeyNodeId

-- `std::lower_bound` on the keys, as a distance
unfoldable pub first_from : ℕ → List KeyNodeId → ℕ
first_from key [] = 0
first_from key (x ∷ xs) = if ltb x.0 key then suc (first_from key xs) else 0

-- `copy_end_it`, as a distance: the search leaves out the first item
unfoldable pub seps_end : KeyNodeId → List KeyNodeId → ℕ
unfolding first_from
seps_end high_key_pair items =
    if high_key_pair.1 == invalid_node_id
    then length items
    else suc (first_from high_key_pair.0 (drop 1 items))

-- `copy_start_it`: the first item is left out where it is the low key of the whole chain, whose id is
-- compared since the key is not defined there.
abbrev pub seps_start : NodeId → KeyNodeId → ℕ
seps_start low_key_node_id first = if first.1 == low_key_node_id then 1 else 0

-- The loop that moves `sss_end_it` down from the last element until one is below the high key.
unfoldable pub changes_below : ℕ → List Change → ℕ
changes_below high_key [] = 0
changes_below high_key (x ∷ xs) =
    let rest = changes_below high_key xs in
    if rest == 0 then (if ltb x.item.0 high_key then 1 else 0) else suc rest

unfoldable pub changes_end : KeyNodeId → List Change → ℕ
unfolding changes_below
changes_end high_key_pair xs =
    if high_key_pair.1 == invalid_node_id then length xs else changes_below high_key_pair.0 xs

-- an element of the sorted set popped: the item of an insert node is pushed, before what follows
abbrev pub put_change : Change → List KeyNodeId → List KeyNodeId
put_change x later = if x.is_insert then x.item ∷ later else later

-- What the loop over the items from `copy_start_it` and the sorted set pushes, in order.
unfoldable pub merge_seps : List KeyNodeId → List Change → List KeyNodeId
merge_seps items [] = items
merge_seps [] (x ∷ xs) = put_change x (merge_seps [] xs)
merge_seps (y ∷ items) (x ∷ xs) =
    let copied = merge_seps items (x ∷ xs) in
    let before = merge_seps (y ∷ items) xs in
    let replaced = merge_seps items xs in
    if ltb y.0 x.item.0
    then y ∷ copied
    else if ltb x.item.0 y.0
    then put_change x before
    else put_change x replaced

-- The case of a base node; it has one item or more, by an assertion.
unfoldable pub collect_inner_base : KeyNodeId → NodeId → Seps → List KeyNodeId → Option Seps
unfolding seps_end changes_end merge_seps
collect_inner_base high_key_pair low_key_node_id s [] = none
collect_inner_base high_key_pair low_key_node_id s (first ∷ rest) =
    let start = seps_start low_key_node_id first in
    let copied = drop start (take (seps_end high_key_pair (first ∷ rest)) (first ∷ rest)) in
    let n = changes_end high_key_pair s.sss.items in
    some (record {
      sss = record { items = drop n s.sss.items };
      new_items = s.new_items ++ merge_seps copied (take n s.sss.items);
    })

-- The case of a data node: its key is asserted to be below the high key.
unfoldable pub collect_change : KeyNodeId → Seps → Change → Option Seps
unfolding insert
collect_change high_key_pair s x =
    if high_key_pair.1 == invalid_node_id || ltb x.item.0 high_key_pair.0
    then some (record s { sss = insert change_cmp change_eq x s.sss })
    else none

-- `CollectAllSepsOnInnerRecursive`, with the high key of the node that it was called for. `none` is a
-- failed assertion.
unfoldable pub collect_seps : KeyNodeId → NodeId → Seps → InnerChain → Option Seps
unfolding collect_inner_base collect_change inner_high_key_pair
collect_seps high low_id s (inner low_key high_key items) = collect_inner_base high low_id s items
collect_seps high low_id s (inner_insert item next_item location child) =
    elim (collect_change high s (record { item = item; is_insert = true })) [
      | none ↦ none
      | some s' ↦ collect_seps high low_id s' child
    ]
collect_seps high low_id s (inner_delete item prev_item next_item location child) =
    elim (collect_change high s (record { item = item; is_insert = false })) [
      | none ↦ none
      | some s' ↦ collect_seps high low_id s' child
    ]
collect_seps high low_id s (inner_split insert_item n child) = collect_seps high low_id s child
collect_seps high low_id s (inner_remove removed_id child) = none
collect_seps high low_id s (inner_merge delete_item right child) =
    elim (collect_seps (inner_high_key_pair child) low_id s child) [
      | none ↦ none
      | some s' ↦ collect_seps (inner_high_key_pair right) low_id s' right
    ]
collect_seps high low_id s (inner_abort child) = none

abbrev pub start_seps : KeyNodeId → Seps
start_seps low_key_pair = record { sss = record { items = [] }; new_items = low_key_pair ∷ [] }

-- `CollectAllSepsOnInner`: the new base node, whose size is asserted to be the item count of the chain.
unfoldable pub consolidate_inner : InnerChain → Option InnerChain
unfolding collect_seps inner_item_count inner_low_key_pair inner_high_key_pair
consolidate_inner node_p =
    elim (collect_seps (inner_high_key_pair node_p) (inner_low_key_pair node_p).1
      (start_seps (inner_low_key_pair node_p)) node_p) [
        | none ↦ none
        | some s ↦
            if length s.new_items == inner_item_count node_p
            then some (inner (inner_low_key_pair node_p) (inner_high_key_pair node_p) s.new_items)
            else none
      ]
