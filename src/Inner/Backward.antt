-- ===== src/Inner/Backward.antt =====
-- The search of an inner chain for backward iteration: LocateSeparatorByKeyBI and NavigateInnerNodeBI
-- of project3/sourcefile/bwtree/include/bwtree.h.
pub mod Before
pub mod Removed
mod Tests
use multiprocessor_programmi.Prelude.{
  ℕ, zero, suc, ◌-◌, Bool, false, ◌&&◌, ◌||◌, List, [], ◌∷◌, Option, none, some, ◌==◌, ltb,
  if◌then◌else◌, drop,
}
use multiprocessor_programmi.Leaf.{NodeId, KeyNodeId, invalid_node_id}
use multiprocessor_programmi.Inner.{
  InnerChain, inner, inner_insert, inner_delete, inner_split, inner_remove, inner_merge,
  inner_abort, inner_low_key_pair, upper_bound, id_at,
}

-- `KeyCmpEqual(it->first, search_key)`
unfoldable pub has_key : ℕ → List KeyNodeId → ℕ → Bool
has_key search_key [] it = false
has_key search_key (x ∷ xs) zero = x.0 == search_key
has_key search_key (x ∷ xs) (suc it) = has_key search_key xs it

-- The item before the first one above the key, counted from the second item on, or the one before it
-- if it has the key; the first item may not have the key, by an assertion. `none` is a failed
-- assertion.
unfoldable pub locate_separator_by_key_bi : ℕ → List KeyNodeId → Option NodeId
unfolding upper_bound id_at has_key
locate_separator_by_key_bi search_key items =
    let it = upper_bound search_key (drop 1 items) in
    if has_key search_key items it
    then (if it == 0 then none else id_at items (it - 1))
    else id_at items it

-- `NavigateInnerNodeBI`, from the node that NavigateSiblingChainBI ends at.
unfoldable pub navigate_inner_node_bi : ℕ → InnerChain → Option NodeId
unfolding locate_separator_by_key_bi inner_low_key_pair
navigate_inner_node_bi search_key (inner low_key high_key items) =
    locate_separator_by_key_bi search_key items
navigate_inner_node_bi search_key (inner_insert item next_item location child) =
    let below = navigate_inner_node_bi search_key child in
    if (next_item.1 == invalid_node_id || ltb search_key next_item.0) && ltb item.0 search_key
    then some item.1
    else below
navigate_inner_node_bi search_key (inner_delete item prev_item next_item location child) =
    let below = navigate_inner_node_bi search_key child in
    if ((inner_low_key_pair child).1 == prev_item.1 || ltb prev_item.0 search_key)
      && (next_item.1 == invalid_node_id || ltb search_key next_item.0)
    then some prev_item.1
    else below
navigate_inner_node_bi search_key (inner_split insert_item n child) =
    navigate_inner_node_bi search_key child
navigate_inner_node_bi search_key (inner_remove removed_id child) = none
navigate_inner_node_bi search_key (inner_merge delete_item right child) =
    let in_right = navigate_inner_node_bi search_key right in
    let in_left = navigate_inner_node_bi search_key child in
    if ltb delete_item.0 search_key then in_right else in_left
navigate_inner_node_bi search_key (inner_abort child) = none
