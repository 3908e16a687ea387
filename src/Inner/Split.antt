-- ===== src/Inner/Split.antt =====
-- Splitting an inner base node: `GetSplitSibling` of `InnerNode`, and the split of AdjustNodeSize.
use multiprocessor_programmi.Prelude.{
  ℕ, ◌-◌, ◌/◌, Bool, List, Option, none, some, ltb, leb, if◌then◌else◌, length, get_or, drop,
}
use multiprocessor_programmi.Leaf.{NodeId, KeyNodeId}
use multiprocessor_programmi.Inner.{InnerChain, inner, inner_split}

-- `At(index)`, read inside the node only
abbrev pub item_at : List KeyNodeId → ℕ → KeyNodeId
item_at items index = get_or items index (0, 0)

-- `none` is the failed assertion that the node has two items or more.
unfoldable pub inner_split_sibling : KeyNodeId → List KeyNodeId → Option InnerChain
inner_split_sibling high_key items =
    let split_item_index = length items / 2 in
    if ltb (length items) 2
    then none
    else some (inner (item_at items split_item_index) high_key (drop split_item_index items))

-- The split of an inner node that is not a delta node: the split node that is to replace it, and the
-- sibling to install under `new_node_id`. `is_removed` says of which ids GetNode returns a remove node.
-- `none` where the node is left as it is, or an assertion fails.
unfoldable pub split_inner :
    ℕ
    → (NodeId → Bool)
    → NodeId
    → KeyNodeId
    → KeyNodeId
    → List KeyNodeId
    → Option (InnerChain × InnerChain)
unfolding inner_split_sibling
split_inner upper is_removed new_node_id low_key high_key items =
    let split_item_index = length items / 2 in
    let first_item = item_at items split_item_index in
    if leb upper (length items)
    then elim (inner_split_sibling high_key items) [
      | none ↦ none
      | some new_inner_node ↦
          if is_removed first_item.1
          then none
          else some (
            inner_split (first_item.0, new_node_id) (length items - split_item_index)
                (inner low_key high_key items),
            new_inner_node,
          )
    ]
    else none
