-- ===== src/Leaf/Split.antt =====
-- Splitting a base node: `FindSplitPoint` and `GetSplitSibling` of `LeafNode`.
use multiprocessor_programmi.Prelude.{
  ℕ, zero, suc, ◌+◌, ◌-◌, ◌/◌, ◌^◌, List, Option, none, some, ◌==◌, ltb, leb, if◌then◌else◌, length,
  get_or, drop,
}
use multiprocessor_programmi.Leaf.{
  LeafChain, leaf, leaf_split, KeyValue, KeyNodeId, NodeId, get_item_count,
}

-- `(Begin() + index)->first`; the searches below read inside the node only.
unfoldable pub key_at : List KeyValue → ℕ → ℕ
key_at items index = (get_or items index (0, 0)).0

-- `while ((it != Begin()) && KeyCmpEqual(it->first, central)) it--;`, `it` as a distance
unfoldable pub scan_left : List KeyValue → ℕ → ℕ → ℕ
scan_left items central zero = zero
scan_left items central (suc it) =
    let rest = scan_left items central it in
    if key_at items (suc it) == central then rest else suc it

-- `while ((it != End()) && KeyCmpEqual(it->first, central)) it++;`, with the number of items left
unfoldable pub scan_right : List KeyValue → ℕ → ℕ → ℕ → ℕ
scan_right items central zero it = it
scan_right items central (suc left) it =
    let rest = scan_right items central left (it + 1) in
    if key_at items it == central then rest else it

-- The index of the first item of the right half, `none` for -1. `lower` is the lower size threshold
-- of leaf nodes. The assertion that `central_index` is above 1 is left out: AdjustNodeSize calls this
-- for nodes of the upper threshold or more.
unfoldable pub find_split_point : ℕ → List KeyValue → Option ℕ
unfolding key_at scan_left scan_right
find_split_point lower items =
    let central_index = length items / 2 in
    let central = key_at items central_index in
    let left_sibling_size = scan_left items central (central_index - 1) + 1 in
    let it = scan_right items central (length items - (central_index + 1)) (central_index + 1) in
    let right_sibling_size = length items - it in
    if ltb lower left_sibling_size
    then some left_sibling_size
    else if ltb lower right_sibling_size
    then some it
    else none

-- `~INVALID_NODE_ID`
abbrev pub not_invalid_node_id : NodeId
not_invalid_node_id = 2 ^ 64 - 1

-- The new right sibling of a base node, if there is a split point.
unfoldable pub get_split_sibling : ℕ → KeyNodeId → List KeyValue → Option LeafChain
unfolding find_split_point
get_split_sibling lower high_key items = elim (find_split_point lower items) [
  | none ↦ none
  | some split_item_index ↦ some (
      leaf (key_at items split_item_index, not_invalid_node_id) high_key
        (drop split_item_index items))
]

-- `At(0).first` of a base node
abbrev pub first_key : LeafChain → ℕ
first_key (leaf low_key high_key items) = key_at items 0
first_key other = 0

-- The split of `AdjustNodeSize` on a leaf that is not a delta node: the split node that is to replace
-- the leaf, and the sibling to install under `new_node_id`. `none` where the leaf is left as it is.
unfoldable pub split_leaf :
    ℕ → ℕ → NodeId → KeyNodeId → KeyNodeId → List KeyValue → Option (LeafChain × LeafChain)
unfolding get_split_sibling get_item_count
split_leaf upper lower new_node_id low_key high_key items =
    if leb upper (length items)
    then elim (get_split_sibling lower high_key items) [
      | none ↦ none
      | some new_leaf_node ↦ some (
        leaf_split (first_key new_leaf_node, new_node_id) (get_item_count new_leaf_node)
            (leaf low_key high_key items),
        new_leaf_node,
      )
    ]
    else none
