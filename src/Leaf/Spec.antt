-- ===== src/Leaf/Spec.antt =====
-- What a leaf chain holds, said without its order of search: the pairs in its base nodes, changed by
-- the data nodes from the oldest to the newest, cut at each split key and joined at each merge key.
use multiprocessor_programmi.Prelude.{
  ℕ, suc, ◌+◌, ◌≤◌, ◌<◌, ◌≡◌, ◌⊎◌, ◌&&◌, Bool, true, false, List, [], ◌∷◌, ◌==◌, ltb, leb,
  if◌then◌else◌, any, All, Option, none, some,
}
use multiprocessor_programmi.Leaf.{
  LeafChain, leaf, leaf_insert, leaf_delete, leaf_split, leaf_remove, leaf_merge, KeyValue,
  IndexPair, KeyNodeId, invalid_node_id, get_high_key_pair,
}

abbrev pub is_pair : ℕ → ℕ → KeyValue → Bool
is_pair k v x = x.0 == k && x.1 == v

-- whether the chain holds the value for the key
abbrev pub holds : LeafChain → ℕ → ℕ → Bool
holds (leaf low_key high_key items) k v = any (is_pair k v) items
holds (leaf_insert item index_pair child) k v = if is_pair k v item then true else holds child k v
holds (leaf_delete item index_pair child) k v = if is_pair k v item then false else holds child k v
holds (leaf_split insert_item n child) k v = if ltb k insert_item.0 then holds child k v else false
holds (leaf_remove removed_id child) k v = holds child k v
holds (leaf_merge delete_item right child) k v =
    if leb delete_item.0 k then holds right k v else holds child k v

-- the items of the base node that a search for the key ends in
abbrev pub base_of : LeafChain → ℕ → List KeyValue
base_of (leaf low_key high_key items) k = items
base_of (leaf_insert item index_pair child) k = base_of child k
base_of (leaf_delete item index_pair child) k = base_of child k
base_of (leaf_split insert_item n child) k = base_of child k
base_of (leaf_remove removed_id child) k = base_of child k
base_of (leaf_merge delete_item right child) k =
    if leb delete_item.0 k then base_of right k else base_of child k

-- how many items have a key below `k`, and how many one that is not above it
abbrev pub count_below : ℕ → List KeyValue → ℕ
count_below k [] = 0
count_below k (x ∷ xs) = (if ltb x.0 k then 1 else 0) + count_below k xs

abbrev pub count_upto : ℕ → List KeyValue → ℕ
count_upto k [] = 0
count_upto k (x ∷ xs) = (if leb x.0 k then 1 else 0) + count_upto k xs

-- the position of the pair
abbrev pub position : ℕ → ℕ → List KeyValue → Option ℕ
position k v [] = none
position k v (x ∷ xs) =
    if is_pair k v x then some 0 else elim (position k v xs) [ none ↦ none | some i ↦ some (suc i) ]

abbrev pub index_at : Option ℕ → ℕ → IndexPair
index_at (some i) n = (i, true)
index_at none n = (n, false)

-- The index pair that every data node with the pair must have: where the pair stands in the base
-- node, or where the items with its key end.
abbrev pub index_of : ℕ → ℕ → List KeyValue → IndexPair
index_of k v items = index_at (position k v items) (count_upto k items)

abbrev pub IsSorted : List KeyValue → Type 0
IsSorted [] = Unit
IsSorted (x ∷ xs) = All (λ y. x.0 ≤ y.0) xs × IsSorted xs

-- No pair twice.
abbrev pub IsDistinct : List KeyValue → Type 0
IsDistinct [] = Unit
IsDistinct (x ∷ xs) = (any (is_pair x.0 x.1) xs ≡ false) × IsDistinct xs

-- The chain's range reaches above the key, or has no upper end: what `NavigateSiblingChain` leaves.
abbrev pub IsBelowHigh : KeyNodeId → ℕ → Type 0
IsBelowHigh high k = (high.1 ≡ invalid_node_id) ⊎ (k < high.0)

-- A well-formed chain: base nodes are sorted with no pair twice, data nodes carry the index pair of
-- their item, a split or merge key stands where the range of the left part ends, and there is no
-- remove node.
abbrev pub IsValid : LeafChain → Type 0
IsValid (leaf low_key high_key items) = IsSorted items × IsDistinct items
IsValid (leaf_insert item index_pair child) =
    (index_pair ≡ index_of item.0 item.1 (base_of child item.0))
    × IsBelowHigh (get_high_key_pair child) item.0
    × IsValid child
IsValid (leaf_delete item index_pair child) =
    (index_pair ≡ index_of item.0 item.1 (base_of child item.0))
    × IsBelowHigh (get_high_key_pair child) item.0
    × IsValid child
IsValid (leaf_split insert_item n child) =
    IsBelowHigh (get_high_key_pair child) insert_item.0 × (0 < insert_item.1) × IsValid child
IsValid (leaf_remove removed_id child) = ⊥
IsValid (leaf_merge delete_item right child) =
    ((get_high_key_pair child).0 ≡ delete_item.0) × IsValid right × IsValid child
