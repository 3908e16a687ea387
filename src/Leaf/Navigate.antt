-- ===== src/Leaf/Navigate.antt =====
-- Two searches of a leaf delta chain: `NavigateLeafNode` for a value (Insert and Delete) and for all
-- values of a key (GetValue). Each starts after `NavigateSiblingChain`, at the node whose range holds
-- the search key.
use multiprocessor_programmi.Prelude.{
  ℕ, suc, ◌+◌, Bool, true, false, ◌||◌, ◌&&◌, List, [], ◌∷◌, ◌++◌, Option, none, some, ◌==◌, ltb,
  leb, if◌then◌else◌, take, drop, length,
}
use multiprocessor_programmi.Bloom
use multiprocessor_programmi.Bloom.{BloomFilter}
use multiprocessor_programmi.Leaf.{
  LeafChain, leaf, leaf_insert, leaf_delete, leaf_split, leaf_remove, leaf_merge, KeyValue,
  IndexPair,
}

-- `std::lower_bound` on the key, as a distance from the start: the items below `search_key` come
-- first in a base node.
unfoldable pub lower_bound : ℕ → List KeyValue → ℕ
lower_bound search_key [] = 0
lower_bound search_key (x ∷ xs) = if ltb x.0 search_key then suc (lower_bound search_key xs) else 0

-- A return of the search: the pointer that it returns (`none` for `nullptr`) and `*index_pair_p`.
abbrev pub Found : Type 0
Found = Option KeyValue × IndexPair

-- The scan of a base node from the iterator at distance `i`, whose items are `xs`.
unfoldable pub scan : ℕ → ℕ → Bool → ℕ → List KeyValue → Found
scan search_key search_value unique_key i [] = (none, (i, false))
scan search_key search_value unique_key i (x ∷ xs) =
    if x.0 == search_key
    then if unique_key || x.1 == search_value
      then (some x, (i, true))
      else scan search_key search_value unique_key (i + 1) xs
    else (none, (i, false))

-- `none` is the failed assertion "Observed LeafRemoveNode in delta chain."
unfoldable pub navigate : ℕ → ℕ → Bool → LeafChain → Option Found
unfolding lower_bound scan
navigate search_key search_value unique_key (leaf low_key high_key items) =
    let start = lower_bound search_key items in
    some (scan search_key search_value unique_key start (drop start items))
navigate search_key search_value unique_key (leaf_insert item index_pair child) =
    let rest = navigate search_key search_value unique_key child in
    if search_key == item.0 && (unique_key || item.1 == search_value)
    then some (some item, index_pair)
    else rest
navigate search_key search_value unique_key (leaf_delete item index_pair child) =
    let rest = navigate search_key search_value unique_key child in
    if search_key == item.0 && (unique_key || item.1 == search_value)
    then some (none, index_pair)
    else rest
navigate search_key search_value unique_key (leaf_remove removed_id child) = none
navigate search_key search_value unique_key (leaf_merge delete_item right child) =
    let in_right = navigate search_key search_value unique_key right in
    let in_left = navigate search_key search_value unique_key child in
    if leb delete_item.0 search_key then in_right else in_left
navigate search_key search_value unique_key (leaf_split insert_item n child) =
    navigate search_key search_value unique_key child

-- The locals of the search for all values of a key. `end_index` is `none` for -1.
pub record Search : Type 0 where
  pub present_set : BloomFilter ℕ
  pub deleted_set : BloomFilter ℕ
  pub start_index : ℕ
  pub end_index : Option ℕ
  pub value_list : List ℕ

unfoldable pub start_search : Search
unfolding Bloom.init
start_search = record {
  present_set = Bloom.init;
  deleted_set = Bloom.init;
  start_index = 0;
  end_index = none;
  value_list = [];
}

-- `(end_index == -1) ? End() : Begin() + end_index`
abbrev pub end_or : Option ℕ → ℕ → ℕ
end_or none n = n
end_or (some e) n = e

module _ (value_hash : ℕ → ℕ) where
  abbrev pub seen : ℕ → BloomFilter ℕ → Bool
  seen = Bloom.exists_scalar ◌==◌ value_hash

  abbrev pub note : ℕ → BloomFilter ℕ → BloomFilter ℕ
  note = Bloom.insert_scalar ◌==◌ value_hash

  -- the loop over the items with the key, up to the end of the base node
  unfoldable pub copy_value : ℕ → Search → Search
  copy_value value s =
      if seen value s.deleted_set
      then s
      else if seen value s.present_set
      then s
      else record s { value_list = s.value_list ++ value ∷ [] }

  unfoldable pub copy_values : ℕ → Search → List KeyValue → List ℕ
  unfolding copy_value
  copy_values search_key s [] = s.value_list
  copy_values search_key s (x ∷ xs) =
      if search_key == x.0 then copy_values search_key (copy_value x.1 s) xs else s.value_list

  -- One data node of the chain, with its key, value, index and type (`true` for an insert).
  unfoldable pub visit : ℕ → Search → KeyValue → ℕ → Bool → Search
  visit search_key s item index is_insert =
      if search_key == item.0
      then if is_insert
        then if seen item.1 s.deleted_set
          then s
          else if seen item.1 s.present_set
          then s
          else record s {
            present_set = note item.1 s.present_set;
            value_list = s.value_list ++ item.1 ∷ [];
          }
        else if seen item.1 s.present_set
        then s
        else record s { deleted_set = note item.1 s.deleted_set }
      else if ltb item.0 search_key
      then record s { start_index = index }
      else record s { end_index = some index }

  -- `start_it` and `end_it` cut the base node; the copy runs on past `end_it` while the key fits.
  unfoldable pub values_in_base : ℕ → Search → List KeyValue → List ℕ
  unfolding copy_values lower_bound
  values_in_base search_key s items =
      let from_start = drop s.start_index (take (end_or s.end_index (length items)) items) in
      copy_values search_key s (drop (s.start_index + lower_bound search_key from_start) items)

  unfoldable pub navigate_values : ℕ → Search → LeafChain → Option (List ℕ)
  unfolding values_in_base visit
  navigate_values search_key s (leaf low_key high_key items) =
      some (values_in_base search_key s items)
  navigate_values search_key s (leaf_insert item index_pair child) =
      navigate_values search_key (visit search_key s item index_pair.0 true) child
  navigate_values search_key s (leaf_delete item index_pair child) =
      navigate_values search_key (visit search_key s item index_pair.0 false) child
  navigate_values search_key s (leaf_remove removed_id child) = none
  navigate_values search_key s (leaf_merge delete_item right child) =
      let in_right = navigate_values search_key s right in
      let in_left = navigate_values search_key s child in
      if leb delete_item.0 search_key then in_right else in_left
  navigate_values search_key s (leaf_split insert_item n child) = navigate_values search_key s child
