-- ===== src/Leaf/Merged.antt =====
-- GetValue on a chain with a data node above a merge node: the bounds that the data node leaves, which
-- are positions in one base node, are used in the other.
use multiprocessor_programmi.Prelude.{ℕ, ◌≤◌, ◌<◌, ◌≡◌, List, [], ◌∷◌, some, any, arith}
use multiprocessor_programmi.Leaf.{LeafChain, leaf, leaf_insert, leaf_merge, KeyValue, KeyNodeId}
use multiprocessor_programmi.Leaf.Navigate.{start_search, navigate_values}
use multiprocessor_programmi.Leaf.Spec.{is_pair, holds, index_of, base_of}

-- A chain that Insert makes above a merge node: `item` went to the right part, whose base node has no
-- key up to the item's.
abbrev pub merged :
    KeyValue → KeyNodeId → LeafChain → KeyNodeId → KeyNodeId → List KeyValue → LeafChain
merged item delete_item right low high items =
    leaf_insert item (index_of item.0 item.1 (base_of right item.0))
      (leaf_merge delete_item right (leaf low high items))

-- Let an insert node of a key in the right part, with an index of 0 there, stand above a merge node,
-- and let the left part's base node begin with a key below `k`. Then GetValue of the key `k` in the
-- left part returns no value at all, also where the chain holds values for it.
pub merged-misses :
    (value_hash : ℕ → ℕ) (item : KeyValue) (delete_item : KeyNodeId) (right : LeafChain)
    (low high : KeyNodeId) (x : KeyValue) (items : List KeyValue) (k : ℕ)
    → delete_item.0 ≤ item.0
    → k < delete_item.0
    → (index_of item.0 item.1 (base_of right item.0)).0 ≡ 0
    → x.0 < k
    → (navigate_values value_hash k start_search
          (merged item delete_item right low high (x ∷ items))
        ≡ some [])
      × ((v : ℕ)
          → holds (merged item delete_item right low high (x ∷ items)) k v
            ≡ any (is_pair k v) items)
unfolding navigate_values start_search
merged-misses value_hash item delete_item right low high x items k le lt first below =
    (ground (arith, first), λ v. ground arith)
