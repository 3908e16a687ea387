-- ===== src/Consolidate/Chain.antt =====
-- The recursion over a whole chain: `CollectAllValuesOnLeafRecursive` collects what the chain holds.
use multiprocessor_programmi.Prelude.{
  ℕ, ◌≤◌, ◌<◌, ◌≡◌, refl, sym, ap, ◌∙◌, Bool, true, false, ◌++◌, some, ◌==◌, ltb, if◌then◌else◌,
  All, arith,
}
use multiprocessor_programmi.Leaf.{
  LeafChain, leaf, leaf_insert, leaf_delete, leaf_split, leaf_remove, leaf_merge, KeyValue,
  KeyNodeId, invalid_node_id, get_high_key_pair,
}
use multiprocessor_programmi.Leaf.Spec.{is_pair, holds, base_of, IsValid}
use multiprocessor_programmi.Consolidate.{Delta, Collected, collect_data, collect_values}
use multiprocessor_programmi.Consolidate.Weave.{over}
use multiprocessor_programmi.Consolidate.Set.{below}
use multiprocessor_programmi.Consolidate.Collects.{
  IsReady, Collects, Notes, collect_base-Collects, collect_data-IsReady,
}
use multiprocessor_programmi.Consolidate.Joined.{left-IsReady, right-IsReady, merge_then}

-- A chain of keys from `low` on that can be consolidated up to the high key, as the tree builds them:
-- no key is below its part's low key or not below its high key, a split is at the high key, and a merge
-- joins two parts at a key below the end of the right one.
abbrev pub IsCollectable : ℕ → KeyNodeId → LeafChain → Type 0
IsCollectable low high (leaf low_key high_key items) = All (λ y. low ≤ y.0) items
IsCollectable low high (leaf_insert item index_pair child) =
    (low ≤ item.0) × (below high item.0 ≡ true) × IsCollectable low high child
IsCollectable low high (leaf_delete item index_pair child) =
    (low ≤ item.0) × (below high item.0 ≡ true) × IsCollectable low high child
IsCollectable low high (leaf_split insert_item n child) =
    (insert_item ≡ high) × IsCollectable low high child
IsCollectable low high (leaf_remove removed_id child) = Unit
IsCollectable low high (leaf_merge delete_item right child) =
    (low ≤ delete_item.0)
    × (0 < (get_high_key_pair child).1)
    × (high ≡ get_high_key_pair right)
    × (below high delete_item.0 ≡ true)
    × IsCollectable delete_item.0 high right
    × IsCollectable low (get_high_key_pair child) child

module _ (pair_hash : KeyValue → ℕ) where
  -- The conclusion for one chain.
  abbrev IsCollected : ℕ → KeyNodeId → LeafChain → Collected → Type 0
  IsCollected low high c s =
      (s' : Collected) × (collect_values pair_hash high s c ≡ some s')
      × Collects pair_hash low high (holds c) s s'

  -- Behind a data node.
  data_then :
      (low : ℕ) (high : KeyNodeId) (x : Delta) (s mid s' : Collected) (old new : ℕ → ℕ → Bool)
      → ((k v : ℕ) → new k v ≡ (if is_pair k v x.item then x.is_insert else old k v))
      → Notes pair_hash high low x s mid
      → Collects pair_hash low high old mid s'
      → Collects pair_hash low high new s s'
  data_then low high x s mid s' old new same n c = record {
    tail = c.tail;
    tail_sorted = c.tail_sorted;
    tail_distinct = c.tail_distinct;
    bounds = c.bounds;
    still_valid = c.still_valid;
    appended = c.appended ∙ ap (◌++ c.tail) n.same_items;
    pairs = λ k v l b.
        c.pairs k v l b ∙ n.pairs k v (old k v) ∙ ap (over k v s.sss.items) (sym (same k v));
    remaining = c.remaining ∙ n.later;
    untouched = λ k v o. c.untouched k v o ∙ n.untouched k v o;
  }

  -- Below a split node at the high key.
  split_then :
      (low : ℕ) (high insert_item : KeyNodeId) (n : ℕ) (child : LeafChain) (s s' : Collected)
      → insert_item ≡ high
      → 0 < insert_item.1
      → Collects pair_hash low high (holds child) s s'
      → Collects pair_hash low high (holds (leaf_split insert_item n child)) s s'
  split_then low high insert_item n child s s' at p c = record {
    tail = c.tail;
    appended = c.appended;
    tail_sorted = c.tail_sorted;
    tail_distinct = c.tail_distinct;
    bounds = c.bounds;
    pairs = λ k v l b.
        let test : ltb k insert_item.0 ≡ true =
          (let some_id : (insert_item.1 == invalid_node_id) ≡ false = ground arith in
            let b' : below insert_item k ≡ true = rw at b in ground arith) in
        rw test (c.pairs k v l b);
    remaining = c.remaining;
    still_valid = c.still_valid;
    untouched = c.untouched;
  }

  pub collect_values-Collects :
      (low : ℕ) (high : KeyNodeId) (c : LeafChain) (s : Collected)
      → IsValid c
      → IsCollectable low high c
      → IsReady pair_hash low high (base_of c) s
      → IsCollected low high c s
  unfolding collect_values
  collect_values-Collects low high (leaf low_key high_key items) s v o r =
      collect_base-Collects pair_hash low high items s v.0 v.1 o r
  collect_values-Collects low high (leaf_insert item index_pair child) s v o r =
      let x : Delta = record { item = item; index_pair = index_pair; is_insert = true } in
      let (ready, notes) =
        collect_data-IsReady pair_hash low high (base_of child) x s r o.0 o.1 (λ b. v.0) in
      let (s', e, c) =
        collect_values-Collects low high child (collect_data pair_hash s x) v.2 o.2 ready in
      (
        s',
        e,
        data_then low high x s (collect_data pair_hash s x) s' (holds child) _ (λ k w. refl) notes
            c,
      )
  collect_values-Collects low high (leaf_delete item index_pair child) s v o r =
      let x : Delta = record { item = item; index_pair = index_pair; is_insert = false } in
      let (ready, notes) =
        collect_data-IsReady pair_hash low high (base_of child) x s r o.0 o.1 (λ b. v.0) in
      let (s', e, c) =
        collect_values-Collects low high child (collect_data pair_hash s x) v.2 o.2 ready in
      (
        s',
        e,
        data_then low high x s (collect_data pair_hash s x) s' (holds child) _ (λ k w. refl) notes
            c,
      )
  collect_values-Collects low high (leaf_split insert_item n child) s v o r =
      let (s', e, c) = collect_values-Collects low high child s v.2 o.1 r in
      (s', e, split_then low high insert_item n child s s' o.0 v.1 c)
  collect_values-Collects low high (leaf_remove removed_id child) s v o r = absurd v
  collect_values-Collects low high (leaf_merge delete_item right child) s v o r =
      let left_high = get_high_key_pair child in
      let ready =
        left-IsReady pair_hash low delete_item.0 left_high high (base_of child) (base_of right) o.0
          v.0 o.1 o.3 s r in
      let (s', e, c) = collect_values-Collects low left_high child s v.2 o.5 ready in
      let ready' =
        right-IsReady pair_hash low delete_item.0 left_high high (base_of child) (base_of right) o.0
          v.0 o.1 o.3 (holds child) s s' r c in
      let (s'', e', c') = collect_values-Collects delete_item.0 high right s' v.1 o.4 ready' in
      (
        s'',
        rw e (ap (λ h. collect_values pair_hash h s' right) (sym o.2) ∙ e'),
        merge_then pair_hash low delete_item.0 left_high high (base_of child) (base_of right) o.0
            v.0 o.1 o.3 (holds child) (holds right) s s' s'' c c',
      )
