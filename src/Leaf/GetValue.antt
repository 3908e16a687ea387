-- ===== src/Leaf/GetValue.antt =====
-- GetValue on a leaf chain: the list of values holds each value of the key exactly once.
use multiprocessor_programmi.Prelude.{
  ℕ, ◌<◌, ◌≡◌, refl, ◌∙◌, ap, Bool, true, false, List, ◌==◌, ltb, leb, if◌then◌else◌, count, Option,
  none, some, arith, inl, inr, Bool-cases,
}
use multiprocessor_programmi.Bloom.Exact.{init-IsValid}
use multiprocessor_programmi.Leaf.{
  LeafChain, leaf, leaf_insert, leaf_delete, leaf_split, leaf_remove, leaf_merge, KeyValue,
  IndexPair, get_high_key_pair,
}
use multiprocessor_programmi.Leaf.Navigate.{Search, start_search, visit, navigate_values}
use multiprocessor_programmi.Leaf.Spec.{
  is_pair, holds, base_of, index_of, IsSorted, IsBelowHigh, IsValid,
}
use multiprocessor_programmi.Leaf.Point.{below_split}
use multiprocessor_programmi.Leaf.Values.{
  IsWindow, IsReady, total, values_in_base-total, visit-IsWindow, visit-total, visit-IsReady,
  count_upto-le-length,
}

-- No merge node on the chain.
abbrev pub IsSingle : LeafChain → Type 0
IsSingle (leaf low_key high_key items) = Unit
IsSingle (leaf_insert item index_pair child) = IsSingle child
IsSingle (leaf_delete item index_pair child) = IsSingle child
IsSingle (leaf_split insert_item n child) = IsSingle child
IsSingle (leaf_remove removed_id child) = IsSingle child
IsSingle (leaf_merge delete_item right child) = ⊥

-- No data node above a merge node.
abbrev pub IsUnshifted : LeafChain → Type 0
IsUnshifted (leaf low_key high_key items) = Unit
IsUnshifted (leaf_insert item index_pair child) = IsSingle child
IsUnshifted (leaf_delete item index_pair child) = IsSingle child
IsUnshifted (leaf_split insert_item n child) = IsUnshifted child
IsUnshifted (leaf_remove removed_id child) = IsUnshifted child
IsUnshifted (leaf_merge delete_item right child) = IsUnshifted right × IsUnshifted child

base_of-single : (c : LeafChain) (j k : ℕ) → IsSingle c → base_of c j ≡ base_of c k
base_of-single (leaf low high items) j k h = refl
base_of-single (leaf_insert item index_pair child) j k h = base_of-single child j k h
base_of-single (leaf_delete item index_pair child) j k h = base_of-single child j k h
base_of-single (leaf_split insert_item n child) j k h = base_of-single child j k h
base_of-single (leaf_remove removed_id child) j k h = base_of-single child j k h
base_of-single (leaf_merge delete_item right child) j k h = absurd h

base_of-IsSorted : (c : LeafChain) (k : ℕ) → IsSingle c → IsValid c → IsSorted (base_of c k)
base_of-IsSorted (leaf low high items) k s h = h.0
base_of-IsSorted (leaf_insert item index_pair child) k s h = base_of-IsSorted child k s h.2
base_of-IsSorted (leaf_delete item index_pair child) k s h = base_of-IsSorted child k s h.2
base_of-IsSorted (leaf_split insert_item n child) k s h = base_of-IsSorted child k s h.2
base_of-IsSorted (leaf_remove removed_id child) k s h = absurd h
base_of-IsSorted (leaf_merge delete_item right child) k s h = absurd s

-- What a search returns, if the part of the chain that is left holds the values that `found` tells.
abbrev Returns : Search → (ℕ → Bool) → Option (List ℕ) → Type 0
Returns s found result =
    (values : List ℕ) × (result ≡ some values)
    × ((v : ℕ) → count (◌==◌ v) values ≡ total v s (found v))

-- The same search, told from one more data node.
Returns-step :
    (s s' : Search) (found found' : ℕ → Bool) (result : Option (List ℕ))
    → ((v : ℕ) → total v s' (found' v) ≡ total v s (found v))
    → Returns s' found' result
    → Returns s found result
Returns-step s s' found found' result e r = (r.0, r.1, λ v. r.2 v ∙ e v)

module _ (value_hash : ℕ → ℕ) where
  -- One data node above a chain without merges: `ih` is the search of the rest.
  visit_data :
      (child : LeafChain) (k : ℕ) (s : Search) (item : KeyValue) (index_pair : IndexPair)
      (is_insert : Bool)
      → IsSingle child
      → IsValid child
      → index_pair ≡ index_of item.0 item.1 (base_of child item.0)
      → IsReady value_hash s
      → IsWindow s.start_index s.end_index k (base_of child k)
      → ((s' : Search)
          → IsReady value_hash s'
          → IsWindow s'.start_index s'.end_index k (base_of child k)
          → Returns s' (holds child k) (navigate_values value_hash k s' child))
      → Returns s
          (λ v. if is_pair k v item then is_insert else holds child k v)
          (navigate_values value_hash k (visit value_hash k s item index_pair.0 is_insert) child)
  visit_data child k s item index_pair is_insert g h e r w ih =
      let s' = visit value_hash k s item index_pair.0 is_insert in
      let e' =
        ap (λ (p : IndexPair). p.0) e
        ∙ ap (λ (l : List KeyValue). (index_of item.0 item.1 l).0)
            (base_of-single child item.0 k g) in
      Returns-step s s' _ (holds child k) _
        (λ v. visit-total value_hash k v s item index_pair.0 is_insert (holds child k v) r)
        (ih s' (visit-IsReady value_hash k s item index_pair.0 is_insert r) (
          visit-IsWindow value_hash k s item index_pair.0 is_insert (base_of child k)
            (base_of-IsSorted child k g h) e' w))

  below-ltb : {high : ℕ × ℕ} (k : ℕ) → IsBelowHigh high k → 0 < high.1 → ltb k high.0 ≡ true
  below-ltb k b p = ground arith

  navigate_single :
      (c : LeafChain) (k : ℕ) (s : Search)
      → IsSingle c
      → IsValid c
      → IsBelowHigh (get_high_key_pair c) k
      → IsReady value_hash s
      → IsWindow s.start_index s.end_index k (base_of c k)
      → Returns s (holds c k) (navigate_values value_hash k s c)
  unfolding navigate_values get_high_key_pair
  navigate_single (leaf low high items) k s g h b r w =
      (_, refl, λ v. values_in_base-total value_hash k v s items r h.0 h.1 w)
  navigate_single (leaf_insert item index_pair child) k s g h b r w =
      visit_data child k s item index_pair true g h.2 h.0 r w
        (λ s'. navigate_single child k s' g h.2 b)
  navigate_single (leaf_delete item index_pair child) k s g h b r w =
      visit_data child k s item index_pair false g h.2 h.0 r w
        (λ s'. navigate_single child k s' g h.2 b)
  navigate_single (leaf_split insert_item n child) k s g h b r w =
      rw (below-ltb {high = insert_item} k b h.1)
        (navigate_single child k s g h.2 (below_split k h.0 b h.1) r w)
  navigate_single (leaf_remove removed_id child) k s g h b r w = absurd h
  navigate_single (leaf_merge delete_item right child) k s g h b r w = absurd g

  -- with the bounds -1 and 0 that the search begins with
  abbrev IsWhole : Search → Type 0
  IsWhole s = (s.start_index ≡ 0) × (s.end_index ≡ none)

  IsWhole-IsWindow :
      (s : Search) (k : ℕ) (items : List KeyValue)
      → IsWhole s
      → IsWindow s.start_index s.end_index k items
  IsWhole-IsWindow s k items w =
      let e = count_upto-le-length k items in rw (w.0, w.1) (omega arith, e)

  navigate_unshifted :
      (c : LeafChain) (k : ℕ) (s : Search)
      → IsUnshifted c
      → IsValid c
      → IsBelowHigh (get_high_key_pair c) k
      → IsReady value_hash s
      → IsWhole s
      → Returns s (holds c k) (navigate_values value_hash k s c)
  unfolding navigate_values get_high_key_pair
  navigate_unshifted (leaf low high items) k s g h b r w = (
    _,
    refl,
    λ v. values_in_base-total value_hash k v s items r h.0 h.1 (IsWhole-IsWindow s k items w),
  )
  navigate_unshifted (leaf_insert item index_pair child) k s g h b r w =
      visit_data child k s item index_pair true g h.2 h.0 r (IsWhole-IsWindow s k _ w)
        (λ s'. navigate_single child k s' g h.2 b)
  navigate_unshifted (leaf_delete item index_pair child) k s g h b r w =
      visit_data child k s item index_pair false g h.2 h.0 r (IsWhole-IsWindow s k _ w)
        (λ s'. navigate_single child k s' g h.2 b)
  navigate_unshifted (leaf_split insert_item n child) k s g h b r w =
      rw (below-ltb {high = insert_item} k b h.1)
        (navigate_unshifted child k s g h.2 (below_split k h.0 b h.1) r w)
  navigate_unshifted (leaf_remove removed_id child) k s g h b r w = absurd h
  navigate_unshifted (leaf_merge delete_item right child) k s g h b r w =
      elim (Bool-cases (leb delete_item.0 k)) [
        | inl in_right ↦ rw in_right (navigate_unshifted right k s g.0 h.1 b r w)
        | inr in_left ↦ rw in_left (navigate_unshifted child k s g.1 h.2 (ground arith) r w)
      ]

  -- On a well-formed chain with no data node above a merge node, whose range holds the key, GetValue
  -- returns a list in which each value that the chain holds for the key stands exactly once, and no
  -- other value stands.
  pub navigate_values-count :
      (c : LeafChain) (k : ℕ)
      → IsUnshifted c
      → IsValid c
      → IsBelowHigh (get_high_key_pair c) k
      → (values : List ℕ) × (navigate_values value_hash k start_search c ≡ some values)
        × ((v : ℕ) → count (◌==◌ v) values ≡ (if holds c k v then 1 else 0))
  unfolding start_search
  navigate_values-count c k g h b =
      let r =
        navigate_unshifted c k start_search g h b
          (record { present = init-IsValid _ value_hash; deleted = init-IsValid _ value_hash })
          (refl, refl) in
      (r.0, r.1, λ v. r.2 v ∙ omega arith)
