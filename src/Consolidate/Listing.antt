-- ===== src/Consolidate/Listing.antt =====
-- The item count of a chain, which the consolidation asserts to be the size of the new node.
use multiprocessor_programmi.Prelude.{
  ℕ, suc, ◌+◌, ◌^◌, ◌≤◌, ◌<◌, ◌≡◌, refl, ◌∙◌, inr, true, false, not, List, ◌∷◌, ◌++◌, ltb, leb,
  length, length-append, filter, any, any-append, count, All, All-map, All-filter, All-append,
  arith,
}
use multiprocessor_programmi.Leaf.{
  LeafChain, leaf, leaf_insert, leaf_delete, leaf_split, leaf_remove, leaf_merge, KeyValue,
  KeyNodeId, get_high_key_pair, get_item_count,
}
use multiprocessor_programmi.Leaf.Spec.{is_pair, holds, IsDistinct, IsBelowHigh, IsValid}
use multiprocessor_programmi.Consolidate.Chain.{IsCollectable}
use multiprocessor_programmi.Consolidate.Joined.{IsDistinct-append}
use multiprocessor_programmi.Consolidate.Count.{
  any-without, length-without, filter-IsDistinct, any-filter_lt, any-filter_ge, length-filter_split,
  filter_lt, filter_ge, All-lt, All-ge,
}

-- The pairs that the chain holds, in no particular order.
abbrev pub listing : LeafChain → List KeyValue
listing (leaf low_key high_key items) = items
listing (leaf_insert item index_pair child) = item ∷ listing child
listing (leaf_delete item index_pair child) =
    filter (λ y. not (is_pair item.0 item.1 y)) (listing child)
listing (leaf_split insert_item n child) = filter (λ y. ltb y.0 insert_item.0) (listing child)
listing (leaf_remove removed_id child) = listing child
listing (leaf_merge delete_item right child) =
    filter (λ y. ltb y.0 delete_item.0) (listing child)
    ++ filter (λ y. leb delete_item.0 y.0) (listing right)

-- Every node counts: an insert node adds a pair, a delete node takes one away, a split node takes away
-- the pairs from its key on, base nodes hold no key outside their range, and no count overflows `int`.
abbrev pub IsCounted : LeafChain → Type 0
IsCounted (leaf low_key high_key items) =
    (length items < 2 ^ 31) × All (λ y. IsBelowHigh high_key y.0) items
IsCounted (leaf_insert item index_pair child) =
    (holds child item.0 item.1 ≡ false) × (suc (length (listing child)) < 2 ^ 31) × IsCounted child
IsCounted (leaf_delete item index_pair child) = (holds child item.0 item.1 ≡ true) × IsCounted child
IsCounted (leaf_split insert_item n child) =
    (n ≡ count (λ y. leb insert_item.0 y.0) (listing child)) × IsCounted child
IsCounted (leaf_remove removed_id child) = IsCounted child
IsCounted (leaf_merge delete_item right child) =
    (length (listing child) + length (listing right) < 2 ^ 31) × IsCounted right × IsCounted child

-- The listing has the pairs that the chain holds.
pub any-listing : (c : LeafChain) (k v : ℕ) → any (is_pair k v) (listing c) ≡ holds c k v
any-listing (leaf low_key high_key items) k v = refl
any-listing (leaf_insert item index_pair child) k v = ground (arith, any-listing child k v)
any-listing (leaf_delete item index_pair child) k v =
    any-without item k v (listing child) ∙ ground (arith, any-listing child k v)
any-listing (leaf_split insert_item n child) k v =
    any-filter_lt insert_item.0 k v (listing child) ∙ ground (arith, any-listing child k v)
any-listing (leaf_remove removed_id child) k v = any-listing child k v
any-listing (leaf_merge delete_item right child) k v =
    any-append (is_pair k v) (filter (λ y. ltb y.0 delete_item.0) (listing child))
      (filter (λ y. leb delete_item.0 y.0) (listing right))
    ∙ ground (
      arith,
      any-filter_lt delete_item.0 k v (listing child),
      any-filter_ge delete_item.0 k v (listing right),
      any-listing child k v,
      any-listing right k v,
    )

pub listing-IsDistinct : (c : LeafChain) → IsValid c → IsCounted c → IsDistinct (listing c)
listing-IsDistinct (leaf low_key high_key items) v n = v.1
listing-IsDistinct (leaf_insert item index_pair child) v n =
    (any-listing child item.0 item.1 ∙ n.0, listing-IsDistinct child v.2 n.2)
listing-IsDistinct (leaf_delete item index_pair child) v n =
    filter-IsDistinct _ (listing child) (listing-IsDistinct child v.2 n.1)
listing-IsDistinct (leaf_split insert_item k child) v n =
    filter-IsDistinct _ (listing child) (listing-IsDistinct child v.2 n.1)
listing-IsDistinct (leaf_remove removed_id child) v n = absurd v
listing-IsDistinct (leaf_merge delete_item right child) v n =
    IsDistinct-append delete_item.0 (filter (λ y. ltb y.0 delete_item.0) (listing child))
      (filter (λ y. leb delete_item.0 y.0) (listing right))
      (filter-IsDistinct _ (listing child) (listing-IsDistinct child v.2 n.2))
      (filter-IsDistinct _ (listing right) (listing-IsDistinct right v.1 n.1))
      (All-lt delete_item.0 (listing child)) (All-ge delete_item.0 (listing right))

listing_from :
    (low : ℕ) (high : KeyNodeId) (c : LeafChain)
    → IsValid c
    → IsCollectable low high c
    → All (λ y. low ≤ y.0) (listing c)
listing_from low high (leaf low_key high_key items) v o = o
listing_from low high (leaf_insert item index_pair child) v o =
    (o.0, listing_from low high child v.2 o.2)
listing_from low high (leaf_delete item index_pair child) v o =
    All-filter _ _ (listing child) (listing_from low high child v.2 o.2)
listing_from low high (leaf_split insert_item n child) v o =
    All-filter _ _ (listing child) (listing_from low high child v.2 o.1)
listing_from low high (leaf_remove removed_id child) v o = absurd v
listing_from low high (leaf_merge delete_item right child) v o =
    All-append _ (filter (λ y. ltb y.0 delete_item.0) (listing child))
      (filter (λ y. leb delete_item.0 y.0) (listing right))
      (All-filter _ _ (listing child) (listing_from low (get_high_key_pair child) child v.2 o.5))
      (All-map (λ y p. omega (arith, p, o.0)) (filter (λ y. leb delete_item.0 y.0) (listing right))
        (All-ge delete_item.0 (listing right)))

pub listing_below :
    (low : ℕ) (high : KeyNodeId) (c : LeafChain)
    → IsValid c
    → IsCollectable low high c
    → IsCounted c
    → All (λ y. IsBelowHigh (get_high_key_pair c) y.0) (listing c)
unfolding get_high_key_pair
listing_below low high (leaf low_key high_key items) v o n = n.1
listing_below low high (leaf_insert item index_pair child) v o n =
    (v.1, listing_below low high child v.2 o.2 n.2)
listing_below low high (leaf_delete item index_pair child) v o n =
    All-filter _ _ (listing child) (listing_below low high child v.2 o.2 n.1)
listing_below low high (leaf_split insert_item k child) v o n =
    All-map (λ y p. inr p) (filter (λ y. ltb y.0 insert_item.0) (listing child))
      (All-lt insert_item.0 (listing child))
listing_below low high (leaf_remove removed_id child) v o n = absurd v
listing_below low high (leaf_merge delete_item right child) v o n =
    All-append _ (filter (λ y. ltb y.0 delete_item.0) (listing child))
      (filter (λ y. leb delete_item.0 y.0) (listing right))
      (All-map in_left (filter (λ y. ltb y.0 delete_item.0) (listing child))
        (All-lt delete_item.0 (listing child)))
      (All-filter _ _ (listing right) (listing_below delete_item.0 high right v.1 o.4 n.1))
  where
    in_left : (y : KeyValue) → y.0 < delete_item.0 → IsBelowHigh (get_high_key_pair right) y.0
    in_left y p = let b = rw (o.2) at (o.3) in ground (arith, p, b)

-- The count that the nodes carry is the number of pairs.
pub length-listing :
    (low : ℕ) (high : KeyNodeId) (c : LeafChain)
    → IsValid c
    → IsCollectable low high c
    → IsCounted c
    → (get_item_count c ≡ length (listing c)) × (length (listing c) < 2 ^ 31)
unfolding get_item_count
length-listing low high (leaf low_key high_key items) v o n = (refl, n.0)
length-listing low high (leaf_insert item index_pair child) v o n =
    let (e, b) = length-listing low high child v.2 o.2 n.2 in (omega (arith, e, n.1), n.1)
length-listing low high (leaf_delete item index_pair child) v o n =
    let (e, b) = length-listing low high child v.2 o.2 n.1 in
    let less =
      length-without item (listing child) (listing-IsDistinct child v.2 n.1)
        (any-listing child item.0 item.1 ∙ n.0) in
    (omega (arith, e, b, less), omega (arith, b, less))
length-listing low high (leaf_split insert_item k child) v o n =
    let (e, b) = length-listing low high child v.2 o.1 n.1 in
    let parts = length-filter_split insert_item.0 (listing child) in
    (omega (arith, e, b, parts, n.0), omega (arith, b, parts))
length-listing low high (leaf_remove removed_id child) v o n = absurd v
length-listing low high (leaf_merge delete_item right child) v o n =
    let (e, b) = length-listing low (get_high_key_pair child) child v.2 o.5 n.2 in
    let (e', b') = length-listing delete_item.0 high right v.1 o.4 n.1 in
    let left = filter_lt delete_item.0 (listing child) (
      All-map in_left (listing child)
        (listing_below low (get_high_key_pair child) child v.2 o.5 n.2)) in
    let all_right =
      filter_ge delete_item.0 (listing right) (listing_from delete_item.0 high right v.1 o.4) in
    let size = length-append (listing child) (listing right) in
    rw (left, all_right) (omega (arith, e, e', size, n.0), omega (arith, size, n.0))
  where
    in_left : (y : KeyValue) → IsBelowHigh (get_high_key_pair child) y.0 → y.0 < delete_item.0
    in_left y p = ground (arith, p, o.1, v.0)
