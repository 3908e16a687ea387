-- ===== src/Inner/Collect/Size.antt =====
-- The item count that the nodes carry is the number of the separators and the low key.
use multiprocessor_programmi.Prelude.{
  ℕ, suc, ◌+◌, ◌^◌, ◌≤◌, ◌<◌, ◌≡◌, refl, sym, ap, ◌∙◌, inl, inr, Bool, true, false, List, [], ◌∷◌,
  ◌++◌, none, some, ltb, leb, length, length-append, filter, All, All-map, All-filter, All-append,
  arith, Bool-cases,
}
use multiprocessor_programmi.Leaf.{NodeId, KeyNodeId}
use multiprocessor_programmi.Consolidate.Set.{below}
use multiprocessor_programmi.Inner.{
  InnerChain, inner, inner_insert, inner_delete, inner_split, inner_remove, inner_merge,
  inner_abort, inner_low_key_pair, inner_high_key_pair,
}
use multiprocessor_programmi.Inner.Spec.{separators, lookup, separator, IsAscending, IsValid}
use multiprocessor_programmi.Inner.Collect.{inner_item_count}
use multiprocessor_programmi.Inner.Collect.Merge.{All-merge_seps}
use multiprocessor_programmi.Inner.Collect.Chain.{Start, IsCollectable}
use multiprocessor_programmi.Inner.Collect.Listing.{
  listing, front, past, All-front, All-past, lookup-changed, lookup-front, lookup-past,
  length-inserted, length-deleted, length-front, listing-IsAscending, IsCounted,
}
use multiprocessor_programmi.Inner.Collect.Joined.{lookup-append_left, lookup-append_right}

pub lookup-listing : (c : InnerChain) (k : ℕ) → IsValid c → lookup (listing c) k ≡ separator c k
lookup-listing (inner low_key high_key items) k v = refl
lookup-listing (inner_insert item next_item location child) k v =
    lookup-changed _ k (listing child) (listing-IsAscending child v.2)
    ∙ ground (arith, lookup-listing child k v.2)
lookup-listing (inner_delete item prev_item next_item location child) k v =
    lookup-changed _ k (listing child) (listing-IsAscending child v.3)
    ∙ ground (arith, lookup-listing child k v.3)
lookup-listing (inner_split insert_item n child) k v =
    lookup-front insert_item.0 k (listing child) ∙ ground (arith, lookup-listing child k v.2)
lookup-listing (inner_remove removed_id child) k v = absurd v
lookup-listing (inner_merge delete_item right child) k v =
    let m = delete_item.0 in
    let rest = (m, (inner_low_key_pair right).1) ∷ past m (listing right) in
    let here = lookup-front m k (listing child) in
    elim (Bool-cases (ltb k m)) [
      | inl in_left ↦
          let lt : k < m = ground arith in
          rw in_left (
            lookup-append_left k (front m (listing child)) rest (
              lt,
              All-map (λ y p. omega (arith, p, lt)) (past m (listing right))
                  (All-past m (listing right)),
            )
            ∙ ground (arith, here, lookup-listing child k v.3))
      | inr reached ↦
          let le : m ≤ k = ground arith in
          rw reached (
            lookup-append_right k (front m (listing child)) rest (
              All-map (λ y p. omega (arith, p, le)) (front m (listing child))
                (All-front m (listing child)))
            ∙ ground (arith, lookup-past m k (listing right), lookup-listing right k v.2))
    ]
lookup-listing (inner_abort child) k v = absurd v

-- Its keys are below the high key of the chain.
pub listing-below :
    (c : InnerChain) (from : Start) (high : KeyNodeId) (low_id : NodeId)
    → IsCollectable from high low_id c
    → IsCounted c
    → high ≡ inner_high_key_pair c
    → All (λ y. below high y.0 ≡ true) (listing c)
unfolding inner_high_key_pair
listing-below (inner low_key high_key items) from high low_id o n e = rw e n.1
listing-below (inner_insert item next_item location child) from high low_id o n e =
    All-merge_seps _ (listing child) _ (listing-below child from high low_id o.2 n.2 e) (o.1, tt)
listing-below (inner_delete item prev_item next_item location child) from high low_id o n e =
    All-merge_seps _ (listing child) _ (listing-below child from high low_id o.2 n.1 e) (o.1, tt)
listing-below (inner_split insert_item m child) from high low_id o n e =
    let at_end = ap (λ (p : KeyNodeId). p.0) o.0 in
    All-map (λ y p. ground (arith, p, at_end)) (front insert_item.0 (listing child))
      (All-front insert_item.0 (listing child))
listing-below (inner_remove removed_id child) from high low_id o n e = absurd o
listing-below (inner_merge delete_item right child) from high low_id o n e =
    All-append _ (front delete_item.0 (listing child)) _
      (All-map (λ y p. ground (arith, p, o.4)) (front delete_item.0 (listing child))
        (All-front delete_item.0 (listing child)))
      (
        o.4,
        All-filter _ _ (listing right)
            (listing-below right (some delete_item.0) high low_id o.5 n.1 o.3),
      )
listing-below (inner_abort child) from high low_id o n e = absurd o

-- A list that leads no key up to `m` anywhere lies above it.
above_of :
    (m : ℕ) (ys : List KeyNodeId)
    → IsAscending ys
    → ((t : ℕ) → t ≤ m → lookup ys t ≡ none)
    → All (λ y. m < y.0) ys
above_of m [] a h = tt
above_of m (y ∷ ys) a h =
    let lt : m < y.0 = elim (Bool-cases (leb y.0 m)) [
      | inl upto ↦ absurd (ground (arith, h y.0))
      | inr above ↦ ground arith
    ] in
    (lt, All-map (λ z p. omega (arith, p, lt)) ys a.0)

filter_keeps :
    (p : KeyNodeId → Bool) (ys : List KeyNodeId) → All (λ y. p y ≡ true) ys → filter p ys ≡ ys
filter_keeps p [] h = refl
filter_keeps p (y ∷ ys) h = rw (h.0) (ap (◌∷◌ y) (filter_keeps p ys h.1))

-- Neither part of a merge loses a separator to it.
length-merged :
    (m id : ℕ) (xs ys : List KeyNodeId)
    → All (λ x. x.0 < m) xs
    → All (λ y. m < y.0) ys
    → length (front m xs ++ ((m, id) ∷ past m ys)) ≡ length xs + suc (length ys)
length-merged m id xs ys l r =
    length-append (front m xs) ((m, id) ∷ past m ys)
    ∙ ap (λ (zs : List KeyNodeId). length zs + suc (length (past m ys)))
        (filter_keeps _ xs (All-map (λ x p. ground (arith, p)) xs l))
    ∙ ap (λ (zs : List KeyNodeId). length xs + suc (length zs))
        (filter_keeps _ ys (All-map (λ y p. ground (arith, p)) ys r))

pub inner_item_count-listing :
    (c : InnerChain) (from : Start) (high : KeyNodeId) (low_id : NodeId)
    → IsValid c
    → IsCollectable from high low_id c
    → IsCounted c
    → (inner_item_count c ≡ suc (length (listing c))) × (suc (length (listing c)) < 2 ^ 31)
unfolding inner_item_count
inner_item_count-listing (inner low_key high_key items) from high low_id (first, rest, e, low, a) o
      n =
    (
      ap (λ (l : List KeyNodeId). length l) e
          ∙ ap (λ (l : List KeyNodeId). suc (length (separators l))) (sym e),
      n.0,
    )
inner_item_count-listing (inner_insert item next_item location child) from high low_id v o n =
    let (e, b) = inner_item_count-listing child from high low_id v.2 o.2 n.2 in
    let more =
      length-inserted (record { item = item; is_insert = true }) (listing child) refl
        (lookup-listing child item.0 v.2 ∙ n.0) in
    (omega (arith, e, b, n.1, more), omega (arith, n.1, more))
inner_item_count-listing (inner_delete item prev_item next_item location child) from high low_id v o
      n =
    let (e, b) = inner_item_count-listing child from high low_id v.3 o.2 n.1 in
    let less =
      length-deleted (record { item = item; is_insert = false }) (listing child)
        (listing-IsAscending child v.3) refl
        (λ gone. n.0 (sym (lookup-listing child item.0 v.3) ∙ gone)) in
    (omega (arith, e, b, less), omega (arith, b, less))
inner_item_count-listing (inner_split insert_item m child) from high low_id v o n =
    let (e, b) = inner_item_count-listing child from high low_id v.2 o.2 n.1 in
    let parts = length-front insert_item.0 (listing child) in
    (omega (arith, e, b, parts, n.0), omega (arith, b, parts))
inner_item_count-listing (inner_remove removed_id child) from high low_id v o n = absurd v
inner_item_count-listing (inner_merge delete_item right child) from high low_id v o n =
    let (e, b) =
      inner_item_count-listing child from (inner_high_key_pair child) low_id v.3 o.6 n.2 in
    let (e', b') = inner_item_count-listing right (some delete_item.0) high low_id v.2 o.5 n.1 in
    let lefts =
      All-map (λ y p. ground (arith, p, o.1, o.2)) (listing child)
        (listing-below child from (inner_high_key_pair child) low_id o.6 n.2 refl) in
    let rights =
      above_of delete_item.0 (listing right) (listing-IsAscending right v.2)
        (λ t le. lookup-listing right t v.2 ∙ v.1 t le) in
    let size =
      length-merged delete_item.0 (inner_low_key_pair right).1 (listing child) (listing right) lefts
        rights in
    (omega (arith, e, e', size, n.0), omega (arith, size, n.0))
inner_item_count-listing (inner_abort child) from high low_id v o n = absurd v
