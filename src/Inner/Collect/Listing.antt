-- ===== src/Inner/Collect/Listing.antt =====
-- The separators of an inner chain as an ascending list, and the item count that the nodes carry.
use multiprocessor_programmi.Prelude.{
  ℕ, suc, ◌+◌, ◌^◌, ◌<◌, ◌≡◌, ◌≢◌, refl, ap, inl, inr, Bool, true, false, List, [], ◌∷◌, ◌++◌, none,
  ◌==◌, ltb, leb, if◌then◌else◌, length, filter, count, All, All-map, All-filter, arith, Bool-cases,
}
use multiprocessor_programmi.Leaf.{KeyNodeId}
use multiprocessor_programmi.Consolidate.Set.{below}
use multiprocessor_programmi.Inner.{
  InnerChain, inner, inner_insert, inner_delete, inner_split, inner_remove, inner_merge,
  inner_abort, inner_low_key_pair,
}
use multiprocessor_programmi.Inner.Spec.{separators, lookup, separator, IsAscending, IsValid}
use multiprocessor_programmi.Inner.Collect.{Change, merge_seps}
use multiprocessor_programmi.Inner.Collect.Merge.{
  over, lookup_above, lookup-merge_seps, merge_seps-IsAscending,
}
use multiprocessor_programmi.Inner.Collect.Joined.{append-IsAscending}

-- A single change put into an ascending list.
module _ (x : Change) where
  abbrev pub changed : List KeyNodeId → List KeyNodeId
  changed ys = merge_seps ys (x ∷ [])

  pub changed-IsAscending : (ys : List KeyNodeId) → IsAscending ys → IsAscending (changed ys)
  changed-IsAscending ys a = merge_seps-IsAscending ys (x ∷ []) a (tt, tt)

  pub lookup-changed :
      (k : ℕ) (ys : List KeyNodeId)
      → IsAscending ys
      → lookup (changed ys) k ≡ over k (x ∷ []) (lookup ys k)
  lookup-changed k ys a = lookup-merge_seps k ys (x ∷ []) a (tt, tt)

  pub length-inserted :
      (ys : List KeyNodeId)
      → x.is_insert ≡ true
      → lookup ys x.item.0 ≡ none
      → length (changed ys) ≡ suc (length ys)
  unfolding merge_seps
  length-inserted [] i h = ground (arith, i)
  length-inserted (y ∷ ys) i h = ground (arith, i, h, length-inserted ys i)

  pub length-deleted :
      (ys : List KeyNodeId)
      → IsAscending ys
      → x.is_insert ≡ false
      → lookup ys x.item.0 ≢ none
      → suc (length (changed ys)) ≡ length ys
  unfolding merge_seps
  length-deleted [] a i h = absurd (h refl)
  length-deleted (y ∷ ys) a i h = elim (Bool-cases (ltb y.0 x.item.0)) [
    | inl first ↦
        let other : (y.0 == x.item.0) ≡ false = ground arith in
        rw first (ap suc (length-deleted ys a.1 i (rw other at h)))
    | inr reached ↦ elim (Bool-cases (ltb x.item.0 y.0)) [
      | inl before ↦
          let lt : x.item.0 < y.0 = ground arith in
          absurd
            (h (lookup_above x.item.0 (y ∷ ys) (lt, All-map (λ z p. omega (arith, p, lt)) ys a.0)))
      | inr equal ↦ rw (reached, equal, i) refl
    ]
  ]

module _ (m : ℕ) where
  abbrev pub front : List KeyNodeId → List KeyNodeId
  front ys = filter (λ y. ltb y.0 m) ys

  abbrev pub past : List KeyNodeId → List KeyNodeId
  past ys = filter (λ y. ltb m y.0) ys

  pub All-front : (ys : List KeyNodeId) → All (λ y. y.0 < m) (front ys)
  All-front [] = tt
  All-front (y ∷ ys) = ground (arith, All-front ys)

  pub All-past : (ys : List KeyNodeId) → All (λ y. m < y.0) (past ys)
  All-past [] = tt
  All-past (y ∷ ys) = ground (arith, All-past ys)

  pub lookup-front :
      (k : ℕ) (ys : List KeyNodeId) → lookup (front ys) k ≡ (if ltb k m then lookup ys k else none)
  lookup-front k [] = ground arith
  lookup-front k (y ∷ ys) = ground (arith, lookup-front k ys)

  pub lookup-past :
      (k : ℕ) (ys : List KeyNodeId) → lookup (past ys) k ≡ (if ltb m k then lookup ys k else none)
  lookup-past k [] = ground arith
  lookup-past k (y ∷ ys) = ground (arith, lookup-past k ys)

  pub length-front :
      (ys : List KeyNodeId) → length (front ys) + count (λ y. leb m y.0) ys ≡ length ys
  length-front [] = refl
  length-front (y ∷ ys) = ground (arith, length-front ys)

filter-IsAscending :
    (p : KeyNodeId → Bool) (ys : List KeyNodeId) → IsAscending ys → IsAscending (filter p ys)
filter-IsAscending p [] h = tt
filter-IsAscending p (y ∷ ys) h = elim (Bool-cases (p y)) [
  | inl stays ↦ rw stays (All-filter (λ z. y.0 < z.0) p ys h.0, filter-IsAscending p ys h.1)
  | inr goes ↦ rw goes (filter-IsAscending p ys h.1)
]

-- The separators of the chain, ascending: an id is put in, taken out, the keys from a split on are
-- left out, and the right part of a merge follows with its low id at the key of the merge.
abbrev pub listing : InnerChain → List KeyNodeId
listing (inner low_key high_key items) = separators items
listing (inner_insert item next_item location child) =
    changed (record { item = item; is_insert = true }) (listing child)
listing (inner_delete item prev_item next_item location child) =
    changed (record { item = item; is_insert = false }) (listing child)
listing (inner_split insert_item n child) = front insert_item.0 (listing child)
listing (inner_remove removed_id child) = listing child
listing (inner_merge delete_item right child) =
    front delete_item.0 (listing child)
    ++ ((delete_item.0, (inner_low_key_pair right).1) ∷ past delete_item.0 (listing right))
listing (inner_abort child) = listing child

-- Every node counts: an insert node adds a separator, a delete node takes one away, a split node takes
-- away those from its key on, a base node holds none from its high key on, and no count overflows `int`.
abbrev pub IsCounted : InnerChain → Type 0
IsCounted (inner low_key high_key items) =
    (suc (length (separators items)) < 2 ^ 31)
    × All (λ y. below high_key y.0 ≡ true) (separators items)
IsCounted (inner_insert item next_item location child) =
    (separator child item.0 ≡ none)
    × (suc (suc (length (listing child))) < 2 ^ 31)
    × IsCounted child
IsCounted (inner_delete item prev_item next_item location child) =
    (separator child item.0 ≢ none) × IsCounted child
IsCounted (inner_split insert_item n child) =
    (n ≡ count (λ y. leb insert_item.0 y.0) (listing child)) × IsCounted child
IsCounted (inner_remove removed_id child) = IsCounted child
IsCounted (inner_merge delete_item right child) =
    (suc (suc (length (listing child) + length (listing right))) < 2 ^ 31)
    × IsCounted right
    × IsCounted child
IsCounted (inner_abort child) = IsCounted child

pub listing-IsAscending : (c : InnerChain) → IsValid c → IsAscending (listing c)
listing-IsAscending (inner low_key high_key items) (first, rest, e, low, a) = rw e a
listing-IsAscending (inner_insert item next_item location child) v =
    changed-IsAscending _ (listing child) (listing-IsAscending child v.2)
listing-IsAscending (inner_delete item prev_item next_item location child) v =
    changed-IsAscending _ (listing child) (listing-IsAscending child v.3)
listing-IsAscending (inner_split insert_item n child) v =
    filter-IsAscending _ (listing child) (listing-IsAscending child v.2)
listing-IsAscending (inner_remove removed_id child) v = absurd v
listing-IsAscending (inner_merge delete_item right child) v =
    let m = delete_item.0 in
    append-IsAscending m (front m (listing child)) _
      (filter-IsAscending _ (listing child) (listing-IsAscending child v.3))
      (
        All-past m (listing right),
        filter-IsAscending _ (listing right) (listing-IsAscending right v.2),
      )
      (All-front m (listing child))
      (
        omega arith,
        All-map (λ y p. omega (arith, p)) (past m (listing right)) (All-past m (listing right)),
      )
listing-IsAscending (inner_abort child) v = absurd v
