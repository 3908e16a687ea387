-- ===== src/Inner/Collect/Result.antt =====
-- `CollectAllSepsOnInner`: the new base node stands for the chain.
use multiprocessor_programmi.Prelude.{
  ℕ, ◌≤◌, ◌<◌, ◌≡◌, refl, sym, ap, ◌∙◌, inl, inr, true, false, List, [], ◌∷◌, none, some, ◌==◌,
  length, All, All-map, arith, Bool-cases, dec_lt,
}
use multiprocessor_programmi.Leaf.{KeyNodeId}
use multiprocessor_programmi.Leaf.Spec.{IsBelowHigh}
use multiprocessor_programmi.Consolidate.Set.{below}
use multiprocessor_programmi.Inner.{
  InnerChain, inner, inner_low_key_pair, inner_high_key_pair, navigate_inner_node,
}
use multiprocessor_programmi.Inner.Spec.{lookup, separator, IsAscending, IsValid}
use multiprocessor_programmi.Inner.Floor.{IsFloor-same, one_floor}
use multiprocessor_programmi.Inner.Navigate.{navigate_inner_node-IsFloor}
use multiprocessor_programmi.Inner.Collect.{Seps, start_seps, inner_item_count, consolidate_inner}
use multiprocessor_programmi.Inner.Collect.Chain.{IsCollectable, IsReady, Collects, listed}
use multiprocessor_programmi.Inner.Collect.Merge.{lookup_above}
use multiprocessor_programmi.Inner.Collect.Whole.{collect_seps-Collects}
use multiprocessor_programmi.Inner.Collect.Same.{listed-separator}
use multiprocessor_programmi.Inner.Collect.Listing.{listing, listing-IsAscending, IsCounted}
use multiprocessor_programmi.Inner.Collect.Size.{
  lookup-listing, listing-below, inner_item_count-listing,
}

same_after :
    (x y : KeyNodeId) (xs ys : List KeyNodeId)
    → All (λ z. x.0 < z.0) xs
    → All (λ z. y.0 < z.0) ys
    → x.0 ≡ y.0
    → ((k : ℕ) → lookup (x ∷ xs) k ≡ lookup (y ∷ ys) k)
    → (k : ℕ) → lookup xs k ≡ lookup ys k
same_after x y xs ys a b key h k = elim (dec_lt x.0 k) [
  | yes lt ↦
      let first : (x.0 == k) ≡ false = ground arith in
      let second : (y.0 == k) ≡ false = ground (arith, key) in rw (first, second) at (h k)
  | no nlt ↦
      let le : k ≤ x.0 = omega arith in
      lookup_above k xs (All-map (λ z p. omega (arith, p, le)) xs a)
      ∙ sym (lookup_above k ys (All-map (λ z p. omega (arith, p, le, key)) ys b))
]

-- Ascending lists that lead every key to the same are equal.
same_list :
    (xs ys : List KeyNodeId)
    → IsAscending xs
    → IsAscending ys
    → ((k : ℕ) → lookup xs k ≡ lookup ys k)
    → xs ≡ ys
same_list [] [] a b h = refl
same_list [] (y ∷ ys) a b h = absurd (ground (arith, h y.0))
same_list (x ∷ xs) [] a b h = absurd (ground (arith, h x.0))
same_list (x ∷ xs) (y ∷ ys) a b h =
    let key : x.0 ≡ y.0 = elim (dec_lt x.0 y.0) [
      | yes lt ↦ absurd (
          ground (
            arith,
            h x.0,
            lookup_above x.0 (y ∷ ys) (lt, All-map (λ z p. omega (arith, p, lt)) ys b.0),
          ))
      | no nlt ↦ elim (dec_lt y.0 x.0) [
        | yes gt ↦ absurd (
            ground (
              arith,
              h y.0,
              lookup_above y.0 (x ∷ xs) (gt, All-map (λ z p. omega (arith, p, gt)) xs a.0),
            ))
        | no ngt ↦ omega arith
      ]
    ] in
    let id : x.1 ≡ y.1 = ground (arith, key, h x.0) in
    let head : x ≡ y = ground (arith, key, id) in
    ap (λ z. z ∷ xs) head
    ∙ ap (◌∷◌ y) (same_list xs ys a.1 b.1 (same_after x y xs ys a.0 b.0 key h))

-- No key from the high key on is led anywhere by items below it.
lookup_out :
    (high : KeyNodeId) (k : ℕ) (ys : List KeyNodeId)
    → All (λ y. below high y.0 ≡ true) ys
    → below high k ≡ false
    → lookup ys k ≡ none
lookup_out high k [] h out = refl
lookup_out high k (y ∷ ys) h out = elim (Bool-cases (y.0 == k)) [
  | inl this ↦ absurd (ground (arith, h.0))
  | inr other ↦ rw other (lookup_out high k ys h.1 out)
]

start_IsReady : (low : KeyNodeId) → IsReady 0 (start_seps low)
start_IsReady low = record { ordered = tt; from_low = tt }

-- The new node stands for the chain: a base node with its range and its separators.
pub record StandsFor (c c' : InnerChain) : Type 0 where
  pub items : List KeyNodeId
  pub is_base : c' ≡ inner (inner_low_key_pair c) (inner_high_key_pair c) items
  pub valid : IsValid c'
  pub separators : (k : ℕ) → separator c' k ≡ separator c k
  pub children :
      (k : ℕ)
      → IsBelowHigh (inner_high_key_pair c) k
      → (id : ℕ) × (navigate_inner_node k c ≡ some id) × (navigate_inner_node k c' ≡ some id)
  pub size : length items ≡ inner_item_count c

-- The items collected after the low key are the separators of the chain.
collected :
    (c : InnerChain) (s : Seps)
    → IsValid c
    → IsCollectable none (inner_high_key_pair c) (inner_low_key_pair c).1 c
    → IsCounted c
    → (p : Collects 0
        (inner_high_key_pair c)
        (listed (inner_low_key_pair c).1 c)
        (start_seps (inner_low_key_pair c))
        s)
    → p.tail ≡ listing c
collected c s v o n p = same_list p.tail (listing c) p.ascending (listing-IsAscending c v) same
  where
    same : (k : ℕ) → lookup p.tail k ≡ lookup (listing c) k
    same k = elim (Bool-cases (below (inner_high_key_pair c) k)) [
      | inl inside ↦
          p.pairs k (omega arith) inside
          ∙ listed-separator c k (inner_high_key_pair c) (inner_low_key_pair c).1 v o
          ∙ sym (lookup-listing c k v)
      | inr out ↦
          lookup_out (inner_high_key_pair c) k p.tail (All-map (λ y q. q.1) p.tail p.bounds) out
          ∙ sym (
              lookup_out (inner_high_key_pair c) k (listing c)
                (listing-below c none (inner_high_key_pair c) (inner_low_key_pair c).1 o n refl)
                out)
    ]

-- Let the chain be well-formed, collectable and counted. The consolidation succeeds, and its result is
-- a well-formed base node with the range, the item count and the separators of the chain. For every key
-- in the range NavigateInnerNode returns, on the chain and on the result, the same child.
pub consolidate_inner-StandsFor :
    (c : InnerChain)
    → IsValid c
    → IsCollectable none (inner_high_key_pair c) (inner_low_key_pair c).1 c
    → IsCounted c
    → (c' : InnerChain) × (consolidate_inner c ≡ some c') × StandsFor c c'
unfolding consolidate_inner inner_low_key_pair inner_high_key_pair
consolidate_inner-StandsFor c v o n =
    let low = inner_low_key_pair c in
    let high = inner_high_key_pair c in
    let (s, e, p) =
      collect_seps-Collects c none high low.1 (start_seps low) o (start_IsReady low) in
    let new : s.new_items ≡ low ∷ listing c = p.appended ∙ ap (◌∷◌ low) (collected c s v o n p) in
    let size : length s.new_items ≡ inner_item_count c =
      ap (λ (l : List KeyNodeId). length l) new
      ∙ sym (inner_item_count-listing c none high low.1 v o n).0 in
    let test : (length s.new_items == inner_item_count c) ≡ true = ground arith in
    let c' = inner low high s.new_items in
    let valid : IsValid c' = (low, listing c, new, refl, listing-IsAscending c v) in
    let same : (k : ℕ) → separator c' k ≡ separator c k = λ k. rw new (lookup-listing c k v) in
    (
      c',
      rw (e, test, consolidate_inner) refl,
      record {
        items = s.new_items;
        is_base = refl;
        valid = valid;
        separators = same;
        children = λ k b.
            let (id, found, f) = navigate_inner_node-IsFloor c k v b in
            let (id', found', f') = navigate_inner_node-IsFloor c' k valid b in
            let one =
              one_floor (separator c') low.1 k id' id f'
                (IsFloor-same (separator c) _ low.1 k id (λ t le. same t) f) in
            (id, found, found' ∙ ap some one);
        size = size;
      },
    )
