-- ===== src/Leaf/SplitHalves.antt =====
-- What the two halves of a split hold: the delta node that the split posts, and the new sibling.
use multiprocessor_programmi.Prelude.{
  ℕ, zero, suc, ◌+◌, ◌-◌, ◌≤◌, ◌<◌, ◌≡◌, ◌≢◌, refl, inl, inr, List, [], ◌∷◌, some, ltb, false,
  if◌then◌else◌, length, drop, any, All, arith, Option-cases, dec_lt, length-drop, ◌^◌,
}
use multiprocessor_programmi.Leaf.{
  LeafChain, leaf, leaf_split, KeyValue, KeyNodeId, NodeId, get_item_count, get_high_key_pair,
  get_low_key_pair,
}
use multiprocessor_programmi.Leaf.Spec.{is_pair, holds, IsSorted, IsDistinct, IsBelowHigh, IsValid}
use multiprocessor_programmi.Leaf.Split.{key_at, find_split_point, split_leaf, not_invalid_node_id}
use multiprocessor_programmi.Leaf.SplitPoint.{Divides, find_split_point-Divides}

any_above :
    (k v b : ℕ) (xs : List KeyValue) → All (λ y. b ≤ y.0) xs → k < b → any (is_pair k v) xs ≡ false
any_above k v b [] h l = refl
any_above k v b (x ∷ xs) h l = ground (arith, any_above k v b xs h.1 l)

key_at-bound :
    (b i : ℕ) (xs : List KeyValue) → All (λ y. b ≤ y.0) xs → i < length xs → b ≤ key_at xs i
unfolding key_at
key_at-bound b i [] h l = elim l [ ]
key_at-bound b zero (x ∷ xs) h l = h.0
key_at-bound b (suc i) (x ∷ xs) h l = key_at-bound b i xs h.1 (omega arith)

-- All keys behind a position are at least the key there.
drop-bound :
    (i : ℕ) (xs : List KeyValue)
    → IsSorted xs
    → i < length xs
    → All (λ y. key_at xs i ≤ y.0) (drop i xs)
unfolding key_at
drop-bound i [] h l = elim l [ ]
drop-bound zero (x ∷ xs) h l = (omega arith, h.0)
drop-bound (suc i) (x ∷ xs) h l = drop-bound i xs h.1 (omega arith)

-- Nothing with the key at a split point, or a larger one, stands before it.
any-drop :
    (k v i : ℕ) (xs : List KeyValue)
    → IsSorted xs
    → suc i < length xs
    → key_at xs i < key_at xs (suc i)
    → key_at xs (suc i) ≤ k
    → any (is_pair k v) (drop (suc i) xs) ≡ any (is_pair k v) xs
unfolding key_at
any-drop k v i [] h l lt le = elim l [ ]
any-drop k v zero (x ∷ xs) h l lt le = ground arith
any-drop k v (suc i) (x ∷ xs) h l lt le =
    let below : x.0 ≤ key_at xs i = key_at-bound x.0 i xs h.0 (omega arith) in
    ground (arith, any-drop k v i xs h.1 (omega arith) lt le)

key_at-drop : (i : ℕ) (xs : List KeyValue) → key_at (drop i xs) 0 ≡ key_at xs i
unfolding key_at
key_at-drop zero xs = refl
key_at-drop (suc i) [] = refl
key_at-drop (suc i) (x ∷ xs) = key_at-drop i xs

drop-IsDistinct : (n : ℕ) (xs : List KeyValue) → IsDistinct xs → IsDistinct (drop n xs)
drop-IsDistinct zero xs h = h
drop-IsDistinct (suc n) [] h = tt
drop-IsDistinct (suc n) (x ∷ xs) h = drop-IsDistinct n xs h.1

key_at-All :
    (P : ℕ → Type 0) (i : ℕ) (xs : List KeyValue)
    → All (λ y. P y.0) xs
    → i < length xs
    → P (key_at xs i)
unfolding key_at
key_at-All P i [] h l = elim l [ ]
key_at-All P zero (x ∷ xs) h l = h.0
key_at-All P (suc i) (x ∷ xs) h l = key_at-All P i xs h.1 (omega arith)

-- What a split makes of a leaf: two well-formed nodes that hold together what the leaf held, each for
-- the keys of its side, linked by the new node's id, and with item counts that add up.
pub record SplitsInto (new_node_id : NodeId) (high_key : KeyNodeId) (items : List KeyValue)
    (left right : LeafChain) : Type 0 where
  pub split_key : ℕ
  pub pairs :
      (k v : ℕ)
      → any (is_pair k v) items ≡ (if ltb k split_key then holds left k v else holds right k v)
  pub left_high : get_high_key_pair left ≡ (split_key, new_node_id)
  pub right_low : (get_low_key_pair right).0 ≡ split_key
  pub right_high : get_high_key_pair right ≡ high_key
  pub left_valid : IsValid left
  pub right_valid : IsValid right
  pub counts : get_item_count left + get_item_count right ≡ length items

drop-IsSorted : (n : ℕ) (xs : List KeyValue) → IsSorted xs → IsSorted (drop n xs)
drop-IsSorted zero xs h = h
drop-IsSorted (suc n) [] h = tt
drop-IsSorted (suc n) (x ∷ xs) h = drop-IsSorted n xs h.1

key_at_mono :
    (i : ℕ) (xs : List KeyValue) → IsSorted xs → suc i < length xs → key_at xs i ≤ key_at xs (suc i)
unfolding key_at
key_at_mono i [] h l = elim l [ ]
key_at_mono zero (x ∷ xs) h l = key_at-bound x.0 0 xs h.0 (omega arith)
key_at_mono (suc i) (x ∷ xs) h l = key_at_mono i xs h.1 (omega arith)

-- The key before a split point is smaller, and there is one.
before_split :
    (lower at : ℕ) (items : List KeyValue)
    → IsSorted items
    → Divides lower items at
    → (i : ℕ) × (at ≡ suc i) × (key_at items i < key_at items (suc i))
before_split lower zero items h d = absurd (d.keys refl)
before_split lower (suc i) items h d =
    let below = key_at_mono i items h d.inside in
    let here : suc i - 1 ≡ i = omega arith in
    let apart : key_at items i ≢ key_at items (suc i) = rw here at d.keys in
    (i, refl, omega (arith, below))

module _ (upper lower : ℕ) (new_node_id : NodeId) (low_key high_key : KeyNodeId)
    (items : List KeyValue) (sorted : IsSorted items) (distinct : IsDistinct items)
    (ranged : All (λ y. IsBelowHigh high_key y.0) items) (threshold : 1 ≤ lower)
    (size : 2 ≤ length items) (fits : length items < 2 ^ 31) (new_id : 0 < new_node_id) where
  pairs_at :
      (i k v : ℕ)
      → suc i < length items
      → key_at items i < key_at items (suc i)
      → any (is_pair k v) items ≡ (
          if ltb k (key_at items (suc i))
          then (if ltb k (key_at items (suc i)) then any (is_pair k v) items else false)
          else any (is_pair k v) (drop (suc i) items))
  pairs_at i k v l lt = elim (dec_lt k (key_at items (suc i))) [
    | yes below ↦ ground arith
    | no above ↦ ground (arith, any-drop k v i items sorted l lt)
  ]

  halves :
      (i : ℕ)
      → suc i < length items
      → key_at items i < key_at items (suc i)
      → SplitsInto new_node_id high_key items
          (leaf_split
            (key_at (drop (suc i) items) 0, new_node_id)
            (length (drop (suc i) items))
            (leaf low_key high_key items))
          (leaf (key_at items (suc i), not_invalid_node_id) high_key (drop (suc i) items))
  unfolding get_high_key_pair get_low_key_pair get_item_count
  halves i l lt = rw (key_at-drop (suc i) items) (record {
    split_key = key_at items (suc i);
    pairs = λ k v. pairs_at i k v l lt;
    left_high = refl;
    right_low = refl;
    right_high = refl;
    left_valid =
        (key_at-All (IsBelowHigh high_key) (suc i) items ranged l, new_id, (sorted, distinct));
    right_valid = (drop-IsSorted (suc i) items sorted, drop-IsDistinct (suc i) items distinct);
    counts = omega (arith, length-drop (suc i) items);
  })

  -- Let the leaf be well-formed, with at least two items and fewer than 2^31, the lower threshold at
  -- least 1, and the new node's id valid. Then whenever the split finds a split point, it makes two
  -- well-formed nodes of the leaf that hold together exactly what it held, each the keys of its side,
  -- linked by the new node's id, and with item counts that add up.
  pub split_leaf-SplitsInto :
      (left right : LeafChain)
      → split_leaf upper lower new_node_id low_key high_key items ≡ some (left, right)
      → SplitsInto new_node_id high_key items left right
  unfolding split_leaf get_item_count
  split_leaf-SplitsInto left right e = elim (Option-cases (find_split_point lower items)) [
    | inl nowhere ↦ absurd (ground arith)
    | inr (at, found) ↦
        let d = find_split_point-Divides lower at items threshold size found in
        let (i, here, lt) = before_split lower at items sorted d in
        let parts : (left
              ≡ leaf_split (key_at (drop (suc i) items) 0, new_node_id)
                  (length (drop (suc i) items)) (leaf low_key high_key items))
            × (right
                ≡ leaf (key_at items (suc i), not_invalid_node_id) high_key (drop (suc i) items)) =
          ground arith in
        rw (parts.0, parts.1) (halves i (omega (arith, d.inside)) lt)
  ]
