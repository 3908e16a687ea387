-- ===== src/Leaf/Point.antt =====
-- The search for one value: `NavigateLeafNode` with a value, as Insert and Delete call it.
use multiprocessor_programmi.Prelude.{
  ℕ, zero, suc, ◌+◌, ◌≤◌, ◌<◌, ◌≡◌, refl, Bool, true, false, List, [], ◌∷◌, ltb, leb, if◌then◌else◌,
  any, All, Option, none, some, arith, drop, inl, inr, Bool-cases, All-map, dec_lt, ap,
}
use multiprocessor_programmi.Leaf.{
  LeafChain, leaf, leaf_insert, leaf_delete, leaf_split, leaf_remove, leaf_merge, KeyValue,
  IndexPair, KeyNodeId, get_high_key_pair,
}
use multiprocessor_programmi.Leaf.Navigate.{lower_bound, scan, Found, navigate}
use multiprocessor_programmi.Leaf.Spec.{
  is_pair, holds, base_of, count_upto, position, index_of, IsSorted, IsBelowHigh, IsValid,
}

abbrev pub is_some {ℓ} : {A : Type ℓ} → Option A → Bool
is_some (some a) = true
is_some none = false

-- What a search for a pair returns in a base node: the pair itself if it is there, and its index.
abbrev expected : ℕ → ℕ → List KeyValue → ℕ → Found
expected k v items i = elim (position k v items) [
  | some j ↦ (some (k, v), (i + j, true))
  | none ↦ (none, (i + count_upto k items, false))
]

pub count_upto_above : (k : ℕ) (xs : List KeyValue) → All (λ y. k < y.0) xs → count_upto k xs ≡ 0
count_upto_above k [] h = refl
count_upto_above k (x ∷ xs) h = ground (arith, count_upto_above k xs h.1)

position_above : (k v : ℕ) (xs : List KeyValue) → All (λ y. k < y.0) xs → position k v xs ≡ none
position_above k v [] h = refl
position_above k v (x ∷ xs) h = ground (arith, position_above k v xs h.1)

scan-expected :
    (k v i : ℕ) (xs : List KeyValue)
    → IsSorted xs
    → All (λ y. k ≤ y.0) xs
    → scan k v false i xs ≡ expected k v xs i
unfolding scan
scan-expected k v i [] h a = ground arith
scan-expected k v i (x ∷ xs) h a = elim (dec_lt k x.0) [
  | yes above ↦
      let rest : All (λ y. k < y.0) xs = All-map (λ y p. omega arith) xs h.0 in
      ground (arith, position_above k v xs rest, count_upto_above k xs rest)
  | no reached ↦ ground (arith, scan-expected k v (i + 1) xs h.1 a.1)
]

pub drop-lower_bound :
    (k : ℕ) (xs : List KeyValue) → IsSorted xs → All (λ y. k ≤ y.0) (drop (lower_bound k xs) xs)
unfolding lower_bound
drop-lower_bound k [] h = tt
drop-lower_bound k (x ∷ xs) h = elim (Bool-cases (ltb x.0 k)) [
  | inl below ↦ rw below (drop-lower_bound k xs h.1)
  | inr reached ↦ rw reached (ground arith, All-map (λ y p. ground arith) xs h.0)
]

pub drop-IsSorted : (n : ℕ) (xs : List KeyValue) → IsSorted xs → IsSorted (drop n xs)
drop-IsSorted zero xs h = h
drop-IsSorted (suc n) [] h = tt
drop-IsSorted (suc n) (x ∷ xs) h = drop-IsSorted n xs h.1

expected-lower_bound :
    (k v i : ℕ) (xs : List KeyValue)
    → expected k v (drop (lower_bound k xs) xs) (i + lower_bound k xs) ≡ expected k v xs i
unfolding lower_bound
expected-lower_bound k v i [] = ground arith
expected-lower_bound k v i (x ∷ xs) = elim (Bool-cases (ltb x.0 k)) [
  | inl below ↦ rw below (ground (arith, expected-lower_bound k v (suc i) xs))
  | inr reached ↦ rw reached (ground arith)
]

-- What the search returns for a pair, in terms of what the chain holds.
abbrev pub answer : Bool → ℕ → ℕ → IndexPair → Found
answer found k v index_pair = (if found then some (k, v) else none, index_pair)

expected-answer :
    (k v : ℕ) (xs : List KeyValue)
    → expected k v xs 0 ≡ answer (any (is_pair k v) xs) k v (index_of k v xs)
expected-answer k v [] = refl
expected-answer k v (x ∷ xs) = ground (arith, expected-answer k v xs)

scan-answer :
    (k v : ℕ) (items : List KeyValue)
    → IsSorted items
    → scan k v false (lower_bound k items) (drop (lower_bound k items) items)
      ≡ answer (any (is_pair k v) items) k v (index_of k v items)
scan-answer k v items h = ground (
  arith,
  scan-expected k v (lower_bound k items) (drop (lower_bound k items) items)
      (drop-IsSorted (lower_bound k items) items h) (drop-lower_bound k items h),
  expected-lower_bound k v 0 items,
  expected-answer k v items,
)

pub below_split :
    {high split : KeyNodeId} (k : ℕ)
    → IsBelowHigh high split.0
    → IsBelowHigh split k
    → 0 < split.1
    → IsBelowHigh high k
below_split k h b p = ground arith

-- On a well-formed chain whose range holds the key, the search for a pair returns it exactly if the
-- chain holds it, whichever data nodes, splits and merges lie on the way; and `index_pair` is where
-- the pair stands in the base node or, if it is not there, where the items with its key end.
pub navigate-answer :
    (c : LeafChain) (k v : ℕ)
    → IsValid c
    → IsBelowHigh (get_high_key_pair c) k
    → navigate k v false c ≡ some (answer (holds c k v) k v (index_of k v (base_of c k)))
unfolding navigate get_high_key_pair
navigate-answer (leaf low high items) k v h b = ap some (scan-answer k v items h.0)
navigate-answer (leaf_insert item index_pair child) k v h b =
    ground (arith, navigate-answer child k v h.2 b)
navigate-answer (leaf_delete item index_pair child) k v h b =
    ground (arith, navigate-answer child k v h.2 b)
navigate-answer (leaf_split insert_item n child) k v h b =
    ground (arith, navigate-answer child k v h.2 (below_split k h.0 b h.1))
navigate-answer (leaf_remove removed_id child) k v h b = absurd h
navigate-answer (leaf_merge delete_item right child) k v h b =
    elim (Bool-cases (leb delete_item.0 k)) [
      | inl in_right ↦ rw in_right (navigate-answer right k v h.1 b)
      | inr in_left ↦ rw in_left (navigate-answer child k v h.2 (ground arith))
    ]
