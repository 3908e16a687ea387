-- ===== src/Leaf/Values/Base.antt =====
-- Positions in a base node: where the items with a key begin and end, and the index pairs.
use multiprocessor_programmi.Prelude.{
  ℕ, zero, suc, ◌+◌, ◌≤◌, ◌<◌, ◌≡◌, refl, List, [], ◌∷◌, All, All-map, some, arith, take, drop, min,
  Bool-cases, Option-cases, inl, inr, dec_lt,
}
use multiprocessor_programmi.Leaf.{KeyValue}
use multiprocessor_programmi.Leaf.Navigate.{lower_bound}
use multiprocessor_programmi.Leaf.Point.{count_upto_above}
use multiprocessor_programmi.Leaf.Spec.{
  is_pair, count_below, count_upto, position, index_of, IsSorted,
}

lower_bound-take :
    (k n : ℕ) (xs : List KeyValue) → lower_bound k (take n xs) ≡ min n (lower_bound k xs)
unfolding lower_bound
lower_bound-take k zero xs = omega arith
lower_bound-take k (suc n) [] = omega arith
lower_bound-take k (suc n) (x ∷ xs) = ground (arith, lower_bound-take k n xs)

lower_bound-drop :
    (k n : ℕ) (xs : List KeyValue)
    → n ≤ lower_bound k xs
    → n + lower_bound k (drop n xs) ≡ lower_bound k xs
unfolding lower_bound
lower_bound-drop k zero xs h = omega arith
lower_bound-drop k (suc n) [] h = absurd (omega arith)
lower_bound-drop k (suc n) (x ∷ xs) h = ground (arith, lower_bound-drop k n xs)

count_below_none : (k : ℕ) (xs : List KeyValue) → All (λ y. k ≤ y.0) xs → count_below k xs ≡ 0
count_below_none k [] h = refl
count_below_none k (x ∷ xs) h = ground (arith, count_below_none k xs h.1)

pub lower_bound-count_below :
    (k : ℕ) (xs : List KeyValue) → IsSorted xs → lower_bound k xs ≡ count_below k xs
unfolding lower_bound
lower_bound-count_below k [] h = refl
lower_bound-count_below k (x ∷ xs) h = elim (dec_lt x.0 k) [
  | yes below ↦ ground (arith, lower_bound-count_below k xs h.1)
  | no reached ↦
      let rest : All (λ y. k ≤ y.0) xs = All-map (λ y p. omega arith) xs h.0 in
      ground (arith, count_below_none k xs rest)
]

-- Bounds that leave the items of the key in place do not change where the search begins.
pub values_start :
    (k first last : ℕ) (xs : List KeyValue)
    → IsSorted xs
    → first ≤ count_below k xs
    → count_below k xs ≤ last
    → first + lower_bound k (drop first (take last xs)) ≡ lower_bound k xs
values_start k first last xs h f l = omega (
  arith,
  lower_bound-take k last xs,
  lower_bound-count_below k xs h,
  lower_bound-drop k first (take last xs)
      (omega (arith, lower_bound-take k last xs, lower_bound-count_below k xs h)),
)

pub count_below-le : (k : ℕ) (xs : List KeyValue) → count_below k xs ≤ count_upto k xs
count_below-le k [] = omega arith
count_below-le k (x ∷ xs) = ground (arith, count_below-le k xs)

count_upto-count_below : (j k : ℕ) (xs : List KeyValue) → j < k → count_upto j xs ≤ count_below k xs
count_upto-count_below j k [] h = omega arith
count_upto-count_below j k (x ∷ xs) h = ground (arith, count_upto-count_below j k xs h)

pub position_bounds :
    (k v i : ℕ) (xs : List KeyValue)
    → IsSorted xs
    → position k v xs ≡ some i
    → (count_below k xs ≤ i) × (i < count_upto k xs)
position_bounds k v i [] h e = absurd (ground arith)
position_bounds k v zero (x ∷ xs) h e = elim (Bool-cases (is_pair k v x)) [
  | inl here ↦
      let rest : All (λ y. k ≤ y.0) xs = All-map (λ y p. ground arith) xs h.0 in
      ground (arith, count_below_none k xs rest)
  | inr there ↦ absurd (ground arith)
]
position_bounds k v (suc i) (x ∷ xs) h e =
    let later : position k v xs ≡ some i = ground arith in
    let (after, before) = position_bounds k v i xs h.1 later in
    elim (dec_lt k x.0) [
      | yes above ↦
          let rest : All (λ y. k < y.0) xs = All-map (λ y p. omega arith) xs h.0 in
          absurd (omega (arith, count_upto_above k xs rest))
      | no reached ↦ ground arith
    ]

-- The index of a data node with a smaller key stands before the items with the key, that of one with
-- a larger key behind them.
pub index_of_below :
    (j k v : ℕ) (xs : List KeyValue) → IsSorted xs → j < k → (index_of j v xs).0 ≤ count_below k xs
index_of_below j k v xs s h = elim (Option-cases (position j v xs)) [
  | inl absent ↦ rw absent (count_upto-count_below j k xs h)
  | inr (i, found) ↦
      rw found (omega (arith, position_bounds j v i xs s found, count_upto-count_below j k xs h))
]

pub index_of_above :
    (j k v : ℕ) (xs : List KeyValue) → IsSorted xs → k < j → count_upto k xs ≤ (index_of j v xs).0
index_of_above j k v xs s h = elim (Option-cases (position j v xs)) [
  | inl absent ↦ rw absent (omega (arith, count_upto-count_below k j xs h, count_below-le j xs))
  | inr (i, found) ↦
      rw found (omega (arith, position_bounds j v i xs s found, count_upto-count_below k j xs h))
]
