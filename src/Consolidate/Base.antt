-- ===== src/Consolidate/Base.antt =====
-- What the case of a base node collects.
use multiprocessor_programmi.Prelude.{
  ℕ, zero, suc, ◌≤◌, ◌<◌, ◌≡◌, refl, sym, ap, inl, inr, Bool, true, false, List, [], ◌∷◌, none,
  ◌==◌, ltb, take, length, any, All, All-map, arith, Bool-cases, Option-cases, dec_lt,
}
use multiprocessor_programmi.Leaf.{KeyValue, KeyNodeId, invalid_node_id}
use multiprocessor_programmi.Leaf.Navigate.{lower_bound}
use multiprocessor_programmi.Leaf.Spec.{
  is_pair, position, index_of, count_upto, count_below, IsSorted, IsDistinct,
}
use multiprocessor_programmi.Leaf.Point.{count_upto_above}
use multiprocessor_programmi.Leaf.Values.Base.{position_bounds, index_of_below, count_below-le}
use multiprocessor_programmi.Consolidate.{Delta, delta_cmp, copy_end}
use multiprocessor_programmi.Consolidate.Weave.{IsOrdered}
use multiprocessor_programmi.Consolidate.Set.{IsCmpSorted, IsSingle, below}

pub any_above :
    (k v : ℕ) (xs : List KeyValue) → All (λ y. k < y.0) xs → any (is_pair k v) xs ≡ false
any_above k v [] h = refl
any_above k v (x ∷ xs) h = ground (arith, any_above k v xs h.1)

position_above : (k v : ℕ) (xs : List KeyValue) → All (λ y. k < y.0) xs → position k v xs ≡ none
position_above k v [] h = refl
position_above k v (x ∷ xs) h = ground (arith, position_above k v xs h.1)

pub All-take : (P : KeyValue → Type 0) (n : ℕ) (xs : List KeyValue) → All P xs → All P (take n xs)
All-take P zero xs h = tt
All-take P (suc n) [] h = tt
All-take P (suc n) (x ∷ xs) h = (h.0, All-take P n xs h.1)

any-take_none :
    (k v n : ℕ) (xs : List KeyValue)
    → any (is_pair k v) xs ≡ false
    → any (is_pair k v) (take n xs) ≡ false
any-take_none k v zero xs h = refl
any-take_none k v (suc n) [] h = refl
any-take_none k v (suc n) (x ∷ xs) h = ground (arith, any-take_none k v n xs)

pub take-IsSorted : (n : ℕ) (xs : List KeyValue) → IsSorted xs → IsSorted (take n xs)
take-IsSorted zero xs h = tt
take-IsSorted (suc n) [] h = tt
take-IsSorted (suc n) (x ∷ xs) h = (All-take (λ y. x.0 ≤ y.0) n xs h.0, take-IsSorted n xs h.1)

pub take-IsDistinct : (n : ℕ) (xs : List KeyValue) → IsDistinct xs → IsDistinct (take n xs)
take-IsDistinct zero xs h = tt
take-IsDistinct (suc n) [] h = tt
take-IsDistinct (suc n) (x ∷ xs) h = (any-take_none x.0 x.1 n xs h.0, take-IsDistinct n xs h.1)

-- Below the cut all is as in the whole.
position-take :
    (k v high : ℕ) (xs : List KeyValue)
    → IsSorted xs
    → k < high
    → position k v (take (lower_bound high xs) xs) ≡ position k v xs
unfolding lower_bound
position-take k v high [] h lt = refl
position-take k v high (x ∷ xs) h lt = elim (Bool-cases (ltb x.0 high)) [
  | inl under ↦ rw under (ground (arith, position-take k v high xs h.1 lt))
  | inr above ↦
      let far : All (λ y. k < y.0) (x ∷ xs) =
        (ground arith, All-map (λ y p. ground (arith, p)) xs h.0) in
      rw above (sym (position_above k v (x ∷ xs) far))
]

count_upto-take :
    (k high : ℕ) (xs : List KeyValue)
    → IsSorted xs
    → k < high
    → count_upto k (take (lower_bound high xs) xs) ≡ count_upto k xs
unfolding lower_bound
count_upto-take k high [] h lt = refl
count_upto-take k high (x ∷ xs) h lt = elim (Bool-cases (ltb x.0 high)) [
  | inl under ↦ rw under (ground (arith, count_upto-take k high xs h.1 lt))
  | inr above ↦
      let far : All (λ y. k < y.0) xs = All-map (λ y p. ground (arith, p)) xs h.0 in
      rw above (ground (arith, count_upto_above k xs far))
]

any-take :
    (k v high : ℕ) (xs : List KeyValue)
    → IsSorted xs
    → k < high
    → any (is_pair k v) (take (lower_bound high xs) xs) ≡ any (is_pair k v) xs
unfolding lower_bound
any-take k v high [] h lt = refl
any-take k v high (x ∷ xs) h lt = elim (Bool-cases (ltb x.0 high)) [
  | inl under ↦ rw under (ground (arith, any-take k v high xs h.1 lt))
  | inr above ↦
      let far : All (λ y. k < y.0) (x ∷ xs) =
        (ground arith, All-map (λ y p. ground (arith, p)) xs h.0) in
      rw above (sym (any_above k v (x ∷ xs) far))
]

take_below :
    (high : ℕ) (xs : List KeyValue) → All (λ y. ltb y.0 high ≡ true) (take (lower_bound high xs) xs)
unfolding lower_bound
take_below high [] = tt
take_below high (x ∷ xs) = elim (Bool-cases (ltb x.0 high)) [
  | inl under ↦ rw under (under, take_below high xs)
  | inr above ↦ rw above tt
]

take_all : (xs : List KeyValue) → take (length xs) xs ≡ xs
take_all [] = refl
take_all (x ∷ xs) = ap (◌∷◌ x) (take_all xs)

-- The items of a base node that are copied: those below the high key.
abbrev pub cut : KeyNodeId → List KeyValue → List KeyValue
cut high items = take (copy_end high items) items

module _ (high : KeyNodeId) (items : List KeyValue) (sorted : IsSorted items) where
  pub cut-index_of :
      (k v : ℕ) → below high k ≡ true → index_of k v (cut high items) ≡ index_of k v items
  unfolding copy_end
  cut-index_of k v b = elim (Bool-cases (high.1 == invalid_node_id)) [
    | inl unbounded ↦ rw (unbounded, take_all items) refl
    | inr bounded ↦
        let lt : k < high.0 = ground arith in
        rw
          (
            bounded,
            position-take k v high.0 items sorted lt,
            count_upto-take k high.0 items sorted lt,
          )
          refl
  ]

  pub cut-any :
      (k v : ℕ) → below high k ≡ true → any (is_pair k v) (cut high items) ≡ any (is_pair k v) items
  unfolding copy_end
  cut-any k v b = elim (Bool-cases (high.1 == invalid_node_id)) [
    | inl unbounded ↦ rw (unbounded, take_all items) refl
    | inr bounded ↦
        let lt : k < high.0 = ground arith in rw bounded (any-take k v high.0 items sorted lt)
  ]

  pub cut-below : All (λ y. below high y.0 ≡ true) (cut high items)
  unfolding copy_end
  cut-below = elim (Bool-cases (high.1 == invalid_node_id)) [
    | inl unbounded ↦ every (λ y. ground arith) (cut high items)
    | inr bounded ↦ rw bounded (
        All-map (λ y p. ground (arith, p)) (take (lower_bound high.0 items) items)
          (take_below high.0 items))
  ]
    where
      every : {P : KeyValue → Type 0} → ((y : KeyValue) → P y) → (ys : List KeyValue) → All P ys
      every f [] = tt
      every f (y ∷ ys) = (f y, every f ys)

index_of-le-count :
    (k v : ℕ) (xs : List KeyValue) → IsSorted xs → count_below k xs ≤ (index_of k v xs).0
index_of-le-count k v xs h = elim (Option-cases (position k v xs)) [
  | inl absent ↦ rw absent (count_below-le k xs)
  | inr (i, found) ↦ rw found (position_bounds k v i xs h found).0
]

-- In the order of the sorted set the indices ascend.
pub IsOrdered-sorted :
    (xs : List Delta) (base : List KeyValue)
    → IsSorted base
    → IsCmpSorted xs
    → IsSingle xs
    → All (λ x. x.index_pair ≡ index_of x.item.0 x.item.1 base) xs
    → IsOrdered xs
IsOrdered-sorted [] base sb h d p = tt
IsOrdered-sorted (x ∷ xs) base sb h d p =
    (ordered_all xs h.0 p.1, d.0, IsOrdered-sorted xs base sb h.1 d.1 p.1)
  where
    ordered_all :
        (ys : List Delta)
        → All (λ y. delta_cmp y x ≡ false) ys
        → All (λ x. x.index_pair ≡ index_of x.item.0 x.item.1 base) ys
        → All (λ y. (x.item.0 ≤ y.item.0) × (x.index_pair.0 ≤ y.index_pair.0)) ys
    ordered_all [] h q = tt
    ordered_all (y ∷ ys) h q = (
      elim (dec_lt x.item.0 y.item.0) [
        | yes lt ↦
            let at = ap (λ (i : ℕ × Bool). i.0) p.0 in
            let at' = ap (λ (i : ℕ × Bool). i.0) q.0 in
            (
              omega (arith, lt),
              omega (
                arith,
                at,
                at',
                index_of_below x.item.0 y.item.0 x.item.1 base sb lt,
                index_of-le-count y.item.0 y.item.1 base sb,
              ),
            )
        | no ge ↦ ground (arith, h.0)
      ],
      ordered_all ys h.1 q.1,
    )
