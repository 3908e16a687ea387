-- ===== src/Inner/Collect/Cut.antt =====
-- How the high key cuts the items of a base node.
use multiprocessor_programmi.Prelude.{
  ℕ, zero, suc, ◌<◌, ◌≡◌, refl, sym, ap, inl, inr, true, List, [], ◌∷◌, some, ◌==◌, ltb,
  if◌then◌else◌, take, drop, All, All-map, arith, Bool-cases, take-length,
}
use multiprocessor_programmi.Leaf.{NodeId, KeyNodeId, invalid_node_id}
use multiprocessor_programmi.Consolidate.Set.{below}
use multiprocessor_programmi.Inner.Spec.{lookup, IsAscending}
use multiprocessor_programmi.Inner.Place.{lookup-none}
use multiprocessor_programmi.Inner.Collect.{first_from, seps_end, seps_start}

-- The items below the high key.
abbrev pub cut_seps : KeyNodeId → List KeyNodeId → List KeyNodeId
cut_seps high ys = if high.1 == invalid_node_id then ys else take (first_from high.0 ys) ys

-- What the loop copies from: the items below the high key, without the first one if it is the low key.
pub copied-cut_seps :
    (high : KeyNodeId) (low_id : NodeId) (first : KeyNodeId) (rest : List KeyNodeId)
    → drop (seps_start low_id first) (take (seps_end high (first ∷ rest)) (first ∷ rest))
      ≡ (if first.1 == low_id then cut_seps high rest else first ∷ cut_seps high rest)
unfolding seps_end
copied-cut_seps high low_id first rest = elim (Bool-cases (high.1 == invalid_node_id)) [
  | inl unbounded ↦ elim (Bool-cases (first.1 == low_id)) [
    | inl low ↦ rw (unbounded, low) (take-length rest)
    | inr other ↦ rw (unbounded, other) (ap (◌∷◌ first) (take-length rest))
  ]
  | inr bounded ↦ elim (Bool-cases (first.1 == low_id)) [
    | inl low ↦ rw (bounded, low) refl
    | inr other ↦ rw (bounded, other) refl
  ]
]

All-take : (P : KeyNodeId → Type 0) (n : ℕ) (xs : List KeyNodeId) → All P xs → All P (take n xs)
All-take P zero xs h = tt
All-take P (suc n) [] h = tt
All-take P (suc n) (x ∷ xs) h = (h.0, All-take P n xs h.1)

take-IsAscending : (n : ℕ) (xs : List KeyNodeId) → IsAscending xs → IsAscending (take n xs)
take-IsAscending zero xs h = tt
take-IsAscending (suc n) [] h = tt
take-IsAscending (suc n) (x ∷ xs) h =
    (All-take (λ y. x.0 < y.0) n xs h.0, take-IsAscending n xs h.1)

take_under : (high : ℕ) (xs : List KeyNodeId) → All (λ y. y.0 < high) (take (first_from high xs) xs)
unfolding first_from
take_under high [] = tt
take_under high (x ∷ xs) = elim (Bool-cases (ltb x.0 high)) [
  | inl under ↦ rw under (ground arith, take_under high xs)
  | inr over_it ↦ rw over_it tt
]

lookup-take :
    (k high : ℕ) (xs : List KeyNodeId)
    → IsAscending xs
    → k < high
    → lookup (take (first_from high xs) xs) k ≡ lookup xs k
unfolding first_from
lookup-take k high [] h lt = refl
lookup-take k high (x ∷ xs) h lt = elim (Bool-cases (ltb x.0 high)) [
  | inl under ↦ rw under (ap (λ o. if x.0 == k then some x.1 else o) (lookup-take k high xs h.1 lt))
  | inr over_it ↦
      let far : All (λ y. k < y.0) (x ∷ xs) =
        (ground arith, All-map (λ y p. ground (arith, p)) xs h.0) in
      rw over_it (sym (lookup-none k k (x ∷ xs) (omega arith) far))
]

module _ (high : KeyNodeId) (xs : List KeyNodeId) where
  pub All-cut_seps : (P : KeyNodeId → Type 0) → All P xs → All P (cut_seps high xs)
  All-cut_seps P h = elim (Bool-cases (high.1 == invalid_node_id)) [
    | inl unbounded ↦ rw unbounded h
    | inr bounded ↦ rw bounded (All-take P (first_from high.0 xs) xs h)
  ]

  pub cut_seps-IsAscending : IsAscending xs → IsAscending (cut_seps high xs)
  cut_seps-IsAscending h = elim (Bool-cases (high.1 == invalid_node_id)) [
    | inl unbounded ↦ rw unbounded h
    | inr bounded ↦ rw bounded (take-IsAscending (first_from high.0 xs) xs h)
  ]

  pub cut_seps-below : All (λ y. below high y.0 ≡ true) (cut_seps high xs)
  cut_seps-below = elim (Bool-cases (high.1 == invalid_node_id)) [
    | inl unbounded ↦ rw unbounded (every xs)
    | inr bounded ↦
        rw bounded (
          All-map (λ y p. ground (arith, p)) (take (first_from high.0 xs) xs)
            (take_under high.0 xs))
  ]
    where
      every : (ys : List KeyNodeId) → All (λ (y : KeyNodeId). true ≡ true) ys
      every [] = tt
      every (y ∷ ys) = (refl, every ys)

  pub lookup-cut_seps :
      (k : ℕ) → IsAscending xs → below high k ≡ true → lookup (cut_seps high xs) k ≡ lookup xs k
  lookup-cut_seps k h b = elim (Bool-cases (high.1 == invalid_node_id)) [
    | inl unbounded ↦ rw unbounded refl
    | inr bounded ↦ rw bounded (lookup-take k high.0 xs h (ground arith))
  ]
