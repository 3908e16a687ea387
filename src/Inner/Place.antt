-- ===== src/Inner/Place.antt =====
-- The place of a key in a base node, and the bounds that the search of a chain keeps around it.
use multiprocessor_programmi.Prelude.{
  ℕ, zero, suc, ◌+◌, ◌-◌, ◌≤◌, ◌<◌, ◌≡◌, inl, inr, refl, List, [], ◌∷◌, none, some, ltb, leb, take,
  drop, length, min, max, All, All-map, arith, Bool-cases,
}
use multiprocessor_programmi.Leaf.{KeyNodeId}
use multiprocessor_programmi.Inner.{
  InnerChain, inner, inner_insert, inner_delete, inner_split, inner_remove, inner_merge,
  inner_abort, header_items, upper_bound, id_at, locate_separator_by_key,
}
use multiprocessor_programmi.Inner.Floor.{IsFloor, IsFloor-first}
use multiprocessor_programmi.Inner.Spec.{
  separators, lookup, count_below, count_upto, IsAscending, IsLocated, IsValid,
}

count_upto_none : (k : ℕ) (xs : List KeyNodeId) → All (λ y. k < y.0) xs → count_upto k xs ≡ 0
count_upto_none k [] h = refl
count_upto_none k (x ∷ xs) h = ground (arith, count_upto_none k xs h.1)

count_upto-length : (k : ℕ) (xs : List KeyNodeId) → count_upto k xs ≤ length xs
count_upto-length k [] = omega arith
count_upto-length k (x ∷ xs) = ground (arith, count_upto-length k xs)

count_mono : (j k : ℕ) (xs : List KeyNodeId) → j ≤ k → count_upto j xs ≤ count_upto k xs
count_mono j k [] h = omega arith
count_mono j k (x ∷ xs) h = ground (arith, count_mono j k xs h)

count_apart : (j k : ℕ) (xs : List KeyNodeId) → k < j → count_upto k xs ≤ count_below j xs
count_apart j k [] h = omega arith
count_apart j k (x ∷ xs) h = ground (arith, count_apart j k xs h)

-- A cut around the place of the key leaves the place where it is.
cut-upper_bound :
    (k : ℕ) (xs : List KeyNodeId) (s e : ℕ)
    → IsAscending xs
    → s ≤ count_upto k xs
    → count_upto k xs ≤ e
    → s + upper_bound k (drop s (take e xs)) ≡ count_upto k xs
unfolding upper_bound
cut-upper_bound k [] zero zero h le le' = refl
cut-upper_bound k [] zero (suc e) h le le' = refl
cut-upper_bound k [] (suc s) e h le le' = absurd (omega arith)
cut-upper_bound k (x ∷ xs) zero zero h le le' = ground arith
cut-upper_bound k (x ∷ xs) zero (suc e) h le le' = elim (Bool-cases (ltb k x.0)) [
  | inl above ↦
      let lt : k < x.0 = ground arith in
      let z = count_upto_none k xs (All-map (λ y p. omega (arith, p, lt)) xs h.0) in ground arith
  | inr upto ↦ ground (arith, cut-upper_bound k xs zero e h.1)
]
cut-upper_bound k (x ∷ xs) (suc s) zero h le le' = absurd (omega arith)
cut-upper_bound k (x ∷ xs) (suc s) (suc e) h le le' = elim (Bool-cases (ltb k x.0)) [
  | inl above ↦
      let lt : k < x.0 = ground arith in
      let z = count_upto_none k xs (All-map (λ y p. omega (arith, p, lt)) xs h.0) in
      absurd (ground arith)
  | inr upto ↦ ground (arith, cut-upper_bound k xs s e h.1)
]

pub lookup-none :
    (k t : ℕ) (xs : List KeyNodeId) → t ≤ k → All (λ y. k < y.0) xs → lookup xs t ≡ none
lookup-none k t [] le h = refl
lookup-none k t (x ∷ xs) le h = ground (arith, lookup-none k t xs le h.1)

-- The item at the place of the key is its floor.
id_at-IsFloor :
    (k : ℕ) (first : KeyNodeId) (xs : List KeyNodeId)
    → IsAscending xs
    → (id : ℕ) × (id_at (first ∷ xs) (count_upto k xs) ≡ some id) × IsFloor (lookup xs) first.1 k id
unfolding id_at
id_at-IsFloor k first [] h = (first.1, refl, inr (λ t le. refl, refl))
id_at-IsFloor k first (x ∷ xs) h = elim (Bool-cases (leb x.0 k)) [
  | inl upto ↦
      let (id, here, f) = id_at-IsFloor k x xs h.1 in
      let next : count_upto k (x ∷ xs) ≡ suc (count_upto k xs) = ground arith in
      (
        id,
        rw next here,
        IsFloor-first (lookup xs) (lookup (x ∷ xs)) x.1 k id first.1 x.0 (ground arith)
            (ground arith) (λ t lt. ground arith) (λ t le. lookup-none x.0 t xs le h.0) f,
      )
  | inr above ↦
      let lt : k < x.0 = ground arith in
      let far = All-map (λ y p. omega (arith, p, lt)) xs h.0 in
      (
        first.1,
        rw (above, count_upto_none k xs far) refl,
        inr (λ t le. lookup-none k t (x ∷ xs) le (lt, far), refl),
      )
]

-- Where the search of a chain stands: the place of the key in the base node lies between the bounds.
abbrev pub IsNarrow : InnerChain → ℕ → ℕ → ℕ → Type 0
IsNarrow (inner low_key high_key items) k s e =
    (1 ≤ s)
    × (s ≤ suc (count_upto k (separators items)))
    × (suc (count_upto k (separators items)) ≤ e)
IsNarrow (inner_insert item next_item location child) k s e = IsNarrow child k s e
IsNarrow (inner_delete item prev_item next_item location child) k s e = IsNarrow child k s e
IsNarrow (inner_split insert_item n child) k s e = IsNarrow child k s e
IsNarrow (inner_remove removed_id child) k s e = IsNarrow child k s e
IsNarrow (inner_merge delete_item right child) k s e = Unit
IsNarrow (inner_abort child) k s e = IsNarrow child k s e

pub IsNarrow-whole : (c : InnerChain) (k : ℕ) → IsValid c → IsNarrow c k 1 (length (header_items c))
unfolding header_items
IsNarrow-whole (inner low_key high_key items) k (first, rest, e, low, h) =
    rw e (omega arith, omega arith, omega (arith, count_upto-length k rest))
IsNarrow-whole (inner_insert item next_item location child) k h = IsNarrow-whole child k h.2
IsNarrow-whole (inner_delete item prev_item next_item location child) k h =
    IsNarrow-whole child k h.3
IsNarrow-whole (inner_split insert_item n child) k h = IsNarrow-whole child k h.2
IsNarrow-whole (inner_remove removed_id child) k h = absurd h
IsNarrow-whole (inner_merge delete_item right child) k h = tt
IsNarrow-whole (inner_abort child) k h = absurd h

pub IsNarrow-start :
    (c : InnerChain) (k key location s e : ℕ)
    → key ≤ k
    → IsLocated c key location
    → IsNarrow c k s e
    → IsNarrow c k (max s location) e
IsNarrow-start (inner low_key high_key items) k key location s e le l n =
    (omega arith, omega (arith, count_mono key k (separators items) le), n.2)
IsNarrow-start (inner_insert item next_item l' child) k key location s e le l n =
    IsNarrow-start child k key location s e le l n
IsNarrow-start (inner_delete item prev_item next_item l' child) k key location s e le l n =
    IsNarrow-start child k key location s e le l n
IsNarrow-start (inner_split insert_item m child) k key location s e le l n =
    IsNarrow-start child k key location s e le l n
IsNarrow-start (inner_remove removed_id child) k key location s e le l n =
    IsNarrow-start child k key location s e le l n
IsNarrow-start (inner_merge delete_item right child) k key location s e le l n = tt
IsNarrow-start (inner_abort child) k key location s e le l n =
    IsNarrow-start child k key location s e le l n

pub IsNarrow-end :
    (c : InnerChain) (k key location s e : ℕ)
    → k < key
    → IsLocated c key location
    → IsNarrow c k s e
    → IsNarrow c k s (min e location)
IsNarrow-end (inner low_key high_key items) k key location s e lt l n =
    (n.0, n.1, omega (arith, count_apart key k (separators items) lt))
IsNarrow-end (inner_insert item next_item l' child) k key location s e lt l n =
    IsNarrow-end child k key location s e lt l n
IsNarrow-end (inner_delete item prev_item next_item l' child) k key location s e lt l n =
    IsNarrow-end child k key location s e lt l n
IsNarrow-end (inner_split insert_item m child) k key location s e lt l n =
    IsNarrow-end child k key location s e lt l n
IsNarrow-end (inner_remove removed_id child) k key location s e lt l n =
    IsNarrow-end child k key location s e lt l n
IsNarrow-end (inner_merge delete_item right child) k key location s e lt l n = tt
IsNarrow-end (inner_abort child) k key location s e lt l n =
    IsNarrow-end child k key location s e lt l n

place_of :
    (first : KeyNodeId) (rest : List KeyNodeId) (k s e : ℕ)
    → IsAscending rest
    → 1 ≤ s
    → s ≤ suc (count_upto k rest)
    → suc (count_upto k rest) ≤ e
    → s + upper_bound k (drop s (take e (first ∷ rest))) - 1 ≡ count_upto k rest
place_of first rest k zero e h one le le' = absurd (omega arith)
place_of first rest k (suc s) zero h one le le' = absurd (omega arith)
place_of first rest k (suc s) (suc e) h one le le' =
    omega (arith, cut-upper_bound k rest s e h (omega arith) (omega arith))

pub base-IsFloor :
    (low_key high_key first : KeyNodeId) (rest : List KeyNodeId) (k s e : ℕ)
    → first.1 ≡ low_key.1
    → IsAscending rest
    → IsNarrow (inner low_key high_key (first ∷ rest)) k s e
    → (id : ℕ) × (locate_separator_by_key k (first ∷ rest) s e ≡ some id)
      × IsFloor (lookup rest) low_key.1 k id
unfolding locate_separator_by_key
base-IsFloor low_key high_key first rest k s e low h n =
    rw (place_of first rest k s e h n.0 n.1 n.2, ← low) (id_at-IsFloor k first rest h)
