-- ===== src/Inner/Backward/Before.antt =====
-- Away from the neighbours of its data nodes the search finds the greatest separator below the key.
use multiprocessor_programmi.Prelude.{
  ℕ, zero, suc, ◌-◌, ◌≤◌, ◌<◌, ◌≡◌, ◌≢◌, ◌⊎◌, inl, inr, refl, ◌∙◌, false, ◌&&◌, ◌||◌, List, [], ◌∷◌,
  none, some, ◌==◌, ltb, leb, if◌then◌else◌, All, All-map, arith, Bool-cases,
}
use multiprocessor_programmi.Leaf.{KeyNodeId, invalid_node_id}
use multiprocessor_programmi.Leaf.Spec.{IsBelowHigh}
use multiprocessor_programmi.Leaf.Point.{below_split}
use multiprocessor_programmi.Inner.{
  InnerChain, inner, inner_insert, inner_delete, inner_split, inner_remove, inner_merge,
  inner_abort, inner_low_key_pair, inner_high_key_pair, upper_bound, id_at,
}
use multiprocessor_programmi.Inner.Floor.{IsFloor, IsFloor-same, IsFloor-first}
use multiprocessor_programmi.Inner.Place.{lookup-none}
use multiprocessor_programmi.Inner.Spec.{separator, lookup, IsAscending, IsValid}
use multiprocessor_programmi.Inner.Navigate.{next_above, next_none, from_below, deleted-IsFloor}
use multiprocessor_programmi.Inner.Backward.{
  has_key, locate_separator_by_key_bi, navigate_inner_node_bi,
}

-- The key is not the separator after that of a data node, and the first item of the base node that the
-- search ends in does not have it.
abbrev pub IsAway : ℕ → InnerChain → Type 0
IsAway key (inner low_key high_key items) = has_key key items 0 ≡ false
IsAway key (inner_insert item next_item location child) =
    ((next_item.1 ≡ invalid_node_id) ⊎ (next_item.0 ≢ key)) × IsAway key child
IsAway key (inner_delete item prev_item next_item location child) =
    ((next_item.1 ≡ invalid_node_id) ⊎ (next_item.0 ≢ key)) × IsAway key child
IsAway key (inner_split insert_item n child) = IsAway key child
IsAway key (inner_remove removed_id child) = IsAway key child
IsAway key (inner_merge delete_item right child) =
    (delete_item.0 < key → IsAway key right) × (key ≤ delete_item.0 → IsAway key child)
IsAway key (inner_abort child) = IsAway key child

upper_bound-All : (k : ℕ) (xs : List KeyNodeId) → All (λ y. k < y.0) xs → upper_bound k xs ≡ 0
unfolding upper_bound
upper_bound-All k [] h = refl
upper_bound-All k (x ∷ xs) h = ground (arith, h.0)

-- An item that is passed by.
passed :
    (k : ℕ) (first x : KeyNodeId) (xs : List KeyNodeId)
    → (x.0 == suc k) ≡ false
    → ltb (suc k) x.0 ≡ false
    → locate_separator_by_key_bi (suc k) (first ∷ x ∷ xs)
      ≡ locate_separator_by_key_bi (suc k) (x ∷ xs)
unfolding locate_separator_by_key_bi has_key upper_bound id_at
passed k first x xs away upto = rw upto (at_place (upper_bound (suc k) xs))
  where
    at_place :
        (j : ℕ)
        → (if has_key (suc k) (x ∷ xs) j
            then (if suc j == 0 then none else id_at (first ∷ x ∷ xs) (suc j - 1))
            else id_at (x ∷ xs) j)
          ≡ (if has_key (suc k) (x ∷ xs) j
              then (if j == 0 then none else id_at (x ∷ xs) (j - 1))
              else id_at (x ∷ xs) j)
    at_place zero = rw away refl
    at_place (suc i) =
        let once : suc i - 1 ≡ i = omega arith in
        let twice : suc (suc i) - 1 ≡ suc i = omega arith in ground (arith, once, twice)

-- A base node, searched from an item that does not have the key.
pub base_before :
    (k : ℕ) (first : KeyNodeId) (xs : List KeyNodeId)
    → first.0 ≢ suc k
    → IsAscending xs
    → (id : ℕ) × (locate_separator_by_key_bi (suc k) (first ∷ xs) ≡ some id)
      × IsFloor (lookup xs) first.1 k id
unfolding locate_separator_by_key_bi has_key upper_bound id_at
base_before k first [] away a = (first.1, ground (arith, away), inr (λ t le. refl, refl))
base_before k first (x ∷ xs) away a = elim (Bool-cases (ltb (suc k) x.0)) [
  | inl above ↦
      let lt : k < x.0 = ground arith in
      (
        first.1,
        ground (arith, away),
        inr (
          λ t le. lookup-none k t (x ∷ xs) le (lt, All-map (λ y p. omega (arith, p, lt)) xs a.0),
          refl,
        ),
      )
  | inr upto ↦ elim (Bool-cases (x.0 == suc k)) [
    | inl this ↦
        let at_key : x.0 ≡ suc k = ground arith in
        let last = upper_bound-All (suc k) xs (All-map (λ y p. omega (arith, p, at_key)) xs a.0) in
        (
          first.1,
          rw (upto, last, this) refl,
          inr (
            λ t le.
                lookup-none k t (x ∷ xs) le
                  (omega (arith, at_key), All-map (λ y p. omega (arith, p, at_key)) xs a.0),
            refl,
          ),
        )
    | inr other ↦
        let (id, found, f) = base_before k x xs (ground arith) a.1 in
        (
          id,
          passed k first x xs (ground arith) upto ∙ found,
          IsFloor-first (lookup xs) (lookup (x ∷ xs)) x.1 k id first.1 x.0 (ground arith)
              (ground arith) (λ t lt. ground arith) (λ t le. lookup-none x.0 t xs le a.0) f,
        )
  ]
]

-- Take a well-formed chain whose range holds the key k, and let k + 1 be away from the neighbours of its
-- data nodes. NavigateInnerNodeBI of k + 1 returns the id of the greatest separator below k + 1, or the
-- low key's id if there is none.
pub navigate_inner_node_bi-IsFloor :
    (c : InnerChain) (k : ℕ)
    → IsValid c
    → IsBelowHigh (inner_high_key_pair c) k
    → IsAway (suc k) c
    → (id : ℕ) × (navigate_inner_node_bi (suc k) c ≡ some id)
      × IsFloor (separator c) (inner_low_key_pair c).1 k id
unfolding navigate_inner_node_bi inner_low_key_pair inner_high_key_pair has_key
navigate_inner_node_bi-IsFloor (inner low_key high_key items) k (first, rest, whole, low, h) b
      away =
    let test = rw whole at away in
    rw (whole, ← low) (base_before k first rest (λ e. ground (arith, e, test)) h)
navigate_inner_node_bi-IsFloor (inner_insert item next_item l child) k (next, located, h) b away =
    let (id, found, f) = navigate_inner_node_bi-IsFloor child k h b away.1 in
    elim (Bool-cases (ltb item.0 (suc k))) [
      | inl upto ↦ elim (Bool-cases (next_item.1 == invalid_node_id || ltb (suc k) next_item.0)) [
        | inl here ↦
            rw (upto, here)
              (
                item.1,
                refl,
                inl (
                  item.0,
                  ground arith,
                  ground arith,
                  λ t lt le. ground (
                    arith,
                    next_none (separator child) k item.0 next_item next (ground arith) t lt le,
                  ),
                ),
              )
        | inr past ↦
            let beyond : (next_item.1 == invalid_node_id || ltb k next_item.0) ≡ false =
              ground (arith, away.0) in
            rw (upto, past)
              (
                id,
                found,
                next_above (separator child) _ _ k item.0 id next_item next (λ t lt. ground arith)
                    beyond f,
              )
      ]
      | inr above ↦
          let test : ((next_item.1 == invalid_node_id || ltb (suc k) next_item.0)
                && ltb item.0 (suc k))
              ≡ false =
            ground arith in
          rw test (id, found, IsFloor-same (separator child) _ _ k id (λ t le. ground arith) f)
    ]
navigate_inner_node_bi-IsFloor (inner_delete item prev_item next_item l child) k
      (next, previous, located, h) b away =
    let (id, found, f) = navigate_inner_node_bi-IsFloor child k h b away.1 in
    let low = (inner_low_key_pair child).1 in
    elim (Bool-cases (
      (low == prev_item.1 || ltb prev_item.0 (suc k))
      && (next_item.1 == invalid_node_id || ltb (suc k) next_item.0))) [
        | inl here ↦ rw here (
          prev_item.1,
          refl,
          deleted-IsFloor (separator child) _ k item.0 prev_item previous
              (next_none (separator child) k item.0 next_item next (ground arith)) (ground arith),
        )
        | inr past ↦ elim (Bool-cases (leb item.0 k)) [
          | inl upto ↦
              let from =
                from_below (separator child) _ k item.0 prev_item previous (ground arith) in
              let beyond : (next_item.1 == invalid_node_id || ltb k next_item.0) ≡ false =
                ground (arith, away.0, from) in
              rw past (
                id,
                found,
                next_above (separator child) _ _ k item.0 id next_item next (λ t lt. ground arith)
                    beyond f,
              )
          | inr above ↦
              rw past (id, found, IsFloor-same (separator child) _ _ k id (λ t le. ground arith) f)
        ]
      ]
navigate_inner_node_bi-IsFloor (inner_split insert_item m child) k (range, new_id, h) b away =
    let (id, found, f) =
      navigate_inner_node_bi-IsFloor child k h (below_split k range b new_id) away in
    (id, found, IsFloor-same (separator child) _ _ k id (λ t le. ground arith) f)
navigate_inner_node_bi-IsFloor (inner_remove removed_id child) k h b away = absurd h
navigate_inner_node_bi-IsFloor (inner_merge delete_item right child) k (range, apart, hr, hl) b
      away =
    elim (Bool-cases (ltb delete_item.0 (suc k))) [
      | inl in_right ↦
          let (id, found, f) =
            navigate_inner_node_bi-IsFloor right k hr b (away.0 (ground arith)) in
          rw in_right (
            id,
            found,
            IsFloor-first (separator right) _ (inner_low_key_pair right).1 k id
                (inner_low_key_pair child).1 delete_item.0 (ground arith) (ground arith)
                (λ t lt. ground arith) apart f,
          )
      | inr in_left ↦
          let (id, found, f) =
            navigate_inner_node_bi-IsFloor child k hl (ground arith) (away.1 (ground arith)) in
          rw in_left (id, found, IsFloor-same (separator child) _ _ k id (λ t le. ground arith) f)
    ]
navigate_inner_node_bi-IsFloor (inner_abort child) k h b away = absurd h
