-- ===== src/Inner/Navigate.antt =====
-- The search of an inner chain finds the greatest separator that is not above the key.
use multiprocessor_programmi.Prelude.{
  ℕ, ◌≤◌, ◌<◌, ◌≡◌, inl, inr, refl, Bool, true, false, ◌&&◌, ◌||◌, Option, none, some, ◌==◌, ltb,
  leb, if◌then◌else◌, length, min, max, arith, dec_lt, Bool-cases,
}
use multiprocessor_programmi.Leaf.{KeyNodeId, invalid_node_id}
use multiprocessor_programmi.Leaf.Spec.{IsBelowHigh}
use multiprocessor_programmi.Leaf.Point.{below_split}
use multiprocessor_programmi.Inner.{
  InnerChain, inner, inner_insert, inner_delete, inner_split, inner_remove, inner_merge,
  inner_abort, inner_low_key_pair, inner_high_key_pair, header_items, navigate_inner,
  navigate_inner_node,
}
use multiprocessor_programmi.Inner.Floor.{IsFloor, IsFloor-same, IsFloor-above, IsFloor-first}
use multiprocessor_programmi.Inner.Spec.{separator, IsNext, IsPrevious, IsValid}
use multiprocessor_programmi.Inner.Place.{
  IsNarrow, IsNarrow-whole, IsNarrow-start, IsNarrow-end, base-IsFloor,
}

-- From the next separator on an update of the key is not seen.
pub next_above :
    (seps seps' : ℕ → Option ℕ) (low k key id : ℕ) (next_item : KeyNodeId)
    → IsNext seps key next_item
    → ((t : ℕ) → key < t → seps' t ≡ seps t)
    → (next_item.1 == invalid_node_id || ltb k next_item.0) ≡ false
    → IsFloor seps low k id
    → IsFloor seps' low k id
next_above seps seps' low k key id next_item (inl (last, nothing)) same test f =
    absurd (ground arith)
next_above seps seps' low k key id next_item (inr (there, lt, here, nothing)) same test f =
    IsFloor-above seps seps' low k id low next_item.0 next_item.1 (ground arith) here
      (λ t le. same t (omega arith)) f

pub next_none :
    (seps : ℕ → Option ℕ) (k key : ℕ) (next_item : KeyNodeId)
    → IsNext seps key next_item
    → (next_item.1 == invalid_node_id || ltb k next_item.0) ≡ true
    → (t : ℕ) → key < t
    → t ≤ k
    → seps t ≡ none
next_none seps k key next_item (inl (last, nothing)) test t lt le = nothing t lt
next_none seps k key next_item (inr (there, lt', here, nothing)) test t lt le =
    nothing t lt (ground arith)

max_swap : (a b : ℕ) → max a b ≡ max b a
max_swap a b = omega arith

min_swap : (a b : ℕ) → min a b ≡ min b a
min_swap a b = omega arith

-- The test that the item before a deleted one is the floor, from the left.
abbrev pub is_from : ℕ → ℕ → KeyNodeId → Bool
is_from low k prev_item = low == prev_item.1 || leb prev_item.0 k

pub from_below :
    (seps : ℕ → Option ℕ) (low k key : ℕ) (prev_item : KeyNodeId)
    → IsPrevious seps low key prev_item
    → key ≤ k
    → is_from low k prev_item ≡ true
from_below seps low k key prev_item (inl (first, nothing)) le = ground arith
from_below seps low k key prev_item (inr (other, lt, here, nothing)) le = ground arith

pub deleted-IsFloor :
    (seps : ℕ → Option ℕ) (low k key : ℕ) (prev_item : KeyNodeId)
    → IsPrevious seps low key prev_item
    → ((t : ℕ) → key < t → t ≤ k → seps t ≡ none)
    → is_from low k prev_item ≡ true
    → IsFloor (λ t. if key == t then none else seps t) low k prev_item.1
deleted-IsFloor seps low k key prev_item (inl (first, nothing)) next from = inr (
  λ t le. elim (dec_lt t key) [
    | yes lt ↦ ground (arith, nothing t lt)
    | no ge ↦ elim (dec_lt key t) [ yes gt ↦ ground (arith, next t gt le) | no le' ↦ ground arith ]
  ],
  first,
)
deleted-IsFloor seps low k key prev_item (inr (other, lt, here, nothing)) next from = inl (
  prev_item.0,
  ground arith,
  ground arith,
  λ t gt le. elim (dec_lt t key) [
    | yes lt' ↦ ground (arith, nothing t gt lt')
    | no ge ↦ elim (dec_lt key t) [
      | yes gt' ↦ ground (arith, next t gt' le)
      | no le' ↦ ground arith
    ]
  ],
)

-- The loop between two bounds that leave the place of the key.
navigate_inner-IsFloor :
    (c : InnerChain) (k s e : ℕ)
    → IsValid c
    → IsBelowHigh (inner_high_key_pair c) k
    → IsNarrow c k s e
    → (id : ℕ) × (navigate_inner k s e c ≡ some id)
      × IsFloor (separator c) (inner_low_key_pair c).1 k id
unfolding navigate_inner inner_low_key_pair inner_high_key_pair
navigate_inner-IsFloor (inner low_key high_key items) k s e (first, rest, whole, low, h) b n =
    rw whole (base-IsFloor low_key high_key first rest k s e low h (rw whole at n))
navigate_inner-IsFloor (inner_insert item next_item l child) k s e (next, located, h) b n =
    elim (Bool-cases (leb item.0 k)) [
      | inl upto ↦ elim (Bool-cases (next_item.1 == invalid_node_id || ltb k next_item.0)) [
        | inl here ↦
            rw (upto, here)
              (
                item.1,
                refl,
                inl (
                  item.0,
                  ground arith,
                  ground arith,
                  λ t lt le.
                      ground
                        (arith, next_none (separator child) k item.0 next_item next here t lt le),
                ),
              )
        | inr past ↦
            let (id, found, f) =
              navigate_inner-IsFloor child k (max s l) e h b
                (IsNarrow-start child k item.0 l s e (ground arith) located n) in
            rw (upto, past)
              (
                id,
                found,
                next_above (separator child) _ _ k item.0 id next_item next (λ t lt. ground arith)
                    past f,
              )
      ]
      | inr below ↦
          let (id, found, f) =
            navigate_inner-IsFloor child k s (min e l) h b
              (IsNarrow-end child k item.0 l s e (ground arith) located n) in
          rw below (id, found, IsFloor-same (separator child) _ _ k id (λ t le. ground arith) f)
    ]
navigate_inner-IsFloor (inner_delete item prev_item next_item l child) k s e
      (next, previous, located, h) b n =
    elim (Bool-cases (
      is_from (inner_low_key_pair child).1 k prev_item
      && (next_item.1 == invalid_node_id || ltb k next_item.0))) [
        | inl here ↦ rw here (
          prev_item.1,
          refl,
          deleted-IsFloor (separator child) _ k item.0 prev_item previous
              (next_none (separator child) k item.0 next_item next (ground arith)) (ground arith),
        )
        | inr past ↦ elim (Bool-cases (leb item.0 k)) [
          | inl upto ↦
              let (id, found, f) = navigate_inner-IsFloor child k (max l s) e h b (
                rw (max_swap l s) (IsNarrow-start child k item.0 l s e (ground arith) located n)) in
              let from =
                from_below (separator child) _ k item.0 prev_item previous (ground arith) in
              rw (past, upto)
                (
                  id,
                  found,
                  next_above (separator child) _ _ k item.0 id next_item next (λ t lt. ground arith)
                      (ground arith) f,
                )
          | inr below ↦
              let (id, found, f) =
                navigate_inner-IsFloor child k s (min l e) h b (
                  rw (min_swap l e) (IsNarrow-end child k item.0 l s e (ground arith) located n)) in
              rw (past, below)
                (id, found, IsFloor-same (separator child) _ _ k id (λ t le. ground arith) f)
        ]
      ]
navigate_inner-IsFloor (inner_split insert_item m child) k s e (range, new_id, h) b n =
    let (id, found, f) = navigate_inner-IsFloor child k s e h (below_split k range b new_id) n in
    (id, found, IsFloor-same (separator child) _ _ k id (λ t le. ground arith) f)
navigate_inner-IsFloor (inner_remove removed_id child) k s e h b n = absurd h
navigate_inner-IsFloor (inner_merge delete_item right child) k s e (range, apart, hr, hl) b n =
    elim (Bool-cases (leb delete_item.0 k)) [
      | inl in_right ↦
          let (id, found, f) =
            navigate_inner-IsFloor right k 1 (length (header_items right)) hr b
              (IsNarrow-whole right k hr) in
          rw in_right (
            id,
            found,
            IsFloor-first (separator right) _ (inner_low_key_pair right).1 k id
                (inner_low_key_pair child).1 delete_item.0 (ground arith) (ground arith)
                (λ t lt. ground arith) apart f,
          )
      | inr in_left ↦
          let (id, found, f) =
            navigate_inner-IsFloor child k 1 (length (header_items child)) hl (ground arith)
              (IsNarrow-whole child k hl) in
          rw in_left (id, found, IsFloor-same (separator child) _ _ k id (λ t le. ground arith) f)
    ]
navigate_inner-IsFloor (inner_abort child) k s e h b n = absurd h

-- `NavigateInnerNode` on a well-formed chain whose range holds the key returns, whichever data nodes,
-- splits and merges lie on the way, and its result is the id of the greatest separator that is not
-- above the key, or the low key's id if there is none.
pub navigate_inner_node-IsFloor :
    (c : InnerChain) (k : ℕ)
    → IsValid c
    → IsBelowHigh (inner_high_key_pair c) k
    → (id : ℕ) × (navigate_inner_node k c ≡ some id)
      × IsFloor (separator c) (inner_low_key_pair c).1 k id
unfolding navigate_inner_node
navigate_inner_node-IsFloor c k h b =
    navigate_inner-IsFloor c k 1 (length (header_items c)) h b (IsNarrow-whole c k h)
