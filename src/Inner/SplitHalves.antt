-- ===== src/Inner/SplitHalves.antt =====
-- A split leads every key to the child that it was led to before.
use multiprocessor_programmi.Prelude.{
  ℕ, zero, suc, ◌+◌, ◌-◌, ◌/◌, ◌≤◌, ◌<◌, ◌≡◌, refl, sym, ap, ◌∙◌, inl, inr, Bool, true, false, List,
  [], ◌∷◌, some, ltb, leb, if◌then◌else◌, length, drop, All, arith, Bool-cases, take-length,
}
use mathlib.Core.Path.{subst}
use multiprocessor_programmi.Leaf.{NodeId, KeyNodeId}
use multiprocessor_programmi.Leaf.Spec.{IsBelowHigh}
use multiprocessor_programmi.Inner.{
  InnerChain, inner, inner_split, inner_low_key_pair, inner_high_key_pair, upper_bound, id_at,
  navigate_inner_node,
}
use multiprocessor_programmi.Inner.Spec.{IsAscending, IsValid}
use multiprocessor_programmi.Inner.Split.{item_at, split_inner}

-- A search in a base node.
navigate_base :
    (k : ℕ) (low high first : KeyNodeId) (rest : List KeyNodeId)
    → navigate_inner_node k (inner low high (first ∷ rest))
      ≡ id_at (first ∷ rest) (upper_bound k rest)
unfolding navigate_inner_node
navigate_base k low high first rest =
    let whole = take-length rest in
    let position : 1 + upper_bound k rest - 1 ≡ upper_bound k rest = omega arith in
    rw (whole, position) refl

All-drop : (P : KeyNodeId → Type 0) (n : ℕ) (xs : List KeyNodeId) → All P xs → All P (drop n xs)
All-drop P zero xs h = h
All-drop P (suc n) [] h = tt
All-drop P (suc n) (x ∷ xs) h = All-drop P n xs h.1

drop-IsAscending : (n : ℕ) (xs : List KeyNodeId) → IsAscending xs → IsAscending (drop n xs)
drop-IsAscending zero xs h = h
drop-IsAscending (suc n) [] h = tt
drop-IsAscending (suc n) (x ∷ xs) h = drop-IsAscending n xs h.1

-- From the split key on the search passes by all items before the split.
id_at-drop :
    (k n : ℕ) (first s : KeyNodeId) (rest later : List KeyNodeId)
    → IsAscending rest
    → drop n rest ≡ s ∷ later
    → s.0 ≤ k
    → id_at (first ∷ rest) (upper_bound k rest) ≡ id_at (s ∷ later) (upper_bound k later)
unfolding id_at upper_bound
id_at-drop k zero first s [] later a e le = absurd (ground arith)
id_at-drop k zero first s (x ∷ xs) later a e le =
    let same : (x ≡ s) × (xs ≡ later) = ground arith in
    let low = ap (λ (y : KeyNodeId). y.0) same.0 in
    let passed : ltb k x.0 ≡ false = ground (arith, low) in
    rw passed (
      ap (λ (l : List KeyNodeId). id_at l (upper_bound k xs)) e
      ∙ ap (λ l. id_at (s ∷ later) (upper_bound k l)) same.1)
id_at-drop k (suc n) first s [] later a e le = absurd (ground arith)
id_at-drop k (suc n) first s (x ∷ xs) later a e le =
    let above : x.0 < s.0 =
      (subst (All (λ (y : KeyNodeId). x.0 < y.0)) e (All-drop (λ y. x.0 < y.0) n xs a.0)).0 in
    let passed : ltb k x.0 ≡ false = ground arith in
    rw passed (id_at-drop k n x s xs later a.1 e le)

drop-item_at :
    (n : ℕ) (xs : List KeyNodeId)
    → n < length xs
    → (later : List KeyNodeId) × (drop n xs ≡ item_at xs n ∷ later)
drop-item_at n [] h = absurd (omega arith)
drop-item_at zero (x ∷ xs) h = (xs, refl)
drop-item_at (suc n) (x ∷ xs) h = drop-item_at n xs (omega arith)

drop-cons :
    (m : ℕ) (x : KeyNodeId) (xs : List KeyNodeId) → 0 < m → drop m (x ∷ xs) ≡ drop (m - 1) xs
drop-cons zero x xs h = elim h [ ]
drop-cons (suc m) x xs h = let same : suc m - 1 ≡ m = omega arith in rw same refl

-- The right half, from the split key on, and the left one, below it.
same_child :
    (k m n : ℕ) (new_node_id : NodeId) (low high first s : KeyNodeId)
    (items rest later : List KeyNodeId)
    → items ≡ first ∷ rest
    → IsAscending rest
    → drop m items ≡ s ∷ later
    → drop (m - 1) rest ≡ s ∷ later
    → (if leb s.0 k
        then navigate_inner_node k (inner s high (drop m items))
        else navigate_inner_node k (inner_split (s.0, new_node_id) n (inner low high items)))
      ≡ navigate_inner_node k (inner low high items)
unfolding navigate_inner_node
same_child k m n new_node_id low high first s items rest later shape a tail tail' =
    elim (Bool-cases (leb s.0 k)) [
      | inl reached ↦ rw reached (
          ap (λ l. navigate_inner_node k (inner s high l)) tail
          ∙ navigate_base k s high s later
          ∙ sym (id_at-drop k (m - 1) first s rest later a tail' (ground arith))
          ∙ sym (
              ap (λ l. navigate_inner_node k (inner low high l)) shape
              ∙ navigate_base k low high first rest))
      | inr below ↦ rw below refl
    ]

-- What a split of an inner node makes: two well-formed nodes, linked by the new id, that lead each key
-- to the child that the whole led it to.
pub record Halves (new_node_id : NodeId) (low_key high_key : KeyNodeId) (items : List KeyNodeId)
    (left right : InnerChain) : Type 0 where
  pub split_key : ℕ
  pub left_low : inner_low_key_pair left ≡ low_key
  pub left_high : inner_high_key_pair left ≡ (split_key, new_node_id)
  pub right_low : (inner_low_key_pair right).0 ≡ split_key
  pub right_high : inner_high_key_pair right ≡ high_key
  pub left_valid : IsValid left
  pub right_valid : IsValid right
  pub same_child :
      (k : ℕ)
      → (if leb split_key k then navigate_inner_node k right else navigate_inner_node k left)
        ≡ navigate_inner_node k (inner low_key high_key items)

-- Let the node be well-formed, with as many items as the upper threshold, which is 2 or more, or with
-- more, each key in its range, the new node id valid, and the child at the split key not being removed.
-- The split of AdjustNodeSize makes two well-formed halves, linked by the new node id, and for every key
-- NavigateInnerNode on the half of its side returns what it returned on the whole.
pub split_inner-Halves :
    (upper : ℕ) (is_removed : NodeId → Bool) (new_node_id : NodeId) (low_key high_key : KeyNodeId)
    (items : List KeyNodeId)
    → 2 ≤ upper
    → upper ≤ length items
    → 0 < new_node_id
    → IsValid (inner low_key high_key items)
    → All (λ x. IsBelowHigh high_key x.0) items
    → is_removed (item_at items (length items / 2)).1 ≡ false
    → (left right : InnerChain) × (split_inner upper is_removed new_node_id low_key high_key items
        ≡ some (left, right))
      × Halves new_node_id low_key high_key items left right
unfolding split_inner inner_low_key_pair inner_high_key_pair
split_inner-Halves upper is_removed new_node_id low_key high_key items two le some_id v range
      alive =
    let m = length items / 2 in
    let s = item_at items m in
    let size : leb upper (length items) ≡ true = ground arith in
    let enough : ltb (length items) 2 ≡ false = ground arith in
    let (first, rest, shape, leads, ascending) = v in
    let (later, tail) = drop-item_at m items (omega arith) in
    let tail' = sym (ap (drop m) shape ∙ drop-cons m first rest (omega (arith, two, le))) ∙ tail in
    (
      inner_split (s.0, new_node_id) (length items - m) (inner low_key high_key items),
      inner s high_key (drop m items),
      rw (size, enough, alive) refl,
      record {
        split_key = s.0;
        left_low = refl;
        left_high = refl;
        right_low = refl;
        right_high = refl;
        left_valid = (
          (subst (All (λ (x : KeyNodeId). IsBelowHigh high_key x.0)) tail
              (All-drop _ m items range)).0,
          some_id,
          v,
        );
        right_valid = (
          s,
          later,
          tail,
          refl,
          (subst IsAscending tail' (drop-IsAscending (m - 1) rest ascending)).1,
        );
        same_child = λ k.
            same_child k m (length items - m) new_node_id low_key high_key first s items rest later
              shape ascending tail tail';
      },
    )
