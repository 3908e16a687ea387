-- ===== src/Inner/Tests.antt =====
-- An inner node with a separator deleted, one inserted, and a merge with its right sibling.
use multiprocessor_programmi.Prelude.{ℕ, ◌≡◌, ◌==◌, inl, inr, refl, [], ◌∷◌, some, arith}
use multiprocessor_programmi.Leaf.Spec.{IsBelowHigh}
use multiprocessor_programmi.Inner.{
  InnerChain, inner, inner_insert, inner_delete, inner_merge, inner_low_key_pair,
  inner_high_key_pair, navigate_inner_node,
}
use multiprocessor_programmi.Inner.Floor.{IsFloor}
use multiprocessor_programmi.Inner.Spec.{separator, IsValid}
use multiprocessor_programmi.Inner.Split.{split_inner}
use multiprocessor_programmi.Inner.SplitHalves.{Halves, split_inner-Halves}
use multiprocessor_programmi.Inner.Navigate.{navigate_inner_node-IsFloor}

abbrev pub left : InnerChain
left = inner (0, 100) (50, 9) ((0, 100) ∷ (10, 110) ∷ (30, 130) ∷ [])

abbrev pub right : InnerChain
right = inner (50, 150) (0, 0) ((50, 150) ∷ (60, 160) ∷ [])

-- (20, 120) inserted, then (10, 110) deleted
abbrev pub updated : InnerChain
updated = inner_delete (10, 110) (0, 100) (20, 120) 1 (inner_insert (20, 120) (30, 130) 2 left)

abbrev pub joined : InnerChain
joined = inner_merge (50, 9) right updated

pub left-IsValid : IsValid left
left-IsValid = ((0, 100), (10, 110) ∷ (30, 130) ∷ [], refl, refl, ((omega arith, tt), (tt, tt)))

updated-IsValid : IsValid updated
unfolding inner_low_key_pair
updated-IsValid = (
  inr (ground arith, omega arith, refl, λ t lt lt'. ground arith),
  inl (refl, λ t lt. ground arith),
  (omega arith, omega arith),
  (
    inr (ground arith, omega arith, refl, λ t lt lt'. ground arith),
    (omega arith, omega arith),
    left-IsValid,
  ),
)

pub joined-IsValid : IsValid joined
unfolding inner_high_key_pair
joined-IsValid =
    (refl, λ t le. ground arith, ((50, 150), (60, 160) ∷ [], refl, refl, (tt, tt)), updated-IsValid)

of_gone : navigate_inner_node 15 updated ≡ some 100
unfolding navigate_inner_node
of_gone = refl

of_new : navigate_inner_node 25 updated ≡ some 120
unfolding navigate_inner_node
of_new = refl

in_right : navigate_inner_node 55 joined ≡ some 150
unfolding navigate_inner_node
in_right = refl

unbounded : IsBelowHigh (inner_high_key_pair joined) 55
unfolding inner_high_key_pair
unbounded = inl refl

navigate_inner_node-IsFloor_example :
    (id : ℕ) × (navigate_inner_node 55 joined ≡ some id)
    × IsFloor (separator joined) (inner_low_key_pair joined).1 55 id
navigate_inner_node-IsFloor_example = navigate_inner_node-IsFloor joined 55 joined-IsValid unbounded

split_inner-Halves_example :
    (left' right' : InnerChain) × (split_inner 4
        (λ id. id == 110)
        7
        (0, 100)
        (50, 9)
        ((0, 100) ∷ (10, 110) ∷ (30, 130) ∷ (40, 140) ∷ [])
      ≡ some (left', right'))
    × Halves 7 (0, 100) (50, 9) ((0, 100) ∷ (10, 110) ∷ (30, 130) ∷ (40, 140) ∷ []) left' right'
split_inner-Halves_example =
    split_inner-Halves 4 (λ id. id == 110) 7 (0, 100) (50, 9)
      ((0, 100) ∷ (10, 110) ∷ (30, 130) ∷ (40, 140) ∷ []) (omega arith) (omega arith) (omega arith)
      (
        (0, 100),
        (10, 110) ∷ (30, 130) ∷ (40, 140) ∷ [],
        refl,
        refl,
        ((omega arith, (omega arith, tt)), ((omega arith, tt), (tt, tt))),
      )
      (inr (omega arith), (inr (omega arith), (inr (omega arith), (inr (omega arith), tt)))) refl
