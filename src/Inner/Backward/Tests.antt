-- ===== src/Inner/Backward/Tests.antt =====
-- The chains of the forward search, searched backward.
use multiprocessor_programmi.Prelude.{ℕ, ◌≡◌, inl, inr, refl, some, none, arith}
use multiprocessor_programmi.Leaf.Spec.{IsBelowHigh}
use multiprocessor_programmi.Inner.{
  InnerChain, inner_delete, inner_low_key_pair, inner_high_key_pair, upper_bound, id_at,
}
use multiprocessor_programmi.Inner.Floor.{IsFloor}
use multiprocessor_programmi.Inner.Spec.{separator, IsValid}
use multiprocessor_programmi.Inner.Tests.{left, left-IsValid, joined, joined-IsValid}
use multiprocessor_programmi.Inner.Backward.{
  has_key, locate_separator_by_key_bi, navigate_inner_node_bi,
}
use multiprocessor_programmi.Inner.Backward.Before.{IsAway, navigate_inner_node_bi-IsFloor}
use multiprocessor_programmi.Inner.Backward.Removed.{navigate_inner_node_bi-removed}

-- a separator's own key is led to the child before it
of_separator : navigate_inner_node_bi 60 joined ≡ some 150
unfolding navigate_inner_node_bi locate_separator_by_key_bi has_key upper_bound id_at
of_separator = refl

-- the merge key is led to the left part
of_merged : navigate_inner_node_bi 50 joined ≡ some 130
unfolding navigate_inner_node_bi locate_separator_by_key_bi has_key upper_bound id_at
    inner_low_key_pair
of_merged = refl

joined-IsAway : IsAway 60 joined
unfolding has_key
joined-IsAway = ((λ lt. refl), (λ le. absurd (omega (arith, le))))

unbounded : IsBelowHigh (inner_high_key_pair joined) 59
unfolding inner_high_key_pair
unbounded = inl refl

navigate_inner_node_bi-IsFloor_example :
    (id : ℕ) × (navigate_inner_node_bi 60 joined ≡ some id)
    × IsFloor (separator joined) (inner_low_key_pair joined).1 59 id
navigate_inner_node_bi-IsFloor_example =
    navigate_inner_node_bi-IsFloor joined 59 joined-IsValid unbounded joined-IsAway

-- (10, 110) deleted, before (30, 130)
abbrev shrunk : InnerChain
shrunk = inner_delete (10, 110) (0, 100) (30, 130) 1 left

shrunk-IsValid : IsValid shrunk
unfolding inner_low_key_pair
shrunk-IsValid = (
  inr ((λ e. omega (arith, e)), omega arith, refl, λ t lt lt'. ground arith),
  inl (refl, λ t lt. ground arith),
  (omega arith, omega arith),
  left-IsValid,
)

left-IsAway : IsAway 30 left
unfolding has_key
left-IsAway = refl

bounded : IsBelowHigh (inner_high_key_pair left) 29
unfolding inner_high_key_pair
bounded = inr (omega arith)

navigate_inner_node_bi-removed_example :
    (navigate_inner_node_bi 30 shrunk ≡ some 110) × (separator shrunk 10 ≡ none)
navigate_inner_node_bi-removed_example =
    navigate_inner_node_bi-removed (10, 110) (0, 100) 130 1 29 110 left shrunk-IsValid
      (λ e. omega (arith, e)) refl bounded left-IsAway
