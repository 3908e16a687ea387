-- ===== src/Inner/Collect/Tests.antt =====
-- A merged inner chain with a separator deleted and one inserted, consolidated.
use multiprocessor_programmi.Prelude.{◌≡◌, refl, [], ◌∷◌, some, none, arith}
use multiprocessor_programmi.SmallSet.{insert, insert_loop}
use multiprocessor_programmi.Inner.{
  InnerChain, inner, inner_split, inner_low_key_pair, inner_high_key_pair,
}
use multiprocessor_programmi.Inner.Tests.{joined, joined-IsValid}
use multiprocessor_programmi.Inner.Collect.{
  inner_item_count, collect_seps, collect_change, collect_inner_base, seps_end, first_from,
  changes_end, changes_below, merge_seps, consolidate_inner,
}
use multiprocessor_programmi.Inner.Collect.Chain.{IsCollectable}
use multiprocessor_programmi.Inner.Collect.Listing.{IsCounted}
use multiprocessor_programmi.Inner.Collect.Result.{StandsFor, consolidate_inner-StandsFor}

of_joined :
    consolidate_inner joined
    ≡ some (inner (0, 100) (0, 0) ((0, 100) ∷ (20, 120) ∷ (30, 130) ∷ (50, 150) ∷ (60, 160) ∷ []))
unfolding consolidate_inner inner_item_count collect_seps collect_change collect_inner_base seps_end
    first_from changes_end changes_below merge_seps insert insert_loop inner_low_key_pair
    inner_high_key_pair
of_joined = refl

-- a split node that counts one item too many
of_miscounted : consolidate_inner (inner_split (50, 9) 2 joined) ≡ none
unfolding consolidate_inner inner_item_count collect_seps collect_change collect_inner_base seps_end
    first_from changes_end changes_below merge_seps insert insert_loop inner_low_key_pair
    inner_high_key_pair
of_miscounted = refl

joined-IsCollectable :
    IsCollectable none (inner_high_key_pair joined) (inner_low_key_pair joined).1 joined
unfolding inner_low_key_pair inner_high_key_pair
joined-IsCollectable = (
  tt,
  refl,
  omega arith,
  refl,
  refl,
  (refl, (λ e. omega (arith, e)), refl, (omega arith, tt), (tt, tt)),
  (tt, refl, (tt, refl, (refl, ((omega arith, tt), (tt, tt))))),
)

joined-IsCounted : IsCounted joined
unfolding merge_seps
joined-IsCounted = (
  omega arith,
  (omega arith, (refl, tt)),
  ((λ e. ground (arith, e)), (refl, omega arith, (omega arith, (refl, (refl, tt))))),
)

consolidate_inner-StandsFor_example :
    (c' : InnerChain) × (consolidate_inner joined ≡ some c') × StandsFor joined c'
consolidate_inner-StandsFor_example =
    consolidate_inner-StandsFor joined joined-IsValid joined-IsCollectable joined-IsCounted
