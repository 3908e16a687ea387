-- ===== src/SmallSet.antt =====
-- `SortedSmallSet` (project3/sourcefile/bwtree/include/sorted_small_set.h): the small sorted array
-- in which the Bw-Tree sorts the records of a delta chain before it merges them into a base node.
pub mod Order
mod Tests
use multiprocessor_programmi.Prelude.{
  ℕ, Bool, true, false, List, [], ◌∷◌, ◌++◌, Option, none, some, if◌then◌else◌, length,
}

-- The items between `start_p` and `end_p`, first to last. The array is taken to be large enough, as
-- the class demands of its user.
pub record SmallSet {ℓ} (A : Type ℓ) : Type ℓ where
  pub items : List A

unfoldable pub init {ℓ} : {A : Type ℓ} → SmallSet A
init = record { items = [] }

module _ {ℓ} {A : Type ℓ} (value_cmp value_eq : A → A → Bool) where
  -- The loop of `Insert`: at the first element that is not below `value` either nothing is done, or
  -- the rest is shifted by one and `value` is written before it.
  unfoldable pub insert_loop : A → List A → List A
  insert_loop value [] = value ∷ []
  insert_loop value (x ∷ xs) =
      if value_cmp x value
      then x ∷ insert_loop value xs
      else if value_eq x value
      then x ∷ xs
      else value ∷ x ∷ xs

  unfoldable pub insert : A → SmallSet A → SmallSet A
  unfolding insert_loop
  insert value s = record { items = insert_loop value s.items }

module _ {ℓ} {A : Type ℓ} (value_cmp : A → A → Bool) where
  -- `std::upper_bound` and the shift by one: `value` goes before the first element above it.
  unfoldable pub insert_upper : A → List A → List A
  insert_upper value [] = value ∷ []
  insert_upper value (x ∷ xs) =
      if value_cmp value x then value ∷ x ∷ xs else x ∷ insert_upper value xs

  unfoldable pub insert_no_dedup : A → SmallSet A → SmallSet A
  unfolding insert_upper
  insert_no_dedup value s = record { items = insert_upper value s.items }

module _ {ℓ} {A : Type ℓ} where
  unfoldable pub is_empty : SmallSet A → Bool
  is_empty s = elim s.items [ [] ↦ true | x ∷ xs ↦ false ]

  -- `PopFront` asserts that the set is not empty: `none` is the failed assertion.
  unfoldable pub pop_front : SmallSet A → Option (A × SmallSet A)
  pop_front s = elim s.items [ [] ↦ none | x ∷ xs ↦ some (x, record { items = xs }) ]

  unfoldable pub get_size : SmallSet A → ℕ
  get_size s = length s.items

  unfoldable pub invalidate : SmallSet A → SmallSet A
  invalidate s = record s { items = [] }
