-- ===== src/Leaf/Tests.antt =====
-- Tests and instances for leaf chains: a base node with two deltas, a split and a merge.
use multiprocessor_programmi.Prelude.{
  ℕ, ◌%◌, ◌<◌, ◌≡◌, inr, refl, List, [], ◌∷◌, Bool, ltb, true, false, not, ◌==◌, none, some,
  if◌then◌else◌, any, count, arith,
}
use multiprocessor_programmi.Bloom
use multiprocessor_programmi.Bloom.{exists_scalar, insert_scalar, set_bit, test_bit, search_values}
use multiprocessor_programmi.Leaf.{
  LeafChain, leaf, leaf_insert, leaf_delete, leaf_split, KeyValue, KeyNodeId, get_high_key_pair,
  get_item_count, get_depth,
}
use multiprocessor_programmi.Leaf.Navigate.{navigate, navigate_values, start_search}
use multiprocessor_programmi.Leaf.Spec.{holds, index_of, base_of, is_pair, IsValid, IsBelowHigh}
use multiprocessor_programmi.Leaf.Point.{answer, navigate-answer}
use multiprocessor_programmi.Leaf.GetValue.{navigate_values-count}
use multiprocessor_programmi.Leaf.Update.{
  insert_round, delete_round, Updates, insert_round-Updates, delete_round-Updates,
}
use multiprocessor_programmi.Leaf.Split.{find_split_point, split_leaf}
use multiprocessor_programmi.Leaf.SplitHalves.{SplitsInto, split_leaf-SplitsInto}
use multiprocessor_programmi.Leaf.Predicate.{
  PredicateResult, navigate_predicate, conditional_round, conditional_round-misplaced,
}
use multiprocessor_programmi.Leaf.Visible.{Answers}
use multiprocessor_programmi.Leaf.Conditional.{navigate_predicate-Answers}
use multiprocessor_programmi.Leaf.Merged.{merged, merged-misses}

abbrev base_items : List KeyValue
base_items = (1, 10) ∷ (3, 30) ∷ (3, 31) ∷ (7, 70) ∷ []

abbrev high : KeyNodeId
high = (20, 5)

abbrev base : LeafChain
base = leaf (0, 0) high base_items

-- (3, 30) deleted, then (5, 50) inserted
abbrev chain : LeafChain
chain = leaf_insert (5, 50) (3, false) (leaf_delete (3, 30) (1, true) base)

abbrev hash_mod : ℕ → ℕ
hash_mod x = x % 8

chain-IsValid : IsValid chain
unfolding get_high_key_pair
chain-IsValid = (refl, inr (omega arith), (refl, inr (omega arith), (ground arith, ground arith)))

chain_range : (k : ℕ) → k < 20 → IsBelowHigh (get_high_key_pair chain) k
unfolding get_high_key_pair
chain_range k h = inr h

found : navigate 5 50 false chain ≡ some (some (5, 50), (3, false))
unfolding navigate
found = refl

gone : navigate 3 30 false chain ≡ some (none, (1, true))
unfolding navigate
gone = refl

three : navigate_values hash_mod 3 start_search chain ≡ some (31 ∷ [])
unfolding navigate_values start_search exists_scalar insert_scalar set_bit test_bit Bloom.init
    search_values
three = refl

counts : (get_item_count chain ≡ 4) × (get_depth chain ≡ 2)
unfolding get_item_count get_depth
counts = (refl, refl)

navigate-answer_example :
    navigate 3 31 false chain
    ≡ some (answer (holds chain 3 31) 3 31 (index_of 3 31 (base_of chain 3)))
navigate-answer_example = navigate-answer chain 3 31 chain-IsValid (chain_range 3 (omega arith))

navigate_values-count_example :
    (values : List ℕ) × (navigate_values hash_mod 3 start_search chain ≡ some values)
    × ((v : ℕ) → count (◌==◌ v) values ≡ (if holds chain 3 v then 1 else 0))
navigate_values-count_example =
    navigate_values-count hash_mod chain 3 tt chain-IsValid (chain_range 3 (omega arith))

insert_round-Updates_example :
    (after : LeafChain) × (insert_round 4 40 false chain ≡ some (not (holds chain 4 40), after))
    × Updates 4 40 true chain after
insert_round-Updates_example =
    insert_round-Updates 4 40 chain chain-IsValid (chain_range 4 (omega arith))

delete_round-Updates_example :
    (after : LeafChain) × (delete_round 7 70 chain ≡ some (holds chain 7 70, after))
    × Updates 7 70 false chain after
delete_round-Updates_example =
    delete_round-Updates 7 70 chain chain-IsValid (chain_range 7 (omega arith))

abbrev six : List KeyValue
six = (1, 10) ∷ (2, 20) ∷ (4, 40) ∷ (4, 41) ∷ (6, 60) ∷ (7, 70) ∷ []

split_at_two : find_split_point 1 six ≡ some 2
unfolding find_split_point
split_at_two = refl

abbrev halves : LeafChain × LeafChain
halves = (
  leaf_split (4, 9) 4 (leaf (0, 0) high six),
  leaf (4, 18446744073709551615) high ((4, 40) ∷ (4, 41) ∷ (6, 60) ∷ (7, 70) ∷ []),
)

split_six : split_leaf 6 1 9 (0, 0) high six ≡ some halves
unfolding split_leaf
split_six = refl

split_leaf-SplitsInto_example : SplitsInto 9 high six halves.0 halves.1
split_leaf-SplitsInto_example =
    split_leaf-SplitsInto 6 1 9 (0, 0) high six (ground arith) (ground arith) (ground arith)
      (omega arith) (omega arith) (omega arith) (omega arith) halves.0 halves.1 split_six

abbrev right_part : LeafChain
right_part = leaf (50, 9) (0, 0) ((60, 600) ∷ [])

merged-misses_example :
    (navigate_values hash_mod 3 start_search
        (merged (55, 550) (50, 9) right_part (0, 0) (50, 9) base_items)
      ≡ some [])
    × ((v : ℕ)
        → holds (merged (55, 550) (50, 9) right_part (0, 0) (50, 9) base_items) 3 v
          ≡ any (is_pair 3 v) ((3, 30) ∷ (3, 31) ∷ (7, 70) ∷ []))
merged-misses_example =
    merged-misses hash_mod (55, 550) (50, 9) right_part (0, 0) (50, 9) (1, 10)
      ((3, 30) ∷ (3, 31) ∷ (7, 70) ∷ []) 3 (omega arith) (omega arith) refl (omega arith)

abbrev is_large : ℕ → Bool
is_large v = ltb 90 v

navigate_predicate-Answers_example :
    (r : PredicateResult) × (navigate_predicate hash_mod is_large 3 30 Bloom.init Bloom.init chain
      ≡ some r)
    × Answers is_large 3 30 (holds chain 3) r
navigate_predicate-Answers_example =
    navigate_predicate-Answers hash_mod is_large 3 30 chain chain-IsValid
      (chain_range 3 (omega arith))

-- The pair (3, 30) stands at the position 1 of the base node, and is deleted.
reinserts :
    conditional_round hash_mod is_large 3 30 chain
    ≡ some (true, leaf_insert (3, 30) (3, false) chain)
unfolding conditional_round exists_scalar insert_scalar set_bit test_bit Bloom.init search_values
reinserts = refl

conditional_round-misplaced_example : ¬ IsValid (leaf_insert (3, 30) (3, false) chain)
conditional_round-misplaced_example =
    conditional_round-misplaced hash_mod is_large 3 30 chain (leaf_insert (3, 30) (3, false) chain)
      1 reinserts refl
