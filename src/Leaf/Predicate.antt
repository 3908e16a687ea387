-- ===== src/Leaf/Predicate.antt =====
-- The search of ConditionalInsert: `NavigateLeafNode` for a value under a predicate.
use multiprocessor_programmi.Prelude.{
  ℕ, ◌+◌, ◌≡◌, refl, sym, ap, Bool, true, false, List, [], ◌∷◌, Option, none, some, ◌==◌, leb,
  if◌then◌else◌, drop, arith,
}
use mathlib.Core.Path.{subst}
use multiprocessor_programmi.Bloom
use multiprocessor_programmi.Bloom.{BloomFilter}
use multiprocessor_programmi.Leaf.{
  LeafChain, leaf, leaf_insert, leaf_delete, leaf_split, leaf_remove, leaf_merge, KeyValue,
  IndexPair,
}
use multiprocessor_programmi.Leaf.Navigate.{lower_bound, seen, note}
use multiprocessor_programmi.Leaf.Spec.{base_of, position, IsValid}

-- The returns of the search: `nullptr` with `*predicate_satisfied` set, a pointer to the item, and
-- `nullptr` with an index pair.
pub data PredicateResult : Type 0 where
  satisfied : PredicateResult
  found : KeyValue → PredicateResult
  absent : IndexPair → PredicateResult

module _ (value_hash : ℕ → ℕ) (predicate : ℕ → Bool) where
  -- The loop over the items of the base node from the iterator at distance `i`.
  unfoldable pub scan_predicate :
      ℕ → ℕ → BloomFilter ℕ → BloomFilter ℕ → ℕ → List KeyValue → PredicateResult
  scan_predicate search_key value present_set deleted_set i [] = absent (i, false)
  scan_predicate search_key value present_set deleted_set i (x ∷ xs) =
      let rest = scan_predicate search_key value present_set deleted_set (i + 1) xs in
      if search_key == x.0
      then if seen value_hash x.1 deleted_set
        then rest
        else if seen value_hash x.1 present_set
        then rest
        else if predicate x.1
        then satisfied
        else if value == x.1
        then found x
        else rest
      else absent (i, false)

  unfoldable pub navigate_predicate :
      ℕ → ℕ → BloomFilter ℕ → BloomFilter ℕ → LeafChain → Option PredicateResult
  unfolding scan_predicate lower_bound
  navigate_predicate search_key value present_set deleted_set (leaf low_key high_key items) =
      let start = lower_bound search_key items in
      some (scan_predicate search_key value present_set deleted_set start (drop start items))
  navigate_predicate search_key value present_set deleted_set (leaf_insert item index_pair child) =
      let skipped = navigate_predicate search_key value present_set deleted_set child in
      let noted =
        navigate_predicate search_key value (note value_hash item.1 present_set) deleted_set
          child in
      if search_key == item.0
      then if seen value_hash item.1 deleted_set
        then skipped
        else if seen value_hash item.1 present_set
        then skipped
        else if predicate item.1
        then some satisfied
        else if value == item.1
        then some (found item)
        else noted
      else skipped
  navigate_predicate search_key value present_set deleted_set (leaf_delete item index_pair child) =
      let skipped = navigate_predicate search_key value present_set deleted_set child in
      let noted =
        navigate_predicate search_key value present_set (note value_hash item.1 deleted_set)
          child in
      if search_key == item.0
      then if seen value_hash item.1 present_set then skipped else noted
      else skipped
  navigate_predicate search_key value present_set deleted_set (leaf_remove removed_id child) = none
  navigate_predicate search_key value present_set deleted_set (leaf_merge delete_item right child) =
      let in_right = navigate_predicate search_key value present_set deleted_set right in
      let in_left = navigate_predicate search_key value present_set deleted_set child in
      if leb delete_item.0 search_key then in_right else in_left
  navigate_predicate search_key value present_set deleted_set (leaf_split insert_item n child) =
      navigate_predicate search_key value present_set deleted_set child

  scan_predicate-index :
      (k v : ℕ) (present deleted : BloomFilter ℕ) (i : ℕ) (xs : List KeyValue) (p : IndexPair)
      → scan_predicate k v present deleted i xs ≡ absent p
      → p.1 ≡ false
  unfolding scan_predicate
  scan_predicate-index k v present deleted i [] p e = ground arith
  scan_predicate-index k v present deleted i (x ∷ xs) p e =
      ground (arith, scan_predicate-index k v present deleted (i + 1) xs p)

  navigate_predicate-index :
      (k v : ℕ) (present deleted : BloomFilter ℕ) (c : LeafChain) (p : IndexPair)
      → navigate_predicate k v present deleted c ≡ some (absent p)
      → p.1 ≡ false
  unfolding navigate_predicate
  navigate_predicate-index k v present deleted (leaf low_key high_key items) p e =
      let start = lower_bound k items in
      let done : scan_predicate k v present deleted start (drop start items) ≡ absent p =
        ground arith in
      scan_predicate-index k v present deleted start (drop start items) p done
  navigate_predicate-index k v present deleted (leaf_insert item index_pair child) p e = ground (
    arith,
    navigate_predicate-index k v present deleted child p,
    navigate_predicate-index k v (note value_hash item.1 present) deleted child p,
  )
  navigate_predicate-index k v present deleted (leaf_delete item index_pair child) p e = ground (
    arith,
    navigate_predicate-index k v present deleted child p,
    navigate_predicate-index k v present (note value_hash item.1 deleted) child p,
  )
  navigate_predicate-index k v present deleted (leaf_remove removed_id child) p e =
      absurd (ground arith)
  navigate_predicate-index k v present deleted (leaf_merge delete_item right child) p e = ground (
    arith,
    navigate_predicate-index k v present deleted right p,
    navigate_predicate-index k v present deleted child p,
  )
  navigate_predicate-index k v present deleted (leaf_split insert_item n child) p e =
      navigate_predicate-index k v present deleted child p e

  -- What a round of ConditionalInsert returns for a result of the search, and the node that it would
  -- install. Where nothing is installed the node stays.
  unfoldable pub conditional_result :
      ℕ → ℕ → LeafChain → Option PredicateResult → Option (Bool × LeafChain)
  conditional_result key value node_p none = none
  conditional_result key value node_p (some satisfied) = some (false, node_p)
  conditional_result key value node_p (some (found item)) = some (false, node_p)
  conditional_result key value node_p (some (absent index_pair)) =
      some (true, leaf_insert (key, value) index_pair node_p)

  -- The body of the loop of `ConditionalInsert`.
  unfoldable pub conditional_round : ℕ → ℕ → LeafChain → Option (Bool × LeafChain)
  unfolding navigate_predicate conditional_result
  conditional_round key value node_p =
      conditional_result key value node_p
        (navigate_predicate key value Bloom.init Bloom.init node_p)

  conditional_result-absent :
      (k v : ℕ) (c after : LeafChain) (result : Option PredicateResult)
      → conditional_result k v c result ≡ some (true, after)
      → (p : IndexPair) × (result ≡ some (absent p)) × (leaf_insert (k, v) p c ≡ after)
  unfolding conditional_result
  conditional_result-absent k v c after none e = absurd (ground arith)
  conditional_result-absent k v c after (some satisfied) e = absurd (ground arith)
  conditional_result-absent k v c after (some (found x)) e = absurd (ground arith)
  conditional_result-absent k v c after (some (absent p)) e = (p, refl, ground arith)

  -- Where a round of ConditionalInsert is about to insert a pair that still stands in the base node, as
  -- after a Delete that is not yet consolidated, the chain that it would install is not well-formed:
  -- the index pair of its insert node does not say that the pair stands there.
  pub conditional_round-misplaced :
      (k v : ℕ) (c after : LeafChain) (i : ℕ)
      → conditional_round k v c ≡ some (true, after)
      → position k v (base_of c k) ≡ some i
      → ¬ IsValid after
  unfolding conditional_round
  conditional_round-misplaced k v c after i e stands h =
      let (p, answer, same) = conditional_result-absent k v c after _ e in
      let never = navigate_predicate-index k v Bloom.init Bloom.init c p answer in
      let kept = subst IsValid (sym same) h in ground (arith, ap (λ (q : IndexPair). q.1) kept.0)
