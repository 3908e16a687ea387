-- ===== src/Consolidate/Tests.antt =====
-- Runs of the consolidation, and the theorems at concrete chains.
use multiprocessor_programmi.Prelude.{
  ℕ, ◌+◌, ◌≡◌, refl, inl, inr, true, false, none, [], ◌∷◌, some, arith,
}
use multiprocessor_programmi.Bloom
use multiprocessor_programmi.SmallSet
use multiprocessor_programmi.Leaf.{
  LeafChain, leaf, leaf_insert, leaf_delete, leaf_split, leaf_merge, KeyValue, get_high_key_pair,
}
use multiprocessor_programmi.Leaf.Spec.{IsValid}
use multiprocessor_programmi.Consolidate.{consolidate}
use multiprocessor_programmi.Consolidate.Chain.{IsCollectable}
use multiprocessor_programmi.Consolidate.Listing.{IsCounted}
use multiprocessor_programmi.Consolidate.Same.{StandsFor, consolidate-StandsFor}

abbrev pair_hash : KeyValue → ℕ
pair_hash x = x.0 + x.1

-- a left part with a new item, and a right part, joined at 5; above them an insertion into the right
-- part and a deletion from the left one
abbrev left_part : LeafChain
left_part = leaf_insert (2, 2) (1, false) (leaf (0, 1) (5, 2) ((1, 1) ∷ (3, 3) ∷ []))

abbrev right_part : LeafChain
right_part = leaf (5, 2) (0, 0) ((5, 5) ∷ (7, 7) ∷ [])

abbrev merged : LeafChain
merged =
    leaf_delete (3, 3) (1, true)
      (leaf_insert (6, 6) (1, false) (leaf_merge (5, 2) right_part left_part))

-- a split base node with a new item below the split key
abbrev halved : LeafChain
halved =
    leaf_insert (1, 9) (1, false)
      (leaf_split (3, 7) 2 (leaf (0, 1) (0, 0) ((1, 1) ∷ (2, 2) ∷ (3, 3) ∷ (4, 4) ∷ [])))

consolidate-merged :
    consolidate pair_hash merged
    ≡ some (leaf (0, 1) (0, 0) ((1, 1) ∷ (2, 2) ∷ (5, 5) ∷ (6, 6) ∷ (7, 7) ∷ []))
unfolding consolidate Bloom.exists_scalar Bloom.test_bit Bloom.init Bloom.insert_scalar
    Bloom.set_bit SmallSet.init
consolidate-merged = refl

consolidate-halved :
    consolidate pair_hash halved ≡ some (leaf (0, 1) (3, 7) ((1, 1) ∷ (1, 9) ∷ (2, 2) ∷ []))
unfolding consolidate Bloom.exists_scalar Bloom.test_bit Bloom.init Bloom.insert_scalar
    Bloom.set_bit SmallSet.init
consolidate-halved = refl

-- The insert node that ConditionalInsert adds after a deletion says that its pair does not stand in
-- the base node: when the chain is consolidated, the pair is collected twice, and the assertion on
-- the size fails.
abbrev misplaced : LeafChain
misplaced =
    leaf_insert (3, 3) (1, false) (leaf_delete (3, 3) (0, true) (leaf (0, 1) (0, 0) ((3, 3) ∷ [])))

consolidate-misplaced : consolidate pair_hash misplaced ≡ none
unfolding consolidate Bloom.exists_scalar Bloom.test_bit Bloom.init Bloom.insert_scalar
    Bloom.set_bit SmallSet.init
consolidate-misplaced = refl

merged-IsValid : IsValid merged
unfolding get_high_key_pair
merged-IsValid = (
  refl,
  inl refl,
  (
    refl,
    inl refl,
    (
      refl,
      (((omega arith, tt), (tt, tt)), (refl, (refl, tt))),
      (refl, inr (omega arith), (((omega arith, tt), (tt, tt)), (refl, (refl, tt)))),
    ),
  ),
)

merged-IsCollectable : IsCollectable 0 (get_high_key_pair merged) merged
unfolding get_high_key_pair
merged-IsCollectable = (
  omega arith,
  refl,
  (
    omega arith,
    refl,
    (
      omega arith,
      omega arith,
      refl,
      refl,
      (omega arith, (omega arith, tt)),
      (omega arith, refl, (omega arith, (omega arith, tt))),
    ),
  ),
)

merged-IsCounted : IsCounted merged
merged-IsCounted = (
  refl,
  (
    refl,
    omega arith,
    (
      omega arith,
      (omega arith, (inl refl, (inl refl, tt))),
      (refl, omega arith, (omega arith, (inr (omega arith), (inr (omega arith), tt)))),
    ),
  ),
)

consolidate-StandsFor_example :
    (c' : LeafChain) × (consolidate pair_hash merged ≡ some c') × StandsFor merged c'
consolidate-StandsFor_example =
    consolidate-StandsFor pair_hash merged merged-IsValid merged-IsCollectable merged-IsCounted
