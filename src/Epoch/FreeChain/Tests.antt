-- ===== src/Epoch/FreeChain/Tests.antt =====
-- A leaf chain with a merge, and the remove node of the part that was merged.
use multiprocessor_programmi.Prelude.{
  ℕ, true, false, ◌≡◌, ◌==◌, refl, [], Option, some, none, if◌then◌else◌, arith,
}
use multiprocessor_programmi.Epoch.FreeChain.{
  BaseNode, leaf_insert, leaf_delete, leaf_merge, leaf_remove, leaf, Memory, case_of,
  free_epoch_delta_chain, fault,
}
use multiprocessor_programmi.Epoch.FreeChain.Owned.{Shape, base, above, joins, has, frees, IsChain}
use multiprocessor_programmi.Epoch.FreeChain.Frees.{Outcome, free_epoch_delta_chain-Frees}

abbrev node_at : ℕ → Option BaseNode
node_at p =
    if p == 1
    then some (leaf_insert 2)
    else if p == 2
    then some (leaf_merge 3 4)
    else if p == 3
    then some leaf
    else if p == 4
    then some (leaf_delete 5)
    else if p == 5
    then some leaf
    else if p == 6
    then some (leaf_remove 4 77)
    else none

abbrev memory : Memory
memory = record { node_at = node_at; invalidated = [] }

-- The base nodes are 3 and 5; the merge node is in the chunks of 5.
abbrev chunk_of : ℕ → ℕ
chunk_of a = if a == 1 then 3 else if a == 2 then 5 else if a == 4 then 5 else a

abbrev merged : Shape
merged = above 1 (joins 2 (base 3) (above 4 (base 5)))

merged-IsChain : IsChain chunk_of memory merged
merged-IsChain = (
  (leaf_insert 2, refl, refl, refl, refl),
  refl,
  (
    (leaf_merge 3 4, refl, refl, refl, refl),
    refl,
    (λ a h. right_apart a h),
    (leaf, refl, refl, refl, refl),
    ((leaf_delete 5, refl, refl, refl, refl), refl, (leaf, refl, refl, refl, refl)),
  ),
)
  where
    right_apart : (a : ℕ) → has a (above 4 (base 5)) ≡ true → frees chunk_of (base 3) a ≡ false
    right_apart a h = ground (arith, h)

free_epoch_delta_chain-Frees_example : Outcome chunk_of 4 memory merged
free_epoch_delta_chain-Frees_example =
    free_epoch_delta_chain-Frees chunk_of merged memory 4 merged-IsChain (omega arith)

-- The merge node's destructor is called after its memory is freed.
freed_first : free_epoch_delta_chain chunk_of 4 1 memory ≡ fault
unfolding free_epoch_delta_chain case_of
freed_first = refl
