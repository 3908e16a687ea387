-- ===== src/Inner/Backward/Removed.antt =====
-- The search for the separator that follows a deleted one.
use multiprocessor_programmi.Prelude.{
  ℕ, suc, ◌≡◌, ◌≢◌, inl, inr, ap, ◌∙◌, false, ◌&&◌, ◌||◌, Option, none, some, ◌==◌, ltb, arith,
}
use multiprocessor_programmi.Leaf.{NodeId, KeyNodeId, invalid_node_id}
use multiprocessor_programmi.Leaf.Spec.{IsBelowHigh}
use multiprocessor_programmi.Inner.{
  InnerChain, inner_delete, inner_low_key_pair, inner_high_key_pair,
}
use multiprocessor_programmi.Inner.Floor.{IsFloor, one_floor}
use multiprocessor_programmi.Inner.Spec.{separator, IsNext, IsValid}
use multiprocessor_programmi.Inner.Backward.{navigate_inner_node_bi}
use multiprocessor_programmi.Inner.Backward.Before.{IsAway, navigate_inner_node_bi-IsFloor}

next-IsFloor :
    (seps : ℕ → Option ℕ) (low k key id : ℕ) (next_id : NodeId)
    → next_id ≢ invalid_node_id
    → IsNext seps key (suc k, next_id)
    → seps key ≡ some id
    → IsFloor seps low k id
next-IsFloor seps low k key id next_id real (inl (last, nothing)) here = absurd (real last)
next-IsFloor seps low k key id next_id real (inr (there, lt, after, nothing)) here =
    inl (key, omega (arith, lt), here, λ t gt le. nothing t gt (omega (arith, le)))

-- Let a delete node stand on a chain, both well-formed, in which the deleted separator leads to `id`,
-- and let another separator follow it, at k + 1, which is away from the neighbours of the data nodes
-- below. NavigateInnerNodeBI of that separator's key returns `id`, the child of the separator that is
-- deleted, although the chain leads its key nowhere any more.
pub navigate_inner_node_bi-removed :
    (item prev_item : KeyNodeId) (next_id : NodeId) (location k id : ℕ) (child : InnerChain)
    → IsValid (inner_delete item prev_item (suc k, next_id) location child)
    → next_id ≢ invalid_node_id
    → separator child item.0 ≡ some id
    → IsBelowHigh (inner_high_key_pair child) k
    → IsAway (suc k) child
    → (navigate_inner_node_bi (suc k) (inner_delete item prev_item (suc k, next_id) location child)
        ≡ some id)
      × (separator (inner_delete item prev_item (suc k, next_id) location child) item.0 ≡ none)
unfolding navigate_inner_node_bi
navigate_inner_node_bi-removed item prev_item next_id location k id child v real here b away =
    let (id', found, f) = navigate_inner_node_bi-IsFloor child k v.3 b away in
    let low = (inner_low_key_pair child).1 in
    let expected = next-IsFloor (separator child) low k item.0 id next_id real v.0 here in
    let same = one_floor (separator child) low k id' id f expected in
    let test : ((low == prev_item.1 || ltb prev_item.0 (suc k))
          && (next_id == invalid_node_id || ltb (suc k) (suc k)))
        ≡ false =
      ground (arith, real) in
    (rw test (found ∙ ap some same), ground arith)
