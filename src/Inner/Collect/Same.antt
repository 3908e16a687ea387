-- ===== src/Inner/Collect/Same.antt =====
-- `CollectAllSepsOnInner`: the new base node stands for the chain.
use multiprocessor_programmi.Prelude.{
  ℕ, ◌≤◌, ◌≡◌, refl, ap, ◌∙◌, inl, inr, true, false, [], ◌∷◌, none, some, ◌==◌, leb, if◌then◌else◌,
  arith, Bool-cases,
}
use multiprocessor_programmi.Leaf.{NodeId, KeyNodeId}
use multiprocessor_programmi.Consolidate.Set.{below}
use multiprocessor_programmi.Inner.{
  InnerChain, inner, inner_insert, inner_delete, inner_split, inner_remove, inner_merge,
  inner_abort, inner_low_key_pair, inner_high_key_pair,
}
use multiprocessor_programmi.Inner.Spec.{separator, IsValid}
use multiprocessor_programmi.Inner.Collect.Chain.{IsCollectable, listed}

-- A right part begins below its high key.
start_below :
    (d : ℕ) (high : KeyNodeId) (low_id : NodeId) (c : InnerChain)
    → IsCollectable (some d) high low_id c
    → below high d ≡ true
start_below d high low_id (inner low_key high_key []) o = absurd o
start_below d high low_id (inner low_key high_key (first ∷ rest)) o = o.2
start_below d high low_id (inner_insert item next_item location child) o =
    start_below d high low_id child o.2
start_below d high low_id (inner_delete item prev_item next_item location child) o =
    start_below d high low_id child o.2
start_below d high low_id (inner_split insert_item n child) o = start_below d high low_id child o.2
start_below d high low_id (inner_remove removed_id child) o = absurd o
start_below d high low_id (inner_merge delete_item right child) o = ground (arith, o.0, o.4)
start_below d high low_id (inner_abort child) o = absurd o

-- What is listed for a right part: its separators, and its own start with its low id.
listed_right :
    (c : InnerChain) (d k : ℕ) (high : KeyNodeId) (low_id : NodeId)
    → IsValid c
    → IsCollectable (some d) high low_id c
    → d ≤ k
    → listed low_id c k ≡ (if k == d then some (inner_low_key_pair c).1 else separator c k)
unfolding inner_low_key_pair
listed_right (inner low_key high_key []) d k high low_id v o le = absurd o
listed_right (inner low_key high_key (y ∷ ys)) d k high low_id (first, rest, e, low, a) o le =
    let other : (y.1 == low_id) ≡ false = ground (arith, o.1) in
    let same : (y ≡ first) × (ys ≡ rest) = ground (arith, e) in
    let id : y.1 ≡ low_key.1 = ap (λ (p : KeyNodeId). p.1) same.0 ∙ low in
    rw other (elim (Bool-cases (k == d)) [
      | inl this ↦
          let here : (y.0 == k) ≡ true = ground (arith, o.0) in rw (this, here) (ap some id)
      | inr apart ↦ let gone : (y.0 == k) ≡ false = ground (arith, o.0) in rw (apart, gone) refl
    ])
listed_right (inner_insert item next_item location child) d k high low_id v o le =
    ground (arith, o.0, listed_right child d k high low_id v.2 o.2 le)
listed_right (inner_delete item prev_item next_item location child) d k high low_id v o le =
    ground (arith, o.0, listed_right child d k high low_id v.3 o.2 le)
listed_right (inner_split insert_item n child) d k high low_id v o le =
    let at_end = ap (λ (p : KeyNodeId). p.0) o.0 in
    let real = ap (λ (p : KeyNodeId). p.1) o.0 in
    ground (
      arith,
      at_end,
      real,
      o.1,
      start_below d high low_id child o.2,
      listed_right child d k high low_id v.2 o.2 le,
    )
listed_right (inner_remove removed_id child) d k high low_id v o le = absurd v
listed_right (inner_merge delete_item right child) d k high low_id v o le =
    elim (Bool-cases (leb delete_item.0 k)) [
      | inl in_right ↦ ground (
        arith,
        o.0,
        in_right,
        listed_right right delete_item.0 k high low_id v.2 o.5 (ground arith),
      )
      | inr in_left ↦ ground (
        arith,
        o.0,
        in_left,
        listed_right child d k (inner_high_key_pair child) low_id v.3 o.6 le,
      )
    ]
listed_right (inner_abort child) d k high low_id v o le = absurd v

-- What is listed for the leftmost part: its separators.
pub listed-separator :
    (c : InnerChain) (k : ℕ) (high : KeyNodeId) (low_id : NodeId)
    → IsValid c
    → IsCollectable none high low_id c
    → listed low_id c k ≡ separator c k
unfolding inner_low_key_pair
listed-separator (inner low_key high_key []) k high low_id v o = absurd o
listed-separator (inner low_key high_key (y ∷ ys)) k high low_id v o =
    let low : (y.1 == low_id) ≡ true = ground (arith, o.0) in rw low refl
listed-separator (inner_insert item next_item location child) k high low_id v o =
    ground (arith, listed-separator child k high low_id v.2 o.2)
listed-separator (inner_delete item prev_item next_item location child) k high low_id v o =
    ground (arith, listed-separator child k high low_id v.3 o.2)
listed-separator (inner_split insert_item n child) k high low_id v o =
    ground (arith, listed-separator child k high low_id v.2 o.2)
listed-separator (inner_remove removed_id child) k high low_id v o = absurd v
listed-separator (inner_merge delete_item right child) k high low_id v o =
    elim (Bool-cases (leb delete_item.0 k)) [
      | inl in_right ↦
          ground
            (arith, in_right, listed_right right delete_item.0 k high low_id v.2 o.5 (ground arith))
      | inr in_left ↦
          ground
            (arith, in_left, listed-separator child k (inner_high_key_pair child) low_id v.3 o.6)
    ]
listed-separator (inner_abort child) k high low_id v o = absurd v
