-- ===== src/Inner/Collect/Chain.antt =====
-- The recursion over a chain: `CollectAllSepsOnInnerRecursive` collects the separators of the chain.
use multiprocessor_programmi.Prelude.{
  ℕ, ◌<◌, ◌≤◌, ◌≡◌, ◌≢◌, refl, ap, ◌∙◌, true, false, List, [], ◌∷◌, ◌++◌, Option, none, some, ◌==◌,
  ltb, leb, if◌then◌else◌, take, drop, filter, All, All-map, All-filter_at, arith,
}
use multiprocessor_programmi.Leaf.{NodeId, KeyNodeId}
use multiprocessor_programmi.Consolidate.Set.{below}
use multiprocessor_programmi.Inner.{
  InnerChain, inner, inner_insert, inner_delete, inner_split, inner_remove, inner_merge,
  inner_abort, inner_high_key_pair,
}
use multiprocessor_programmi.Inner.Spec.{lookup, IsAscending}
use multiprocessor_programmi.Inner.Collect.{
  Change, Seps, changes_end, merge_seps, collect_inner_base,
}
use multiprocessor_programmi.Inner.Collect.Merge.{
  IsOrdered, over, All-merge_seps, lookup-merge_seps, merge_seps-IsAscending,
}
use multiprocessor_programmi.Inner.Collect.Sorted.{
  filter-IsOrdered, side, over-filter, changes_end-filter,
}
use multiprocessor_programmi.Inner.Collect.Cut.{
  cut_seps, copied-cut_seps, All-cut_seps, cut_seps-IsAscending, cut_seps-below, lookup-cut_seps,
}

-- What a key leads to in a chain under a node with the low id: the first item of a base node counts
-- where its id is another one.
abbrev pub counted : NodeId → List KeyNodeId → ℕ → Option ℕ
counted low_id [] k = none
counted low_id (first ∷ rest) k =
    if first.1 == low_id then lookup rest k else lookup (first ∷ rest) k

abbrev pub listed : NodeId → InnerChain → ℕ → Option ℕ
listed low_id (inner low_key high_key items) k = counted low_id items k
listed low_id (inner_insert item next_item location child) k =
    if item.0 == k then some item.1 else listed low_id child k
listed low_id (inner_delete item prev_item next_item location child) k =
    if item.0 == k then none else listed low_id child k
listed low_id (inner_split insert_item n child) k =
    if ltb k insert_item.0 then listed low_id child k else none
listed low_id (inner_remove removed_id child) k = listed low_id child k
listed low_id (inner_merge delete_item right child) k =
    if leb delete_item.0 k then listed low_id right k else listed low_id child k
listed low_id (inner_abort child) k = listed low_id child k

-- Where a part of a chain begins: at the low key of the whole, or at the key of a merge.
abbrev pub Start : Type 0
Start = Option ℕ

abbrev pub IsAfter : Start → ℕ → Type 0
IsAfter none k = Unit
IsAfter (some key) k = key < k

abbrev pub low_of : Start → ℕ
low_of none = 0
low_of (some key) = key

abbrev pub IsHead : Start → KeyNodeId → NodeId → List KeyNodeId → Type 0
IsHead from high low_id [] = ⊥
IsHead none high low_id (first ∷ rest) = (first.1 ≡ low_id) × IsAscending rest
IsHead (some key) high low_id (first ∷ rest) =
    (first.0 ≡ key)
    × (first.1 ≢ low_id)
    × (below high key ≡ true)
    × All (λ y. key < y.0) rest
    × IsAscending rest

-- A chain that can be consolidated up to the high key, as the tree builds them: the leftmost base node
-- alone begins with the low id, no key is outside its part's range, a split is at the high key, and a
-- merge joins two parts at a key below the end of the right one.
abbrev pub IsCollectable : Start → KeyNodeId → NodeId → InnerChain → Type 0
IsCollectable from high low_id (inner low_key high_key items) = IsHead from high low_id items
IsCollectable from high low_id (inner_insert item next_item location child) =
    IsAfter from item.0 × (below high item.0 ≡ true) × IsCollectable from high low_id child
IsCollectable from high low_id (inner_delete item prev_item next_item location child) =
    IsAfter from item.0 × (below high item.0 ≡ true) × IsCollectable from high low_id child
IsCollectable from high low_id (inner_split insert_item n child) =
    (insert_item ≡ high) × (0 < insert_item.1) × IsCollectable from high low_id child
IsCollectable from high low_id (inner_remove removed_id child) = ⊥
IsCollectable from high low_id (inner_merge delete_item right child) =
    IsAfter from delete_item.0
    × ((inner_high_key_pair child).0 ≡ delete_item.0)
    × (0 < (inner_high_key_pair child).1)
    × (high ≡ inner_high_key_pair right)
    × (below high delete_item.0 ≡ true)
    × IsCollectable (some delete_item.0) high low_id right
    × IsCollectable from (inner_high_key_pair child) low_id child
IsCollectable from high low_id (inner_abort child) = ⊥

pub low_after : (from : Start) (k : ℕ) → IsAfter from k → low_of from ≤ k
low_after none k h = omega arith
low_after (some key) k h = omega (arith, h)

-- Before a part of the chain.
pub record IsReady (low : ℕ) (s : Seps) : Type 0 where
  pub ordered : IsOrdered s.sss.items
  pub from_low : All (λ x. low ≤ x.item.0) s.sss.items

-- After it: its separators follow, and the changes of later parts remain.
pub record Collects (low : ℕ) (high : KeyNodeId) (values : ℕ → Option ℕ) (s s' : Seps)
    : Type 0 where
  pub tail : List KeyNodeId
  pub appended : s'.new_items ≡ s.new_items ++ tail
  pub ascending : IsAscending tail
  pub bounds : All (λ y. (low ≤ y.0) × (below high y.0 ≡ true)) tail
  pub pairs :
      (k : ℕ) → low ≤ k → below high k ≡ true → lookup tail k ≡ over k s.sss.items (values k)
  pub remaining : s'.sss.items ≡ filter (side high false) s.sss.items

-- A part whose base node's items below the high key are `ys`.
merged-Collects :
    (low : ℕ) (high : KeyNodeId) (ys : List KeyNodeId) (values : ℕ → Option ℕ) (s s' : Seps)
    → IsReady low s
    → IsAscending ys
    → All (λ y. (low ≤ y.0) × (below high y.0 ≡ true)) ys
    → ((k : ℕ) → below high k ≡ true → lookup ys k ≡ values k)
    → s'.new_items ≡ s.new_items ++ merge_seps ys (take (changes_end high s.sss.items) s.sss.items)
    → s'.sss.items ≡ drop (changes_end high s.sss.items) s.sss.items
    → Collects low high values s s'
merged-Collects low high ys values s s' r a b same new left =
    let (front, back) = changes_end-filter high s.sss.items r.ordered in
    let inside = filter (side high true) s.sss.items in
    let ordered = filter-IsOrdered (side high true) s.sss.items r.ordered in
    record {
      tail = merge_seps ys inside;
      appended = new ∙ ap (λ xs. s.new_items ++ merge_seps ys xs) front;
      ascending = merge_seps-IsAscending ys inside a ordered;
      bounds =
          All-merge_seps _ ys inside b
            (All-filter_at _ (side high true) s.sss.items (All-map pass s.sss.items r.from_low));
      pairs = λ k l under.
          lookup-merge_seps k ys inside a ordered
          ∙ over-filter high true k s.sss.items _ under
          ∙ ap (over k s.sss.items) (same k under);
      remaining = left ∙ back;
    }
  where
    pass :
        (x : Change)
        → low ≤ x.item.0
        → below high x.item.0 ≡ true
        → (low ≤ x.item.0) × (below high x.item.0 ≡ true)
    pass x l u = (l, u)

both :
    (P Q : KeyNodeId → Type 0) (ys : List KeyNodeId) → All P ys → All Q ys → All (λ y. P y × Q y) ys
both P Q [] p q = tt
both P Q (y ∷ ys) p q = ((p.0, q.0), both P Q ys p.1 q.1)

every_low : (ys : List KeyNodeId) → All (λ y. 0 ≤ y.0) ys
every_low [] = tt
every_low (y ∷ ys) = (omega arith, every_low ys)

pub base-Collects :
    (from : Start) (high : KeyNodeId) (low_id : NodeId) (s : Seps) (items : List KeyNodeId)
    → IsHead from high low_id items
    → IsReady (low_of from) s
    → (s' : Seps) × (collect_inner_base high low_id s items ≡ some s')
      × Collects (low_of from) high (counted low_id items) s s'
unfolding collect_inner_base
base-Collects from high low_id s [] h r = absurd h
base-Collects none high low_id s (first ∷ rest) h r =
    let low : (first.1 == low_id) ≡ true = ground (arith, h.0) in
    let shape = copied-cut_seps high low_id first rest ∙ rw low refl in
    (
      _,
      refl,
      merged-Collects 0 high (cut_seps high rest) (counted low_id (first ∷ rest)) s _ r
          (cut_seps-IsAscending high rest h.1)
          (both _ _ (cut_seps high rest) (every_low (cut_seps high rest))
            (cut_seps-below high rest))
          (λ k under. rw low (lookup-cut_seps high rest k h.1 under))
          (ap (λ ys. s.new_items ++ merge_seps ys (take (changes_end high s.sss.items) s.sss.items))
            shape)
          refl,
    )
base-Collects (some key) high low_id s (first ∷ rest) h r =
    let other : (first.1 == low_id) ≡ false = ground (arith, h.1) in
    let shape = copied-cut_seps high low_id first rest ∙ rw other refl in
    let far : All (λ y. first.0 < y.0) rest = All-map (λ y p. omega (arith, p, h.0)) rest h.3 in
    let reached =
      All-map (λ y p. omega (arith, p)) (cut_seps high rest)
        (All-cut_seps high rest (λ y. key < y.0) h.3) in
    let inside : below high first.0 ≡ true = ap (below high) h.0 ∙ h.2 in
    (
      _,
      refl,
      merged-Collects key high (first ∷ cut_seps high rest) (counted low_id (first ∷ rest)) s _ r
          (All-cut_seps high rest (λ y. first.0 < y.0) far, cut_seps-IsAscending high rest h.4)
          (
            (omega (arith, h.0), inside),
            both (λ y. key ≤ y.0) _ (cut_seps high rest) reached (cut_seps-below high rest),
          )
          (λ k under. rw other (
            ap (λ o. if first.0 == k then some first.1 else o)
              (lookup-cut_seps high rest k h.4 under)))
          (ap (λ ys. s.new_items ++ merge_seps ys (take (changes_end high s.sss.items) s.sss.items))
            shape)
          refl,
    )
