-- ===== src/Consolidate/Collects.antt =====
-- What the recursion collects: the pairs of the chain below its high key, after the data nodes met.
use multiprocessor_programmi.Prelude.{
  ℕ, ◌≤◌, ◌≡◌, refl, sym, ap, ◌∙◌, inl, inr, Bool, true, false, List, [], ◌∷◌, ◌++◌, some,
  if◌then◌else◌, drop, filter, any, any-append, All, All-map, All-filter_at, arith, Bool-cases,
}
use multiprocessor_programmi.Bloom
use multiprocessor_programmi.Bloom.{BloomFilter}
use multiprocessor_programmi.Bloom.Exact
use multiprocessor_programmi.Bloom.Exact.{IsHashed, exists-any, insert-IsValid}
use multiprocessor_programmi.SmallSet.{insert_no_dedup}
use multiprocessor_programmi.Leaf.{KeyValue, KeyNodeId, IndexPair}
use multiprocessor_programmi.Leaf.Spec.{is_pair, index_of, IsSorted, IsDistinct}
use multiprocessor_programmi.Consolidate.{
  Delta, Collected, pair_eq, copy_end, sss_end, copy_merged, collect_base, collect_data,
}
use multiprocessor_programmi.Consolidate.Weave.{over, has_pair, weave, IsMergeable, IsPlaced}
use multiprocessor_programmi.Consolidate.Weave.Laws.{
  any-weave, weave-IsDistinct, weave-IsSorted, All-weave, over-has_pair, has_pair_at,
}
use multiprocessor_programmi.Consolidate.Merge.{copy_merged-weave}
use multiprocessor_programmi.Consolidate.Set.{
  IsCmpSorted, IsSingle, below, side, over-filter, filter-IsCmpSorted, filter-IsSingle,
  sss_end-filter, insert-IsCmpSorted, insert-IsSingle, All-insert, has_pair-insert, over-insert,
  filter-insert, over_any_base,
}
use multiprocessor_programmi.Consolidate.Base.{
  cut, take-IsSorted, take-IsDistinct, All-take, cut-index_of, cut-any, cut-below, IsOrdered-sorted,
}

-- The data node has the index pair of its place in the base node `base key`.
abbrev pub IsAt : KeyNodeId → (ℕ → List KeyValue) → Delta → Type 0
IsAt high base x =
    below high x.item.0 ≡ true → x.index_pair ≡ index_of x.item.0 x.item.1 (base x.item.0)

pub All-both :
    (P Q : KeyValue → Type 0) (ys : List KeyValue) → All P ys → All Q ys → All (λ y. P y × Q y) ys
All-both P Q [] p q = tt
All-both P Q (y ∷ ys) p q = ((p.0, q.0), All-both P Q ys p.1 q.1)

module _ (pair_hash : KeyValue → ℕ) where
  -- Before a part of the chain whose keys start at `low`: the sorted set holds the newest data nodes
  -- of the pairs met from there on, each with its place.
  pub record IsReady (low : ℕ) (high : KeyNodeId) (base : ℕ → List KeyValue) (s : Collected)
      : Type 0 where
    pub sorted : IsCmpSorted s.sss.items
    pub single : IsSingle s.sss.items
    pub placed : All (IsAt high base) s.sss.items
    pub from_low : All (λ x. low ≤ x.item.0) s.sss.items
    pub valid : Exact.IsValid pair_eq pair_hash s.delta_set
    pub met :
        (k v : ℕ) → low ≤ k → any (is_pair k v) s.delta_set.data_values ≡ has_pair k v s.sss.items

  -- After it: its items follow, and the data nodes of later parts remain.
  pub record Collects (low : ℕ) (high : KeyNodeId) (values : ℕ → ℕ → Bool) (s s' : Collected)
      : Type 0 where
    pub tail : List KeyValue
    pub appended : s'.new_items ≡ s.new_items ++ tail
    pub tail_sorted : IsSorted tail
    pub tail_distinct : IsDistinct tail
    pub bounds : All (λ y. (low ≤ y.0) × (below high y.0 ≡ true)) tail
    pub pairs :
        (k v : ℕ)
        → low ≤ k
        → below high k ≡ true
        → any (is_pair k v) tail ≡ over k v s.sss.items (values k v)
    pub remaining : s'.sss.items ≡ filter (side high false) s.sss.items
    pub still_valid : Exact.IsValid pair_eq pair_hash s'.delta_set
    pub untouched :
        (k v : ℕ)
        → below high k ≡ false
        → any (is_pair k v) s'.delta_set.data_values ≡ any (is_pair k v) s.delta_set.data_values

  -- The base node's items below the high key, and the data nodes there, fit together.
  base-IsMergeable :
      (low : ℕ) (high : KeyNodeId) (items : List KeyValue) (s : Collected)
      → IsSorted items
      → IsDistinct items
      → IsReady low high (λ k. items) s
      → IsMergeable 0 (cut high items) (filter (side high true) s.sss.items)
  base-IsMergeable low high items s si di r = record {
    sorted = take-IsSorted (copy_end high items) items si;
    distinct = take-IsDistinct (copy_end high items) items di;
    placed = All-filter_at _ (side high true) s.sss.items (All-map in_cut s.sss.items r.placed);
    ordered =
        IsOrdered-sorted (filter (side high true) s.sss.items) items si
          (filter-IsCmpSorted (side high true) s.sss.items r.sorted)
          (filter-IsSingle high true s.sss.items r.single)
          (All-filter_at _ (side high true) s.sss.items r.placed);
  }
    where
      in_cut :
          (x : Delta)
          → IsAt high (λ k. items) x
          → below high x.item.0 ≡ true
          → IsPlaced 0 (cut high items) x
      in_cut x p b =
          let at = p b ∙ sym (cut-index_of high items si x.item.0 x.item.1 b) in
          (omega (arith, ap (λ (i : IndexPair). i.0) at), ap (λ (i : IndexPair). i.1) at)

  pub collect_base-Collects :
      (low : ℕ) (high : KeyNodeId) (items : List KeyValue) (s : Collected)
      → IsSorted items
      → IsDistinct items
      → All (λ y. low ≤ y.0) items
      → IsReady low high (λ k. items) s
      → (s' : Collected) × (collect_base high s items ≡ some s')
        × Collects low high (λ k v. any (is_pair k v) items) s s'
  unfolding collect_base
  collect_base-Collects low high items s si di from r =
      let m = base-IsMergeable low high items s si di r in
      let (front, back) = sss_end-filter high s.sss.items r.sorted in
      let out = weave 0 (cut high items) (filter (side high true) s.sss.items) in
      let copied =
        ap (copy_merged items (copy_end high items) s.new_items) front
        ∙ copy_merged-weave items (copy_end high items) s.new_items
            (filter (side high true) s.sss.items) m in
      (
        record s {
          sss = record { items = drop (sss_end high s.sss.items) s.sss.items };
          new_items = s.new_items ++ out;
        },
        rw (copied, collect_base) refl,
        record {
          tail = out;
          appended = refl;
          tail_sorted = weave-IsSorted 0 (cut high items) _ m;
          tail_distinct = weave-IsDistinct 0 (cut high items) _ m;
          bounds =
              All-weave _ 0 (cut high items) _
                (All-both _ _ (cut high items) (All-take _ (copy_end high items) items from)
                  (cut-below high items si))
                (All-filter_at _ (side high true) s.sss.items
                  (All-map from_lows s.sss.items r.from_low));
          pairs = λ k v l b.
              any-weave k v 0 (cut high items) _ m
              ∙ over-filter high true k v s.sss.items _ b
              ∙ ap (over k v s.sss.items) (cut-any high items si k v b);
          remaining = back;
          still_valid = r.valid;
          untouched = λ k v b. refl;
        },
      )
    where
      from_lows :
          (x : Delta)
          → low ≤ x.item.0
          → below high x.item.0 ≡ true
          → (low ≤ x.item.0) × (below high x.item.0 ≡ true)
      from_lows x l b = (l, b)

  pub pair_eq-IsHashed : IsHashed pair_eq pair_hash
  pair_eq-IsHashed = record { hash_eq = λ x y e. same_hash x y (ground arith) (ground arith) }
    where
      same_hash : (x y : KeyValue) → x.0 ≡ y.0 → x.1 ≡ y.1 → pair_hash x ≡ pair_hash y
      same_hash x y e f = rw (e, f) refl

  any-pair_eq : (x : KeyValue) (ys : List KeyValue) → any (pair_eq x) ys ≡ any (is_pair x.0 x.1) ys
  any-pair_eq x [] = refl
  any-pair_eq x (y ∷ ys) = ground (arith, any-pair_eq x ys)

  -- After a data node the sorted set says of its pair what the node says, unless a newer one does.
  pub record Notes (high : KeyNodeId) (low : ℕ) (x : Delta) (s s' : Collected) : Type 0 where
    pub same_items : s'.new_items ≡ s.new_items
    pub pairs :
        (k v : ℕ) (b : Bool)
        → over k v s'.sss.items b
          ≡ over k v s.sss.items (if is_pair k v x.item then x.is_insert else b)
    pub later : filter (side high false) s'.sss.items ≡ filter (side high false) s.sss.items
    pub untouched :
        (k v : ℕ)
        → below high k ≡ false
        → any (is_pair k v) s'.delta_set.data_values ≡ any (is_pair k v) s.delta_set.data_values

  module _ (low : ℕ) (high : KeyNodeId) (base : ℕ → List KeyValue) (x : Delta) (s : Collected)
      (r : IsReady low high base s) where
    over_again :
        has_pair x.item.0 x.item.1 s.sss.items ≡ true
        → (k v : ℕ) (b : Bool)
        → over k v s.sss.items b
          ≡ over k v s.sss.items (if is_pair k v x.item then x.is_insert else b)
    over_again h k v b = elim (Bool-cases (is_pair k v x.item)) [
      | inl this ↦
          let e : (x.item.0 ≡ k) × (x.item.1 ≡ v) = ground arith in
          over_any_base k v s.sss.items b _
            (has_pair_at k v x.item.0 x.item.1 s.sss.items e.0 e.1 ∙ h)
      | inr other ↦ rw other refl
    ]

    over_first :
        has_pair x.item.0 x.item.1 s.sss.items ≡ false
        → (k v : ℕ) (b : Bool)
        → (if is_pair k v x.item then x.is_insert else over k v s.sss.items b)
          ≡ over k v s.sss.items (if is_pair k v x.item then x.is_insert else b)
    over_first h k v b = elim (Bool-cases (is_pair k v x.item)) [
      | inl this ↦
          let e : (x.item.0 ≡ k) × (x.item.1 ≡ v) = ground arith in
          rw this (
            sym (
              over-has_pair k v s.sss.items x.is_insert
                (has_pair_at k v x.item.0 x.item.1 s.sss.items e.0 e.1 ∙ h)))
      | inr other ↦ rw other refl
    ]

    pub collect_data-IsReady :
        low ≤ x.item.0
        → below high x.item.0 ≡ true
        → IsAt high base x
        → IsReady low high base (collect_data pair_hash s x)
          × Notes high low x s (collect_data pair_hash s x)
    unfolding collect_data insert_no_dedup Bloom.insert_scalar
    collect_data-IsReady l b at =
        let known =
          exists-any pair_eq pair_hash pair_eq-IsHashed x.item s.delta_set r.valid
          ∙ any-pair_eq x.item s.delta_set.data_values
          ∙ r.met x.item.0 x.item.1 l in
        elim (Bool-cases (has_pair x.item.0 x.item.1 s.sss.items)) [
          | inl again ↦ rw (known ∙ again) (
            r,
            record {
              same_items = refl;
              pairs = over_again again;
              later = refl;
              untouched = λ k v o. refl;
            },
          )
          | inr first ↦ rw (known ∙ first) (
            record {
              sorted = insert-IsCmpSorted x s.sss.items r.sorted;
              single = insert-IsSingle x s.sss.items first r.single;
              placed = All-insert x _ s.sss.items at r.placed;
              from_low = All-insert x _ s.sss.items l r.from_low;
              valid = insert-IsValid pair_eq pair_hash x.item s.delta_set r.valid;
              met = λ k v lk. ground (
                arith,
                any-append (is_pair k v) s.delta_set.data_values (x.item ∷ []),
                has_pair-insert x k v s.sss.items,
                r.met k v lk,
              );
            },
            record {
              same_items = refl;
              pairs = λ k v b. over-insert x k v s.sss.items b first ∙ over_first first k v b;
              later = filter-insert x (side high false) s.sss.items (ground (arith, b));
              untouched = λ k v o.
                  ground (arith, any-append (is_pair k v) s.delta_set.data_values (x.item ∷ []));
            },
          )
        ]
