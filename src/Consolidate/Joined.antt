-- ===== src/Consolidate/Joined.antt =====
-- What is collected from the two parts of a merge, one after the other.
use multiprocessor_programmi.Prelude.{
  ℕ, ◌≤◌, ◌<◌, ◌≡◌, refl, sym, ap, ◌∙◌, inl, inr, Bool, true, false, List, [], ◌∷◌, ◌++◌, leb,
  if◌then◌else◌, filter, any, any-append, All, All-map, All-filter_at, All-append, arith,
  Bool-cases, filter-filter,
}
use mathlib.Core.List.{append_assoc}
use multiprocessor_programmi.Leaf.{KeyValue, KeyNodeId}
use multiprocessor_programmi.Leaf.Spec.{is_pair, IsSorted, IsDistinct}
use multiprocessor_programmi.Consolidate.{Delta, Collected}
use multiprocessor_programmi.Consolidate.Weave.{over, has_pair}
use multiprocessor_programmi.Consolidate.Set.{
  below, side, over-filter, filter-IsCmpSorted, filter-IsSingle, has_pair-filter,
}
use multiprocessor_programmi.Consolidate.Base.{any_above}
use multiprocessor_programmi.Consolidate.Collects.{IsAt, IsReady, Collects}

IsSorted-append :
    (m : ℕ) (xs ys : List KeyValue)
    → IsSorted xs
    → IsSorted ys
    → All (λ x. x.0 < m) xs
    → All (λ y. m ≤ y.0) ys
    → IsSorted (xs ++ ys)
IsSorted-append m [] ys h k lt ge = k
IsSorted-append m (x ∷ xs) ys h k lt ge = (
  All-append _ xs ys h.0 (All-map (λ y p. omega (arith, p, lt.0)) ys ge),
  IsSorted-append m xs ys h.1 k lt.1 ge,
)

pub IsDistinct-append :
    (m : ℕ) (xs ys : List KeyValue)
    → IsDistinct xs
    → IsDistinct ys
    → All (λ x. x.0 < m) xs
    → All (λ y. m ≤ y.0) ys
    → IsDistinct (xs ++ ys)
IsDistinct-append m [] ys h k lt ge = k
IsDistinct-append m (x ∷ xs) ys h k lt ge =
    let apart = any_above x.0 x.1 ys (All-map (λ y p. omega (arith, p, lt.0)) ys ge) in
    (
      ground (arith, any-append (is_pair x.0 x.1) xs ys, h.0, apart),
      IsDistinct-append m xs ys h.1 k lt.1 ge,
    )

pub none_at :
    (P : KeyValue → Type 0) (k v : ℕ) (ys : List KeyValue)
    → All P ys
    → ((y : KeyValue) → P y → y.0 ≡ k → ⊥)
    → any (is_pair k v) ys ≡ false
none_at P k v [] h never = refl
none_at P k v (y ∷ ys) h never = elim (Bool-cases (is_pair k v y)) [
  | inl this ↦ absurd (never y h.0 (ground arith))
  | inr other ↦ ground (arith, none_at P k v ys h.1 never)
]

module _ (pair_hash : KeyValue → ℕ) where
  -- A merge at the key `m`, where the left part's range ends.
  module _ (low m : ℕ) (left_high high : KeyNodeId) (base_left base_right : ℕ → List KeyValue)
      (from : low ≤ m) (ends : left_high.0 ≡ m) (bounded : 0 < left_high.1)
      (inside : below high m ≡ true) where
    abbrev pub base : ℕ → List KeyValue
    base k = if leb m k then base_right k else base_left k

    pub left-IsReady :
        (s : Collected)
        → IsReady pair_hash low high base s
        → IsReady pair_hash low left_high base_left s
    left-IsReady s r = record {
      sorted = r.sorted;
      single = r.single;
      placed = All-map at_left s.sss.items r.placed;
      from_low = r.from_low;
      valid = r.valid;
      met = r.met;
    }
      where
        at_left : (x : Delta) → IsAt high base x → IsAt left_high base_left x
        at_left x p b =
            let test : leb m x.item.0 ≡ false = ground arith in rw test at (p (ground arith))

    pub right-IsReady :
        (values : ℕ → ℕ → Bool) (s s' : Collected)
        → IsReady pair_hash low high base s
        → Collects pair_hash low left_high values s s'
        → IsReady pair_hash m high base_right s'
    right-IsReady values s s' r c = record {
      sorted = rw (c.remaining) (filter-IsCmpSorted (side left_high false) s.sss.items r.sorted);
      single = rw (c.remaining) (filter-IsSingle left_high false s.sss.items r.single);
      placed = rw (c.remaining) (
          All-filter_at _ (side left_high false) s.sss.items
            (All-map at_right s.sss.items r.placed));
      from_low = rw (c.remaining) (
          All-filter_at _ (side left_high false) s.sss.items
            (All-map from_m s.sss.items r.from_low));
      valid = c.still_valid;
      met = λ k v l.
          let out : below left_high k ≡ false = ground arith in
          c.untouched k v out
          ∙ r.met k v (omega arith)
          ∙ sym (has_pair-filter left_high false k v s.sss.items out)
          ∙ ap (has_pair k v) (sym c.remaining);
    }
      where
        at_right :
            (x : Delta) → IsAt high base x → side left_high false x ≡ true → IsAt high base_right x
        at_right x p o b = let test : leb m x.item.0 ≡ true = ground arith in rw test at (p b)

        from_m : (x : Delta) → low ≤ x.item.0 → side left_high false x ≡ true → m ≤ x.item.0
        from_m x l o = ground arith

    abbrev pub joined : (ℕ → ℕ → Bool) → (ℕ → ℕ → Bool) → ℕ → ℕ → Bool
    joined left right k v = if leb m k then right k v else left k v

    module _ (left right : ℕ → ℕ → Bool) (s s' s'' : Collected)
        (l : Collects pair_hash low left_high left s s')
        (r : Collects pair_hash m high right s' s'') where
      left_lt : All (λ y. y.0 < m) l.tail
      left_lt = All-map (λ y p. ground (arith, p.1)) l.tail l.bounds

      right_ge : All (λ y. m ≤ y.0) r.tail
      right_ge = All-map (λ y p. p.0) r.tail r.bounds

      merged_pairs :
          (k v : ℕ)
          → low ≤ k
          → below high k ≡ true
          → any (is_pair k v) (l.tail ++ r.tail) ≡ over k v s.sss.items (joined left right k v)
      merged_pairs k v from_low b = elim (Bool-cases (leb m k)) [
        | inl in_right ↦
            let out : below left_high k ≡ false = ground arith in
            let none_left =
              none_at _ k v l.tail left_lt (λ y p e. ground (arith, p, e, in_right)) in
            rw in_right (
              any-append (is_pair k v) l.tail r.tail
              ∙ ground (arith, none_left)
              ∙ r.pairs k v (ground arith) b
              ∙ ap (λ xs. over k v xs (right k v)) r'
              ∙ over-filter left_high false k v s.sss.items (right k v) out)
        | inr in_left ↦
            let none_right =
              none_at _ k v r.tail right_ge (λ y p e. ground (arith, p, e, in_left)) in
            rw in_left (
              any-append (is_pair k v) l.tail r.tail
              ∙ ground (arith, none_right, l.pairs k v from_low (ground arith)))
      ]
        where
          r' : s'.sss.items ≡ filter (side left_high false) s.sss.items
          r' = l.remaining

      pub merge_then : Collects pair_hash low high (joined left right) s s''
      merge_then = record {
        tail = l.tail ++ r.tail;
        appended = r.appended ∙ ap (◌++ r.tail) l.appended ∙ append_assoc s.new_items l.tail r.tail;
        tail_sorted = IsSorted-append m l.tail r.tail l.tail_sorted r.tail_sorted left_lt right_ge;
        tail_distinct =
            IsDistinct-append m l.tail r.tail l.tail_distinct r.tail_distinct left_lt right_ge;
        bounds =
            All-append _ l.tail r.tail (All-map (λ y p. (p.0, ground (arith, p.1))) l.tail l.bounds)
              (All-map (λ y p. (omega (arith, p.0), p.1)) r.tail r.bounds);
        pairs = merged_pairs;
        remaining =
            r.remaining
            ∙ ap (filter (side high false)) l.remaining
            ∙ filter-filter (side high false) (side left_high false) s.sss.items
                (λ x o. ground arith);
        still_valid = r.still_valid;
        untouched = λ k v o. r.untouched k v o ∙ l.untouched k v (ground arith);
      }
