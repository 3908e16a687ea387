-- ===== src/Inner/Collect/Joined.antt =====
-- What is collected from the two parts of an inner merge, one after the other.
use multiprocessor_programmi.Prelude.{
  ℕ, ◌≤◌, ◌<◌, ◌≡◌, refl, ap, ◌∙◌, inl, inr, true, false, List, [], ◌∷◌, ◌++◌, Option, leb,
  if◌then◌else◌, filter, All, All-map, All-filter_at, All-append, arith, Bool-cases, filter-filter,
}
use mathlib.Core.List.{append_assoc}
use multiprocessor_programmi.Leaf.{KeyNodeId}
use multiprocessor_programmi.Consolidate.Set.{below}
use multiprocessor_programmi.Inner.Spec.{lookup, IsAscending}
use multiprocessor_programmi.Inner.Collect.{Change, Seps}
use multiprocessor_programmi.Inner.Collect.Merge.{over}
use multiprocessor_programmi.Inner.Collect.Sorted.{filter-IsOrdered, side, over-filter}
use multiprocessor_programmi.Inner.Collect.Chain.{IsReady, Collects}

pub append-IsAscending :
    (m : ℕ) (xs ys : List KeyNodeId)
    → IsAscending xs
    → IsAscending ys
    → All (λ x. x.0 < m) xs
    → All (λ y. m ≤ y.0) ys
    → IsAscending (xs ++ ys)
append-IsAscending m [] ys h k lt ge = k
append-IsAscending m (x ∷ xs) ys h k lt ge = (
  All-append _ xs ys h.0 (All-map (λ y p. omega (arith, p, lt.0)) ys ge),
  append-IsAscending m xs ys h.1 k lt.1 ge,
)

module _ (k : ℕ) where
  pub lookup-append_left :
      (xs ys : List KeyNodeId) → All (λ y. k < y.0) ys → lookup (xs ++ ys) k ≡ lookup xs k
  lookup-append_left [] [] h = refl
  lookup-append_left [] (y ∷ ys) h = ground (arith, lookup-append_left [] ys h.1)
  lookup-append_left (x ∷ xs) ys h = ground (arith, lookup-append_left xs ys h)

  pub lookup-append_right :
      (xs ys : List KeyNodeId) → All (λ x. x.0 < k) xs → lookup (xs ++ ys) k ≡ lookup ys k
  lookup-append_right [] ys h = refl
  lookup-append_right (x ∷ xs) ys h = ground (arith, lookup-append_right xs ys h.1)

-- A merge at the key `m`, where the left part's range ends.
module _ (low m : ℕ) (left_high high : KeyNodeId) (from : low ≤ m) (ends : left_high.0 ≡ m)
    (bounded : 0 < left_high.1) (inside : below high m ≡ true) where
  pub right-IsReady :
      (values : ℕ → Option ℕ) (s s' : Seps)
      → IsReady low s
      → Collects low left_high values s s'
      → IsReady m s'
  right-IsReady values s s' r c = record {
    ordered = rw (c.remaining) (filter-IsOrdered (side left_high false) s.sss.items r.ordered);
    from_low = rw (c.remaining) (
        All-filter_at _ (side left_high false) s.sss.items (All-map from_m s.sss.items r.from_low));
  }
    where
      from_m : (x : Change) → low ≤ x.item.0 → side left_high false x ≡ true → m ≤ x.item.0
      from_m x l o = ground arith

  abbrev pub joined : (ℕ → Option ℕ) → (ℕ → Option ℕ) → ℕ → Option ℕ
  joined left right k = if leb m k then right k else left k

  module _ (left right : ℕ → Option ℕ) (s s' s'' : Seps) (l : Collects low left_high left s s')
      (r : Collects m high right s' s'') where
    left_lt : All (λ y. y.0 < m) l.tail
    left_lt = All-map (λ y p. ground (arith, p.1)) l.tail l.bounds

    right_ge : All (λ y. m ≤ y.0) r.tail
    right_ge = All-map (λ y p. p.0) r.tail r.bounds

    merged_pairs :
        (k : ℕ)
        → low ≤ k
        → below high k ≡ true
        → lookup (l.tail ++ r.tail) k ≡ over k s.sss.items (joined left right k)
    merged_pairs k from_low b = elim (Bool-cases (leb m k)) [
      | inl in_right ↦
          let out : below left_high k ≡ false = ground arith in
          let le : m ≤ k = ground arith in
          rw in_right (
            lookup-append_right k l.tail r.tail
              (All-map (λ y p. omega (arith, p, le)) l.tail left_lt)
            ∙ r.pairs k le b
            ∙ ap (λ xs. over k xs (right k)) l.remaining
            ∙ over-filter left_high false k s.sss.items (right k) out)
      | inr in_left ↦
          let lt : k < m = ground arith in
          rw in_left (
            lookup-append_left k l.tail r.tail
              (All-map (λ y p. omega (arith, p, lt)) r.tail right_ge)
            ∙ l.pairs k from_low (ground arith))
    ]

    pub merge_then : Collects low high (joined left right) s s''
    merge_then = record {
      tail = l.tail ++ r.tail;
      appended = r.appended ∙ ap (◌++ r.tail) l.appended ∙ append_assoc s.new_items l.tail r.tail;
      ascending = append-IsAscending m l.tail r.tail l.ascending r.ascending left_lt right_ge;
      bounds =
          All-append _ l.tail r.tail (All-map (λ y p. (p.0, ground (arith, p.1))) l.tail l.bounds)
            (All-map (λ y p. (omega (arith, p.0), p.1)) r.tail r.bounds);
      pairs = merged_pairs;
      remaining =
          r.remaining
          ∙ ap (filter (side high false)) l.remaining
          ∙ filter-filter (side high false) (side left_high false) s.sss.items
              (λ x o. ground arith);
    }
