-- ===== src/Consolidate/Weave/Laws.antt =====
-- What the merge gives: the right pairs, in order, none twice.
use multiprocessor_programmi.Prelude.{
  ℕ, suc, ◌≤◌, ◌<◌, ◌≡◌, refl, sym, ◌∙◌, inl, inr, Bool, true, false, List, [], ◌∷◌, ◌==◌,
  if◌then◌else◌, All, All-map, any, arith, Bool-cases, Option-cases, dec_lt,
}
use multiprocessor_programmi.Leaf.{KeyValue}
use multiprocessor_programmi.Leaf.Spec.{is_pair, position, IsSorted, IsDistinct}
use multiprocessor_programmi.Leaf.Point.{count_upto_above}
use multiprocessor_programmi.Leaf.Values.Base.{position_bounds}
use multiprocessor_programmi.Consolidate.{Delta}
use multiprocessor_programmi.Consolidate.Weave.{
  over, has_pair, IsPlaced, put, weave, IsMergeable, IsPlaced-first, IsPlaced-before, step_copied,
  step_replaced, step_before,
}

pub over-has_pair :
    (k v : ℕ) (xs : List Delta) (base : Bool) → has_pair k v xs ≡ false → over k v xs base ≡ base
over-has_pair k v [] base h = refl
over-has_pair k v (x ∷ xs) base h = ground (arith, over-has_pair k v xs base)

-- Whatever holds of all items and of all inserted ones holds of what comes out.
pub All-weave :
    (P : KeyValue → Type 0) (s : ℕ) (rest : List KeyValue) (xs : List Delta)
    → All P rest
    → All (λ x. P x.item) xs
    → All P (weave s rest xs)
unfolding weave
All-weave P s rest [] hr hx = hr
All-weave P s [] (x ∷ xs) hr hx = ground (arith, All-weave P s [] xs hr hx.1)
All-weave P s (y ∷ rest) (x ∷ xs) hr hx = ground (
  arith,
  All-weave P (suc s) rest xs hr.1 hx.1,
  All-weave P s (y ∷ rest) xs hr hx.1,
  All-weave P (suc s) rest (x ∷ xs) hr.1 hx,
)

pub any_at :
    (k v j w : ℕ) (xs : List KeyValue) → j ≡ k → w ≡ v → any (is_pair k v) xs ≡ any (is_pair j w) xs
any_at k v j w xs e f = rw (e, f) refl

pub has_pair_at :
    (k v j w : ℕ) (xs : List Delta) → j ≡ k → w ≡ v → has_pair k v xs ≡ has_pair j w xs
has_pair_at k v j w xs e f = rw (e, f) refl

over_self :
    (k v : ℕ) (x : Delta) (xs : List Delta) (base : Bool)
    → has_pair x.item.0 x.item.1 xs ≡ false
    → (is_pair k v x.item ≡ true → base ≡ false)
    → is_pair k v x.item ≡ true
    → over k v xs base ≡ false
over_self k v x xs base alone absent this =
    let same : (x.item.0 ≡ k) × (x.item.1 ≡ v) = ground arith in
    let alone' = has_pair_at k v x.item.0 x.item.1 xs same.0 same.1 ∙ alone in
    over-has_pair k v xs base alone' ∙ absent this

any-put :
    (k v : ℕ) (x : Delta) (tail : List KeyValue) (b : Bool)
    → any (is_pair k v) tail ≡ b
    → (is_pair k v x.item ≡ true → b ≡ false)
    → any (is_pair k v) (put x tail) ≡ (if is_pair k v x.item then x.is_insert else b)
any-put k v x tail b e gone = elim (Bool-cases (is_pair k v x.item)) [
  | inl this ↦ let none_left = gone this in ground arith
  | inr other ↦ ground arith
]

-- The first item has no data node, where all stand behind it.
first_alone :
    (s : ℕ) (y : KeyValue) (rest : List KeyValue) (zs : List Delta)
    → All (IsPlaced s (y ∷ rest)) zs
    → All (λ z. s < z.index_pair.0) zs
    → has_pair y.0 y.1 zs ≡ false
first_alone s y rest [] p lt = refl
first_alone s y rest (z ∷ zs) p lt = elim (Bool-cases (is_pair y.0 y.1 z.item)) [
  | inl same ↦
      let here : is_pair z.item.0 z.item.1 y ≡ true = ground arith in
      absurd (ground (arith, p.0, lt.0))
  | inr other ↦ ground (arith, first_alone s y rest zs p.1 lt.1)
]

All-behind :
    (s : ℕ) (rest : List KeyValue) (x : Delta) (xs : List Delta)
    → s < x.index_pair.0
    → IsMergeable s rest (x ∷ xs)
    → All (λ z. s < z.index_pair.0) (x ∷ xs)
All-behind s rest x xs lt m = (lt, All-map (λ z o. omega (arith, o.1, lt)) xs m.ordered.0)

pub placed_behind :
    (s : ℕ) (rest : List KeyValue) (x : Delta)
    → IsPlaced s rest x
    → (x.index_pair.0 == s) ≡ false
    → s < x.index_pair.0
placed_behind s rest x p ne = ground arith

-- A pair comes out exactly if its data node inserts it, or if it has none and is among the items.
pub any-weave :
    (k v s : ℕ) (rest : List KeyValue) (xs : List Delta)
    → IsMergeable s rest xs
    → any (is_pair k v) (weave s rest xs) ≡ over k v xs (any (is_pair k v) rest)
unfolding weave
any-weave k v s rest [] m = refl
any-weave k v s [] (x ∷ xs) m =
    any-put k v x (weave s [] xs) _ (any-weave k v s [] xs (step_before s [] x xs m))
      (over_self k v x xs false m.ordered.1 (λ this. refl))
any-weave k v s (y ∷ rest) (x ∷ xs) m = elim (Bool-cases (x.index_pair.0 == s)) [
  | inl here ↦
      let at : x.index_pair.0 ≡ s = ground arith in
      elim (Bool-cases x.index_pair.1) [
        | inl replaces ↦
            let same = IsPlaced-first s y rest x at replaces m.placed.0 in
            rw (here, replaces)
              (any-put k v x (weave (suc s) rest xs) _
                  (any-weave k v (suc s) rest xs (step_replaced s y rest x xs at replaces m))
                  (over_self k v x xs (any (is_pair k v) rest) m.ordered.1 (λ this.
                    let e : (y.0 ≡ k) × (y.1 ≡ v) = ground (arith, same) in
                    rw (e.0, e.1) at m.distinct.0))
                ∙ ground (arith, same))
        | inr new ↦
            let absent = IsPlaced-before s y rest x at new m.placed.0 in
            rw (here, new)
              (any-put k v x (weave s (y ∷ rest) xs) _
                (any-weave k v s (y ∷ rest) xs (step_before s (y ∷ rest) x xs m))
                (over_self k v x xs (any (is_pair k v) (y ∷ rest)) m.ordered.1 (λ this.
                  let e : (x.item.0 ≡ k) × (x.item.1 ≡ v) = ground arith in
                  any_at k v x.item.0 x.item.1 (y ∷ rest) e.0 e.1 ∙ absent.1)))
      ]
  | inr later ↦
      let lt = placed_behind s (y ∷ rest) x m.placed.0 later in
      let ih = any-weave k v (suc s) rest (x ∷ xs) (step_copied s y rest x xs lt m) in
      let alone = first_alone s y rest (x ∷ xs) m.placed (All-behind s (y ∷ rest) x xs lt m) in
      rw later (elim (Bool-cases (is_pair k v y)) [
        | inl this ↦
            let e : (y.0 ≡ k) × (y.1 ≡ v) = ground arith in
            let alone' = has_pair_at k v y.0 y.1 (x ∷ xs) e.0 e.1 ∙ alone in
            rw this (sym (over-has_pair k v (x ∷ xs) true alone'))
        | inr other ↦ rw other ih
      ])
]

put-IsDistinct :
    (x : Delta) (tail : List KeyValue)
    → any (is_pair x.item.0 x.item.1) tail ≡ false
    → IsDistinct tail
    → IsDistinct (put x tail)
put-IsDistinct x tail new h = ground arith

put-IsSorted :
    (x : Delta) (tail : List KeyValue)
    → All (λ z. x.item.0 ≤ z.0) tail
    → IsSorted tail
    → IsSorted (put x tail)
put-IsSorted x tail above h = elim (Bool-cases x.is_insert) [
  | inl inserts ↦ rw inserts (above, h)
  | inr deletes ↦ rw deletes h
]

-- A data node behind the first item has no smaller key.
behind-le :
    (s : ℕ) (y : KeyValue) (rest : List KeyValue) (x : Delta)
    → IsSorted (y ∷ rest)
    → s < x.index_pair.0
    → IsPlaced s (y ∷ rest) x
    → y.0 ≤ x.item.0
behind-le s y rest x h lt p = elim (dec_lt x.item.0 y.0) [
  | yes below ↦
      let none_upto =
        count_upto_above x.item.0 (y ∷ rest)
          (below, All-map (λ z q. omega (arith, q, below)) rest h.0) in
      elim (Option-cases (position x.item.0 x.item.1 (y ∷ rest))) [
        | inl nowhere ↦ absurd (ground (arith, none_upto, nowhere, p.0))
        | inr (i, there) ↦
            absurd
              (omega (arith, none_upto, position_bounds x.item.0 x.item.1 i (y ∷ rest) h there))
      ]
  | no upto ↦ omega arith
]

pub weave-IsDistinct :
    (s : ℕ) (rest : List KeyValue) (xs : List Delta)
    → IsMergeable s rest xs
    → IsDistinct (weave s rest xs)
unfolding weave
weave-IsDistinct s rest [] m = m.distinct
weave-IsDistinct s [] (x ∷ xs) m =
    put-IsDistinct x (weave s [] xs)
      (any-weave x.item.0 x.item.1 s [] xs (step_before s [] x xs m)
        ∙ over-has_pair x.item.0 x.item.1 xs false m.ordered.1)
      (weave-IsDistinct s [] xs (step_before s [] x xs m))
weave-IsDistinct s (y ∷ rest) (x ∷ xs) m = elim (Bool-cases (x.index_pair.0 == s)) [
  | inl here ↦
      let at : x.index_pair.0 ≡ s = ground arith in
      elim (Bool-cases x.index_pair.1) [
        | inl replaces ↦
            let same = IsPlaced-first s y rest x at replaces m.placed.0 in
            let m' = step_replaced s y rest x xs at replaces m in
            rw (here, replaces)
              (put-IsDistinct x (weave (suc s) rest xs)
                (any-weave x.item.0 x.item.1 (suc s) rest xs m'
                  ∙ over-has_pair x.item.0 x.item.1 xs _ m.ordered.1
                  ∙ rw (same.0, same.1) at m.distinct.0)
                (weave-IsDistinct (suc s) rest xs m'))
        | inr new ↦
            let absent = IsPlaced-before s y rest x at new m.placed.0 in
            let m' = step_before s (y ∷ rest) x xs m in
            rw (here, new)
              (put-IsDistinct x (weave s (y ∷ rest) xs)
                (any-weave x.item.0 x.item.1 s (y ∷ rest) xs m'
                  ∙ over-has_pair x.item.0 x.item.1 xs _ m.ordered.1
                  ∙ absent.1)
                (weave-IsDistinct s (y ∷ rest) xs m'))
      ]
  | inr later ↦
      let lt = placed_behind s (y ∷ rest) x m.placed.0 later in
      let m' = step_copied s y rest x xs lt m in
      let alone = first_alone s y rest (x ∷ xs) m.placed (All-behind s (y ∷ rest) x xs lt m) in
      rw later (
        any-weave y.0 y.1 (suc s) rest (x ∷ xs) m'
            ∙ over-has_pair y.0 y.1 (x ∷ xs) _ alone
            ∙ m.distinct.0,
        weave-IsDistinct (suc s) rest (x ∷ xs) m',
      )
]

pub weave-IsSorted :
    (s : ℕ) (rest : List KeyValue) (xs : List Delta)
    → IsMergeable s rest xs
    → IsSorted (weave s rest xs)
unfolding weave
weave-IsSorted s rest [] m = m.sorted
weave-IsSorted s [] (x ∷ xs) m =
    put-IsSorted x (weave s [] xs)
      (All-weave (λ z. x.item.0 ≤ z.0) s [] xs tt (All-map (λ z o. o.0) xs m.ordered.0))
      (weave-IsSorted s [] xs (step_before s [] x xs m))
weave-IsSorted s (y ∷ rest) (x ∷ xs) m = elim (Bool-cases (x.index_pair.0 == s)) [
  | inl here ↦
      let at : x.index_pair.0 ≡ s = ground arith in
      let later_keys = All-map (λ z o. o.0) xs m.ordered.0 in
      elim (Bool-cases x.index_pair.1) [
        | inl replaces ↦
            let same = IsPlaced-first s y rest x at replaces m.placed.0 in
            rw (here, replaces)
              (put-IsSorted x (weave (suc s) rest xs)
                (All-weave (λ z. x.item.0 ≤ z.0) (suc s) rest xs
                  (All-map (λ z o. omega (arith, o, same.0)) rest m.sorted.0) later_keys)
                (weave-IsSorted (suc s) rest xs (step_replaced s y rest x xs at replaces m)))
        | inr new ↦
            let below = (IsPlaced-before s y rest x at new m.placed.0).0 in
            rw (here, new)
              (put-IsSorted x (weave s (y ∷ rest) xs)
                (All-weave (λ z. x.item.0 ≤ z.0) s (y ∷ rest) xs
                  (omega (arith, below), All-map (λ z o. omega (arith, o, below)) rest m.sorted.0)
                  later_keys)
                (weave-IsSorted s (y ∷ rest) xs (step_before s (y ∷ rest) x xs m)))
      ]
  | inr later ↦
      let lt = placed_behind s (y ∷ rest) x m.placed.0 later in
      let le = behind-le s y rest x m.sorted lt m.placed.0 in
      rw later (
        All-weave (λ z. y.0 ≤ z.0) (suc s) rest (x ∷ xs) m.sorted.0
            (le, All-map (λ z o. omega (arith, o.0, le)) xs m.ordered.0),
        weave-IsSorted (suc s) rest (x ∷ xs) (step_copied s y rest x xs lt m),
      )
]
