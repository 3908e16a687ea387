-- ===== src/Consolidate/Weave.antt =====
-- The merge of a base node with sorted data nodes, one item at a time: what the indices say, and what
-- comes out.
pub mod Laws
use multiprocessor_programmi.Prelude.{
  ℕ, zero, suc, ◌+◌, ◌-◌, ◌≤◌, ◌<◌, ◌≡◌, ◌≢◌, refl, sym, ap, ◌∙◌, ◌⊎◌, inl, inr, Bool, true, false,
  ◌&&◌, ◌||◌, List, [], ◌∷◌, ◌++◌, Option, none, some, ◌==◌, ltb, leb, if◌then◌else◌, All, All-map,
  any, arith, Bool-cases, Option-cases, dec_lt,
}
use multiprocessor_programmi.Leaf.{KeyValue, IndexPair}
use multiprocessor_programmi.Leaf.Spec.{
  is_pair, position, index_of, index_at, count_upto, IsSorted, IsDistinct,
}
use multiprocessor_programmi.Leaf.Point.{count_upto_above}
use multiprocessor_programmi.Leaf.Values.Base.{position_bounds}
use multiprocessor_programmi.Consolidate.{Delta}

-- Whether a pair is there at the end: as its data node says, or as in the base node.
abbrev pub over : ℕ → ℕ → List Delta → Bool → Bool
over k v [] base = base
over k v (x ∷ xs) base = if is_pair k v x.item then x.is_insert else over k v xs base

abbrev pub has_pair : ℕ → ℕ → List Delta → Bool
has_pair k v [] = false
has_pair k v (x ∷ xs) = if is_pair k v x.item then true else has_pair k v xs

-- The data node's index pair is its place in the items, the first of which stands at `s`.
abbrev pub IsPlaced : ℕ → List KeyValue → Delta → Type 0
IsPlaced s rest x =
    (x.index_pair.0 ≡ s + (index_of x.item.0 x.item.1 rest).0)
    × (x.index_pair.1 ≡ (index_of x.item.0 x.item.1 rest).1)

-- Ascending by key and by index, no pair twice.
abbrev pub IsOrdered : List Delta → Type 0
IsOrdered [] = Unit
IsOrdered (x ∷ xs) =
    All (λ y. (x.item.0 ≤ y.item.0) × (x.index_pair.0 ≤ y.index_pair.0)) xs
    × (has_pair x.item.0 x.item.1 xs ≡ false)
    × IsOrdered xs

abbrev pub put : Delta → List KeyValue → List KeyValue
put x tail = if x.is_insert then x.item ∷ tail else tail

-- The merge, one item or data node at a time.
unfoldable pub weave : ℕ → List KeyValue → List Delta → List KeyValue
weave s rest [] = rest
weave s [] (x ∷ xs) = put x (weave s [] xs)
weave s (y ∷ rest) (x ∷ xs) =
    let replaced = weave (suc s) rest xs in
    let before = weave s (y ∷ rest) xs in
    let copied = weave (suc s) rest (x ∷ xs) in
    if x.index_pair.0 == s then put x (if x.index_pair.1 then replaced else before) else y ∷ copied

-- What the merge asks of the data nodes and of the items.
pub record IsMergeable (s : ℕ) (rest : List KeyValue) (xs : List Delta) : Type 0 where
  pub sorted : IsSorted rest
  pub distinct : IsDistinct rest
  pub placed : All (IsPlaced s rest) xs
  pub ordered : IsOrdered xs

any-position :
    (k v : ℕ) (xs : List KeyValue) → position k v xs ≡ none → any (is_pair k v) xs ≡ false
any-position k v [] e = refl
any-position k v (y ∷ xs) e = elim (Bool-cases (is_pair k v y)) [
  | inl here ↦ absurd (ground arith)
  | inr other ↦ elim (Option-cases (position k v xs)) [
    | inl nowhere ↦ ground (arith, any-position k v xs nowhere)
    | inr (i, there) ↦ absurd (ground arith)
  ]
]

-- A data node placed behind the first item is placed in the rest.
IsPlaced-rest :
    (s : ℕ) (y : KeyValue) (rest : List KeyValue) (x : Delta)
    → IsSorted (y ∷ rest)
    → s < x.index_pair.0
    → IsPlaced s (y ∷ rest) x
    → IsPlaced (suc s) rest x
IsPlaced-rest s y rest x h lt p = elim (Bool-cases (is_pair x.item.0 x.item.1 y)) [
  | inl here ↦ absurd (ground arith)
  | inr other ↦ elim (Option-cases (position x.item.0 x.item.1 rest)) [
    | inl nowhere ↦ elim (dec_lt x.item.0 y.0) [
      | yes below ↦
          let none_upto =
            count_upto_above x.item.0 rest (All-map (λ z q. omega (arith, q, below)) rest h.0) in
          absurd (ground arith)
      | no upto ↦ ground arith
    ]
    | inr (i, there) ↦ ground arith
  ]
]

-- A data node that stands at the first item and replaces it has its pair.
pub IsPlaced-first :
    (s : ℕ) (y : KeyValue) (rest : List KeyValue) (x : Delta)
    → x.index_pair.0 ≡ s
    → x.index_pair.1 ≡ true
    → IsPlaced s (y ∷ rest) x
    → (y.0 ≡ x.item.0) × (y.1 ≡ x.item.1)
IsPlaced-first s y rest x at replaces p = elim (Bool-cases (is_pair x.item.0 x.item.1 y)) [
  | inl here ↦ ground arith
  | inr other ↦ elim (Option-cases (position x.item.0 x.item.1 rest)) [
    | inl nowhere ↦ absurd (ground arith)
    | inr (i, there) ↦ absurd (ground arith)
  ]
]

-- One that stands before the first item, new, has a smaller key, and is not among the items.
pub IsPlaced-before :
    (s : ℕ) (y : KeyValue) (rest : List KeyValue) (x : Delta)
    → x.index_pair.0 ≡ s
    → x.index_pair.1 ≡ false
    → IsPlaced s (y ∷ rest) x
    → (x.item.0 < y.0) × (any (is_pair x.item.0 x.item.1) (y ∷ rest) ≡ false)
IsPlaced-before s y rest x at new p = elim (Option-cases (position x.item.0 x.item.1 (y ∷ rest))) [
  | inl nowhere ↦ (ground arith, any-position x.item.0 x.item.1 (y ∷ rest) nowhere)
  | inr (i, there) ↦ absurd (ground arith)
]

pub IsPlaced-end :
    (s : ℕ) (x : Delta) → IsPlaced s [] x → (x.index_pair.0 ≡ s) × (x.index_pair.1 ≡ false)
IsPlaced-end s x p = (omega (arith, p.0), p.1)

-- Nothing that comes later is a pair that is gone: how the conditions pass on from step to step.
pub step_copied :
    (s : ℕ) (y : KeyValue) (rest : List KeyValue) (x : Delta) (xs : List Delta)
    → s < x.index_pair.0
    → IsMergeable s (y ∷ rest) (x ∷ xs)
    → IsMergeable (suc s) rest (x ∷ xs)
step_copied s y rest x xs lt m = record {
  sorted = m.sorted.1;
  distinct = m.distinct.1;
  placed = (IsPlaced-rest s y rest x m.sorted lt m.placed.0, move_all xs m.placed.1 m.ordered.0);
  ordered = m.ordered;
}
  where
    move_all :
        (zs : List Delta)
        → All (IsPlaced s (y ∷ rest)) zs
        → All (λ z. (x.item.0 ≤ z.item.0) × (x.index_pair.0 ≤ z.index_pair.0)) zs
        → All (IsPlaced (suc s) rest) zs
    move_all [] p o = tt
    move_all (z ∷ zs) p o =
        (IsPlaced-rest s y rest z m.sorted (omega (arith, o.0, lt)) p.0, move_all zs p.1 o.1)

pub step_replaced :
    (s : ℕ) (y : KeyValue) (rest : List KeyValue) (x : Delta) (xs : List Delta)
    → x.index_pair.0 ≡ s
    → x.index_pair.1 ≡ true
    → IsMergeable s (y ∷ rest) (x ∷ xs)
    → IsMergeable (suc s) rest xs
step_replaced s y rest x xs at replaces m = record {
  sorted = m.sorted.1;
  distinct = m.distinct.1;
  placed = move_all xs m.placed.1 m.ordered.0 m.ordered.1;
  ordered = m.ordered.2;
}
  where
    behind :
        (z : Delta)
        → IsPlaced s (y ∷ rest) z
        → (x.item.0 ≤ z.item.0) × (x.index_pair.0 ≤ z.index_pair.0)
        → is_pair x.item.0 x.item.1 z.item ≡ false
        → s < z.index_pair.0
    behind z p o other = elim (dec_lt s z.index_pair.0) [
      | yes lt ↦ lt
      | no ge ↦
          let here : z.index_pair.0 ≡ s = omega (arith, o.1, at) in
          let same = IsPlaced-first s y rest x at replaces m.placed.0 in
          elim (Bool-cases z.index_pair.1) [
            | inl again ↦
                let same' = IsPlaced-first s y rest z here again p in absurd (ground arith)
            | inr new ↦
                let below = IsPlaced-before s y rest z here new p in
                absurd (omega (arith, below.0, same.0, o.0))
          ]
    ]

    move_all :
        (zs : List Delta)
        → All (IsPlaced s (y ∷ rest)) zs
        → All (λ z. (x.item.0 ≤ z.item.0) × (x.index_pair.0 ≤ z.index_pair.0)) zs
        → has_pair x.item.0 x.item.1 zs ≡ false
        → All (IsPlaced (suc s) rest) zs
    move_all [] p o d = tt
    move_all (z ∷ zs) p o d = (
      IsPlaced-rest s y rest z m.sorted (behind z p.0 o.0 (ground arith)) p.0,
      move_all zs p.1 o.1 (ground arith),
    )

pub step_before :
    (s : ℕ) (rest : List KeyValue) (x : Delta) (xs : List Delta)
    → IsMergeable s rest (x ∷ xs)
    → IsMergeable s rest xs
step_before s rest x xs m = record {
  sorted = m.sorted;
  distinct = m.distinct;
  placed = m.placed.1;
  ordered = m.ordered.2;
}

pub IsPlaced-le :
    (s : ℕ) (rest : List KeyValue) (x : Delta) → IsPlaced s rest x → s ≤ x.index_pair.0
IsPlaced-le s rest x p = omega (arith, p.0)
