-- ===== src/Inner/Collect/Merge.antt =====
-- What the merge of ascending items with ascending changes gives.
use multiprocessor_programmi.Prelude.{
  ℕ, ◌<◌, ◌≡◌, refl, sym, ap, ◌∙◌, inl, inr, List, [], ◌∷◌, Option, none, some, ◌==◌, ltb,
  if◌then◌else◌, All, All-map, arith, Bool-cases,
}
use multiprocessor_programmi.Leaf.{KeyNodeId}
use multiprocessor_programmi.Inner.Spec.{lookup, IsAscending}
use multiprocessor_programmi.Inner.Place.{lookup-none}
use multiprocessor_programmi.Inner.Collect.{Change, put_change, merge_seps}

-- Ascending by key.
abbrev pub IsOrdered : List Change → Type 0
IsOrdered [] = Unit
IsOrdered (x ∷ xs) = All (λ y. x.item.0 < y.item.0) xs × IsOrdered xs

-- What a key leads to: as its change says, or as before.
abbrev pub after : Change → Option ℕ
after x = if x.is_insert then some x.item.1 else none

abbrev pub over : ℕ → List Change → Option ℕ → Option ℕ
over k [] base = base
over k (x ∷ xs) base = if x.item.0 == k then after x else over k xs base

pub over_above :
    (k : ℕ) (xs : List Change) (base : Option ℕ)
    → All (λ y. k < y.item.0) xs
    → over k xs base ≡ base
over_above k [] base h = refl
over_above k (x ∷ xs) base h = ground (arith, over_above k xs base h.1)

pub lookup_above : (k : ℕ) (xs : List KeyNodeId) → All (λ y. k < y.0) xs → lookup xs k ≡ none
lookup_above k xs h = lookup-none k k xs (omega arith) h

lookup-put_change :
    (k : ℕ) (x : Change) (later : List KeyNodeId)
    → lookup later x.item.0 ≡ none
    → lookup (put_change x later) k ≡ (if x.item.0 == k then after x else lookup later k)
lookup-put_change k x later alone = elim (Bool-cases (x.item.0 == k)) [
  | inl this ↦
      let e : x.item.0 ≡ k = ground arith in
      let gone = ap (lookup later) (sym e) ∙ alone in ground (arith, gone, this)
  | inr other ↦ ground (arith, other)
]

pub All-merge_seps :
    (P : KeyNodeId → Type 0) (items : List KeyNodeId) (xs : List Change)
    → All P items
    → All (λ x. P x.item) xs
    → All P (merge_seps items xs)
unfolding merge_seps
All-merge_seps P items [] hi hx = hi
All-merge_seps P [] (x ∷ xs) hi hx = ground (arith, All-merge_seps P [] xs hi hx.1)
All-merge_seps P (y ∷ items) (x ∷ xs) hi hx = ground (
  arith,
  All-merge_seps P items (x ∷ xs) hi.1 hx,
  All-merge_seps P (y ∷ items) xs hi hx.1,
  All-merge_seps P items xs hi.1 hx.1,
)

pub lookup-merge_seps :
    (k : ℕ) (items : List KeyNodeId) (xs : List Change)
    → IsAscending items
    → IsOrdered xs
    → lookup (merge_seps items xs) k ≡ over k xs (lookup items k)
unfolding merge_seps
lookup-merge_seps k items [] hi hx = refl
lookup-merge_seps k [] (x ∷ xs) hi hx =
    lookup-put_change k x (merge_seps [] xs)
      (lookup-merge_seps x.item.0 [] xs hi hx.1 ∙ over_above x.item.0 xs none hx.0)
    ∙ ground (arith, lookup-merge_seps k [] xs hi hx.1)
lookup-merge_seps k (y ∷ items) (x ∷ xs) hi hx = elim (Bool-cases (ltb y.0 x.item.0)) [
  | inl first ↦
      let beyond : All (λ z. y.0 < z.item.0) (x ∷ xs) =
        (ground arith, All-map (λ z p. ground (arith, p)) xs hx.0) in
      rw first (elim (Bool-cases (y.0 == k)) [
        | inl this ↦
            let e : y.0 ≡ k = ground arith in
            rw this (
              sym (
                ap (λ j. over j (x ∷ xs) (some y.1)) (sym e)
                ∙ over_above y.0 (x ∷ xs) (some y.1) beyond))
        | inr other ↦ rw other (lookup-merge_seps k items (x ∷ xs) hi.1 hx)
      ])
  | inr reached ↦ elim (Bool-cases (ltb x.item.0 y.0)) [
    | inl before ↦
        let far : All (λ z. x.item.0 < z.0) (y ∷ items) =
          (ground arith, All-map (λ z p. ground (arith, p)) items hi.0) in
        rw (reached, before)
          (lookup-put_change k x (merge_seps (y ∷ items) xs) (
              lookup-merge_seps x.item.0 (y ∷ items) xs hi hx.1
              ∙ over_above x.item.0 xs (lookup (y ∷ items) x.item.0) hx.0
              ∙ lookup_above x.item.0 (y ∷ items) far)
            ∙ ap (λ o. if x.item.0 == k then after x else o)
                (lookup-merge_seps k (y ∷ items) xs hi hx.1))
    | inr equal ↦
        let same : x.item.0 ≡ y.0 = ground arith in
        let far : All (λ z. x.item.0 < z.0) items =
          All-map (λ z p. omega (arith, p, same)) items hi.0 in
        rw (reached, equal)
          (lookup-put_change k x (merge_seps items xs) (
              lookup-merge_seps x.item.0 items xs hi.1 hx.1
              ∙ over_above x.item.0 xs (lookup items x.item.0) hx.0
              ∙ lookup_above x.item.0 items far)
            ∙ ground (arith, lookup-merge_seps k items xs hi.1 hx.1))
  ]
]

put_change-IsAscending :
    (x : Change) (later : List KeyNodeId)
    → All (λ z. x.item.0 < z.0) later
    → IsAscending later
    → IsAscending (put_change x later)
put_change-IsAscending x later far h = elim (Bool-cases x.is_insert) [
  | inl inserts ↦ rw inserts (far, h)
  | inr deletes ↦ rw deletes h
]

pub merge_seps-IsAscending :
    (items : List KeyNodeId) (xs : List Change)
    → IsAscending items
    → IsOrdered xs
    → IsAscending (merge_seps items xs)
unfolding merge_seps
merge_seps-IsAscending items [] hi hx = hi
merge_seps-IsAscending [] (x ∷ xs) hi hx =
    put_change-IsAscending x (merge_seps [] xs) (All-merge_seps (λ z. x.item.0 < z.0) [] xs tt hx.0)
      (merge_seps-IsAscending [] xs hi hx.1)
merge_seps-IsAscending (y ∷ items) (x ∷ xs) hi hx = elim (Bool-cases (ltb y.0 x.item.0)) [
  | inl first ↦ rw first (
    All-merge_seps (λ z. y.0 < z.0) items (x ∷ xs) hi.0
        (ground arith, All-map (λ z p. ground (arith, p)) xs hx.0),
    merge_seps-IsAscending items (x ∷ xs) hi.1 hx,
  )
  | inr reached ↦ elim (Bool-cases (ltb x.item.0 y.0)) [
    | inl before ↦
        rw (reached, before)
          (put_change-IsAscending x (merge_seps (y ∷ items) xs)
            (All-merge_seps (λ z. x.item.0 < z.0) (y ∷ items) xs
              (ground arith, All-map (λ z p. ground (arith, p)) items hi.0) hx.0)
            (merge_seps-IsAscending (y ∷ items) xs hi hx.1))
    | inr equal ↦
        let same : x.item.0 ≡ y.0 = ground arith in
        rw (reached, equal)
          (put_change-IsAscending x (merge_seps items xs)
            (All-merge_seps (λ z. x.item.0 < z.0) items xs
              (All-map (λ z p. omega (arith, p, same)) items hi.0) hx.0)
            (merge_seps-IsAscending items xs hi.1 hx.1))
  ]
]
