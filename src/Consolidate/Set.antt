-- ===== src/Consolidate/Set.antt =====
-- The sorted set of data nodes: what an insertion adds, and how the high key cuts it.
use multiprocessor_programmi.Prelude.{
  ℕ, ◌≤◌, ◌≡◌, refl, sym, ap, ◌∙◌, inl, inr, Bool, true, false, not, List, [], ◌∷◌, ◌==◌, ltb,
  if◌then◌else◌, All-filter, take, drop, length, filter, All, All-map, arith, Bool-cases,
}
use multiprocessor_programmi.SmallSet.{insert_upper}
use multiprocessor_programmi.SmallSet.Order
use multiprocessor_programmi.SmallSet.Order.{IsOrder, insert_upper-IsSorted}
use multiprocessor_programmi.Leaf.{KeyNodeId, invalid_node_id}
use multiprocessor_programmi.Leaf.Spec.{is_pair}
use multiprocessor_programmi.Consolidate.{Delta, delta_cmp, end_below, sss_end}
use multiprocessor_programmi.Consolidate.Weave.{over, has_pair}

abbrev pub IsCmpSorted : List Delta → Type 0
IsCmpSorted = Order.IsSorted delta_cmp

abbrev delta_eq : Delta → Delta → Bool
delta_eq a b = if delta_cmp a b then false else if delta_cmp b a then false else true

delta-IsOrder : IsOrder delta_cmp delta_eq
delta-IsOrder = record {
  irrefl = λ x. ground arith;
  trans = λ x y z h k. ground arith;
  cotrans = λ x y z h k. ground arith;
  eq_of = λ x y h k. ground arith;
  of_eq = λ x y h. ground arith;
  eq_sym = λ x y h. ground arith;
}

pub insert-IsCmpSorted :
    (x : Delta) (xs : List Delta) → IsCmpSorted xs → IsCmpSorted (insert_upper delta_cmp x xs)
insert-IsCmpSorted x xs h = insert_upper-IsSorted delta-IsOrder x xs h

abbrev pub below : KeyNodeId → ℕ → Bool
below high k = if high.1 == invalid_node_id then true else ltb k high.0

abbrev pub kept : KeyNodeId → Delta → Bool
kept high x = not (below high x.item.0)

-- No pair twice.
abbrev pub IsSingle : List Delta → Type 0
IsSingle [] = Unit
IsSingle (x ∷ xs) = (has_pair x.item.0 x.item.1 xs ≡ false) × IsSingle xs

module _ (x : Delta) where
  pub All-insert :
      (P : Delta → Type 0) (xs : List Delta) → P x → All P xs → All P (insert_upper delta_cmp x xs)
  unfolding insert_upper
  All-insert P [] p h = (p, tt)
  All-insert P (y ∷ xs) p h = ground (arith, All-insert P xs p h.1)

  pub has_pair-insert :
      (k v : ℕ) (xs : List Delta)
      → has_pair k v (insert_upper delta_cmp x xs)
        ≡ (if is_pair k v x.item then true else has_pair k v xs)
  unfolding insert_upper
  has_pair-insert k v [] = refl
  has_pair-insert k v (y ∷ xs) = ground (arith, has_pair-insert k v xs)

  pub insert-IsSingle :
      (xs : List Delta)
      → has_pair x.item.0 x.item.1 xs ≡ false
      → IsSingle xs
      → IsSingle (insert_upper delta_cmp x xs)
  unfolding insert_upper
  insert-IsSingle [] new h = (refl, tt)
  insert-IsSingle (y ∷ xs) new h =
      ground (arith, insert-IsSingle xs, has_pair-insert y.item.0 y.item.1 xs)

  pub over-insert :
      (k v : ℕ) (xs : List Delta) (base : Bool)
      → has_pair x.item.0 x.item.1 xs ≡ false
      → over k v (insert_upper delta_cmp x xs) base
        ≡ (if is_pair k v x.item then x.is_insert else over k v xs base)
  unfolding insert_upper
  over-insert k v [] base new = refl
  over-insert k v (y ∷ xs) base new = ground (arith, over-insert k v xs base)

  pub filter-insert :
      (p : Delta → Bool) (xs : List Delta)
      → p x ≡ false
      → filter p (insert_upper delta_cmp x xs) ≡ filter p xs
  unfolding insert_upper
  filter-insert p [] out = ground arith
  filter-insert p (y ∷ xs) out = ground (arith, filter-insert p xs out)

pub over_any_base :
    (k v : ℕ) (xs : List Delta) (b b' : Bool)
    → has_pair k v xs ≡ true
    → over k v xs b ≡ over k v xs b'
over_any_base k v [] b b' h = absurd (ground arith)
over_any_base k v (x ∷ xs) b b' h = ground (arith, over_any_base k v xs b b')

pub filter-IsCmpSorted :
    (p : Delta → Bool) (xs : List Delta) → IsCmpSorted xs → IsCmpSorted (filter p xs)
filter-IsCmpSorted p [] h = tt
filter-IsCmpSorted p (x ∷ xs) h = elim (Bool-cases (p x)) [
  | inl inside ↦
      rw inside (All-filter (λ y. delta_cmp y x ≡ false) p xs h.0, filter-IsCmpSorted p xs h.1)
  | inr outside ↦ rw outside (filter-IsCmpSorted p xs h.1)
]

module _ (high : KeyNodeId) (inside : Bool) where
  abbrev pub side : Delta → Bool
  side x = if inside then below high x.item.0 else not (below high x.item.0)

  -- A pair on the filter's side keeps its data node.
  pub has_pair-filter :
      (k v : ℕ) (xs : List Delta)
      → below high k ≡ inside
      → has_pair k v (filter side xs) ≡ has_pair k v xs
  has_pair-filter k v [] h = refl
  has_pair-filter k v (x ∷ xs) h = ground (arith, has_pair-filter k v xs h)

  pub over-filter :
      (k v : ℕ) (xs : List Delta) (b : Bool)
      → below high k ≡ inside
      → over k v (filter side xs) b ≡ over k v xs b
  over-filter k v [] b h = refl
  over-filter k v (x ∷ xs) b h = ground (arith, over-filter k v xs b h)

pub filter-IsSingle :
    (high : KeyNodeId) (inside : Bool) (xs : List Delta)
    → IsSingle xs
    → IsSingle (filter (side high inside) xs)
filter-IsSingle high inside [] h = tt
filter-IsSingle high inside (x ∷ xs) h =
    ground
      (arith, filter-IsSingle high inside xs h.1, has_pair-filter high inside x.item.0 x.item.1 xs)

module _ (high_key : ℕ) where
  none_below : (xs : List Delta) → All (λ y. high_key ≤ y.item.0) xs → end_below high_key xs ≡ 0
  unfolding end_below
  none_below [] h = refl
  none_below (x ∷ xs) h = ground (arith, none_below xs h.1)

  end_below-filter :
      (xs : List Delta)
      → IsCmpSorted xs
      → (take (end_below high_key xs) xs ≡ filter (λ (x : Delta). ltb x.item.0 high_key) xs)
        × (drop (end_below high_key xs) xs ≡ filter (λ (x : Delta). not (ltb x.item.0 high_key)) xs)
  unfolding end_below
  end_below-filter [] h = (refl, refl)
  end_below-filter (x ∷ xs) h =
      let (front, back) = end_below-filter xs h.1 in
      elim (Bool-cases (ltb x.item.0 high_key)) [
        | inl under ↦ elim (Bool-cases (end_below high_key xs == 0)) [
          | inl last ↦
              let z : end_below high_key xs ≡ 0 = ground arith in
              rw (last, under) (ap (◌∷◌ x) (rw z at front), rw z at back)
          | inr more ↦ rw (more, under) (ap (◌∷◌ x) front, back)
        ]
        | inr above ↦
            let z =
              none_below xs
                (All-map (λ (y : Delta) (p : delta_cmp y x ≡ false). ground (arith, p)) xs h.0) in
            let test : (end_below high_key xs == 0) ≡ true = ground arith in
            rw (test, above) (rw z at front, ap (◌∷◌ x) (rw z at back))
      ]

all_taken : (xs : List Delta) → (take (length xs) xs ≡ xs) × (drop (length xs) xs ≡ [])
all_taken [] = (refl, refl)
all_taken (x ∷ xs) = let (front, back) = all_taken xs in (ap (◌∷◌ x) front, back)

filter_all : (p : Delta → Bool) (xs : List Delta) → ((x : Delta) → p x ≡ true) → filter p xs ≡ xs
filter_all p [] h = refl
filter_all p (x ∷ xs) h = rw (h x) (ap (◌∷◌ x) (filter_all p xs h))

filter_none : (p : Delta → Bool) (xs : List Delta) → ((x : Delta) → p x ≡ false) → filter p xs ≡ []
filter_none p [] h = refl
filter_none p (x ∷ xs) h = rw (h x) (filter_none p xs h)

pub filter_same :
    (p q : Delta → Bool) (xs : List Delta) → ((x : Delta) → p x ≡ q x) → filter p xs ≡ filter q xs
filter_same p q [] h = refl
filter_same p q (x ∷ xs) h = ground (arith, h x, filter_same p q xs h)

-- The two sides of `sss_end_it` are the data nodes below the high key, and the others.
pub sss_end-filter :
    (high : KeyNodeId) (xs : List Delta)
    → IsCmpSorted xs
    → (take (sss_end high xs) xs ≡ filter (side high true) xs)
      × (drop (sss_end high xs) xs ≡ filter (side high false) xs)
unfolding sss_end
sss_end-filter high xs h = elim (Bool-cases (high.1 == invalid_node_id)) [
  | inl unbounded ↦
      let (front, back) = all_taken xs in
      rw unbounded (
        front ∙ sym (filter_all (side high true) xs (λ x. ground arith)),
        back ∙ sym (filter_none (side high false) xs (λ x. ground arith)),
      )
  | inr bounded ↦
      let (front, back) = end_below-filter high.0 xs h in
      rw bounded (
        front ∙ filter_same _ (side high true) xs (λ x. ground arith),
        back ∙ filter_same _ (side high false) xs (λ x. ground arith),
      )
]
