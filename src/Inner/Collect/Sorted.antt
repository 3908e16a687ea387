-- ===== src/Inner/Collect/Sorted.antt =====
-- The sorted set of changes, and how the high key cuts it.
use multiprocessor_programmi.Prelude.{
  ℕ, ◌<◌, ◌≤◌, ◌≡◌, refl, sym, ap, ◌∙◌, inl, inr, Bool, true, false, not, List, [], ◌∷◌, Option,
  ◌==◌, ltb, if◌then◌else◌, take, drop, length, filter, All, All-map, All-filter, arith, Bool-cases,
}
use multiprocessor_programmi.SmallSet.{insert_loop}
use multiprocessor_programmi.Leaf.{KeyNodeId, invalid_node_id}
use multiprocessor_programmi.Consolidate.Set.{below}
use multiprocessor_programmi.Inner.Collect.{
  Change, change_cmp, change_eq, changes_below, changes_end,
}
use multiprocessor_programmi.Inner.Collect.Merge.{IsOrdered, after, over, over_above}

-- The sorted set after `Insert`: the older change of a key, which comes later, is left out.
abbrev pub add : Change → List Change → List Change
add = insert_loop change_cmp change_eq

module _ (x : Change) where
  pub All-add : (P : Change → Type 0) (xs : List Change) → P x → All P xs → All P (add x xs)
  unfolding insert_loop
  All-add P [] p h = (p, tt)
  All-add P (y ∷ xs) p h = ground (arith, All-add P xs p h.1)

  pub add-IsOrdered : (xs : List Change) → IsOrdered xs → IsOrdered (add x xs)
  unfolding insert_loop
  add-IsOrdered [] h = (tt, tt)
  add-IsOrdered (y ∷ xs) h = elim (Bool-cases (ltb y.item.0 x.item.0)) [
    | inl first ↦
        rw first (All-add (λ z. y.item.0 < z.item.0) xs (ground arith) h.0, add-IsOrdered xs h.1)
    | inr reached ↦ elim (Bool-cases (y.item.0 == x.item.0)) [
      | inl same ↦ rw (reached, same) h
      | inr other ↦
          let lt : x.item.0 < y.item.0 = ground arith in
          rw (reached, other) ((lt, All-map (λ z p. omega (arith, p, lt)) xs h.0), h)
    ]
  ]

  pub over-add :
      (k : ℕ) (xs : List Change) (b : Option ℕ)
      → IsOrdered xs
      → over k (add x xs) b ≡ over k xs (if x.item.0 == k then after x else b)
  unfolding insert_loop
  over-add k [] b h = refl
  over-add k (y ∷ xs) b h = elim (Bool-cases (ltb y.item.0 x.item.0)) [
    | inl first ↦ rw first (ap (λ o. if y.item.0 == k then after y else o) (over-add k xs b h.1))
    | inr reached ↦ elim (Bool-cases (y.item.0 == x.item.0)) [
      | inl same ↦
          rw (reached, same)
            (elim (Bool-cases (y.item.0 == k)) [
              | inl this ↦ rw this refl
              | inr other ↦
                  let apart : (x.item.0 == k) ≡ false = ground arith in rw (other, apart) refl
            ])
      | inr other ↦
          rw (reached, other)
            (elim (Bool-cases (x.item.0 == k)) [
              | inl this ↦
                  let lt : k < y.item.0 = ground arith in
                  rw this (
                    sym (
                      over_above k (y ∷ xs) (after x)
                        (lt, All-map (λ z p. omega (arith, p, lt)) xs h.0)))
              | inr apart ↦ rw apart refl
            ])
    ]
  ]

  pub filter-add :
      (p : Change → Bool) (xs : List Change) → p x ≡ false → filter p (add x xs) ≡ filter p xs
  unfolding insert_loop
  filter-add p [] out = ground arith
  filter-add p (y ∷ xs) out = ground (arith, filter-add p xs out)

pub filter-IsOrdered :
    (p : Change → Bool) (xs : List Change) → IsOrdered xs → IsOrdered (filter p xs)
filter-IsOrdered p [] h = tt
filter-IsOrdered p (x ∷ xs) h = elim (Bool-cases (p x)) [
  | inl inside ↦
      rw inside (All-filter (λ y. x.item.0 < y.item.0) p xs h.0, filter-IsOrdered p xs h.1)
  | inr outside ↦ rw outside (filter-IsOrdered p xs h.1)
]

module _ (high : KeyNodeId) (inside : Bool) where
  abbrev pub side : Change → Bool
  side x = if inside then below high x.item.0 else not (below high x.item.0)

  pub over-filter :
      (k : ℕ) (xs : List Change) (b : Option ℕ)
      → below high k ≡ inside
      → over k (filter side xs) b ≡ over k xs b
  over-filter k [] b h = refl
  over-filter k (x ∷ xs) b h = elim (Bool-cases (x.item.0 == k)) [
    | inl this ↦ let stays : side x ≡ true = ground arith in rw (stays, this) refl
    | inr other ↦ elim (Bool-cases (side x)) [
      | inl stays ↦ rw (stays, other) (over-filter k xs b h)
      | inr goes ↦ rw (goes, other) (over-filter k xs b h)
    ]
  ]

module _ (high_key : ℕ) where
  none_below :
      (xs : List Change) → All (λ y. high_key ≤ y.item.0) xs → changes_below high_key xs ≡ 0
  unfolding changes_below
  none_below [] h = refl
  none_below (x ∷ xs) h = ground (arith, none_below xs h.1)

  changes_below-filter :
      (xs : List Change)
      → IsOrdered xs
      → (take (changes_below high_key xs) xs ≡ filter (λ (x : Change). ltb x.item.0 high_key) xs)
        × (drop (changes_below high_key xs) xs
            ≡ filter (λ (x : Change). not (ltb x.item.0 high_key)) xs)
  unfolding changes_below
  changes_below-filter [] h = (refl, refl)
  changes_below-filter (x ∷ xs) h =
      let (front, back) = changes_below-filter xs h.1 in
      elim (Bool-cases (ltb x.item.0 high_key)) [
        | inl under ↦ elim (Bool-cases (changes_below high_key xs == 0)) [
          | inl last ↦
              let z : changes_below high_key xs ≡ 0 = ground arith in
              rw (last, under) (ap (◌∷◌ x) (rw z at front), rw z at back)
          | inr more ↦ rw (more, under) (ap (◌∷◌ x) front, back)
        ]
        | inr above ↦
            let z =
              none_below xs
                (All-map (λ (y : Change) (p : x.item.0 < y.item.0). ground (arith, p)) xs h.0) in
            let test : (changes_below high_key xs == 0) ≡ true = ground arith in
            rw (test, above) (rw z at front, ap (◌∷◌ x) (rw z at back))
      ]

all_taken : (xs : List Change) → (take (length xs) xs ≡ xs) × (drop (length xs) xs ≡ [])
all_taken [] = (refl, refl)
all_taken (x ∷ xs) = let (front, back) = all_taken xs in (ap (◌∷◌ x) front, back)

filter_as :
    (p q : Change → Bool) (xs : List Change)
    → ((x : Change) → p x ≡ q x)
    → filter p xs ≡ filter q xs
filter_as p q [] h = refl
filter_as p q (x ∷ xs) h = ground (arith, h x, filter_as p q xs h)

filter_every : (xs : List Change) → (filter (λ x. true) xs ≡ xs) × (filter (λ x. false) xs ≡ [])
filter_every [] = (refl, refl)
filter_every (x ∷ xs) = let (all, nothing) = filter_every xs in (ap (◌∷◌ x) all, nothing)

-- The two sides of `sss_end_it` are the changes below the high key, and the others.
pub changes_end-filter :
    (high : KeyNodeId) (xs : List Change)
    → IsOrdered xs
    → (take (changes_end high xs) xs ≡ filter (side high true) xs)
      × (drop (changes_end high xs) xs ≡ filter (side high false) xs)
unfolding changes_end
changes_end-filter high xs h = elim (Bool-cases (high.1 == invalid_node_id)) [
  | inl unbounded ↦
      let (front, back) = all_taken xs in
      rw unbounded (
        front
            ∙ sym (filter_every xs).0
            ∙ filter_as (λ x. true) (side high true) xs (λ x. ground arith),
        back
            ∙ sym (filter_every xs).1
            ∙ filter_as (λ x. false) (side high false) xs (λ x. ground arith),
      )
  | inr bounded ↦
      let (front, back) = changes_below-filter high.0 xs h in
      rw bounded (
        front ∙ filter_as _ (side high true) xs (λ x. ground arith),
        back ∙ filter_as _ (side high false) xs (λ x. ground arith),
      )
]
