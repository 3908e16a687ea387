-- ===== src/SmallSet/Order.antt =====
-- What `Insert` and `InsertNoDedup` keep and add: the order of the items, and which items there are.
use multiprocessor_programmi.Prelude.{
  ◌+◌, ◌≡◌, refl, Bool, true, false, List, [], ◌∷◌, ◌++◌, Option, none, some, if◌then◌else◌, All,
  All-map, count, filter, arith, or_else, Bool-cases, inl, inr,
}
use mathlib.Core.List.{append-nil}
use multiprocessor_programmi.SmallSet.{SmallSet, insert_loop, insert, insert_upper, insert_no_dedup}

-- What the class asks of its comparator: a strict weak order, and an equality that agrees with it.
pub record IsOrder {ℓ} {A : Type ℓ} (value_cmp value_eq : A → A → Bool) : Type ℓ where
  pub irrefl : (x : A) → value_cmp x x ≡ false
  pub trans : (x y z : A) → value_cmp x y ≡ true → value_cmp y z ≡ true → value_cmp x z ≡ true
  pub cotrans : (x y z : A) → value_cmp x y ≡ false → value_cmp y z ≡ false → value_cmp x z ≡ false
  pub eq_of : (x y : A) → value_cmp x y ≡ false → value_cmp y x ≡ false → value_eq x y ≡ true
  pub of_eq : (x y : A) → value_eq x y ≡ true → value_cmp x y ≡ false
  pub eq_sym : (x y : A) → value_eq x y ≡ true → value_eq y x ≡ true

module _ {ℓ} {A : Type ℓ} (value_cmp : A → A → Bool) where
  -- No item is above a later one.
  abbrev pub IsSorted : List A → Type 0
  IsSorted [] = Unit
  IsSorted (x ∷ xs) = All (λ y. value_cmp y x ≡ false) xs × IsSorted xs

  -- Every item is below all later ones.
  abbrev pub IsStrict : List A → Type 0
  IsStrict [] = Unit
  IsStrict (x ∷ xs) = All (λ y. value_cmp x y ≡ true) xs × IsStrict xs

-- the items that are neither below nor above `q`
abbrev pub same_rank {ℓ} : {A : Type ℓ} → (A → A → Bool) → A → A → Bool
same_rank value_cmp q x = if value_cmp x q then false else if value_cmp q x then false else true

-- The first item that is equal to `q`.
unfoldable pub find {ℓ} : {A : Type ℓ} → (A → A → Bool) → A → List A → Option A
find value_eq q [] = none
find value_eq q (x ∷ xs) = if value_eq x q then some x else find value_eq q xs

module _ {ℓ} {A : Type ℓ} {value_cmp value_eq : A → A → Bool} (o : IsOrder value_cmp value_eq) where
  All-insert_loop :
      (P : A → Type 0) (v : A) (xs : List A)
      → P v
      → All P xs
      → All P (insert_loop value_cmp value_eq v xs)
  unfolding insert_loop
  All-insert_loop P v [] hv h = (hv, tt)
  All-insert_loop P v (x ∷ xs) hv h = ground (arith, All-insert_loop P v xs hv h.1)

  insert_loop-IsStrict :
      (v : A) (xs : List A)
      → IsStrict value_cmp xs
      → IsStrict value_cmp (insert_loop value_cmp value_eq v xs)
  unfolding insert_loop
  insert_loop-IsStrict v [] h = (tt, tt)
  insert_loop-IsStrict v (x ∷ xs) h = elim (Bool-cases (value_cmp x v)) [
    | inl below ↦
        rw below (
          All-insert_loop (λ y. value_cmp x y ≡ true) v xs below h.0,
          insert_loop-IsStrict v xs h.1,
        )
    | inr above ↦ rw above (elim (Bool-cases (value_eq x v)) [
      | inl same ↦ rw same h
      | inr other ↦
          let first : value_cmp v x ≡ true = ground (arith, o.eq_of x v) in
          rw other ((first, All-map (λ y p. o.trans v x y first p) xs h.0), h)
    ])
  ]

  find-above :
      (q x : A) (xs : List A)
      → value_cmp q x ≡ true
      → All (λ y. value_cmp x y ≡ true) xs
      → find value_eq q xs ≡ none
  unfolding find
  find-above q x [] h a = refl
  find-above q x (y ∷ xs) h a =
      ground (arith, o.of_eq q y, o.eq_sym y q, o.trans q x y h, find-above q x xs h a.1)

  find-insert_loop :
      (q v : A) (xs : List A)
      → IsStrict value_cmp xs
      → find value_eq q (insert_loop value_cmp value_eq v xs)
        ≡ or_else (find value_eq q xs) (if value_eq v q then some v else none)
  unfolding find insert_loop
  find-insert_loop q v [] h = refl
  find-insert_loop q v (x ∷ xs) h = ground (
    arith,
    find-insert_loop q v xs h.1,
    find-above q x xs,
    o.of_eq x v,
    o.of_eq v q,
    o.of_eq q v,
    o.eq_sym v q,
    o.eq_sym x v,
    o.of_eq v x,
    o.eq_sym x q,
    o.of_eq x q,
    o.of_eq q x,
    o.eq_of x v,
    o.eq_of x q,
    o.cotrans x v q,
    o.cotrans q v x,
    o.cotrans v q x,
    h.0,
  )

  -- Let value_cmp be a strict weak order, and value_eq hold of just the pairs of values of which neither
  -- comes before the other. On strictly ascending items `Insert` keeps the items strictly ascending, and adds `value` exactly where no equal item is
  -- there: the lookup of any `q` gives the old item if there is one, and `value` if that is equal.
  pub insert-find :
      (v : A) (s : SmallSet A)
      → IsStrict value_cmp s.items
      → IsStrict value_cmp (insert value_cmp value_eq v s).items
        × ((q : A)
            → find value_eq q (insert value_cmp value_eq v s).items
              ≡ or_else (find value_eq q s.items) (if value_eq v q then some v else none))
  unfolding insert
  insert-find v s h = (insert_loop-IsStrict v s.items h, λ q. find-insert_loop q v s.items h)

  All-insert_upper :
      (P : A → Type 0) (v : A) (xs : List A) → P v → All P xs → All P (insert_upper value_cmp v xs)
  unfolding insert_upper
  All-insert_upper P v [] hv h = (hv, tt)
  All-insert_upper P v (x ∷ xs) hv h = ground (arith, All-insert_upper P v xs hv h.1)

  asym : (x y : A) → value_cmp x y ≡ true → value_cmp y x ≡ false
  asym x y h = ground (arith, o.trans x y x h, o.irrefl x)

  pub insert_upper-IsSorted :
      (v : A) (xs : List A)
      → IsSorted value_cmp xs
      → IsSorted value_cmp (insert_upper value_cmp v xs)
  unfolding insert_upper
  insert_upper-IsSorted v [] h = (tt, tt)
  insert_upper-IsSorted v (x ∷ xs) h = elim (Bool-cases (value_cmp v x)) [
    | inl below ↦
        rw below ((asym v x below, All-map (λ y p. o.cotrans y x v p (asym v x below)) xs h.0), h)
    | inr above ↦ rw above (
      All-insert_upper (λ y. value_cmp y x ≡ false) v xs above h.0,
      insert_upper-IsSorted v xs h.1,
    )
  ]

  filter-above :
      (q v : A) (xs : List A)
      → same_rank value_cmp q v ≡ true
      → All (λ y. value_cmp v y ≡ true) xs
      → filter (same_rank value_cmp q) xs ≡ []
  filter-above q v [] h a = refl
  filter-above q v (x ∷ xs) h a = ground (arith, o.cotrans v q x, filter-above q v xs h a.1)

  lt_of_lt_le : (v x y : A) → value_cmp v x ≡ true → value_cmp y x ≡ false → value_cmp v y ≡ true
  lt_of_lt_le v x y h k = ground (arith, o.cotrans v y x)

  filter-insert_upper :
      (q v : A) (xs : List A)
      → IsSorted value_cmp xs
      → filter (same_rank value_cmp q) (insert_upper value_cmp v xs)
        ≡ filter (same_rank value_cmp q) xs ++ (if same_rank value_cmp q v then v ∷ [] else [])
  unfolding insert_upper
  filter-insert_upper q v [] h = refl
  filter-insert_upper q v (x ∷ xs) h = elim (Bool-cases (value_cmp v x)) [
    | inl below ↦
        let rest = All-map (λ y p. lt_of_lt_le v x y below p) xs h.0 in
        ground
          (arith, filter-above q v (x ∷ xs), append-nil (filter (same_rank value_cmp q) (x ∷ xs)))
    | inr above ↦ ground (arith, filter-insert_upper q v xs h.1)
  ]

  -- Under such an order, `InsertNoDedup` keeps the items in order, and of the items with the rank of any `q` it leaves the
  -- sequence as it was, `value` behind the others if it has that rank: the insertion is stable.
  insert_no_dedup-filter :
      (v : A) (s : SmallSet A)
      → IsSorted value_cmp s.items
      → IsSorted value_cmp (insert_no_dedup value_cmp v s).items
        × ((q : A)
            → filter (same_rank value_cmp q) (insert_no_dedup value_cmp v s).items
              ≡ filter (same_rank value_cmp q) s.items
                ++ (if same_rank value_cmp q v then v ∷ [] else []))
  unfolding insert_no_dedup
  insert_no_dedup-filter v s h =
      (insert_upper-IsSorted v s.items h, λ q. filter-insert_upper q v s.items h)

module _ {ℓ} {A : Type ℓ} (value_cmp : A → A → Bool) (p : A → Bool) where
  pub count-insert_upper :
      (v : A) (xs : List A)
      → count p (insert_upper value_cmp v xs) ≡ (if p v then 1 else 0) + count p xs
  unfolding insert_upper
  count-insert_upper v [] = refl
  count-insert_upper v (x ∷ xs) = ground (arith, count-insert_upper v xs)
