-- ===== src/Consolidate/Count.antt =====
-- Lists of pairs without repetition: their sublists and their lengths.
use multiprocessor_programmi.Prelude.{
  ℕ, suc, ◌+◌, ◌≤◌, ◌<◌, ◌≡◌, refl, sym, ap, ◌∙◌, inl, inr, Bool, true, false, not, List, [], ◌∷◌,
  ltb, leb, if◌then◌else◌, length, filter, any, count, All, arith, Bool-cases,
}
use multiprocessor_programmi.Leaf.{KeyValue}
use multiprocessor_programmi.Leaf.Spec.{is_pair, IsDistinct}

module _ (item : KeyValue) where
  pub any-without :
      (k v : ℕ) (ys : List KeyValue)
      → any (is_pair k v) (filter (λ y. not (is_pair item.0 item.1 y)) ys)
        ≡ (if is_pair k v item then false else any (is_pair k v) ys)
  any-without k v [] = ground arith
  any-without k v (y ∷ ys) = ground (arith, any-without k v ys)

  without_absent :
      (ys : List KeyValue)
      → any (is_pair item.0 item.1) ys ≡ false
      → filter (λ y. not (is_pair item.0 item.1 y)) ys ≡ ys
  without_absent [] h = refl
  without_absent (y ∷ ys) h = elim (Bool-cases (is_pair item.0 item.1 y)) [
    | inl this ↦ absurd (ground arith)
    | inr other ↦ rw other (ap (◌∷◌ y) (without_absent ys (rw other at h)))
  ]

  pub length-without :
      (ys : List KeyValue)
      → IsDistinct ys
      → any (is_pair item.0 item.1) ys ≡ true
      → suc (length (filter (λ y. not (is_pair item.0 item.1 y)) ys)) ≡ length ys
  length-without [] d h = absurd (ground arith)
  length-without (y ∷ ys) d h = elim (Bool-cases (is_pair item.0 item.1 y)) [
    | inl this ↦
        let e : (y.0 ≡ item.0) × (y.1 ≡ item.1) = ground arith in
        rw this
          (ap (λ (l : List KeyValue). suc (length l)) (without_absent ys (rw (e.0, e.1) at d.0)))
    | inr other ↦ rw other (ap suc (length-without ys d.1 (rw other at h)))
  ]

any-filter_none :
    (q p : KeyValue → Bool) (ys : List KeyValue) → any q ys ≡ false → any q (filter p ys) ≡ false
any-filter_none q p [] h = refl
any-filter_none q p (y ∷ ys) h = ground (arith, any-filter_none q p ys)

pub filter-IsDistinct :
    (p : KeyValue → Bool) (ys : List KeyValue) → IsDistinct ys → IsDistinct (filter p ys)
filter-IsDistinct p [] d = tt
filter-IsDistinct p (y ∷ ys) d = elim (Bool-cases (p y)) [
  | inl stays ↦ rw stays (any-filter_none (is_pair y.0 y.1) p ys d.0, filter-IsDistinct p ys d.1)
  | inr goes ↦ rw goes (filter-IsDistinct p ys d.1)
]

module _ (m : ℕ) where
  pub any-filter_lt :
      (k v : ℕ) (ys : List KeyValue)
      → any (is_pair k v) (filter (λ y. ltb y.0 m) ys)
        ≡ (if ltb k m then any (is_pair k v) ys else false)
  any-filter_lt k v [] = ground arith
  any-filter_lt k v (y ∷ ys) = ground (arith, any-filter_lt k v ys)

  pub any-filter_ge :
      (k v : ℕ) (ys : List KeyValue)
      → any (is_pair k v) (filter (λ y. leb m y.0) ys)
        ≡ (if leb m k then any (is_pair k v) ys else false)
  any-filter_ge k v [] = ground arith
  any-filter_ge k v (y ∷ ys) = ground (arith, any-filter_ge k v ys)

  pub length-filter_split :
      (ys : List KeyValue)
      → length (filter (λ y. ltb y.0 m) ys) + count (λ y. leb m y.0) ys ≡ length ys
  length-filter_split [] = refl
  length-filter_split (y ∷ ys) = ground (arith, length-filter_split ys)

  pub filter_lt : (ys : List KeyValue) → All (λ y. y.0 < m) ys → filter (λ y. ltb y.0 m) ys ≡ ys
  filter_lt [] h = refl
  filter_lt (y ∷ ys) h =
      let test : ltb y.0 m ≡ true = ground (arith, h.0) in rw test (ap (◌∷◌ y) (filter_lt ys h.1))

  pub filter_ge : (ys : List KeyValue) → All (λ y. m ≤ y.0) ys → filter (λ y. leb m y.0) ys ≡ ys
  filter_ge [] h = refl
  filter_ge (y ∷ ys) h =
      let test : leb m y.0 ≡ true = ground (arith, h.0) in rw test (ap (◌∷◌ y) (filter_ge ys h.1))

  pub All-lt : (ys : List KeyValue) → All (λ y. y.0 < m) (filter (λ y. ltb y.0 m) ys)
  All-lt [] = tt
  All-lt (y ∷ ys) = ground (arith, All-lt ys)

  pub All-ge : (ys : List KeyValue) → All (λ y. m ≤ y.0) (filter (λ y. leb m y.0) ys)
  All-ge [] = tt
  All-ge (y ∷ ys) = ground (arith, All-ge ys)

-- Two lists without repetition and with the same pairs have the same length.
pub length-same :
    (xs ys : List KeyValue)
    → IsDistinct xs
    → IsDistinct ys
    → ((k v : ℕ) → any (is_pair k v) xs ≡ any (is_pair k v) ys)
    → length xs ≡ length ys
length-same [] [] d d' same = refl
length-same [] (y ∷ ys) d d' same = absurd (ground (arith, same y.0 y.1))
length-same (x ∷ xs) ys d d' same =
    let there : any (is_pair x.0 x.1) ys ≡ true = ground (arith, same x.0 x.1) in
    ap suc (
      length-same xs (filter (λ y. not (is_pair x.0 x.1 y)) ys) d.1
        (filter-IsDistinct (λ y. not (is_pair x.0 x.1 y)) ys d') (λ k v. rest k v))
    ∙ length-without x ys d' there
  where
    rest :
        (k v : ℕ)
        → any (is_pair k v) xs ≡ any (is_pair k v) (filter (λ y. not (is_pair x.0 x.1 y)) ys)
    rest k v = elim (Bool-cases (is_pair k v x)) [
      | inl this ↦
          let e : (x.0 ≡ k) × (x.1 ≡ v) = ground arith in
          let gone : any (is_pair k v) xs ≡ false = rw (e.0, e.1) at d.0 in
          gone ∙ sym (any-without x k v ys ∙ rw this refl)
      | inr other ↦
          let all = same k v in (rw other at all) ∙ sym (any-without x k v ys ∙ rw other refl)
    ]
