-- ===== src/Leaf/Values.antt =====
-- The search for all values of a key: `NavigateLeafNode` with a value list, as GetValue calls it.
pub mod Base
use multiprocessor_programmi.Prelude.{
  ℕ, zero, suc, ◌+◌, ◌≤◌, ◌<◌, ◌≡◌, refl, ◌∙◌, ap, Bool, true, false, List, [], ◌∷◌, ◌++◌, ◌==◌,
  ltb, leb, if◌then◌else◌, any, count, count-append, any-append, length, Option, none, some, arith,
  inl, inr, Bool-cases, ==_iff, All, All-map, dec_lt, sym, drop,
}
use multiprocessor_programmi.Bloom
use multiprocessor_programmi.Bloom.{BloomFilter}
use multiprocessor_programmi.Bloom.Exact.{IsHashed, exists-any, insert-IsValid, init-IsValid}
use multiprocessor_programmi.Bloom.Exact
use multiprocessor_programmi.Leaf.{
  LeafChain, leaf, leaf_insert, leaf_delete, leaf_split, leaf_remove, leaf_merge, KeyValue,
  get_high_key_pair,
}
use multiprocessor_programmi.Leaf.Navigate.{
  lower_bound, seen, note, Search, start_search, copy_value, copy_values, visit, end_or,
  values_in_base, navigate_values,
}
use multiprocessor_programmi.Leaf.Spec.{
  is_pair, holds, base_of, count_below, count_upto, position, index_of, IsSorted, IsDistinct,
  IsBelowHigh, IsValid,
}
use multiprocessor_programmi.Leaf.Point.{drop-lower_bound, drop-IsSorted, below_split}
use Base.{values_start, index_of_below, index_of_above, count_below-le}

pub count_upto-le-length : (k : ℕ) (xs : List KeyValue) → count_upto k xs ≤ length xs
count_upto-le-length k [] = omega arith
count_upto-le-length k (x ∷ xs) = ground (arith, count_upto-le-length k xs)

-- The items of the key lie between `start_index` and `end_index`.
abbrev pub IsWindow : ℕ → Option ℕ → ℕ → List KeyValue → Type 0
IsWindow first last k items =
    (first ≤ count_below k items) × (count_upto k items ≤ end_or last (length items))

abbrev pub has : ℕ → BloomFilter ℕ → Bool
has v f = any (◌==◌ v) f.data_values

-- How often the value is in the list at the end, if `found` says whether the rest of the chain holds
-- it: values that were met above count no more.
abbrev pub total : ℕ → Search → Bool → ℕ
total v s found =
    count (◌==◌ v) s.value_list
    + (if has v s.deleted_set then 0 else if has v s.present_set then 0 else if found then 1 else 0)

module _ (value_hash : ℕ → ℕ) where
  abbrev pub IsFilter : BloomFilter ℕ → Type 0
  IsFilter = Exact.IsValid ◌==◌ value_hash

  eq-IsHashed : IsHashed ◌==◌ value_hash
  eq-IsHashed = record { hash_eq = λ x y h. ap value_hash ((==_iff x y).0 h) }

  pub seen-has : (v : ℕ) (f : BloomFilter ℕ) → IsFilter f → seen value_hash v f ≡ has v f
  seen-has v f h = exists-any ◌==◌ value_hash eq-IsHashed v f h

  pub has-note :
      (v w : ℕ) (f : BloomFilter ℕ)
      → has v (note value_hash w f) ≡ (if has v f then true else v == w)
  unfolding Bloom.insert_scalar
  has-note v w f = ground (arith, any-append (◌==◌ v) f.data_values (w ∷ []))

  same_pair :
      (k v : ℕ) (x : KeyValue) (xs : List KeyValue)
      → x.0 ≡ k
      → (v == x.1) ≡ true
      → any (is_pair x.0 x.1) xs ≡ false
      → any (is_pair k v) xs ≡ false
  same_pair k v x xs e h d = let f : x.1 ≡ v = ground arith in rw (e, f) at d

  pair_test :
      (k v : ℕ) (x : KeyValue) (xs : List KeyValue)
      → x.0 ≡ k
      → (if v == x.1 then true else any (is_pair k v) xs) ≡ any (is_pair k v) (x ∷ xs)
  pair_test k v x xs e = ground arith

  pub record IsReady (s : Search) : Type 0 where
    pub present : IsFilter s.present_set
    pub deleted : IsFilter s.deleted_set

  copy_value-total :
      (v w : ℕ) (s : Search) (found : Bool)
      → IsReady s
      → ((v == w) ≡ true → found ≡ false)
      → total v (copy_value value_hash w s) found ≡ total v s (if v == w then true else found)
  unfolding copy_value
  copy_value-total v w s found r h = ground (
    arith,
    seen-has w s.present_set r.present,
    seen-has w s.deleted_set r.deleted,
    count-append (◌==◌ v) s.value_list (w ∷ []),
  )

  copy_value-IsReady : (w : ℕ) (s : Search) → IsReady s → IsReady (copy_value value_hash w s)
  unfolding copy_value
  copy_value-IsReady w s r = ground arith

  any_above : (k v : ℕ) (xs : List KeyValue) → All (λ y. k < y.0) xs → any (is_pair k v) xs ≡ false
  any_above k v [] h = refl
  any_above k v (x ∷ xs) h = ground (arith, any_above k v xs h.1)

  pub total-false : (v : ℕ) (s : Search) → total v s false ≡ count (◌==◌ v) s.value_list
  total-false v s = ground arith

  copy_values-total :
      (k v : ℕ) (s : Search) (xs : List KeyValue)
      → IsReady s
      → IsSorted xs
      → IsDistinct xs
      → All (λ y. k ≤ y.0) xs
      → count (◌==◌ v) (copy_values value_hash k s xs) ≡ total v s (any (is_pair k v) xs)
  unfolding copy_values
  copy_values-total k v s [] r h d a = sym (total-false v s)
  copy_values-total k v s (x ∷ xs) r h d a = elim (dec_lt k x.0) [
    | yes above ↦
        let rest : All (λ y. k < y.0) xs = All-map (λ y p. omega arith) xs h.0 in
        ground (arith, any_above k v xs rest, total-false v s)
    | no reached ↦
        let here : x.0 ≡ k = omega (arith, a.0) in
        let ih =
          copy_values-total k v (copy_value value_hash x.1 s) xs (copy_value-IsReady x.1 s r) h.1
            d.1 a.1 in
        let one =
          copy_value-total v x.1 s (any (is_pair k v) xs) r (λ e. same_pair k v x xs here e d.0) in
        let test : (k == x.0) ≡ true = ground arith in
        rw test (ih ∙ one ∙ ap (total v s) (pair_test k v x xs here))
  ]

  pub visit-total :
      (k v : ℕ) (s : Search) (item : KeyValue) (index : ℕ) (is_insert found : Bool)
      → IsReady s
      → total v (visit value_hash k s item index is_insert) found
        ≡ total v s (if is_pair k v item then is_insert else found)
  unfolding visit
  visit-total k v s item index is_insert found r = ground (
    arith,
    seen-has item.1 s.present_set r.present,
    seen-has item.1 s.deleted_set r.deleted,
    has-note v item.1 s.present_set,
    has-note v item.1 s.deleted_set,
    count-append (◌==◌ v) s.value_list (item.1 ∷ []),
  )

  pub visit-IsReady :
      (k : ℕ) (s : Search) (item : KeyValue) (index : ℕ) (is_insert : Bool)
      → IsReady s
      → IsReady (visit value_hash k s item index is_insert)
  unfolding visit
  visit-IsReady k s item index is_insert r = ground (
    arith,
    insert-IsValid ◌==◌ value_hash item.1 s.present_set r.present,
    insert-IsValid ◌==◌ value_hash item.1 s.deleted_set r.deleted,
  )

  any-drop :
      (k v : ℕ) (xs : List KeyValue)
      → any (is_pair k v) (drop (lower_bound k xs) xs) ≡ any (is_pair k v) xs
  unfolding lower_bound
  any-drop k v [] = refl
  any-drop k v (x ∷ xs) = ground (arith, any-drop k v xs)

  drop-IsDistinct : (n : ℕ) (xs : List KeyValue) → IsDistinct xs → IsDistinct (drop n xs)
  drop-IsDistinct zero xs h = h
  drop-IsDistinct (suc n) [] h = tt
  drop-IsDistinct (suc n) (x ∷ xs) h = drop-IsDistinct n xs h.1

  pub values_in_base-total :
      (k v : ℕ) (s : Search) (items : List KeyValue)
      → IsReady s
      → IsSorted items
      → IsDistinct items
      → IsWindow s.start_index s.end_index k items
      → count (◌==◌ v) (values_in_base value_hash k s items) ≡ total v s (any (is_pair k v) items)
  unfolding values_in_base
  values_in_base-total k v s items r h d w =
      let start = lower_bound k items in
      rw
        (values_start k s.start_index (end_or s.end_index (length items)) items h w.0
          (omega (arith, count_below-le k items)))
        (copy_values-total k v s (drop start items) r (drop-IsSorted start items h)
            (drop-IsDistinct start items d) (drop-lower_bound k items h)
          ∙ ap (total v s) (any-drop k v items))

  -- The index of a data node narrows the window, and keeps the items of the key in it.
  pub visit-IsWindow :
      (k : ℕ) (s : Search) (item : KeyValue) (index : ℕ) (is_insert : Bool) (items : List KeyValue)
      → IsSorted items
      → index ≡ (index_of item.0 item.1 items).0
      → IsWindow s.start_index s.end_index k items
      → let s' = visit value_hash k s item index is_insert in
        IsWindow s'.start_index s'.end_index k items
  unfolding visit
  visit-IsWindow k s item index is_insert items h e w =
      ground (arith, index_of_below item.0 k item.1 items h, index_of_above item.0 k item.1 items h)
