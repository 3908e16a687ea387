-- ===== src/Leaf/Conditional.antt =====
-- What the search of ConditionalInsert answers, in terms of what the chain holds.
use multiprocessor_programmi.Prelude.{
  ℕ, ◌≡◌, inl, inr, refl, sym, ◌∙◌, Bool, true, false, Option, some, ◌==◌, leb, if◌then◌else◌, drop,
  arith, Bool-cases,
}
use multiprocessor_programmi.Bloom
use multiprocessor_programmi.Bloom.{BloomFilter}
use multiprocessor_programmi.Bloom.Exact.{init-IsValid, insert-IsValid}
use multiprocessor_programmi.Leaf.{
  LeafChain, leaf, leaf_insert, leaf_delete, leaf_split, leaf_remove, leaf_merge, KeyValue,
  get_high_key_pair,
}
use multiprocessor_programmi.Leaf.Navigate.{lower_bound, seen, note}
use multiprocessor_programmi.Leaf.Spec.{holds, IsValid, IsBelowHigh}
use multiprocessor_programmi.Leaf.Point.{below_split, drop-lower_bound, drop-IsSorted}
use multiprocessor_programmi.Leaf.Values.{IsFilter, seen-has, has-note}
use multiprocessor_programmi.Leaf.Predicate.{PredicateResult, satisfied, found, navigate_predicate}
use multiprocessor_programmi.Leaf.Visible.{
  visible, visible-skip, visible-delete, any-lower_bound, Answers, Answers-ext, Answers-unseen,
  scan-Answers,
}

module _ (predicate : ℕ → Bool) (key value : ℕ) (value_hash : ℕ → ℕ) where
  -- What the whole search gives: a result, and what it says of the values in sight.
  abbrev Returns : (ℕ → Bool) → Option PredicateResult → Type 0
  Returns values result =
      (r : PredicateResult) × (result ≡ some r) × Answers predicate key value values r

  Returns-ext :
      (values values' : ℕ → Bool) (result : Option PredicateResult)
      → ((w : ℕ) → values w ≡ values' w)
      → Returns values' result
      → Returns values result
  Returns-ext values values' result same (r, e, h) =
      (r, e, Answers-ext predicate key value values values' r same h)

  Returns-unseen :
      (values values' : ℕ → Bool) (x : KeyValue) (result : Option PredicateResult)
      → (key == x.0) ≡ true
      → values x.1 ≡ true
      → ((w : ℕ) → (w == x.1) ≡ false → values w ≡ values' w)
      → Returns values' result
      → Returns values (
          if predicate x.1 then some satisfied else if value == x.1 then some (found x) else result)
  Returns-unseen values values' x result same here other (r, e, h) = (
    if predicate x.1 then satisfied else if value == x.1 then found x else r,
    ground arith,
    Answers-unseen predicate key value values values' x r same here other h,
  )

  navigate-Returns :
      (present deleted : BloomFilter ℕ) (c : LeafChain)
      → IsFilter value_hash present
      → IsFilter value_hash deleted
      → IsValid c
      → IsBelowHigh (get_high_key_pair c) key
      → Returns
          (visible present deleted (holds c key))
          (navigate_predicate value_hash predicate key value present deleted c)
  unfolding navigate_predicate get_high_key_pair
  navigate-Returns present deleted (leaf low_key high_key items) hp hd h b =
      let start = lower_bound key items in
      let scanned =
        scan-Answers predicate key value value_hash present deleted start (drop start items) hp hd
          (drop-IsSorted start items h.0) (drop-lower_bound key items h.0) in
      (
        _,
        refl,
        Answers-ext predicate key value _ _ _ (λ w. ground (arith, any-lower_bound key w items))
            scanned,
      )
  navigate-Returns present deleted (leaf_insert item index_pair child) hp hd h b =
      elim (Bool-cases (key == item.0)) [
        | inl same ↦ elim (Bool-cases (seen value_hash item.1 deleted)) [
          | inl gone ↦
              rw (same, gone)
                (Returns-ext _ (visible present deleted (holds child key)) _
                  (visible-skip present deleted _ _ item.1
                    (inl (sym (seen-has value_hash item.1 deleted hd) ∙ gone))
                    (λ u ne. ground arith))
                  (navigate-Returns present deleted child hp hd h.2 b))
          | inr not_gone ↦ elim (Bool-cases (seen value_hash item.1 present)) [
            | inl met ↦
                rw (same, not_gone, met)
                  (Returns-ext _ (visible present deleted (holds child key)) _
                    (visible-skip present deleted _ _ item.1
                      (inr (sym (seen-has value_hash item.1 present hp) ∙ met))
                      (λ u ne. ground arith))
                    (navigate-Returns present deleted child hp hd h.2 b))
            | inr not_met ↦
                let here : visible present deleted (holds (leaf_insert item index_pair child) key)
                      item.1
                    ≡ true =
                  ground (
                    arith,
                    seen-has value_hash item.1 deleted hd,
                    seen-has value_hash item.1 present hp,
                  ) in
                rw (same, not_gone, not_met)
                  (Returns-unseen _
                    (visible (note value_hash item.1 present) deleted (holds child key)) item _ same
                    here (λ w ne. ground (arith, has-note value_hash w item.1 present))
                    (navigate-Returns (note value_hash item.1 present) deleted child
                      (insert-IsValid ◌==◌ value_hash item.1 present hp) hd h.2 b))
          ]
        ]
        | inr differ ↦ rw differ (
            Returns-ext _ (visible present deleted (holds child key)) _ (λ w. ground arith)
              (navigate-Returns present deleted child hp hd h.2 b))
      ]
  navigate-Returns present deleted (leaf_delete item index_pair child) hp hd h b =
      elim (Bool-cases (key == item.0)) [
        | inl same ↦ elim (Bool-cases (seen value_hash item.1 present)) [
          | inl met ↦
              rw (same, met)
                (Returns-ext _ (visible present deleted (holds child key)) _
                  (visible-skip present deleted _ _ item.1
                    (inr (sym (seen-has value_hash item.1 present hp) ∙ met))
                    (λ u ne. ground arith))
                  (navigate-Returns present deleted child hp hd h.2 b))
          | inr not_met ↦
              rw (same, not_met)
                (Returns-ext _ (visible present (note value_hash item.1 deleted) (holds child key))
                  _
                  (visible-delete value_hash present deleted _ _ item.1 (ground arith)
                    (λ u ne. ground arith))
                  (navigate-Returns present (note value_hash item.1 deleted) child hp
                    (insert-IsValid ◌==◌ value_hash item.1 deleted hd) h.2 b))
        ]
        | inr differ ↦ rw differ (
            Returns-ext _ (visible present deleted (holds child key)) _ (λ w. ground arith)
              (navigate-Returns present deleted child hp hd h.2 b))
      ]
  navigate-Returns present deleted (leaf_split insert_item n child) hp hd h b =
      Returns-ext _ (visible present deleted (holds child key)) _ (λ w. ground arith)
        (navigate-Returns present deleted child hp hd h.2 (below_split key h.0 b h.1))
  navigate-Returns present deleted (leaf_remove removed_id child) hp hd h b = absurd h
  navigate-Returns present deleted (leaf_merge delete_item right child) hp hd h b =
      elim (Bool-cases (leb delete_item.0 key)) [
        | inl in_right ↦ rw in_right (
            Returns-ext _ (visible present deleted (holds right key)) _ (λ w. ground arith)
              (navigate-Returns present deleted right hp hd h.1 b))
        | inr in_left ↦ rw in_left (
            Returns-ext _ (visible present deleted (holds child key)) _ (λ w. ground arith)
              (navigate-Returns present deleted child hp hd h.2 (ground arith)))
      ]

-- On a well-formed chain whose range holds the key, and whatever the hash, the search of
-- ConditionalInsert returns: if it reports that the predicate is satisfied, then the chain holds a value
-- for the key of which it is true; if it returns an item, the chain holds that pair, and the predicate is
-- false of its value; and if neither, the predicate is false of every value that the chain holds for the
-- key, and the pair is not among them.
pub navigate_predicate-Answers :
    (value_hash : ℕ → ℕ) (predicate : ℕ → Bool) (key value : ℕ) (c : LeafChain)
    → IsValid c
    → IsBelowHigh (get_high_key_pair c) key
    → (r : PredicateResult) × (navigate_predicate value_hash predicate key value Bloom.init
          Bloom.init c
        ≡ some r)
      × Answers predicate key value (holds c key) r
unfolding Bloom.init
navigate_predicate-Answers value_hash predicate key value c h b =
    let (r, e, a) =
      navigate-Returns predicate key value value_hash Bloom.init Bloom.init c
        (init-IsValid _ value_hash) (init-IsValid _ value_hash) h b in
    (r, e, Answers-ext predicate key value _ _ r (λ w. refl) a)
