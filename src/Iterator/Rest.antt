-- ===== src/Iterator/Rest.antt =====
-- LowerBound and operator++ in a tree that nobody changes: the pairs that are left.
use multiprocessor_programmi.Prelude.{
  ℕ, suc, ◌+◌, ◌-◌, ◌≤◌, ◌<◌, ◌≡◌, ◌≢◌, refl, sym, ap, ◌∙◌, inl, inr, false, List, [], ◌∷◌, ◌++◌,
  some, ◌==◌, length, drop, arith,
}
use multiprocessor_programmi.Leaf.{KeyValue, invalid_node_id}
use multiprocessor_programmi.Leaf.Navigate.{lower_bound}
use multiprocessor_programmi.Iterator.{Page, Cursor, deref, lower_bound_from, increment}
use multiprocessor_programmi.Iterator.Spec.{
  from, beyond, rest, IsAtPair, Loads, IsQuiet, drop-lower_bound, drop-length,
}
use multiprocessor_programmi.Iterator.Forward.{
  landing, lower_bound_from-rule, increment-in, increment-out, at_next, stays, pointed, next_place,
}

module _ (load load_bi : ℕ → ℕ → Page) (top : ℕ) (l : Loads top load) (content : List KeyValue)
    (q : IsQuiet content load) where
  -- The pairs that are left, from the iterator's place on.
  pub record HasLeft (left : List KeyValue) (c : Cursor) : Type 0 where
    pub left_of : rest content c ≡ left
    pub at_pair : IsAtPair c

  pub lower_bound_from-HasLeft :
      (fuel t k : ℕ)
      → top < fuel + k
      → 0 < fuel
      → (c : Cursor) × (lower_bound_from load load_bi fuel t k ≡ some c)
        × HasLeft (from k content) c
  lower_bound_from-HasLeft =
      lower_bound_from-rule load load_bi top l (λ k c. HasLeft (from k content) c)
        (λ t k lt. record { left_of = found t k; at_pair = inr (omega arith, omega (arith, lt)) })
        (λ t k ends. record { left_of = found t k; at_pair = inl ends })
        (λ t k c at_end real p. record {
          left_of = p.left_of ∙ skipped t k at_end real;
          at_pair = p.at_pair;
        })
    where
      cut :
          (t k : ℕ)
          → drop (lower_bound k (load t k).items) (load t k).items ≡ from k (load t k).items
      cut t k = drop-lower_bound k (load t k).items ((l.page t k).sorted)

      found : (t k : ℕ) → rest content (landing load load_bi top l t k) ≡ from k content
      found t k =
          let place : suc (lower_bound k (load t k).items) - 1 ≡ lower_bound k (load t k).items =
            omega arith in
          rw place (ap (λ xs. xs ++ beyond content (load t k)) (cut t k) ∙ sym (q.pairs t k))

      skipped :
          (t k : ℕ)
          → lower_bound k (load t k).items ≡ length (load t k).items
          → (load t k).high_key_pair.1 ≢ invalid_node_id
          → from (load t k).high_key_pair.0 content ≡ from k content
      skipped t k at_end real =
          let nothing : from k (load t k).items ≡ [] =
            sym (cut t k)
            ∙ ap (λ n. drop n (load t k).items) at_end
            ∙ drop-length (load t k).items in
          let bounded : ((load t k).high_key_pair.1 == invalid_node_id) ≡ false =
            ground (arith, real) in
          sym (q.pairs t k ∙ rw (nothing, bounded) refl)

  -- operator++ passes the first of the pairs that are left.
  pub increment-HasLeft :
      (fuel t : ℕ) (c : Cursor)
      → top < fuel
      → 0 < c.kv_p
      → c.kv_p ≤ length c.page.items
      → (x : KeyValue) × (c' : Cursor) × (deref (some c) ≡ some x)
        × (increment load load_bi fuel t (some c) ≡ some (some c'))
        × (rest content c ≡ x ∷ rest content c')
        × IsAtPair c'
  increment-HasLeft fuel t c enough pos le =
      let (x, here, got, cut) = pointed load load_bi top l fuel t c pos le in
      let passed : rest content c ≡ x ∷ (drop c.kv_p c.page.items ++ beyond content c.page) =
        ap (λ xs. xs ++ beyond content c.page) cut in
      elim (stays load load_bi top l fuel t c pos le) [
        | inl inside ↦
            let index : suc c.kv_p - 1 ≡ c.kv_p = omega arith in
            (
              x,
              next_place load load_bi top l c,
              here,
              increment-in load load_bi top l fuel t c pos le inside,
              passed ∙ ap (λ n. x ∷ (drop n c.page.items ++ beyond content c.page)) (sym index),
              at_next load load_bi top l fuel t c pos le inside,
            )
        | inr (drained, real) ↦
            let high = c.page.high_key_pair.0 in
            let (c', found, o) =
              lower_bound_from-HasLeft fuel t high (omega (arith, enough))
                (omega (arith, enough)) in
            let nothing : drop c.kv_p c.page.items ≡ [] =
              ap (λ n. drop n c.page.items) drained ∙ drop-length c.page.items in
            let bounded : (c.page.high_key_pair.1 == invalid_node_id) ≡ false =
              ground (arith, real) in
            (
              x,
              c',
              here,
              increment-out load load_bi top l fuel t c pos le c' drained real found,
              passed ∙ ap (◌∷◌ x) (rw (nothing, bounded) (sym o.left_of)),
              o.at_pair,
            )
      ]
