-- ===== src/Iterator/Ordered.antt =====
-- LowerBound and operator++ while other threads change the tree: the keys never go back.
use multiprocessor_programmi.Prelude.{
  ℕ, suc, ◌+◌, ◌-◌, ◌≤◌, ◌<◌, ◌≡◌, inl, inr, true, false, some, ◌==◌, length, get_elem?, arith,
}
use multiprocessor_programmi.Leaf.{KeyValue}
use multiprocessor_programmi.Leaf.Navigate.{lower_bound}
use multiprocessor_programmi.Iterator.{Page, Cursor, is_last, deref, lower_bound_from, increment}
use multiprocessor_programmi.Iterator.Spec.{
  IsAtPair, IsPage, Loads, lower_bound-get, get-length, All-get, get-IsSorted,
}
use multiprocessor_programmi.Iterator.Forward.{
  landing, lower_bound_from-rule, increment-in, increment-out, at_next, stays, pointed, next_place,
}

-- At the end, or at a pair from the key on.
pub record Ordered (k : ℕ) (c : Cursor) : Type 0 where
  pub page : IsPage c.page
  pub at_pair : IsAtPair c
  pub key : (x : KeyValue) → deref (some c) ≡ some x → k ≤ x.0

module _ (load load_bi : ℕ → ℕ → Page) (top : ℕ) (l : Loads top load) where
  deref-key :
      (t k : ℕ) (x : KeyValue)
      → lower_bound k (load t k).items < length (load t k).items
      → deref (some (landing load load_bi top l t k)) ≡ some x
      → k ≤ x.0
  deref-key t k x lt e =
      let (y, got, le) = lower_bound-get k (load t k).items lt in
      let place : suc (lower_bound k (load t k).items) - 1 ≡ lower_bound k (load t k).items =
        omega arith in
      ground (arith, got, le, place, e)

  deref-last : (c : Cursor) → is_last c ≡ true → (x : KeyValue) → deref (some c) ≡ some x → ⊥
  deref-last c e x d =
      let place : c.kv_p ≡ suc (length c.page.items) = ground (arith, e) in
      let index : c.kv_p - 1 ≡ length c.page.items = omega (arith, place) in
      ground (arith, d, index, get-length c.page.items)

  -- Whatever other threads do, LowerBound ends, at the end or at a pair from the key on.
  pub lower_bound_from-Ordered :
      (fuel t k : ℕ)
      → top < fuel + k
      → 0 < fuel
      → (c : Cursor) × (lower_bound_from load load_bi fuel t k ≡ some c) × Ordered k c
  lower_bound_from-Ordered =
      lower_bound_from-rule load load_bi top l Ordered
        (λ t k lt. record {
          page = l.page t k;
          at_pair = inr (omega arith, omega (arith, lt));
          key = λ x e. deref-key t k x lt e;
        })
        (λ t k ends. record {
          page = l.page t k;
          at_pair = inl ends;
          key = λ x e. absurd (deref-last (landing load load_bi top l t k) ends x e);
        })
        (λ t k c at_end real p. record {
          page = p.page;
          at_pair = p.at_pair;
          key = λ x e. ground (arith, p.key x e, l.reaches t k, real);
        })

  -- Call a page proper if it is sorted, and it has no right sibling or all its pairs are below its high
  -- key. Let each page that is loaded be proper, have no right sibling or the key that it is loaded for
  -- below its high key, and a high key of at most `top`, and the fuel be above that. Whatever other
  -- threads do to the tree, operator++ at a pair of a proper page succeeds, and leads to the end or to a
  -- pair of a proper page whose key is not below that of the pair before.
  pub increment-Ordered :
      (fuel t : ℕ) (c : Cursor)
      → top < fuel
      → IsPage c.page
      → 0 < c.kv_p
      → c.kv_p ≤ length c.page.items
      → (x : KeyValue) × (c' : Cursor) × (deref (some c) ≡ some x)
        × (increment load load_bi fuel t (some c) ≡ some (some c'))
        × Ordered x.0 c'
  increment-Ordered fuel t c enough page pos le =
      let (x, here, got, cut) = pointed load load_bi top l fuel t c pos le in
      elim (stays load load_bi top l fuel t c pos le) [
        | inl inside ↦ (
          x,
          next_place load load_bi top l c,
          here,
          increment-in load load_bi top l fuel t c pos le inside,
          record {
            page = page;
            at_pair = at_next load load_bi top l fuel t c pos le inside;
            key = λ y e. later x y got e;
          },
        )
        | inr (drained, real) ↦
            let high = c.page.high_key_pair.0 in
            let (c', found, o) =
              lower_bound_from-Ordered fuel t high (omega (arith, enough))
                (omega (arith, enough)) in
            let lt : x.0 < high = elim page.inside [
              | inl unbounded ↦ absurd (real unbounded)
              | inr under ↦ All-get (λ y. y.0 < high) (c.kv_p - 1) c.page.items x under got
            ] in
            (
              x,
              c',
              here,
              increment-out load load_bi top l fuel t c pos le c' drained real found,
              record {
                page = o.page;
                at_pair = o.at_pair;
                key = λ y e. omega (arith, lt, o.key y e);
              },
            )
      ]
    where
      later :
          (x y : KeyValue)
          → get_elem? c.page.items (c.kv_p - 1) ≡ some x
          → deref (some (next_place load load_bi top l c)) ≡ some y
          → x.0 ≤ y.0
      later x y got e =
          let index : suc c.kv_p - 1 ≡ suc (c.kv_p - 1) = omega (arith, pos) in
          let test : (suc c.kv_p == 0) ≡ false = ground arith in
          get-IsSorted (c.kv_p - 1) c.page.items x y page.sorted got (rw (test, index) at e)
