-- ===== src/Iterator/Forward.antt =====
-- Where the loop of LowerBound ends, and the two moves of operator++.
use multiprocessor_programmi.Prelude.{
  ℕ, zero, suc, ◌+◌, ◌-◌, ◌≤◌, ◌<◌, ◌≡◌, ◌≢◌, ◌⊎◌, refl, ap, ◌∙◌, inl, inr, true, false, ◌∷◌, some,
  ◌==◌, length, drop, get_elem?, arith, Bool-cases, dec_lt,
}
use multiprocessor_programmi.Leaf.{KeyValue, invalid_node_id}
use multiprocessor_programmi.Leaf.Navigate.{lower_bound}
use multiprocessor_programmi.Iterator.{
  Page, Cursor, is_last, deref, lower_bound_from, move_ahead_by_one, increment,
}
use multiprocessor_programmi.Iterator.Spec.{IsAtPair, Loads, lower_bound-length, drop-get}

module _ (load load_bi : ℕ → ℕ → Page) (top : ℕ) (l : Loads top load) where
  abbrev pub landing : ℕ → ℕ → Cursor
  landing t k = record { page = load t k; kv_p = suc (lower_bound k (load t k).items) }

  -- What holds where the loop can end, and comes back through a page with no pair to point to.
  pub lower_bound_from-rule :
      (P : ℕ → Cursor → Type 0)
      → ((t k : ℕ) → lower_bound k (load t k).items < length (load t k).items → P k (landing t k))
      → ((t k : ℕ) → is_last (landing t k) ≡ true → P k (landing t k))
      → ((t k : ℕ) (c : Cursor)
          → lower_bound k (load t k).items ≡ length (load t k).items
          → (load t k).high_key_pair.1 ≢ invalid_node_id
          → P (load t k).high_key_pair.0 c
          → P k c)
      → (fuel t k : ℕ) → top < fuel + k
      → 0 < fuel
      → (c : Cursor) × (lower_bound_from load load_bi fuel t k ≡ some c) × P k c
  unfolding lower_bound_from
  lower_bound_from-rule P here last skip zero t k enough some_fuel =
      absurd (omega (arith, some_fuel))
  lower_bound_from-rule P here last skip (suc fuel) t k enough some_fuel =
      elim (Bool-cases (lower_bound k (load t k).items == length (load t k).items)) [
        | inl out ↦ elim (Bool-cases (is_last (landing t k))) [
          | inl ends ↦ (landing t k, rw (out, ends) refl, last t k ends)
          | inr more ↦
              let at_end : lower_bound k (load t k).items ≡ length (load t k).items =
                ground arith in
              let real : (load t k).high_key_pair.1 ≢ invalid_node_id =
                λ e. ground (arith, e, at_end, more) in
              let high = (load t k).high_key_pair.0 in
              let further : k < high = ground (arith, l.reaches t k, real) in
              let (c, found, p) =
                lower_bound_from-rule P here last skip fuel (suc t) high
                  (omega (arith, enough, further))
                  (omega (arith, enough, further, l.bounded t k)) in
              (c, rw (out, more) found, skip t k c at_end real p)
        ]
        | inr in_page ↦ (
          landing t k,
          rw in_page refl,
          here t k (ground (arith, in_page, lower_bound-length k (load t k).items)),
        )
      ]

  -- The next place of the same page.
  abbrev pub next_place : Cursor → Cursor
  next_place c = record c { kv_p = suc c.kv_p }

  module _ (fuel t : ℕ) (c : Cursor) (pos : 0 < c.kv_p) (le : c.kv_p ≤ length c.page.items) where
    pub increment-in :
        (c.kv_p < length c.page.items) ⊎ (c.page.high_key_pair.1 ≡ invalid_node_id)
        → increment load load_bi fuel t (some c) ≡ some (some (next_place c))
    unfolding increment move_ahead_by_one
    increment-in (inl lt) = ground (arith, lt)
    increment-in (inr unbounded) = ground (arith, le, unbounded)

    pub increment-out :
        (c' : Cursor)
        → c.kv_p ≡ length c.page.items
        → c.page.high_key_pair.1 ≢ invalid_node_id
        → lower_bound_from load load_bi fuel t c.page.high_key_pair.0 ≡ some c'
        → increment load load_bi fuel t (some c) ≡ some (some c')
    unfolding increment move_ahead_by_one
    increment-out c' drained real found = ground (arith, drained, real, found)

    pub at_next :
        (c.kv_p < length c.page.items) ⊎ (c.page.high_key_pair.1 ≡ invalid_node_id)
        → IsAtPair (next_place c)
    at_next (inl lt) = inr (omega arith, omega (arith, lt))
    at_next (inr unbounded) = elim (dec_lt c.kv_p (length c.page.items)) [
      | yes lt ↦ inr (omega arith, omega (arith, lt))
      | no nlt ↦ inl (ground (arith, le, unbounded, nlt))
    ]

    -- Whether operator++ stays in the page.
    pub stays :
        ((c.kv_p < length c.page.items) ⊎ (c.page.high_key_pair.1 ≡ invalid_node_id))
        ⊎ ((c.kv_p ≡ length c.page.items) × (c.page.high_key_pair.1 ≢ invalid_node_id))
    stays = elim (dec_lt c.kv_p (length c.page.items)) [
      | yes lt ↦ inl (inl lt)
      | no nlt ↦ elim (Bool-cases (c.page.high_key_pair.1 == invalid_node_id)) [
        | inl unbounded ↦ inl (inr (ground arith))
        | inr real ↦ inr (omega (arith, nlt, le), λ e. ground (arith, e, real))
      ]
    ]

    pub pointed :
        (x : KeyValue) × (deref (some c) ≡ some x)
        × (get_elem? c.page.items (c.kv_p - 1) ≡ some x)
        × (drop (c.kv_p - 1) c.page.items ≡ x ∷ drop c.kv_p c.page.items)
    pointed =
        let (x, got, cut) = drop-get (c.kv_p - 1) c.page.items (omega (arith, pos, le)) in
        let index : suc (c.kv_p - 1) ≡ c.kv_p = omega (arith, pos) in
        let test : (c.kv_p == 0) ≡ false = ground (arith, pos) in
        (x, rw test got, got, cut ∙ ap (λ n. x ∷ drop n c.page.items) index)
