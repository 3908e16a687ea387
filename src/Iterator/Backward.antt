-- ===== src/Iterator/Backward.antt =====
-- MoveBackByOne and operator-- in a tree that nobody changes: the pairs before the iterator's place.
use multiprocessor_programmi.Prelude.{
  ℕ, zero, suc, ◌-◌, ◌≤◌, ◌<◌, ◌≡◌, ◌⊎◌, refl, sym, ap, ◌∙◌, inl, inr, true, false, ◌||◌, List, [],
  ◌∷◌, ◌++◌, some, ◌==◌, ltb, length, take, get_elem?, arith, Bool-cases,
}
use mathlib.Core.Path.{subst}
use mathlib.Core.List.{append_assoc, append-nil}
use multiprocessor_programmi.Leaf.{KeyValue, invalid_node_id}
use multiprocessor_programmi.Leaf.Spec.{IsSorted}
use multiprocessor_programmi.Leaf.Navigate.{lower_bound}
use multiprocessor_programmi.Iterator.{
  Page, Cursor, is_rend, deref, previous_page, move_back_by_one, decrement,
}
use multiprocessor_programmi.Iterator.Spec.{upto, before, seen, lower_bound-length}

-- What TraverseBI of a key gives: the page of what is next below the key.
pub record LoadsBack (content : List KeyValue) (load_bi : ℕ → ℕ → Page) : Type 0 where
  pub sorted : (t k : ℕ) → IsSorted (load_bi t k).items
  pub reaches :
      (t k : ℕ)
      → ((load_bi t k).low_key_pair.1 ≡ invalid_node_id) ⊎ ((load_bi t k).low_key_pair.0 < k)
  pub pairs :
      (t k : ℕ) → upto k content ≡ before content (load_bi t k) ++ upto k (load_bi t k).items

-- At REnd() with nothing before it, or at the last of the pairs that are left of the old place.
abbrev pub IsBefore : List KeyValue → List KeyValue → Cursor → Type 0
IsBefore content left c =
    ((is_rend (some c) ≡ true) × (left ≡ []))
    ⊎ ((x : KeyValue) × (deref (some c) ≡ some x) × (left ≡ seen content c ++ x ∷ []))

upto_none :
    (k : ℕ) (x : KeyValue) (xs : List KeyValue) → IsSorted (x ∷ xs) → k ≤ x.0 → upto k xs ≡ []
upto_none k x [] h le = refl
upto_none k x (y ∷ ys) h le =
    let further : k ≤ y.0 = omega (arith, le, h.0.0) in
    ground (arith, further, upto_none k y ys h.1 further)

take-lower_bound :
    (k : ℕ) (xs : List KeyValue) → IsSorted xs → take (lower_bound k xs) xs ≡ upto k xs
unfolding lower_bound
take-lower_bound k [] h = refl
take-lower_bound k (x ∷ xs) h = elim (Bool-cases (ltb x.0 k)) [
  | inl under ↦ rw under (ap (◌∷◌ x) (take-lower_bound k xs h.1))
  | inr reached ↦ rw reached (sym (upto_none k x xs h (ground (arith, reached))))
]

take-get :
    (i : ℕ) (xs : List KeyValue)
    → i < length xs
    → (x : KeyValue) × (get_elem? xs i ≡ some x) × (take (suc i) xs ≡ take i xs ++ x ∷ [])
take-get i [] h = absurd (omega arith)
take-get zero (x ∷ xs) h = (x, refl, refl)
take-get (suc i) (x ∷ xs) h =
    let (y, got, cut) = take-get i xs (omega arith) in (y, got, ap (◌∷◌ x) cut)

module _ (content : List KeyValue) where
  -- A place in the page, after the first.
  in_page :
      (p : Page) (i : ℕ)
      → 0 < i
      → i ≤ length p.items
      → IsBefore content (before content p ++ take i p.items) (record { page = p; kv_p = i })
  in_page p zero pos le = absurd (omega (arith, pos))
  in_page p (suc i) pos le =
      let (x, got, cut) = take-get i p.items (omega (arith, le)) in
      let test : (suc i == 0) ≡ false = ground arith in
      let index : suc i - 1 ≡ i = omega arith in
      inr (
        x,
        rw (test, index) got,
        rw index (
            ap (before content p ++◌) cut
            ∙ sym (append_assoc (before content p) (take i p.items) (x ∷ []))),
      )

  module _ (load load_bi : ℕ → ℕ → Page) (l : LoadsBack content load_bi) where
    -- A page that is taken ends the loop, at what is next below the key.
    pub previous_page-IsBefore :
        (fuel t k : ℕ)
        → k < fuel
        → (c : Cursor) × (previous_page load load_bi fuel t k ≡ some c)
          × IsBefore content (upto k content) c
    unfolding previous_page
    previous_page-IsBefore zero t k enough = absurd (omega (arith, enough))
    previous_page-IsBefore (suc fuel) t k enough =
        let page = load_bi t k in
        let at = lower_bound k page.items in
        let place : (page.low_key_pair.1 == invalid_node_id || ltb page.low_key_pair.0 k) ≡ true =
          ground (arith, l.reaches t k) in
        let cut =
          l.pairs t k
          ∙ ap (before content page ++◌) (sym (take-lower_bound k page.items (l.sorted t k))) in
        elim (Bool-cases (at == 0)) [
          | inl nothing ↦
              let empty : at ≡ 0 = ground (arith, nothing) in
              let left : upto k content ≡ before content page =
                cut
                ∙ ap (λ n. before content page ++ take n page.items) empty
                ∙ append-nil (before content page) in
              elim (Bool-cases (page.low_key_pair.1 == invalid_node_id)) [
                | inl first ↦ (
                  record { page = page; kv_p = 0 },
                  rw (previous_page, place, nothing, first) refl,
                  inl (rw first refl, left ∙ rw first refl),
                )
                | inr other ↦
                    let low = page.low_key_pair.0 in
                    let further : low < k = ground (arith, l.reaches t k, other) in
                    let (c, found, h) =
                      previous_page-IsBefore fuel (suc t) low (omega (arith, enough, further)) in
                    (
                      c,
                      rw (previous_page, place, nothing, other) found,
                      subst (λ xs. IsBefore content xs c) (sym (left ∙ rw other refl)) h,
                    )
              ]
          | inr some_pair ↦ (
            record { page = page; kv_p = at },
            rw (previous_page, place, some_pair) refl,
            subst (λ xs. IsBefore content xs (record { page = page; kv_p = at })) (sym cut)
                (in_page page at (ground (arith, some_pair)) (lower_bound-length k page.items)),
          )
        ]

    -- In a tree that does not change, let TraverseBI of a key lead to a sorted leaf with no low key or one
    -- below the key, such that the pairs below the key are those below the low key, then the leaf's. With fuel
    -- above the low key of the iterator's page, operator-- at a pair or at End() of the page succeeds: it
    -- leads to the last of the pairs before the old place, all others of which are before the new one,
    -- or, if there are none, to REnd().
    pub decrement-IsBefore :
        (fuel t : ℕ) (c : Cursor)
        → c.page.low_key_pair.0 < fuel
        → 0 < c.kv_p
        → c.kv_p ≤ suc (length c.page.items)
        → (c' : Cursor) × (decrement load load_bi fuel t (some c) ≡ some (some c'))
          × IsBefore content (seen content c) c'
    unfolding decrement move_back_by_one
    decrement-IsBefore fuel t c enough pos le = elim (Bool-cases (c.kv_p == 1)) [
      | inl at_begin ↦
          let one : c.kv_p ≡ 1 = ground (arith, at_begin) in
          let left : seen content c ≡ before content c.page =
            ap (λ n. before content c.page ++ take (n - 1) c.page.items) one
            ∙ append-nil (before content c.page) in
          elim (Bool-cases (c.page.low_key_pair.1 == invalid_node_id)) [
            | inl first ↦ (
              record c { kv_p = 0 },
              rw (one, first) refl,
              inl (rw first refl, left ∙ rw first refl),
            )
            | inr other ↦
                let (c', found, h) = previous_page-IsBefore fuel t c.page.low_key_pair.0 enough in
                (
                  c',
                  rw (one, other, found) refl,
                  subst (λ xs. IsBefore content xs c') (sym (left ∙ rw other refl)) h,
                )
          ]
      | inr further ↦
          let c' : Cursor = record c { kv_p = c.kv_p - 1 } in
          let at_pair : (c.kv_p == 0) ≡ false = ground (arith, pos) in
          let not_first : (c.kv_p - 1 == 0) ≡ false = ground (arith, pos, further) in
          (
            c',
            ground (arith, at_pair, not_first),
            in_page c.page (c.kv_p - 1) (ground (arith, pos, further)) (omega (arith, pos, le)),
          )
    ]
