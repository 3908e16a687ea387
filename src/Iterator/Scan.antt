-- ===== src/Iterator/Scan.antt =====
-- A range scan: the loop of a client from `Begin(start_key)` to IsEnd().
use multiprocessor_programmi.Prelude.{
  ℕ, zero, suc, ◌+◌, ◌<◌, ◌≡◌, refl, sym, ap, ◌∙◌, inl, inr, false, List, [], ◌∷◌, Option, none,
  some, if◌then◌else◌, length, arith,
}
use multiprocessor_programmi.Leaf.{KeyValue}
use multiprocessor_programmi.Iterator.{
  Page, Cursor, ForwardIterator, is_last, is_end, deref, lower_bound_from, increment,
}
use multiprocessor_programmi.Iterator.Spec.{from, rest, IsAtPair, Loads, IsQuiet, last-rest}
use multiprocessor_programmi.Iterator.Rest.{lower_bound_from-HasLeft, increment-HasLeft}

module _ (load load_bi : ℕ → ℕ → Page) where
  -- `while (!it.IsEnd()) { out.push_back(*it); ++it; }`
  unfoldable pub scan : ℕ → ℕ → ℕ → ForwardIterator → Option (List KeyValue)
  unfolding increment
  scan zero fuel t it = none
  scan (suc steps) fuel t it = if is_end it then some [] else elim (deref it) [
    | none ↦ none
    | some x ↦ elim (increment load load_bi fuel t it) [
      | none ↦ none
      | some it' ↦ elim (scan steps fuel (t + fuel) it') [ none ↦ none | some xs ↦ some (x ∷ xs) ]
    ]
  ]

  unfoldable pub scan_from : ℕ → ℕ → ℕ → ℕ → Option (List KeyValue)
  unfolding lower_bound_from scan
  scan_from steps fuel t start_key = elim (lower_bound_from load load_bi fuel t start_key) [
    | none ↦ none
    | some c ↦ scan steps fuel (t + fuel) (some c)
  ]

  module _ (top : ℕ) (l : Loads top load) (content : List KeyValue) (q : IsQuiet content load) where
    pub scan-rest :
        (steps fuel t : ℕ) (c : Cursor) (left : List KeyValue)
        → top < fuel
        → length left < steps
        → IsAtPair c
        → rest content c ≡ left
        → scan steps fuel t (some c) ≡ some left
    unfolding scan
    scan-rest zero fuel t c left enough some_steps at_pair e = absurd (omega (arith, some_steps))
    scan-rest (suc steps) fuel t c left enough some_steps (inl ends) e =
        rw ends (ap some (sym (last-rest content c ends) ∙ e))
    scan-rest (suc steps) fuel t c left enough some_steps (inr (pos, le)) e =
        let test : is_last c ≡ false = ground (arith, le) in
        let (x, c', here, moved, passed, at_next) =
          increment-HasLeft load load_bi top l content q fuel t c enough pos le in
        let split : left ≡ x ∷ rest content c' = sym e ∙ passed in
        let fewer : length (rest content c') < steps = ground (arith, some_steps, split) in
        let again =
          scan-rest steps fuel (t + fuel) c' (rest content c') enough fewer at_next refl in
        rw (test, here, moved, again, split) refl

    pub scan_from-from :
        (steps fuel t start_key : ℕ)
        → top < fuel
        → length (from start_key content) < steps
        → scan_from steps fuel t start_key ≡ some (from start_key content)
    unfolding scan_from
    scan_from-from steps fuel t start_key enough some_steps =
        let (c, found, h) =
          lower_bound_from-HasLeft load load_bi top l content q fuel t start_key
            (omega (arith, enough)) (omega (arith, enough)) in
        rw (scan_from, found)
          (scan-rest steps fuel (t + fuel) c (from start_key content) enough some_steps h.at_pair
            h.left_of)
