-- ===== src/Iterator/Leaves.antt =====
-- The leaves of the tree as an iterator loads them: Traverse ends at the leaf whose range holds the key.
use multiprocessor_programmi.Prelude.{
  ℕ, ◌≤◌, ◌<◌, ◌≡◌, ◌≢◌, ◌⊎◌, refl, sym, ap, ◌∙◌, inl, inr, true, false, List, [], ◌∷◌, ◌++◌, some,
  ◌==◌, ltb, if◌then◌else◌, length, All, All-map, All-append, arith, Bool-cases,
}
use mathlib.Core.List.{append-nil}
use mathlib.Core.Path.{subst}
use multiprocessor_programmi.Leaf.{KeyValue, invalid_node_id}
use multiprocessor_programmi.Iterator.{Page}
use multiprocessor_programmi.Iterator.Spec.{from, from_same, beyond, IsPage, Loads, IsQuiet}
use multiprocessor_programmi.Iterator.Scan.{scan_from, scan_from-from}

-- The leaves from left to right; there is always a first one.
pub record Leaves : Type 0 where
  pub first : Page
  pub others : List Page

-- the leaf whose high key is above the key
abbrev pub page_of : ℕ → Page → List Page → Page
page_of k p [] = p
page_of k p (r ∷ ps) = if ltb k p.high_key_pair.0 then p else page_of k r ps

abbrev pub pairs_of : Page → List Page → List KeyValue
pairs_of p [] = p.items
pairs_of p (r ∷ ps) = p.items ++ pairs_of r ps

-- A leaf's pairs are sorted, and in its range.
pub record IsLeaf (top low : ℕ) (p : Page) : Type 0 where
  pub page : IsPage p
  pub above : All (λ y. low ≤ y.0) p.items
  pub bounded : p.high_key_pair.0 ≤ top

-- Each leaf's range starts where that of the one before ends, and the last has no right sibling.
unfoldable pub IsLinked : ℕ → ℕ → Page → List Page → Type 0
IsLinked top low p [] = IsLeaf top low p × (p.high_key_pair.1 ≡ invalid_node_id)
IsLinked top low p (r ∷ ps) =
    IsLeaf top low p
    × (p.high_key_pair.1 ≢ invalid_node_id)
    × (low ≤ p.high_key_pair.0)
    × IsLinked top p.high_key_pair.0 r ps

pairs_of-All :
    (top low : ℕ) (p : Page) (ps : List Page)
    → IsLinked top low p ps
    → All (λ y. low ≤ y.0) (pairs_of p ps)
unfolding IsLinked
pairs_of-All top low p [] h = h.0.above
pairs_of-All top low p (r ∷ ps) (leaf, real, le, more) =
    All-append (λ y. low ≤ y.0) p.items (pairs_of r ps) leaf.above
      (All-map (λ y above. omega (arith, above, le)) (pairs_of r ps)
        (pairs_of-All top p.high_key_pair.0 r ps more))

from-append : (k : ℕ) (xs ys : List KeyValue) → from k (xs ++ ys) ≡ from k xs ++ from k ys
from-append k [] ys = refl
from-append k (x ∷ xs) ys = ground (arith, from-append k xs ys)

-- no pair below the key is passed
from_none : (k : ℕ) (xs ys : List KeyValue) → All (λ y. y.0 < k) xs → from k (xs ++ ys) ≡ from k ys
from_none k [] ys h = refl
from_none k (x ∷ xs) ys h = ground (arith, h.0, from_none k xs ys h.1)

from-length : (k : ℕ) (xs : List KeyValue) → length (from k xs) ≤ length xs
from-length k [] = omega arith
from-length k (x ∷ xs) = ground (arith, from-length k xs)

under_high :
    (p : Page) (k : ℕ)
    → IsPage p
    → p.high_key_pair.1 ≢ invalid_node_id
    → p.high_key_pair.0 ≤ k
    → All (λ y. y.0 < k) p.items
under_high p k page real le = elim page.inside [
  | inl unbounded ↦ absurd (real unbounded)
  | inr under ↦ All-map (λ y lt. omega (arith, lt, le)) p.items under
]

beyond-passed :
    (content : List KeyValue) (p : Page) (xs : List KeyValue)
    → (p.high_key_pair.1 ≡ invalid_node_id) ⊎ All (λ y. y.0 < p.high_key_pair.0) xs
    → beyond content p ≡ beyond (xs ++ content) p
beyond-passed content p xs h = elim (Bool-cases (p.high_key_pair.1 == invalid_node_id)) [
  | inl last ↦ rw last refl
  | inr real ↦ rw real (
      sym (
        from_none p.high_key_pair.0 xs content
          (elim h [ inl last ↦ absurd (ground (arith, last, real)) | inr under ↦ under ])))
]

-- From the high key of the first leaf on, the pairs of the others.
pub beyond_first :
    (top low : ℕ) (p r : Page) (ps : List Page)
    → IsLinked top low p (r ∷ ps)
    → beyond (pairs_of p (r ∷ ps)) p ≡ pairs_of r ps
unfolding IsLinked
beyond_first top low p r ps (leaf, real, le, more) =
    let high = p.high_key_pair.0 in
    let test : (p.high_key_pair.1 == invalid_node_id) ≡ false = ground (arith, real) in
    rw test (
      from_none high p.items (pairs_of r ps) (under_high p high leaf.page real (omega arith))
      ∙ from_same high (pairs_of r ps) (pairs_of-All top high r ps more))

-- What Traverse gives, of leaves that are linked.
record IsFound (top k : ℕ) (content : List KeyValue) (p : Page) : Type 0 where
  page : IsPage p
  bounded : p.high_key_pair.0 ≤ top
  reaches : (p.high_key_pair.1 ≡ invalid_node_id) ⊎ (k < p.high_key_pair.0)
  pairs : from k content ≡ from k p.items ++ beyond content p

page_of-IsFound :
    (top low k : ℕ) (p : Page) (ps : List Page)
    → IsLinked top low p ps
    → IsFound top k (pairs_of p ps) (page_of k p ps)
unfolding IsLinked
page_of-IsFound top low k p [] (leaf, last) =
    let test : (p.high_key_pair.1 == invalid_node_id) ≡ true = ground (arith, last) in
    record {
      page = leaf.page;
      bounded = leaf.bounded;
      reaches = inl last;
      pairs = rw test (sym (append-nil (from k p.items)));
    }
page_of-IsFound top low k p (r ∷ ps) (leaf, real, le, more) =
    elim (Bool-cases (ltb k p.high_key_pair.0)) [
      | inl here ↦
          let high = p.high_key_pair.0 in
          let under : k < high = ground (arith, here) in
          let right = pairs_of-All top high r ps more in
          let all_from =
            from_same k (pairs_of r ps)
              (All-map (λ y above. omega (arith, above, under)) (pairs_of r ps) right) in
          rw here (record {
            page = leaf.page;
            bounded = leaf.bounded;
            reaches = inr under;
            pairs =
                from-append k p.items (pairs_of r ps)
                ∙ ap (from k p.items ++◌)
                    (all_from ∙ sym (beyond_first top low p r ps (leaf, real, le, more)));
          })
      | inr right ↦
          let high = p.high_key_pair.0 in
          let above : high ≤ k = ground (arith, right) in
          let content = pairs_of r ps in
          let found = page_of-IsFound top high k r ps more in
          let passed = from_none k p.items content (under_high p k leaf.page real above) in
          let same : beyond content (page_of k r ps)
              ≡ beyond (p.items ++ content) (page_of k r ps) =
            beyond-passed content (page_of k r ps) p.items (elim found.reaches [
              | inl last ↦ inl last
              | inr under ↦ inr (
                  under_high p (page_of k r ps).high_key_pair.0 leaf.page real
                    (omega (arith, above, under)))
            ]) in
          rw right (record {
            page = found.page;
            bounded = found.bounded;
            reaches = found.reaches;
            pairs = passed ∙ found.pairs ∙ ap (from k (page_of k r ps).items ++◌) same;
          })
    ]

-- The leaves at the time of a load: other threads split, merge and consolidate them, while the pairs
-- stay.
module _ (layout : ℕ → Leaves) (load_bi : ℕ → ℕ → Page) where
  abbrev pub load_of : ℕ → ℕ → Page
  load_of t k = page_of k (layout t).first (layout t).others

  module _ (top : ℕ) (linked : (t : ℕ) → IsLinked top 0 (layout t).first (layout t).others)
      (content : List KeyValue)
      (same : (t : ℕ) → pairs_of (layout t).first (layout t).others ≡ content) where
    found : (t k : ℕ) → IsFound top k content (load_of t k)
    found t k =
        subst (λ xs. IsFound top k xs (load_of t k)) (same t)
          (page_of-IsFound top 0 k (layout t).first (layout t).others (linked t))

    pub load_of-Loads : Loads top load_of
    load_of-Loads = record {
      page = λ t k. (found t k).page;
      reaches = λ t k. (found t k).reaches;
      bounded = λ t k. (found t k).bounded;
    }

    pub load_of-IsQuiet : IsQuiet content load_of
    load_of-IsQuiet = record { pairs = λ t k. (found t k).pairs }

    -- Let the leaves be linked at the time of each load, hold the same pairs at all times, and have no
    -- high key above `top`; how they are split may change between the loads. With fuel above `top` and
    -- more steps than pairs, the loop of a client from Begin(start_key) to IsEnd() ends, and has met the
    -- pairs from the start key on, each once and in order.
    pub scan_from-pairs :
        (steps fuel t start_key : ℕ)
        → top < fuel
        → length content < steps
        → scan_from load_of load_bi steps fuel t start_key ≡ some (from start_key content)
    scan_from-pairs steps fuel t start_key enough some_steps =
        scan_from-from load_of load_bi top load_of-Loads content load_of-IsQuiet steps fuel t
          start_key enough (omega (arith, some_steps, from-length start_key content))
