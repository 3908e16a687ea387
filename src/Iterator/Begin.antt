-- ===== src/Iterator/Begin.antt =====
-- `Begin()`: the iterator at the first place of the first leaf.
use multiprocessor_programmi.Prelude.{
  ℕ, Bool, zero, suc, ◌<◌, ◌≡◌, refl, sym, ap, ◌∙◌, inl, inr, true, false, ◌&&◌, not, List, [], ◌∷◌,
  ◌++◌, none, some, ◌==◌, if◌then◌else◌, length, get_elem?, arith, Bool-cases,
}
use mathlib.Core.List.{append-nil}
use multiprocessor_programmi.Leaf.{KeyValue, invalid_node_id}
use multiprocessor_programmi.Iterator.{Page, begin, is_last}
use multiprocessor_programmi.Iterator.Spec.{get-length, beyond, IsAtPair}
use multiprocessor_programmi.Iterator.Scan.{scan, scan-rest}
use multiprocessor_programmi.Iterator.Leaves.{
  Leaves, pairs_of, IsLinked, beyond_first, load_of, load_of-Loads, load_of-IsQuiet,
}

-- The first leaf has no pair, and is not the last one.
abbrev pub starts_empty : Page → Bool
starts_empty p = length p.items == 0 && not (p.high_key_pair.1 == invalid_node_id)

first_pairs :
    (top low : ℕ) (p : Page) (ps : List Page)
    → IsLinked top low p ps
    → p.items ++ beyond (pairs_of p ps) p ≡ pairs_of p ps
unfolding IsLinked
first_pairs top low p [] (leaf, last) =
    let test : (p.high_key_pair.1 == invalid_node_id) ≡ true = ground (arith, last) in
    rw test (append-nil p.items)
first_pairs top low p (r ∷ ps) h = ap (p.items ++◌) (beyond_first top low p r ps h)

begin-IsAtPair : (p : Page) → starts_empty p ≡ false → IsAtPair (record { page = p; kv_p = 1 })
begin-IsAtPair p e = elim (Bool-cases (length p.items == 0)) [
  | inl empty ↦ inl (ground (arith, empty, e))
  | inr some_pair ↦ inr (omega arith, ground (arith, some_pair))
]

scan-empty :
    (load load_bi : ℕ → ℕ → Page) (steps fuel t : ℕ) (p : Page)
    → starts_empty p ≡ true
    → scan load load_bi (suc steps) fuel t (begin p) ≡ none
unfolding scan begin
scan-empty load load_bi steps fuel t p e =
    let empty : length p.items ≡ 0 = ground (arith, e) in
    let more : is_last (record { page = p; kv_p = 1 }) ≡ false = ground (arith, e) in
    let nothing : get_elem? p.items 0 ≡ none =
      ap (λ n. get_elem? p.items n) (sym empty) ∙ get-length p.items in
    rw (more, nothing) refl

module _ (layout : ℕ → Leaves) (load_bi : ℕ → ℕ → Page) (top : ℕ)
    (linked : (t : ℕ) → IsLinked top 0 (layout t).first (layout t).others) (content : List KeyValue)
    (same : (t : ℕ) → pairs_of (layout t).first (layout t).others ≡ content) where
  -- Let the leaves be as for a range scan, and the fuel and the steps enough. The loop of a client from
  -- Begin() meets all pairs in order and ends, unless the first leaf is empty and not the last one: then
  -- the loop takes the iterator for one at a pair, and reads past the end of the leaf.
  pub scan-begin :
      (steps fuel t : ℕ)
      → top < fuel
      → length content < steps
      → scan (load_of layout load_bi) load_bi steps fuel t (begin (layout t).first)
        ≡ (if starts_empty (layout t).first then none else some content)
  unfolding scan begin
  scan-begin zero fuel t enough some_steps = absurd (omega (arith, some_steps))
  scan-begin (suc steps) fuel t enough some_steps =
      elim (Bool-cases (starts_empty (layout t).first)) [
        | inl empty ↦
            rw empty
              (scan-empty (load_of layout load_bi) load_bi steps fuel t (layout t).first empty)
        | inr full ↦ rw full (
            scan-rest (load_of layout load_bi) load_bi top
              (load_of-Loads layout load_bi top linked content same) content
              (load_of-IsQuiet layout load_bi top linked content same) (suc steps) fuel t
              (record { page = (layout t).first; kv_p = 1 }) content enough some_steps
              (begin-IsAtPair (layout t).first full)
              (ap (λ xs. (layout t).first.items ++ beyond xs (layout t).first) (sym (same t))
                ∙ first_pairs top 0 (layout t).first (layout t).others (linked t)
                ∙ same t))
      ]
