-- ===== src/Iterator/Tests.antt =====
-- The iterators at concrete leaves.
use multiprocessor_programmi.Prelude.{
  ℕ, zero, suc, ltb, ◌==◌, if◌then◌else◌, ◌≤◌, ◌≡◌, refl, inl, inr, List, [], ◌∷◌, none, some,
  arith, Bool-cases,
}
use multiprocessor_programmi.Leaf.{KeyValue}
use multiprocessor_programmi.Leaf.Spec.{IsSorted}
use multiprocessor_programmi.Iterator.{Page, Cursor, begin, deref, increment, decrement}
use multiprocessor_programmi.Iterator.Backward.{LoadsBack, IsBefore, decrement-IsBefore}
use multiprocessor_programmi.Iterator.Spec.{IsPage}
use multiprocessor_programmi.Iterator.Ordered.{Ordered, increment-Ordered}
use multiprocessor_programmi.Iterator.Scan.{scan, scan_from}
use multiprocessor_programmi.Iterator.Leaves.{
  Leaves, pairs_of, IsLeaf, IsLinked, load_of, load_of-Loads, scan_from-pairs,
}
use multiprocessor_programmi.Iterator.Begin.{scan-begin}
use multiprocessor_programmi.Iterator.Contexts.{Iterator, is_paired, State, move_assign, step}
use multiprocessor_programmi.Iterator.Contexts.Counts.{references, pointing_to, points}
use multiprocessor_programmi.Iterator.Contexts.Balance.{Balanced, step-Balanced}

abbrev left : Page
left = record { low_key_pair = (0, 0); high_key_pair = (5, 2); items = (1, 10) ∷ (3, 30) ∷ [] }

abbrev middle : Page
middle = record { low_key_pair = (5, 2); high_key_pair = (7, 3); items = [] }

abbrev right : Page
right = record { low_key_pair = (7, 3); high_key_pair = (0, 0); items = (7, 70) ∷ (9, 90) ∷ [] }

abbrev joined : Page
joined = record left { high_key_pair = (7, 3) }

-- Three leaves, one of them empty, that is merged after the first load.
abbrev layout : ℕ → Leaves
layout zero = record { first = left; others = middle ∷ right ∷ [] }
layout (suc t) = record { first = joined; others = right ∷ [] }

abbrev content : List KeyValue
content = (1, 10) ∷ (3, 30) ∷ (7, 70) ∷ (9, 90) ∷ []

two-IsSorted : (a b v w : ℕ) → a ≤ b → IsSorted ((a, v) ∷ (b, w) ∷ [])
two-IsSorted a b v w le = ((le, tt), (tt, tt))

left-IsPage : IsPage left
left-IsPage = record {
  sorted = two-IsSorted 1 3 10 30 (omega arith);
  inside = inr (omega arith, (omega arith, tt));
}

right-IsLeaf : IsLeaf 10 7 right
right-IsLeaf = record {
  page = record { sorted = two-IsSorted 7 9 70 90 (omega arith); inside = inl refl };
  above = (omega arith, (omega arith, tt));
  bounded = omega arith;
}

linked : (t : ℕ) → IsLinked 10 0 (layout t).first (layout t).others
unfolding IsLinked
linked zero = (
  record { page = left-IsPage; above = (omega arith, (omega arith, tt)); bounded = omega arith },
  (λ e. ground (arith, e)),
  omega arith,
  (
    record { page = record { sorted = tt; inside = inr tt }; above = tt; bounded = omega arith },
    (λ e. ground (arith, e)),
    omega arith,
    (right-IsLeaf, refl),
  ),
)
linked (suc t) = (
  record {
    page = record { sorted = left-IsPage.sorted; inside = inr (omega arith, (omega arith, tt)) };
    above = (omega arith, (omega arith, tt));
    bounded = omega arith;
  },
  (λ e. ground (arith, e)),
  omega arith,
  (right-IsLeaf, refl),
)

same : (t : ℕ) → pairs_of (layout t).first (layout t).others ≡ content
same zero = refl
same (suc t) = refl

abbrev load_bi : ℕ → ℕ → Page
load_bi t k = if ltb 7 k then right else joined

back : LoadsBack content load_bi
back = record {
  sorted = λ t k. elim (Bool-cases (ltb 7 k)) [
    | inl above ↦ rw above right-IsLeaf.page.sorted
    | inr below ↦ rw below left-IsPage.sorted
  ];
  reaches = λ t k. elim (Bool-cases (ltb 7 k)) [
    | inl above ↦ rw above (inr (ground (arith, above)))
    | inr below ↦ rw below (inl refl)
  ];
  pairs = λ t k. elim (Bool-cases (ltb 7 k)) [
    | inl above ↦ rw above (ground (arith, above))
    | inr below ↦ rw below (ground (arith, below))
  ];
}

-- from the first pair of the last leaf
abbrev first_of_right : Cursor
first_of_right = record { page = right; kv_p = 1 }

decrement-IsBefore_example :
    (c' : Cursor) × (decrement (load_of layout load_bi) load_bi 8 0 (some first_of_right)
      ≡ some (some c'))
    × IsBefore content ((1, 10) ∷ (3, 30) ∷ []) c'
decrement-IsBefore_example =
    decrement-IsBefore content (load_of layout load_bi) load_bi back 8 0 first_of_right
      (omega arith) (omega arith) (omega arith)

scan_from-pairs_example :
    scan_from (load_of layout load_bi) load_bi 5 11 0 3 ≡ some ((3, 30) ∷ (7, 70) ∷ (9, 90) ∷ [])
scan_from-pairs_example =
    scan_from-pairs layout load_bi 10 linked content same 5 11 0 3 (omega arith) (omega arith)

scan-begin_example : scan (load_of layout load_bi) load_bi 5 11 0 (begin left) ≡ some content
scan-begin_example =
    scan-begin layout load_bi 10 linked content same 5 11 0 (omega arith) (omega arith)

-- an empty first leaf with a right sibling
begin_past_end : scan (load_of layout load_bi) load_bi 5 11 0 (begin middle) ≡ none
unfolding scan begin
begin_past_end = refl

-- from the last pair of the first leaf
abbrev last_of_left : Cursor
last_of_left = record { page = left; kv_p = 2 }

increment-Ordered_example :
    (x : KeyValue) × (c' : Cursor) × (deref (some last_of_left) ≡ some x)
    × (increment (load_of layout load_bi) load_bi 11 1 (some last_of_left) ≡ some (some c'))
    × Ordered x.0 c'
increment-Ordered_example =
    increment-Ordered (load_of layout load_bi) load_bi 10
      (load_of-Loads layout load_bi 10 linked content same) 11 1 last_of_left (omega arith)
      left-IsPage (omega arith) (omega arith)

-- Two iterators, with a context each.
abbrev first : Iterator
first = record { ic_p = some 7; kv_p = some 70 }

abbrev second : Iterator
second = record { ic_p = some 8; kv_p = some 80 }

abbrev two_iterators : State
two_iterators = record {
  contexts = λ q. if q == 7 then some 1 else if q == 8 then some 1 else none;
  iterators = first ∷ second ∷ [];
}

balanced : Balanced [] two_iterators
unfolding references pointing_to points is_paired
balanced = record {
  counts = λ q. elim (Bool-cases (q == 7)) [
    | inl at_first ↦ ground (arith, at_first)
    | inr other ↦ elim (Bool-cases (q == 8)) [
      | inl at_second ↦ ground (arith, other, at_second)
      | inr neither ↦ ground (arith, other, neither)
    ]
  ];
  paired = (refl, (refl, tt));
}

-- The first one's context is let go.
step-Balanced_example :
    (after : State) × (step (move_assign 0 1) two_iterators ≡ some after)
    × Balanced (some 7 ∷ []) after
step-Balanced_example =
    step-Balanced [] two_iterators (move_assign 0 1) balanced ((first, refl), (second, refl))
