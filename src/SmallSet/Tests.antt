-- ===== src/SmallSet/Tests.antt =====
-- Tests and instances for `SortedSmallSet`, over numbers.
use multiprocessor_programmi.Prelude.{
  ℕ, ◌≡◌, refl, [], ◌∷◌, ◌==◌, ltb, none, some, or_else, if◌then◌else◌, arith,
}
use multiprocessor_programmi.SmallSet.{SmallSet, insert, pop_front}
use multiprocessor_programmi.SmallSet.Order
use multiprocessor_programmi.SmallSet.Order.{IsOrder, IsStrict, IsSorted, find}

ℕ-IsOrder : IsOrder ltb ◌==◌
ℕ-IsOrder = record {
  irrefl = λ x. ground arith;
  trans = λ x y z h k. ground arith;
  cotrans = λ x y z h k. ground arith;
  eq_of = λ x y h k. ground arith;
  of_eq = λ x y h. ground arith;
  eq_sym = λ x y h. ground arith;
}

abbrev some_numbers : SmallSet ℕ
some_numbers = record { items = 2 ∷ 5 ∷ 9 ∷ [] }

insert_order : (insert ltb ◌==◌ 7 (insert ltb ◌==◌ 5 some_numbers)).items ≡ 2 ∷ 5 ∷ 7 ∷ 9 ∷ []
unfolding insert
insert_order = refl

pop_order : pop_front some_numbers ≡ some (2, record { items = 5 ∷ 9 ∷ [] })
unfolding pop_front
pop_order = refl

insert-find_example :
    IsStrict ltb (insert ltb ◌==◌ 7 some_numbers).items
    × ((q : ℕ)
        → find ◌==◌ q (insert ltb ◌==◌ 7 some_numbers).items
          ≡ or_else (find ◌==◌ q some_numbers.items) (if 7 == q then some 7 else none))
insert-find_example = Order.insert-find ℕ-IsOrder 7 some_numbers (ground arith)
