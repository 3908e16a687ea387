-- ===== src/Table/Tests.antt =====
-- Two threads that insert the same pair: both prepare a node, one wins and the other is refused.
use multiprocessor_programmi.Prelude.{ℕ, ◌≡◌, inl, refl, [], ◌∷◌, true, false, some, arith}
use multiprocessor_programmi.Leaf.{LeafChain, leaf, leaf_insert, get_high_key_pair}
use multiprocessor_programmi.Leaf.Spec.{IsValid, IsBelowHigh}
use multiprocessor_programmi.Leaf.Navigate.{navigate}
use multiprocessor_programmi.Stack.{update}
use multiprocessor_programmi.Table.{
  Operation, round, Memory, Thread, idle, running, installing, returned, call, prepare, win, Table,
  Step, move, Reach, start, later,
}
use multiprocessor_programmi.Table.Linearizable.{Effect, pairs, table-Effect}

abbrev base : LeafChain
base = leaf (0, 0) (0, 0) ((1, 10) ∷ (3, 30) ∷ [])

base-IsValid : IsValid base
base-IsValid = (((omega arith, tt), (tt, tt)), (refl, (refl, tt)))

abbrev five : Operation
five = record { is_insert = true; key = 5; value = 50 }

abbrev longer : LeafChain
longer = leaf_insert (5, 50) (2, false) base

in_range : IsBelowHigh (get_high_key_pair base) 5
unfolding get_high_key_pair
in_range = inl refl

accepted : round five base ≡ some (true, longer)
unfolding round navigate
accepted = refl

abbrev with_nodes : (ℕ → LeafChain) → ℕ → ℕ → Memory
with_nodes nodes free entry = record { nodes = nodes; free = free; entry = entry }

abbrev first_node : ℕ → LeafChain
first_node = update (λ i. base) 1 longer

abbrev both_nodes : ℕ → LeafChain
both_nodes = update first_node 2 longer

abbrev calling : ℕ → Thread
calling = update (update (λ i. idle) 0 (running five)) 1 (running five)

abbrev one_ready : ℕ → Thread
one_ready = update calling 0 (installing five 0 1)

abbrev both_ready : ℕ → Thread
both_ready = update one_ready 1 (installing five 0 2)

abbrev racing : Table
racing = record { mem = with_nodes both_nodes 3 0; threads = both_ready }

racing-Reach : Reach base racing
racing-Reach =
    later
      (later (later (later start (move 0 (call five))) (move 1 (call five)))
        (move 0 (prepare in_range accepted)))
      (move 1 (prepare in_range accepted))

abbrev won : Table
won = record { mem = with_nodes both_nodes 3 1; threads = update both_ready 0 idle }

wins : Step racing (returned five true) won
wins = move 0 (win refl)

table-Effect_example : Effect (returned five true) (pairs racing) (pairs won)
table-Effect_example = table-Effect base-IsValid racing-Reach wins
