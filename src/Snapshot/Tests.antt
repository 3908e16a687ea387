-- ===== src/Snapshot/Tests.antt =====
-- Two threads: a history with one update, read by collects that do not overlap.
use multiprocessor_programmi.Prelude.{
  ℕ, zero, suc, ◌+◌, ◌*◌, ◌≤◌, ◌<◌, ◌≡◌, ◌≢◌, ◌⊎◌, inl, inr, refl, [], ◌∷◌, ◌++◌, get_or, arith,
}
use multiprocessor_programmi.Snapshot.{
  SnapValue, initial, uint_max, new_value, steal, clean, scan, next_label,
}
use multiprocessor_programmi.Snapshot.WaitFree.{Returns, scan-Returns}
use multiprocessor_programmi.Snapshot.Atomic.{IsHistory, Stores, tabulate, stores, collected}
use multiprocessor_programmi.Snapshot.Clean.{scan-atomic, steal-garbage}

-- Thread 1 stores 42 in the first step.
abbrev stored : SnapValue
stored = new_value initial 42 (0 ∷ 0 ∷ [])

abbrev memory : ℕ → ℕ → SnapValue
memory zero i = initial
memory (suc t) zero = initial
memory (suc t) (suc zero) = stored
memory (suc t) (suc (suc i)) = initial

abbrev steps : (t i : ℕ) → (memory (suc t) i ≡ memory t i) ⊎ Stores (memory t i) (memory (suc t) i)
steps zero zero = inl refl
steps zero (suc zero) = inr (42, 0 ∷ 0 ∷ [], refl)
steps zero (suc (suc i)) = inl refl
steps (suc t) zero = inl refl
steps (suc t) (suc zero) = inl refl
steps (suc t) (suc (suc i)) = inl refl

abbrev history : IsHistory memory
history = record { begin = λ i. refl; step = steps }

at_most_one : (t i : ℕ) → stores history t i ≤ 1
at_most_one zero i = omega arith
at_most_one (suc zero) zero = omega arith
at_most_one (suc zero) (suc zero) = omega arith
at_most_one (suc zero) (suc (suc i)) = omega arith
at_most_one (suc (suc t)) zero = at_most_one (suc t) zero
at_most_one (suc (suc t)) (suc zero) = at_most_one (suc t) 1
at_most_one (suc (suc t)) (suc (suc i)) = at_most_one (suc t) (suc (suc i))

-- Collect `t` reads all registers at the time `2 t`.
abbrev at : ℕ → ℕ → ℕ
at t i = 2 * t

few : (t i : ℕ) → stores history (at (suc t) i) i < stores history (at t i) i + uint_max
few t i = omega (arith, at_most_one (2 * suc t) i)

returns : scan (λ t. collected history 0 2 (at t)) (8 ∷ 9 ∷ []) 2 ≡ clean 2 (0 ∷ 42 ∷ [])
unfolding scan new_value next_label
returns = refl

scan-atomic_example : 0 ∷ 42 ∷ [] ≡ tabulate 0 2 (λ i. (memory 2 i).value)
scan-atomic_example =
    scan-atomic history 2 at (λ t. 2 * t) (λ t i. (omega arith, omega arith)) few (8 ∷ 9 ∷ []) 1
      (0 ∷ 42 ∷ []) returns

scan-Returns_example : Returns (scan (λ t. collected history 0 2 (at t)) (8 ∷ 9 ∷ []) 2)
scan-Returns_example = scan-Returns history 2 at (8 ∷ 9 ∷ []) (λ t i. omega arith)

steal-garbage_example :
    (get_or (steal (7 ∷ 8 ∷ 9 ∷ []) 1 ((4 ∷ 5 ∷ []) ++ 6 ∷ [])) 1 0 ≡ 6)
    × ((j : ℕ)
        → 1 ≢ j
        → get_or (steal (7 ∷ 8 ∷ 9 ∷ []) 1 ((4 ∷ 5 ∷ []) ++ 6 ∷ [])) j 0
          ≡ get_or (7 ∷ 8 ∷ 9 ∷ []) j 0)
steal-garbage_example = steal-garbage (7 ∷ 8 ∷ 9 ∷ []) (4 ∷ 5 ∷ []) 6 1 (omega arith)
