-- ===== src/Snapshot/Clean.antt =====
-- The two ways in which `scan` returns: by a clean pair of collects, and by a stolen snapshot.
use multiprocessor_programmi.Prelude.{
  ℕ, zero, suc, ◌+◌, ◌≤◌, ◌<◌, ◌≡◌, ◌≢◌, refl, Bool, true, false, List, [], ◌∷◌, ◌++◌, none, get_or,
  set, length, replicate, arith, Bool-cases, Option-cases, inl, inr, get_or-set, length-set, ◌∙◌,
}
use multiprocessor_programmi.Snapshot.{
  SnapValue, uint_max, first_moved, steal, copy_values, clean, register_at, moved_at, scan_loop,
  scan,
}
use multiprocessor_programmi.Snapshot.Atomic.{IsHistory, tabulate, stores, collected, clean-values}

-- A clean return means that the last two collects agree on all labels, and gives the last one's values.
clean-loop :
    (collects : ℕ → List SnapValue) (garbage : List ℕ) (fuel t : ℕ) (moved : List Bool) (time : ℕ)
    (snap : List ℕ)
    → scan_loop collects garbage fuel (suc t) (collects t) moved ≡ clean (suc time) snap
    → (first_moved 0 (collects time) (collects (suc time)) ≡ none)
      × (snap ≡ copy_values (collects (suc time)))
unfolding scan_loop
clean-loop collects garbage zero t moved time snap e = absurd (ground arith)
clean-loop collects garbage (suc fuel) t moved time snap e =
    elim (Option-cases (first_moved 0 (collects t) (collects (suc t)))) [
      | inl same ↦
          let now : (t ≡ time) × (snap ≡ copy_values (collects (suc t))) = ground arith in
          rw (← now.0) (same, now.1)
      | inr (i, differs) ↦ elim (Bool-cases (moved_at moved i)) [
        | inl again ↦ elim (Option-cases (register_at (collects (suc t)) i).snap) [
          | inl missing ↦ absurd (ground arith)
          | inr (stolen_snap, there) ↦ absurd (ground arith)
        ]
        | inr first ↦
            clean-loop collects garbage fuel (suc t) (set moved i true) time snap (ground arith)
      ]
    ]

-- Let the registers change by stores alone, let all reads of one collect come before those of the next,
-- and let no register be stored to UINT_MAX times from one collect to the next. Then a clean return of
-- `scan` is atomic: the snapshot holds the values of all registers at one moment, which lies between
-- the last two collects, so within the call.
pub scan-atomic :
    {memory : ℕ → ℕ → SnapValue} (h : IsHistory memory) (n : ℕ) (at : ℕ → ℕ → ℕ) (between : ℕ → ℕ)
    → ((t i : ℕ) → (at t i ≤ between t) × (between t ≤ at (suc t) i))
    → ((t i : ℕ) → stores h (at (suc t) i) i < stores h (at t i) i + uint_max)
    → (garbage : List ℕ) (time : ℕ) (snap : List ℕ)
    → scan (λ t. collected h 0 n (at t)) garbage n ≡ clean (suc time) snap
    → snap ≡ tabulate 0 n (λ i. (memory (between time) i).value)
unfolding scan
scan-atomic h n at between ordered few garbage time snap e =
    let (same, values) =
      clean-loop (λ t. collected h 0 n (at t)) garbage (suc n) 0 (replicate n false) time snap e in
    values
    ∙ clean-values h 0 n (between time) (at time) (at (suc time)) (ordered time) (few time) same

get_or-steal_ne :
    (garbage stolen_snap : List ℕ) (i j d : ℕ)
    → i < length garbage
    → i ≢ j
    → get_or (steal garbage i stolen_snap) j d ≡ get_or garbage j d
unfolding steal
get_or-steal_ne garbage [] i j d h ne = refl
get_or-steal_ne garbage (x ∷ stolen_snap) i j d h ne =
    get_or-steal_ne (set garbage i x) stolen_snap i j d (omega (arith, length-set garbage i x)) ne
    ∙ ground (arith, get_or-set garbage i j x d h)

get_or-steal_self :
    (garbage stolen_snap : List ℕ) (last : ℕ) (i d : ℕ)
    → i < length garbage
    → get_or (steal garbage i (stolen_snap ++ last ∷ [])) i d ≡ last
unfolding steal
get_or-steal_self garbage [] last i d h = ground (arith, get_or-set garbage i i last d h)
get_or-steal_self garbage (x ∷ stolen_snap) last i d h =
    get_or-steal_self (set garbage i x) stolen_snap last i d (omega (arith, length-set garbage i x))

-- Let `i` be a place of the new array, and the stolen snapshot not be empty. It is not copied: the loop over `j` writes `snap[i]` alone. In what `scan` returns the
-- place `i` holds the last element of the stolen snapshot, and every other place what was in the new
-- array before.
pub steal-garbage :
    (garbage stolen_snap : List ℕ) (last i : ℕ)
    → i < length garbage
    → (get_or (steal garbage i (stolen_snap ++ last ∷ [])) i 0 ≡ last)
      × ((j : ℕ)
          → i ≢ j
          → get_or (steal garbage i (stolen_snap ++ last ∷ [])) j 0 ≡ get_or garbage j 0)
steal-garbage garbage stolen_snap last i h = (
  get_or-steal_self garbage stolen_snap last i 0 h,
  λ j ne. get_or-steal_ne garbage (stolen_snap ++ last ∷ []) i j 0 h ne,
)
