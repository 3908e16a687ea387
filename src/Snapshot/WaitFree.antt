-- ===== src/Snapshot/WaitFree.antt =====
-- `scan` is wait-free: whatever the other threads do, the loop runs at most once more than there are
-- threads.
use multiprocessor_programmi.Prelude.{
  ℕ, zero, suc, ◌+◌, ◌≤◌, ◌<◌, ◌≡◌, ◌≢◌, refl, ap, ◌⊎◌, dec_lt, ◌==◌, Bool, true, false, not, List,
  [], ◌∷◌, some, set, length, replicate, count, arith, Bool-cases, Option-cases, inl, inr,
  length-set, length-replicate, ◌∙◌, sym,
}
use multiprocessor_programmi.Snapshot.{
  SnapValue, new_value, first_moved, copy_values, steal, ScanResult, clean, stolen, register_at,
  moved_at, scan_loop, scan,
}
use multiprocessor_programmi.Snapshot.Atomic.{IsHistory, tabulate, collected}
use mathlib.Core.Path.{subst}

abbrev unmoved : List Bool → ℕ
unmoved = count not

unmoved-set :
    (moved : List Bool) (i : ℕ)
    → i < length moved
    → moved_at moved i ≡ false
    → unmoved (set moved i true) + 1 ≡ unmoved moved
unmoved-set [] i h e = elim h [ ]
unmoved-set (b ∷ moved) zero h e = ground arith
unmoved-set (b ∷ moved) (suc i) h e = ground (arith, unmoved-set moved i (omega arith) e)

unmoved-replicate : (n : ℕ) → unmoved (replicate n false) ≡ n
unmoved-replicate zero = refl
unmoved-replicate (suc n) = omega (arith, unmoved-replicate n)

first_moved-lt :
    (j i : ℕ) (old new : List SnapValue)
    → first_moved j old new ≡ some i
    → (j ≤ i) × (i < j + length old)
unfolding first_moved
first_moved-lt j i [] new e = absurd (ground arith)
first_moved-lt j i (x ∷ old) [] e = absurd (ground arith)
first_moved-lt j i (x ∷ old) (y ∷ new) e = elim (Bool-cases (x.label == y.label)) [
  | inl same ↦ let r = first_moved-lt (suc j) i old new (ground arith) in omega (arith, r)
  | inr other ↦ let f : i ≡ j = ground arith in omega (arith, f)
]

-- A scan that returns a snapshot, its own or a stolen one.
abbrev pub Returns : ScanResult → Type 0
Returns r =
    ((time : ℕ) × (snap : List ℕ) × (r ≡ clean time snap))
    ⊎ ((i : ℕ) × (snap : List ℕ) × (r ≡ stolen i snap))

-- A register whose label has changed has been stored to, so that a scan can steal its snapshot.
abbrev IsStored : (ℕ → List SnapValue) → Type 0
IsStored collects =
    (t i : ℕ)
    → first_moved 0 (collects t) (collects (suc t)) ≡ some i
    → (snap : List ℕ) × ((register_at (collects (suc t)) i).snap ≡ some snap)

scan_loop-Returns :
    (collects : ℕ → List SnapValue) (garbage : List ℕ) (fuel t : ℕ) (moved : List Bool)
    → ((s : ℕ) → length (collects s) ≡ length moved)
    → IsStored collects
    → unmoved moved < fuel
    → Returns (scan_loop collects garbage fuel (suc t) (collects t) moved)
unfolding scan_loop
scan_loop-Returns collects garbage zero t moved sized stored lt = elim lt [ ]
scan_loop-Returns collects garbage (suc fuel) t moved sized stored lt =
    elim (Option-cases (first_moved 0 (collects t) (collects (suc t)))) [
      | inl same ↦ inl (suc t, copy_values (collects (suc t)), rw (scan_loop, same) refl)
      | inr (i, differs) ↦ elim (Bool-cases (moved_at moved i)) [
        | inl again ↦
            let (snap, at) = stored t i differs in
            inr (i, steal garbage i snap, rw (scan_loop, differs, again, at) refl)
        | inr first ↦
            let inside : i < length moved =
              omega (arith, first_moved-lt 0 i (collects t) (collects (suc t)) differs, sized t) in
            let l = length-set moved i true in
            rw (differs, first, scan_loop)
              (scan_loop-Returns collects garbage fuel (suc t) (set moved i true)
                (λ s. sized s ∙ sym l) stored (omega (arith, unmoved-set moved i inside first)))
      ]
    ]

length-tabulate : (j n : ℕ) (f : ℕ → SnapValue) → length (tabulate j n f) ≡ n
length-tabulate j zero f = refl
length-tabulate j (suc n) f = omega (arith, length-tabulate (suc j) n f)

module _ {memory : ℕ → ℕ → SnapValue} (h : IsHistory memory) where
  -- A register whose label is not the old one any more has been stored to.
  stored_to :
      (s t i : ℕ)
      → s ≤ t
      → (memory s i).label ≢ (memory t i).label
      → (snap : List ℕ) × ((memory t i).snap ≡ some snap)
  unfolding new_value
  stored_to s zero i le ne =
      let e : s ≡ 0 = omega (arith, le) in absurd (ne (ap (λ m. (memory m i).label) e))
  stored_to s (suc t) i le ne = elim (dec_lt t s) [
    | yes last ↦
        let e : s ≡ suc t = omega (arith, le, last) in absurd (ne (ap (λ m. (memory m i).label) e))
    | no before ↦ elim (h.step t i) [
      | inl same ↦
          let (snap, at) =
            stored_to s t i (omega (arith, before))
              (λ e. ne (e ∙ ap (λ (r : SnapValue). r.label) (sym same))) in
          (snap, ap (λ (r : SnapValue). r.snap) same ∙ at)
      | inr (value, snap, store) ↦ (snap, ap (λ (r : SnapValue). r.snap) store)
    ]
  ]

  moved_register :
      (j n i : ℕ) (before after : ℕ → ℕ)
      → first_moved j (collected h j n before) (collected h j n after) ≡ some i
      → (k : ℕ) × (i ≡ j + k)
        × ((memory (before i) i).label ≢ (memory (after i) i).label)
        × (register_at (collected h j n after) k ≡ memory (after i) i)
  unfolding first_moved
  moved_register j zero i before after e = absurd (ground arith)
  moved_register j (suc n) i before after e =
      elim (Bool-cases ((memory (before j) j).label == (memory (after j) j).label)) [
        | inl same ↦
            let (k, at, differ, read) = moved_register (suc j) n i before after (ground arith) in
            (suc k, omega (arith, at), differ, read)
        | inr differ ↦
            let here : j ≡ i = ground arith in
            (
              0,
              omega (arith, here),
              subst (λ m. (memory (before m) m).label ≢ (memory (after m) m).label) here
                  (λ same. ground (arith, same, differ)),
              ap (λ m. memory (after m) m) here,
            )
      ]

  -- Let registers change by stores alone, each of which puts a snapshot beside its value, and let no
  -- collect read a register earlier than the collect before it did. Whatever is stored meanwhile,
  -- `scan` among `n` threads returns a snapshot, its own or a stolen one, after at most `n + 2`
  -- collects, the first and `n + 1` of the loop, and reads through no null pointer: it is wait-free.
  pub scan-Returns :
      (n : ℕ) (at : ℕ → ℕ → ℕ) (garbage : List ℕ)
      → ((t i : ℕ) → at t i ≤ at (suc t) i)
      → Returns (scan (λ t. collected h 0 n (at t)) garbage n)
  unfolding scan
  scan-Returns n at garbage order =
      let l = length-replicate n false in
      scan_loop-Returns (λ t. collected h 0 n (at t)) garbage (suc n) 0 (replicate n false)
        (λ t. length-tabulate 0 n (λ i. memory (at t i) i) ∙ sym l)
        (λ t i e.
          let (k, place, differ, read) = moved_register 0 n i (at t) (at (suc t)) e in
          let (snap, found) = stored_to (at t i) (at (suc t) i) i (order t i) differ in
          let same : k ≡ i = omega (arith, place) in
          (
            snap,
            ap (λ m. (register_at (collected h 0 n (at (suc t))) m).snap) (sym same)
                ∙ ap (λ (r : SnapValue). r.snap) read
                ∙ found,
          ))
        (omega (arith, unmoved-replicate n))
