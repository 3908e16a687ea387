-- ===== src/Snapshot/Atomic.antt =====
-- What a clean scan returns: the values of all registers at one moment.
use multiprocessor_programmi.Prelude.{
  ℕ, zero, suc, ◌+◌, ◌≤◌, ◌<◌, ◌≡◌, ◌⊎◌, inl, inr, refl, sym, ap, ◌∙◌, dec_lt, ◌==◌, List, [], ◌∷◌,
  none, arith, Bool-cases, ==_iff,
}
use mathlib.Core.Path.{ap₂}
use multiprocessor_programmi.Snapshot.{
  SnapValue, initial, uint_max, next_label, new_value, first_moved, copy_values,
}
use multiprocessor_programmi.Snapshot.Labels.{label_of, label_of-injective}

-- A store to a register: `new_value` of what stood there, as only its own thread writes it.
abbrev pub Stores : SnapValue → SnapValue → Type 0
Stores old new = (value : ℕ) × (snap : List ℕ) × (new ≡ new_value old value snap)

-- The registers over time: in a step each is left alone or stored to.
pub record IsHistory (memory : ℕ → ℕ → SnapValue) : Type 0 where
  pub begin : (i : ℕ) → memory 0 i ≡ initial
  pub step : (t i : ℕ) → (memory (suc t) i ≡ memory t i) ⊎ Stores (memory t i) (memory (suc t) i)

-- `f j, …, f (j + n - 1)`
abbrev pub tabulate {ℓ} : {A : Type ℓ} → ℕ → ℕ → (ℕ → A) → List A
tabulate j zero f = []
tabulate j (suc n) f = f j ∷ tabulate (suc j) n f

-- the count after a step
abbrev pub after_step : {old new : SnapValue} → (new ≡ old) ⊎ Stores old new → ℕ → ℕ
after_step (inl same) k = k
after_step (inr store) k = suc k

step-label :
    (old new : SnapValue) (k : ℕ) (s : (new ≡ old) ⊎ Stores old new)
    → old.label ≡ label_of k
    → new.label ≡ label_of (after_step s k)
unfolding new_value
step-label old new k (inl same) e = ap (λ (r : SnapValue). r.label) same ∙ e
step-label old new k (inr (value, snap, store)) e =
    ap (λ (r : SnapValue). r.label) store ∙ ap next_label e

step-same :
    (old new : SnapValue) (k : ℕ) (s : (new ≡ old) ⊎ Stores old new)
    → after_step s k ≡ k
    → new ≡ old
step-same old new k (inl same) e = same
step-same old new k (inr store) e = absurd (omega arith)

step-le : (old new : SnapValue) (k : ℕ) (s : (new ≡ old) ⊎ Stores old new) → k ≤ after_step s k
step-le old new k (inl same) = omega arith
step-le old new k (inr store) = omega arith

module _ {memory : ℕ → ℕ → SnapValue} (h : IsHistory memory) where
  -- how many stores a register has seen
  abbrev pub stores : ℕ → ℕ → ℕ
  stores zero i = 0
  stores (suc t) i = after_step (h.step t i) (stores t i)

  label-stores : (t i : ℕ) → (memory t i).label ≡ label_of (stores t i)
  label-stores zero i = ap (λ (r : SnapValue). r.label) (h.begin i)
  label-stores (suc t) i =
      step-label (memory t i) (memory (suc t) i) (stores t i) (h.step t i) (label-stores t i)

  stores_mono : (s t i : ℕ) → s ≤ t → stores s i ≤ stores t i
  stores_mono s zero i le = let e : s ≡ 0 = omega arith in rw e (omega arith)
  stores_mono s (suc t) i le = elim (dec_lt t s) [
    | yes last ↦ let e : s ≡ suc t = omega arith in rw e (omega arith)
    | no before ↦ omega (
      arith,
      stores_mono s t i (omega arith),
      step-le (memory t i) (memory (suc t) i) (stores t i) (h.step t i),
    )
  ]

  -- Between two moments with the same count the register did not change.
  memory-same : (s t i : ℕ) → s ≤ t → stores s i ≡ stores t i → memory s i ≡ memory t i
  memory-same s zero i le e = let f : s ≡ 0 = omega arith in rw f
  memory-same s (suc t) i le e = elim (dec_lt t s) [
    | yes last ↦ let f : s ≡ suc t = omega arith in rw f
    | no before ↦
        let up = stores_mono s t i (omega arith) in
        let more = step-le (memory t i) (memory (suc t) i) (stores t i) (h.step t i) in
        let whole : after_step (h.step t i) (stores t i) ≡ stores t i = omega arith in
        memory-same s t i (omega arith) (omega arith)
        ∙ sym (step-same (memory t i) (memory (suc t) i) (stores t i) (h.step t i) whole)
  ]

  -- Two reads of a register with one label, and the moments between them: one value.
  read_between :
      (s m t i : ℕ)
      → s ≤ m
      → m ≤ t
      → stores t i < stores s i + uint_max
      → (memory s i).label ≡ (memory t i).label
      → memory t i ≡ memory m i
  read_between s m t i le le' few e =
      let up = stores_mono s m i le in
      let up' = stores_mono m t i le' in
      let same =
        label_of-injective (stores s i) (stores t i) (omega arith) few
          (sym (label-stores s i) ∙ e ∙ label-stores t i) in
      sym (memory-same m t i le' (omega arith))

  -- A collect that reads register `i` at the time `at i`.
  abbrev pub collected : ℕ → ℕ → (ℕ → ℕ) → List SnapValue
  collected j n at = tabulate j n (λ i. memory (at i) i)

  pub clean-values :
      (j n m : ℕ) (before after : ℕ → ℕ)
      → ((i : ℕ) → (before i ≤ m) × (m ≤ after i))
      → ((i : ℕ) → stores (after i) i < stores (before i) i + uint_max)
      → first_moved j (collected j n before) (collected j n after) ≡ none
      → copy_values (collected j n after) ≡ tabulate j n (λ i. (memory m i).value)
  unfolding first_moved copy_values
  clean-values j zero m before after between few e = refl
  clean-values j (suc n) m before after between few e =
      elim (Bool-cases ((memory (before j) j).label == (memory (after j) j).label)) [
        | inl same ↦
            let now =
              read_between (before j) m (after j) j (between j).0 (between j).1 (few j)
                ((==_iff _ _).0 same) in
            let rest = clean-values (suc j) n m before after between few (ground arith) in
            ap₂ ◌∷◌ (ap (λ (r : SnapValue). r.value) now) rest
        | inr differ ↦ absurd (ground arith)
      ]
