-- ===== src/Snapshot/Labels.antt =====
-- Labels as time stamps: the label after `k` updates, and how long labels stay distinct.
use multiprocessor_programmi.Prelude.{
  ℕ, zero, suc, ◌+◌, ◌%◌, ◌≤◌, ◌<◌, ◌≡◌, refl, arith, ap, sym, ◌∙◌,
}
use multiprocessor_programmi.Snapshot.{uint_max, through_int, next_label}

-- the label of a register after `k` updates
abbrev pub label_of : ℕ → ℕ
label_of zero = 0
label_of (suc k) = next_label (label_of k)

next_label-through_int :
    (x : ℕ) → x < uint_max → next_label (through_int x) ≡ through_int ((x + 1) % uint_max)
unfolding next_label
next_label-through_int x h = ground arith

label_of-mod : (k : ℕ) → label_of k ≡ through_int (k % uint_max)
label_of-mod zero = refl
label_of-mod (suc k) =
    ap next_label (label_of-mod k)
    ∙ next_label-through_int (k % uint_max) (omega arith)
    ∙ ap through_int (next_mod k)
  where
    next_mod : (k : ℕ) → (k % uint_max + 1) % uint_max ≡ suc k % uint_max
    next_mod k = omega arith

through_int-injective :
    (x y : ℕ) → x < uint_max → y < uint_max → through_int x ≡ through_int y → x ≡ y
through_int-injective x y hx hy e = ground arith

-- Two labels of one register are equal only if the updates between them are a multiple of UINT_MAX:
-- over fewer updates than that, equal labels mean that there was none.
pub label_of-injective : (j k : ℕ) → j ≤ k → k < j + uint_max → label_of j ≡ label_of k → j ≡ k
label_of-injective j k le lt e =
    let f =
      through_int-injective (j % uint_max) (k % uint_max) (omega arith) (omega arith)
        (sym (label_of-mod j) ∙ e ∙ label_of-mod k) in
    omega (arith, f)
