-- ===== src/Consolidate/Merge.antt =====
-- The loops over the sorted set and the base node produce what the merge item by item does.
use multiprocessor_programmi.Prelude.{
  ℕ, zero, suc, ◌+◌, ◌-◌, ◌≤◌, ◌≡◌, refl, sym, ap, ◌∙◌, inl, inr, Bool, true, false, List, [], ◌∷◌,
  ◌++◌, some, ◌==◌, leb, take, drop, length, length-drop, length-take, arith, Bool-cases,
}
use mathlib.Core.List.{append_assoc}
use multiprocessor_programmi.Leaf.{KeyValue}
use multiprocessor_programmi.Consolidate.{Delta, slice, emit, next_start, copy_group, copy_merged}
use multiprocessor_programmi.Consolidate.Weave.Laws.{placed_behind}
use multiprocessor_programmi.Consolidate.Weave.{
  put, weave, IsMergeable, IsPlaced-le, IsPlaced-end, step_copied, step_replaced, step_before,
}

take-nil : (n : ℕ) → ◌≡◌ {A = List KeyValue} (take n []) []
take-nil zero = refl
take-nil (suc n) = refl

take-take : (n e : ℕ) (xs : List KeyValue) → n ≤ e → take n xs ≡ take n (take e xs)
take-take zero e xs le = refl
take-take (suc n) zero xs le = elim le [ ]
take-take (suc n) (suc e) [] le = refl
take-take (suc n) (suc e) (x ∷ xs) le = ap (◌∷◌ x) (take-take n e xs (omega arith))

slice-drop : (s e : ℕ) (xs : List KeyValue) → take (e - s) (drop s xs) ≡ drop s (take e xs)
slice-drop zero e xs = let same : e - 0 ≡ e = omega arith in rw same
slice-drop (suc s) zero xs = let gone : 0 - suc s ≡ 0 = omega arith in rw gone
slice-drop (suc s) (suc e) [] = take-nil (suc e - suc s)
slice-drop (suc s) (suc e) (x ∷ xs) =
    let same : suc e - suc s ≡ e - s = omega arith in rw same (slice-drop s e xs)

take-drop-take :
    (n s e : ℕ) (xs : List KeyValue) → s + n ≤ e → take n (drop s xs) ≡ take n (drop s (take e xs))
take-drop-take n zero e xs le = take-take n e xs (omega arith)
take-drop-take n (suc s) zero xs le = absurd (omega arith)
take-drop-take n (suc s) (suc e) [] le = refl
take-drop-take n (suc s) (suc e) (x ∷ xs) le = take-drop-take n s e xs (omega arith)

drop-nil : (n : ℕ) → ◌≡◌ {A = List KeyValue} (drop n []) []
drop-nil zero = refl
drop-nil (suc n) = refl

drop-drop : (n s : ℕ) (xs : List KeyValue) → drop (s + n) xs ≡ drop n (drop s xs)
drop-drop n zero xs = let same : 0 + n ≡ n = omega arith in rw same
drop-drop n (suc s) [] = drop-nil (suc s + n) ∙ sym (drop-nil n)
drop-drop n (suc s) (x ∷ xs) =
    let same : suc s + n ≡ suc (s + n) = omega arith in rw same (drop-drop n s xs)

drop_next :
    (s : ℕ) (xs : List KeyValue) {y : KeyValue} {ys : List KeyValue}
    → drop s xs ≡ y ∷ ys
    → drop (suc s) xs ≡ ys
drop_next zero [] e = absurd (ground arith)
drop_next zero (x ∷ xs) e = ground arith
drop_next (suc s) [] e = absurd (ground arith)
drop_next (suc s) (x ∷ xs) e = drop_next s xs e

lt_leb : (a b : ℕ) → a ≤ b → leb a b ≡ true
lt_leb a b h = ground arith

emit-append : (x : Delta) (out tail : List KeyValue) → emit x out ++ tail ≡ out ++ put x tail
emit-append x out tail = elim (Bool-cases x.is_insert) [
  | inl inserts ↦ rw inserts (append_assoc out (x.item ∷ []) tail)
  | inr deletes ↦ rw deletes refl
]

-- Up to the first data node's place the items are copied.
weave_skip :
    (n s t : ℕ) (rest : List KeyValue) (x : Delta) (xs : List Delta)
    → IsMergeable s rest (x ∷ xs)
    → x.index_pair.0 ≡ t
    → t ≡ s + n
    → (weave s rest (x ∷ xs) ≡ take n rest ++ weave t (drop n rest) (x ∷ xs))
      × IsMergeable t (drop n rest) (x ∷ xs)
      × (n ≤ length rest)
unfolding weave
weave_skip zero s t rest x xs m at e = let e' : t ≡ s = omega arith in rw e' (refl, m, omega arith)
weave_skip (suc n) s t [] x xs m at e = absurd (omega (arith, (IsPlaced-end s x m.placed.0).0))
weave_skip (suc n) s t (y ∷ rest) x xs m at e =
    let later : (x.index_pair.0 == s) ≡ false = ground arith in
    let lt = placed_behind s (y ∷ rest) x m.placed.0 later in
    let (same, m', le) =
      weave_skip n (suc s) t rest x xs (step_copied s y rest x xs lt m) at (omega arith) in
    (rw later (ap (◌∷◌ y) same), m', omega (arith, le))

module _ (items : List KeyValue) (end : ℕ) where
  abbrev Claim : List Delta → Type 0
  Claim xs =
      (current : ℕ) (overwritten : Bool) (out rest : List KeyValue)
      → drop (next_start current overwritten) (take end items) ≡ rest
      → next_start current overwritten ≤ end
      → IsMergeable (next_start current overwritten) rest xs
      → copy_group items end current overwritten out xs
        ≡ some (out ++ weave (next_start current overwritten) rest xs)

  -- A data node that stands at the head of the rest.
  at_head :
      (x : Delta) (xs : List Delta)
      → Claim xs
      → (s : ℕ) (out rest : List KeyValue) → drop s (take end items) ≡ rest
      → s ≤ end
      → IsMergeable s rest (x ∷ xs)
      → x.index_pair.0 ≡ s
      → copy_group items end s x.index_pair.1 (emit x out) xs ≡ some (out ++ weave s rest (x ∷ xs))
  unfolding weave
  at_head x xs claim s out [] e le m at =
      let new = (IsPlaced-end s x m.placed.0).1 in
      rw new (
        claim s false (emit x out) [] e le (step_before s [] x xs m)
        ∙ ap some (emit-append x out (weave s [] xs)))
  at_head x xs claim s out (y ∷ rest) e le m at =
      let here : (x.index_pair.0 == s) ≡ true = ground arith in
      elim (Bool-cases x.index_pair.1) [
        | inl replaces ↦
            let size = ap (λ (l : List KeyValue). length l) e in
            rw (replaces, here)
              (claim s true (emit x out) rest (drop_next s (take end items) e)
                  (omega (arith, length-drop s (take end items), length-take end items, size))
                  (step_replaced s y rest x xs at replaces m)
                ∙ ap some (emit-append x out (weave (suc s) rest xs)))
        | inr new ↦
            rw (new, here)
              (claim s false (emit x out) (y ∷ rest) e le (step_before s (y ∷ rest) x xs m)
                ∙ ap some (emit-append x out (weave s (y ∷ rest) xs)))
      ]

  -- The start of the next group: the items up to it are copied.
  at_next :
      (x : Delta) (xs : List Delta)
      → Claim xs
      → (s : ℕ) (out rest : List KeyValue) → drop s (take end items) ≡ rest
      → s ≤ end
      → IsMergeable s rest (x ∷ xs)
      → (s ≤ x.index_pair.0)
        × (x.index_pair.0 ≤ end)
        × (copy_group items end x.index_pair.0 x.index_pair.1
              (emit x (out ++ slice items s x.index_pair.0))
              xs
            ≡ some (out ++ weave s rest (x ∷ xs)))
  at_next x xs claim s out rest e le m =
      let low = IsPlaced-le s rest x m.placed.0 in
      let n = x.index_pair.0 - s in
      let (same, m', short) = weave_skip n s x.index_pair.0 rest x xs m refl (omega (arith, low)) in
      let size = ap (λ (l : List KeyValue). length l) e in
      let high : x.index_pair.0 ≤ end =
        omega (arith, length-drop s (take end items), length-take end items, size, short, low) in
      let there =
        ap (λ (i : ℕ). drop i (take end items)) (index_is low)
        ∙ drop-drop n s (take end items)
        ∙ ap (drop n) e in
      let copied = take-drop-take n s end items (omega (arith, low, high)) ∙ ap (take n) e in
      let head =
        at_head x xs claim x.index_pair.0 (out ++ slice items s x.index_pair.0) (drop n rest) there
          high m' refl in
      (
        low,
        high,
        head
            ∙ ap some (
                append_assoc out (slice items s x.index_pair.0)
                  (weave x.index_pair.0 (drop n rest) (x ∷ xs))
                ∙ ap
                    (λ (l : List KeyValue).
                      out ++ (l ++ weave x.index_pair.0 (drop n rest) (x ∷ xs)))
                    copied
                ∙ ap (out ++◌) (sym same)),
      )
    where
      index_is : s ≤ x.index_pair.0 → x.index_pair.0 ≡ s + (x.index_pair.0 - s)
      index_is low = omega (arith, low)

  copy_group-weave : (xs : List Delta) → Claim xs
  unfolding copy_group weave
  copy_group-weave [] current overwritten out rest e le m =
      let whole = slice-drop (next_start current overwritten) end items ∙ e in
      rw (lt_leb (next_start current overwritten) end le, whole) refl
  copy_group-weave (x ∷ xs) current true out rest e le m =
      let (low, high, next) = at_next x xs (copy_group-weave xs) (suc current) out rest e le m in
      let later : (x.index_pair.0 == current) ≡ false = ground arith in
      rw (later, lt_leb (suc current) x.index_pair.0 low, lt_leb x.index_pair.0 end high) next
  copy_group-weave (x ∷ xs) current false out rest e le m =
      elim (Bool-cases (x.index_pair.0 == current)) [
        | inl here ↦
            rw here (at_head x xs (copy_group-weave xs) current out rest e le m (ground arith))
        | inr later ↦
            let (low, high, next) = at_next x xs (copy_group-weave xs) current out rest e le m in
            rw (later, lt_leb current x.index_pair.0 low, lt_leb x.index_pair.0 end high) next
      ]

-- The loops of the base node's case copy what the merge of its items below the end gives.
pub copy_merged-weave :
    (items : List KeyValue) (end : ℕ) (out : List KeyValue) (xs : List Delta)
    → IsMergeable 0 (take end items) xs
    → copy_merged items end out xs ≡ some (out ++ weave 0 (take end items) xs)
unfolding copy_merged weave
copy_merged-weave items end out [] m =
    ap (λ (l : List KeyValue). some (out ++ l)) (slice-drop 0 end items)
copy_merged-weave items end out (x ∷ xs) m =
    let (low, high, next) =
      at_next items end x xs (copy_group-weave items end xs) 0 out (take end items) refl
        (omega arith) m in
    rw (lt_leb x.index_pair.0 end high) next
