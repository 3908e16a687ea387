-- ===== src/Inner/Floor.antt =====
-- The greatest separator at or below a key, for any map from separator keys to node ids.
use multiprocessor_programmi.Prelude.{
  ℕ, ◌≤◌, ◌<◌, ◌≡◌, ◌⊎◌, inl, inr, ◌∙◌, sym, ap, Option, none, some, arith, dec_lt,
}

-- `id` is what the greatest separator up to `k` leads to, or the low id if there is none.
abbrev pub IsFloor : (ℕ → Option ℕ) → ℕ → ℕ → ℕ → Type 0
IsFloor seps low k id =
    ((s : ℕ) × (s ≤ k) × (seps s ≡ some id) × ((t : ℕ) → s < t → t ≤ k → seps t ≡ none))
    ⊎ (((t : ℕ) → t ≤ k → seps t ≡ none) × (id ≡ low))

module _ (seps seps' : ℕ → Option ℕ) (low k id : ℕ) where
  -- Separators above the key do not matter.
  pub IsFloor-same :
      ((t : ℕ) → t ≤ k → seps' t ≡ seps t) → IsFloor seps low k id → IsFloor seps' low k id
  IsFloor-same same (inl (s, le, here, none_between)) =
      inl (s, le, same s le ∙ here, λ t lt le'. same t le' ∙ none_between t lt le')
  IsFloor-same same (inr (nothing, e)) = inr (λ t le. same t le ∙ nothing t le, e)

  -- Separators below one that is not above the key do not matter.
  pub IsFloor-above :
      (low' n j : ℕ)
      → n ≤ k
      → seps n ≡ some j
      → ((t : ℕ) → n ≤ t → seps' t ≡ seps t)
      → IsFloor seps low k id
      → IsFloor seps' low' k id
  IsFloor-above low' n j le there same (inl (s, le', here, none_between)) = elim (dec_lt s n) [
    | yes below ↦ absurd (ground (arith, none_between n below le))
    | no not_below ↦ inl (
      s,
      le',
      same s (omega arith) ∙ here,
      λ t lt le''. same t (omega arith) ∙ none_between t lt le'',
    )
  ]
  IsFloor-above low' n j le there same (inr (nothing, e)) = absurd (ground (arith, nothing n le))

  -- A further separator below all others takes the part of the low id.
  pub IsFloor-first :
      (low' n : ℕ)
      → n ≤ k
      → seps' n ≡ some low
      → ((t : ℕ) → n < t → seps' t ≡ seps t)
      → ((t : ℕ) → t ≤ n → seps t ≡ none)
      → IsFloor seps low k id
      → IsFloor seps' low' k id
  IsFloor-first low' n le there same above (inl (s, le', here, none_between)) = elim (dec_lt n s) [
    | yes lt ↦
        inl (s, le', same s lt ∙ here, λ t lt' le''. same t (omega arith) ∙ none_between t lt' le'')
    | no not_lt ↦ absurd (ground (arith, above s (omega arith)))
  ]
  IsFloor-first low' n le there same above (inr (nothing, e)) =
      inl (n, le, rw e there, λ t lt le'. same t lt ∙ nothing t le')

-- A key has one floor.
pub one_floor :
    (seps : ℕ → Option ℕ) (low k id id' : ℕ)
    → IsFloor seps low k id
    → IsFloor seps low k id'
    → id ≡ id'
one_floor seps low k id id' (inl (s, le, here, gap)) (inl (s', le', here', gap')) =
    elim (dec_lt s s') [
      | yes lt ↦ absurd (ground (arith, here', gap s' lt le'))
      | no nlt ↦ elim (dec_lt s' s) [
        | yes gt ↦ absurd (ground (arith, here, gap' s gt le))
        | no ngt ↦
            let e : s ≡ s' = omega arith in
            let both : some id ≡ some id' = sym here ∙ ap seps e ∙ here' in ground arith
      ]
    ]
one_floor seps low k id id' (inl (s, le, here, gap)) (inr (nothing, e')) =
    absurd (ground (arith, here, nothing s le))
one_floor seps low k id id' (inr (nothing, e)) (inl (s', le', here', gap')) =
    absurd (ground (arith, here', nothing s' le'))
one_floor seps low k id id' (inr (nothing, e)) (inr (nothing', e')) = e ∙ sym e'
