-- ===== src/Leaf/SplitPoint.antt =====
-- Where a leaf node is split, and what the two halves hold.
use multiprocessor_programmi.Prelude.{
  ℕ, zero, suc, ◌+◌, ◌-◌, ◌/◌, ◌≤◌, ◌<◌, ◌≡◌, ◌≢◌, ◌⊎◌, refl, inl, inr, List, some, ◌==◌, ltb, true,
  length, arith, Bool-cases, dec_lt, ap, sym, ◌∙◌,
}
use multiprocessor_programmi.Leaf.{KeyValue}
use multiprocessor_programmi.Leaf.Split.{key_at, scan_left, scan_right, find_split_point}

-- What the scan to the left leaves: it stands at the begin or at another key, with the key behind it.
record StopsLeft (items : List KeyValue) (central from at : ℕ) : Type 0 where
  bound : at ≤ from
  stop : (at ≡ 0) ⊎ (key_at items at ≢ central)
  behind : (at < from) → key_at items (at + 1) ≡ central

scan_left-StopsLeft :
    (items : List KeyValue) (central it : ℕ)
    → StopsLeft items central it (scan_left items central it)
unfolding scan_left
scan_left-StopsLeft items central zero = record {
  bound = omega arith;
  stop = inl refl;
  behind = λ h. absurd (omega arith);
}
scan_left-StopsLeft items central (suc it) = elim (Bool-cases (key_at items (suc it) == central)) [
  | inl same ↦ rw same (step (scan_left-StopsLeft items central it) (ground arith))
  | inr other ↦ rw other (record {
    bound = omega arith;
    stop = inr (λ e. ground arith);
    behind = λ h. absurd (omega arith);
  })
]
  where
    step :
        {at : ℕ}
        → StopsLeft items central it at
        → key_at items (suc it) ≡ central
        → StopsLeft items central (suc it) at
    step {at} s e = record {
      bound = omega (arith, s.bound);
      stop = s.stop;
      behind = λ h. elim (dec_lt at it) [
        | yes inside ↦ s.behind inside
        | no last ↦ let f : at + 1 ≡ suc it = omega (arith, s.bound) in rw f e
      ];
    }

record StopsRight (items : List KeyValue) (central from left at : ℕ) : Type 0 where
  lower : from ≤ at
  upper : at ≤ from + left
  stop : at < from + left → key_at items at ≢ central
  behind : from < at → key_at items (at - 1) ≡ central

scan_right-StopsRight :
    (items : List KeyValue) (central left it : ℕ)
    → StopsRight items central it left (scan_right items central left it)
unfolding scan_right
scan_right-StopsRight items central zero it = record {
  lower = omega arith;
  upper = omega arith;
  stop = λ h. absurd (omega arith);
  behind = λ h. absurd (omega arith);
}
scan_right-StopsRight items central (suc left) it = elim (Bool-cases (key_at items it == central)) [
  | inl same ↦ rw same (step (scan_right-StopsRight items central left (it + 1)) (ground arith))
  | inr other ↦ rw other (record {
    lower = omega arith;
    upper = omega arith;
    stop = λ h e. ground arith;
    behind = λ h. absurd (omega arith);
  })
]
  where
    step :
        {at : ℕ}
        → StopsRight items central (it + 1) left at
        → key_at items it ≡ central
        → StopsRight items central it (suc left) at
    step {at} s e = record {
      lower = omega (arith, s.lower);
      upper = omega (arith, s.upper);
      stop = λ h. s.stop (omega arith);
      behind = λ h. elim (dec_lt (it + 1) at) [
        | yes inside ↦ s.behind inside
        | no first ↦ let f : at - 1 ≡ it = omega (arith, s.lower) in rw f e
      ];
    }

-- A split point divides two different keys, leaves neither half empty, and leaves in each half more
-- than `lower` items or half of the items.
pub record Divides (lower : ℕ) (items : List KeyValue) (at : ℕ) : Type 0 where
  pub inside : at < length items
  pub keys : key_at items (at - 1) ≢ key_at items at
  pub left_size : (lower < at) ⊎ (length items / 2 < at)
  pub right_size : (lower < length items - at) ⊎ (length items / 2 ≤ length items - at)

-- If the lower threshold is at least 1 and the node holds two items or more, every split point that
-- `FindSplitPoint` returns is one: no key stands on both sides.
pub find_split_point-Divides :
    (lower at : ℕ) (items : List KeyValue)
    → 1 ≤ lower
    → 2 ≤ length items
    → find_split_point lower items ≡ some at
    → Divides lower items at
unfolding find_split_point
find_split_point-Divides lower at items p q e = elim (Bool-cases (ltb lower (l + 1))) [
  | inl left ↦
      let here : at ≡ l + 1 = ground arith in
      rw here (record {
        inside = omega (arith, on_left.bound);
        keys = λ f. elim on_left.stop [
          | inl begin ↦ absurd (ground arith)
          | inr other ↦ other (rw (plus_one l) at f ∙ at_central left)
        ];
        left_size = inl (ground arith);
        right_size = inr (omega (arith, on_left.bound));
      })
  | inr right ↦
      let here : (at ≡ r) × (lower < length items - r) = ground arith in
      rw (here.0) (record {
        inside = omega (arith, here.1);
        keys = λ f. on_right.stop (omega (arith, here.1, on_right.lower)) (sym f ∙ before_right);
        left_size = inr (omega (arith, on_right.lower));
        right_size = inl here.1;
      })
]
  where
    central : ℕ
    central = length items / 2

    l : ℕ
    l = scan_left items (key_at items central) (central - 1)

    r : ℕ
    r = scan_right items (key_at items central) (length items - (central + 1)) (central + 1)

    on_left : StopsLeft items (key_at items central) (central - 1) l
    on_left = scan_left-StopsLeft items (key_at items central) (central - 1)

    on_right :
        StopsRight items (key_at items central) (central + 1) (length items - (central + 1)) r
    on_right =
        scan_right-StopsRight items (key_at items central) (length items - (central + 1))
          (central + 1)

    plus_one : (n : ℕ) → n + 1 - 1 ≡ n
    plus_one n = omega arith

    at_central : ltb lower (l + 1) ≡ true → key_at items (l + 1) ≡ key_at items central
    at_central t = elim (dec_lt l (central - 1)) [
      | yes inner ↦ on_left.behind inner
      | no last ↦
          let far : lower < l + 1 = ground arith in
          let f : l + 1 ≡ central = omega (arith, on_left.bound) in ap (key_at items) f
    ]

    before_right : key_at items (r - 1) ≡ key_at items central
    before_right = elim (dec_lt (central + 1) r) [
      | yes inner ↦ on_right.behind inner
      | no first ↦ let f : r - 1 ≡ central = omega (arith, on_right.lower) in ap (key_at items) f
    ]
