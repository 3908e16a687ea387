-- ===== src/Leaf/Visible.antt =====
-- What a result of the search of ConditionalInsert says, while its sets hide some values.
use multiprocessor_programmi.Prelude.{
  ℕ, ◌+◌, ◌≤◌, ◌<◌, ◌≡◌, ◌≢◌, ◌⊎◌, inl, inr, refl, sym, ◌∙◌, Bool, true, false, List, [], ◌∷◌, ◌==◌,
  ltb, if◌then◌else◌, drop, arith, Bool-cases, any, All, All-map,
}
use multiprocessor_programmi.Bloom.{BloomFilter}
use multiprocessor_programmi.Leaf.{KeyValue}
use multiprocessor_programmi.Leaf.Navigate.{lower_bound, seen, note}
use multiprocessor_programmi.Leaf.Spec.{is_pair, IsSorted}
use multiprocessor_programmi.Leaf.Values.{has, IsFilter, seen-has, has-note}
use multiprocessor_programmi.Leaf.Predicate.{
  PredicateResult, satisfied, found, absent, scan_predicate,
}

-- the values of the rest of the chain that no set hides
abbrev pub visible : BloomFilter ℕ → BloomFilter ℕ → (ℕ → Bool) → ℕ → Bool
visible present deleted values w =
    if has w deleted then false else if has w present then false else values w

pub visible-skip :
    (present deleted : BloomFilter ℕ) (values values' : ℕ → Bool) (w : ℕ)
    → ((has w deleted ≡ true) ⊎ (has w present ≡ true))
    → ((u : ℕ) → (u == w) ≡ false → values u ≡ values' u)
    → (u : ℕ) → visible present deleted values u ≡ visible present deleted values' u
visible-skip present deleted values values' w hidden other u = elim (Bool-cases (u == w)) [
  | inl same ↦
      let e : u ≡ w = ground arith in
      elim hidden [ inl gone ↦ rw (e, gone) refl | inr met ↦ rw (e, met) (ground arith) ]
  | inr differ ↦ ground (arith, other u differ)
]

pub visible-delete :
    (value_hash : ℕ → ℕ) (present deleted : BloomFilter ℕ) (values values' : ℕ → Bool) (w : ℕ)
    → values w ≡ false
    → ((u : ℕ) → (u == w) ≡ false → values u ≡ values' u)
    → (u : ℕ)
    → visible present deleted values u ≡ visible present (note value_hash w deleted) values' u
visible-delete value_hash present deleted values values' w gone other u =
    elim (Bool-cases (u == w)) [
      | inl same ↦
          let e : u ≡ w = ground arith in
          let noted : has u (note value_hash w deleted) ≡ true =
            ground (arith, has-note value_hash u w deleted) in
          let none_left : values u ≡ false = rw e gone in rw (noted, none_left) (ground arith)
      | inr differ ↦
          let noted : has u (note value_hash w deleted) ≡ has u deleted =
            ground (arith, has-note value_hash u w deleted) in
          rw (noted, other u differ) refl
    ]

any_above : (k w : ℕ) (xs : List KeyValue) → All (λ y. k < y.0) xs → any (is_pair k w) xs ≡ false
any_above k w [] h = refl
any_above k w (x ∷ xs) h = ground (arith, any_above k w xs h.1)

pub any-lower_bound :
    (k w : ℕ) (xs : List KeyValue)
    → any (is_pair k w) (drop (lower_bound k xs) xs) ≡ any (is_pair k w) xs
unfolding lower_bound
any-lower_bound k w [] = refl
any-lower_bound k w (x ∷ xs) = elim (Bool-cases (ltb x.0 k)) [
  | inl below ↦ rw below (ground (arith, any-lower_bound k w xs))
  | inr reached ↦ rw reached refl
]

module _ (predicate : ℕ → Bool) (key value : ℕ) where
  -- What a result says of the values that there are.
  abbrev pub Answers : (ℕ → Bool) → PredicateResult → Type 0
  Answers values satisfied = (w : ℕ) × (values w ≡ true) × (predicate w ≡ true)
  Answers values (found x) = (x ≡ (key, value)) × (values value ≡ true) × (predicate value ≡ false)
  Answers values (absent p) = (w : ℕ) → values w ≡ true → (predicate w ≡ false) × (w ≢ value)

  Answers-step :
      (values values' : ℕ → Bool) (r : PredicateResult)
      → ((w : ℕ) → values' w ≡ true → values w ≡ true)
      → ((w : ℕ) → values w ≡ true → (values' w ≡ true) ⊎ ((predicate w ≡ false) × (w ≢ value)))
      → Answers values' r
      → Answers values r
  Answers-step values values' satisfied up down (w, there, holds_for) = (w, up w there, holds_for)
  Answers-step values values' (found x) up down (e, there, fails) = (e, up value there, fails)
  Answers-step values values' (absent p) up down h =
      λ w there. elim (down w there) [ inl still ↦ h w still | inr answer ↦ answer ]

  pub Answers-ext :
      (values values' : ℕ → Bool) (r : PredicateResult)
      → ((w : ℕ) → values w ≡ values' w)
      → Answers values' r
      → Answers values r
  Answers-ext values values' r same =
      Answers-step values values' r (λ w there. same w ∙ there)
        (λ w there. inl (sym (same w) ∙ there))

  -- The tests of an item that no set hides.
  pub Answers-unseen :
      (values values' : ℕ → Bool) (x : KeyValue) (r : PredicateResult)
      → (key == x.0) ≡ true
      → values x.1 ≡ true
      → ((w : ℕ) → (w == x.1) ≡ false → values w ≡ values' w)
      → Answers values' r
      → Answers values (if predicate x.1 then satisfied else if value == x.1 then found x else r)
  Answers-unseen values values' x r same here other h = elim (Bool-cases (predicate x.1)) [
    | inl holds_for ↦ rw holds_for (x.1, here, holds_for)
    | inr fails ↦ elim (Bool-cases (value == x.1)) [
      | inl this ↦
          let e : x.0 ≡ key = ground arith in
          let e' : x.1 ≡ value = ground arith in
          rw (fails, this) (cc, rw e' at here, rw e' at fails)
      | inr differ ↦
          rw (fails, differ)
            (Answers-step values values' r
              (λ w there. elim (Bool-cases (w == x.1)) [
                | inl it ↦ let e : w ≡ x.1 = ground arith in rw e here
                | inr not_it ↦ other w not_it ∙ there
              ])
              (λ w there. elim (Bool-cases (w == x.1)) [
                | inl it ↦ let e : w ≡ x.1 = ground arith in inr (rw e fails, ground arith)
                | inr not_it ↦ inl (sym (other w not_it) ∙ there)
              ])
              h)
    ]
  ]

  module _ (value_hash : ℕ → ℕ) where
    pub scan-Answers :
        (present deleted : BloomFilter ℕ) (i : ℕ) (xs : List KeyValue)
        → IsFilter value_hash present
        → IsFilter value_hash deleted
        → IsSorted xs
        → All (λ y. key ≤ y.0) xs
        → Answers
            (visible present deleted (λ w. any (is_pair key w) xs))
            (scan_predicate value_hash predicate key value present deleted i xs)
    unfolding scan_predicate
    scan-Answers present deleted i [] hp hd s above = λ w there. absurd (ground arith)
    scan-Answers present deleted i (x ∷ xs) hp hd s above = elim (Bool-cases (key == x.0)) [
      | inl same ↦
          let rest = scan-Answers present deleted (i + 1) xs hp hd s.1 above.1 in
          elim (Bool-cases (seen value_hash x.1 deleted)) [
            | inl gone ↦
                rw (same, gone)
                  (Answers-ext _ (visible present deleted (λ w. any (is_pair key w) xs)) _
                    (visible-skip present deleted _ _ x.1
                      (inl (sym (seen-has value_hash x.1 deleted hd) ∙ gone))
                      (λ u ne. ground arith))
                    rest)
            | inr not_gone ↦ elim (Bool-cases (seen value_hash x.1 present)) [
              | inl met ↦
                  rw (same, not_gone, met)
                    (Answers-ext _ (visible present deleted (λ w. any (is_pair key w) xs)) _
                      (visible-skip present deleted _ _ x.1
                        (inr (sym (seen-has value_hash x.1 present hp) ∙ met))
                        (λ u ne. ground arith))
                      rest)
              | inr not_met ↦
                  let here : visible present deleted (λ w. any (is_pair key w) (x ∷ xs)) x.1
                      ≡ true =
                    ground (
                      arith,
                      seen-has value_hash x.1 deleted hd,
                      seen-has value_hash x.1 present hp,
                    ) in
                  rw (same, not_gone, not_met)
                    (Answers-unseen _ (visible present deleted (λ w. any (is_pair key w) xs)) x _
                      same here (λ w ne. ground arith) rest)
            ]
          ]
      | inr differ ↦
          let lt : key < x.0 = ground arith in
          let far : All (λ y. key < y.0) xs = All-map (λ y p. omega (arith, p, lt)) xs s.0 in
          rw differ (λ w there. absurd (ground (arith, any_above key w (x ∷ xs) (lt, far))))
    ]
