-- ===== src/Iterator/Contexts/Counts.antt =====
-- The counts of the contexts, and how many iterators point to each.
use multiprocessor_programmi.Prelude.{
  ℕ, zero, suc, false, true, All, ◌+◌, ◌-◌, ◌<◌, ◌≡◌, ◌≢◌, refl, sym, ap, ◌∙◌, inl, inr, List, [],
  ◌∷◌, Option, none, some, ◌==◌, if◌then◌else◌, get_elem?, arith, Bool-cases,
}
use multiprocessor_programmi.Iterator.Contexts.{
  Contexts, Iterator, is_paired, put_count, inc_ref, dec_ref, get, release, set_at, remove_at,
}

unfoldable pub points : ℕ → Option ℕ → ℕ
points q none = 0
points q (some p) = if q == p then 1 else 0

unfoldable pub references : ℕ → List (Option ℕ) → ℕ
references q [] = 0
references q (x ∷ xs) = points q x + references q xs

-- how many of the iterators point to the context
unfoldable pub pointing_to : ℕ → List Iterator → ℕ
pointing_to q [] = 0
pointing_to q (x ∷ xs) = points q x.ic_p + pointing_to q xs

abbrev pub counted : ℕ → Option ℕ
counted zero = none
counted (suc n) = some (suc n)

-- Each context counts `f` references, and is free where there are none.
abbrev pub Counts : Contexts → (ℕ → ℕ) → Type 0
Counts contexts f = (q : ℕ) → contexts q ≡ counted (f q)

pub Counts-same :
    (contexts : Contexts) (f g : ℕ → ℕ)
    → Counts contexts f
    → ((q : ℕ) → f q ≡ g q)
    → Counts contexts g
Counts-same contexts f g h e q = h q ∙ ap counted (e q)

put_count_same : (contexts : Contexts) (p : ℕ) (v : Option ℕ) → put_count contexts p v p ≡ v
unfolding put_count
put_count_same contexts p v = ground arith

put_count_other :
    (contexts : Contexts) (p q : ℕ) (v : Option ℕ) → q ≢ p → put_count contexts p v q ≡ contexts q
unfolding put_count
put_count_other contexts p q v ne = ground (arith, ne)

put_count-Counts :
    (contexts : Contexts) (g : ℕ → ℕ) (p : ℕ) (v : Option ℕ)
    → ((q : ℕ) → q ≢ p → contexts q ≡ counted (g q))
    → v ≡ counted (g p)
    → Counts (put_count contexts p v) g
unfolding put_count
put_count-Counts contexts g p v others here q = elim (Bool-cases (q == p)) [
  | inl same ↦
      let e : q ≡ p = ground (arith, same) in rw same (here ∙ ap (λ n. counted (g n)) (sym e))
  | inr other ↦ rw other (others q (λ e. ground (arith, e, other)))
]

-- A count that is not 0.
positive :
    (contexts : Contexts) (f : ℕ → ℕ) (p : ℕ)
    → Counts contexts f
    → 0 < f p
    → (n : ℕ) × (f p ≡ suc n) × (contexts p ≡ some (suc n))
positive contexts f p h pos = go (f p) refl
  where
    go : (m : ℕ) → f p ≡ m → (n : ℕ) × (f p ≡ suc n) × (contexts p ≡ some (suc n))
    go zero e = absurd (omega (arith, pos, e))
    go (suc n) e = (n, e, h p ∙ ap counted e)

abbrev pub with_ref : (ℕ → ℕ) → Option ℕ → ℕ → ℕ
with_ref f ic q = f q + points q ic

points_same : (p : ℕ) → points p (some p) ≡ 1
unfolding points
points_same p = ground arith

points_other : (p q : ℕ) → q ≢ p → points q (some p) ≡ 0
unfolding points
points_other p q ne = ground (arith, ne)

others_same :
    (contexts : Contexts) (f : ℕ → ℕ) (p : ℕ)
    → Counts contexts f
    → (q : ℕ) → q ≢ p
    → contexts q ≡ counted (with_ref f (some p) q)
others_same contexts f p h q ne =
    let same : f q ≡ with_ref f (some p) q = omega (arith, points_other p q ne) in
    h q ∙ ap counted same

inc_ref_count :
    (contexts : Contexts) (p n : ℕ)
    → contexts p ≡ some n
    → inc_ref p contexts ≡ some (put_count contexts p (some (suc n)))
unfolding inc_ref
inc_ref_count contexts p n e = rw (inc_ref, e) refl

dec_ref_count :
    (contexts : Contexts) (p n : ℕ)
    → contexts p ≡ some (suc n)
    → dec_ref p contexts ≡ some (put_count contexts p (counted n))
unfolding dec_ref
dec_ref_count contexts p zero e = rw (dec_ref, e) refl
dec_ref_count contexts p (suc n) e =
    let some_left : (suc (suc n) == 0) ≡ false = ground arith in
    let fewer : suc (suc n) - 1 ≡ suc n = omega arith in
    let still : (suc n == 0) ≡ false = ground arith in rw (dec_ref, e, some_left, fewer, still) refl

get_count :
    (contexts : Contexts) (p : ℕ)
    → contexts p ≡ none
    → get p contexts ≡ some (put_count (put_count contexts p (some 0)) p (some 1))
unfolding get
get_count contexts p e =
    let fresh = put_count_same contexts p (some 0) in
    rw (get, e) (inc_ref_count (put_count contexts p (some 0)) p 0 fresh)

pub inc_ref-Counts :
    (contexts : Contexts) (f : ℕ → ℕ) (p : ℕ)
    → Counts contexts f
    → 0 < f p
    → (after : Contexts) × (inc_ref p contexts ≡ some after) × Counts after (with_ref f (some p))
inc_ref-Counts contexts f p h pos =
    let (n, count, at) = positive contexts f p h pos in
    let more : suc (suc n) ≡ with_ref f (some p) p = omega (arith, count, points_same p) in
    (
      put_count contexts p (some (suc (suc n))),
      inc_ref_count contexts p (suc n) at,
      put_count-Counts contexts (with_ref f (some p)) p (some (suc (suc n)))
          (others_same contexts f p h) (ap counted more),
    )

pub dec_ref-Counts :
    (contexts : Contexts) (g : ℕ → ℕ) (p : ℕ)
    → Counts contexts (with_ref g (some p))
    → (after : Contexts) × (dec_ref p contexts ≡ some after) × Counts after g
dec_ref-Counts contexts g p h =
    let (n, count, at) =
      positive contexts (with_ref g (some p)) p h (omega (arith, points_same p)) in
    let fewer : n ≡ g p = omega (arith, count, points_same p) in
    (
      put_count contexts p (counted n),
      dec_ref_count contexts p n at,
      put_count-Counts contexts g p (counted n)
          (λ q ne.
            let same : with_ref g (some p) q ≡ g q = omega (arith, points_other p q ne) in
            h q ∙ ap counted same)
          (ap counted fewer),
    )

pub get-Counts :
    (contexts : Contexts) (f : ℕ → ℕ) (p : ℕ)
    → Counts contexts f
    → f p ≡ 0
    → (after : Contexts) × (get p contexts ≡ some after) × Counts after (with_ref f (some p))
get-Counts contexts f p h e =
    let one : 1 ≡ with_ref f (some p) p = omega (arith, e, points_same p) in
    (
      put_count (put_count contexts p (some 0)) p (some 1),
      get_count contexts p (h p ∙ ap counted e),
      put_count-Counts (put_count contexts p (some 0)) (with_ref f (some p)) p (some 1)
          (λ q ne. put_count_other contexts p q (some 0) ne ∙ others_same contexts f p h q ne)
          (ap counted one),
    )

pub release-Counts :
    (contexts : Contexts) (g : ℕ → ℕ) (ic : Option ℕ)
    → Counts contexts (with_ref g ic)
    → (after : Contexts) × (release ic contexts ≡ some after) × Counts after g
unfolding release points
release-Counts contexts g none h = (contexts, refl, Counts-same contexts _ g h (λ q. omega arith))
release-Counts contexts g (some p) h = dec_ref-Counts contexts g p h

-- An iterator is put in place of another, or is gone.
pub pointing_to-set_at :
    (q : ℕ) (xs : List Iterator) (i : ℕ) (old it : Iterator)
    → get_elem? xs i ≡ some old
    → pointing_to q (set_at xs i it) + points q old.ic_p ≡ pointing_to q xs + points q it.ic_p
unfolding pointing_to set_at
pointing_to-set_at q [] i old it e = absurd (ground arith)
pointing_to-set_at q (x ∷ xs) zero old it e =
    let same : x ≡ old = ground arith in rw same (omega arith)
pointing_to-set_at q (x ∷ xs) (suc i) old it e = omega (arith, pointing_to-set_at q xs i old it e)

pub pointing_to-remove_at :
    (q : ℕ) (xs : List Iterator) (i : ℕ) (old : Iterator)
    → get_elem? xs i ≡ some old
    → pointing_to q (remove_at xs i) + points q old.ic_p ≡ pointing_to q xs
unfolding pointing_to remove_at
pointing_to-remove_at q [] i old e = absurd (ground arith)
pointing_to-remove_at q (x ∷ xs) zero old e =
    let same : x ≡ old = ground arith in rw same (omega arith)
pointing_to-remove_at q (x ∷ xs) (suc i) old e = omega (arith, pointing_to-remove_at q xs i old e)

pub get-pointing_to :
    (p : ℕ) (xs : List Iterator) (i : ℕ) (it : Iterator)
    → get_elem? xs i ≡ some it
    → it.ic_p ≡ some p
    → 0 < pointing_to p xs
unfolding pointing_to
get-pointing_to p [] i it e real = absurd (ground arith)
get-pointing_to p (x ∷ xs) zero it e real =
    let same : x ≡ it = ground arith in rw (same, real) (omega (arith, points_same p))
get-pointing_to p (x ∷ xs) (suc i) it e real = omega (arith, get-pointing_to p xs i it e real)

pub get-set_at :
    (xs : List Iterator) (i j : ℕ) (it : Iterator)
    → i ≢ j
    → get_elem? (set_at xs i it) j ≡ get_elem? xs j
unfolding set_at
get-set_at [] i j it ne = refl
get-set_at (x ∷ xs) zero zero it ne = absurd (ne refl)
get-set_at (x ∷ xs) zero (suc j) it ne = refl
get-set_at (x ∷ xs) (suc i) zero it ne = refl
get-set_at (x ∷ xs) (suc i) (suc j) it ne = get-set_at xs i j it (λ e. ne (ap suc e))

-- The assertions hold of each iterator.
abbrev pub ArePaired : List Iterator → Type 0
ArePaired = All (λ it. is_paired it ≡ true)

pub get-ArePaired :
    (xs : List Iterator) (i : ℕ) (it : Iterator)
    → ArePaired xs
    → get_elem? xs i ≡ some it
    → is_paired it ≡ true
get-ArePaired [] i it h e = absurd (ground arith)
get-ArePaired (x ∷ xs) zero it h e =
    let same : x ≡ it = ground arith in ap is_paired (sym same) ∙ h.0
get-ArePaired (x ∷ xs) (suc i) it h e = get-ArePaired xs i it h.1 e

pub set_at-ArePaired :
    (xs : List Iterator) (i : ℕ) (it : Iterator)
    → ArePaired xs
    → is_paired it ≡ true
    → ArePaired (set_at xs i it)
unfolding set_at
set_at-ArePaired [] i it h e = tt
set_at-ArePaired (x ∷ xs) zero it h e = (e, h.1)
set_at-ArePaired (x ∷ xs) (suc i) it h e = (h.0, set_at-ArePaired xs i it h.1 e)

pub remove_at-ArePaired : (xs : List Iterator) (i : ℕ) → ArePaired xs → ArePaired (remove_at xs i)
unfolding remove_at
remove_at-ArePaired [] i h = tt
remove_at-ArePaired (x ∷ xs) zero h = h.1
remove_at-ArePaired (x ∷ xs) (suc i) h = (h.0, remove_at-ArePaired xs i h.1)
