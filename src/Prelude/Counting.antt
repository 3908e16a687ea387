-- ===== src/Prelude/Counting.antt =====
-- Predicates over lists: `All`, the number of elements that pass a test, and the sublist of those.
use Prim.Native.Nat.{ℕ, suc, ◌+◌}
use mathlib.Core.Path.{◌≡◌, refl, sym, ap, ◌∙◌, subst}
use mathlib.Core.Bool.{Bool, true, false}
use mathlib.Core.Option.{Option, none, some}
use mathlib.Core.List.{List, [], ◌∷◌, ◌++◌}
use native.Mathlib.Omega.{arith}
use mathlib.Core.Logic.{inl, inr}
use multiprocessor_programmi.Prelude.Tests.{if◌then◌else◌, Bool-cases}
use multiprocessor_programmi.Prelude.Lists.{length}

abbrev pub All {ℓ κ} : {A : Type ℓ} → (A → Type κ) → List A → Type κ
All P [] = Unit
All P (x ∷ xs) = P x × All P xs

pub All-snoc {ℓ κ} :
    {A : Type ℓ} (P : A → Type κ) {last : A} (xs : List A)
    → P last
    → All P xs
    → All P (xs ++ last ∷ [])
All-snoc P [] this h = (this, tt)
All-snoc P (x ∷ xs) this h = (h.0, All-snoc P xs this h.1)

pub All-map {ℓ κ μ} :
    {A : Type ℓ} {P : A → Type κ} {Q : A → Type μ} (f : (x : A) → P x → Q x) (xs : List A)
    → All P xs
    → All Q xs
All-map f [] h = tt
All-map f (x ∷ xs) h = (f x h.0, All-map f xs h.1)

module _ {ℓ} {A : Type ℓ} where
  abbrev pub count : (A → Bool) → List A → ℕ
  count p [] = 0
  count p (x ∷ xs) = (if p x then 1 else 0) + count p xs

  abbrev pub any : (A → Bool) → List A → Bool
  any p [] = false
  any p (x ∷ xs) = if p x then true else any p xs

  abbrev pub filter : (A → Bool) → List A → List A
  filter p [] = []
  filter p (x ∷ xs) = if p x then x ∷ filter p xs else filter p xs

  pub count-append : (p : A → Bool) (xs ys : List A) → count p (xs ++ ys) ≡ count p xs + count p ys
  count-append p [] ys = omega arith
  count-append p (x ∷ xs) ys = omega (arith, count-append p xs ys)

  pub any-append :
      (p : A → Bool) (xs ys : List A) → any p (xs ++ ys) ≡ (if any p xs then true else any p ys)
  any-append p [] ys = refl
  any-append p (x ∷ xs) ys = ground (arith, any-append p xs ys)

-- What holds of all elements, or of those that pass the test, holds of the sublist.
pub All-filter {ℓ κ} :
    {A : Type ℓ} (P : A → Type κ) (p : A → Bool) (xs : List A) → All P xs → All P (filter p xs)
All-filter P p [] h = tt
All-filter P p (x ∷ xs) h = ground (arith, All-filter P p xs h.1)

pub All-filter_at {ℓ κ} :
    {A : Type ℓ} (P : A → Type κ) (p : A → Bool) (xs : List A)
    → All (λ x. p x ≡ true → P x) xs
    → All P (filter p xs)
All-filter_at P p [] h = tt
All-filter_at P p (x ∷ xs) h = elim (Bool-cases (p x)) [
  | inl passes ↦ rw passes (h.0 passes, All-filter_at P p xs h.1)
  | inr fails ↦ rw fails (All-filter_at P p xs h.1)
]

pub All-append {ℓ κ} :
    {A : Type ℓ} (P : A → Type κ) (xs ys : List A) → All P xs → All P ys → All P (xs ++ ys)
All-append P [] ys h k = k
All-append P (x ∷ xs) ys h k = (h.0, All-append P xs ys h.1 k)

-- The sublist of a sublist that has all of it.
pub filter-filter {ℓ} :
    {A : Type ℓ} (p q : A → Bool) (xs : List A)
    → ((x : A) → p x ≡ true → q x ≡ true)
    → filter p (filter q xs) ≡ filter p xs
filter-filter p q [] h = refl
filter-filter p q (x ∷ xs) h = elim (Bool-cases (p x)) [
  | inl inside ↦ rw (h x inside, inside) (ap (◌∷◌ x) (filter-filter p q xs h))
  | inr outside ↦ elim (Bool-cases (q x)) [
    | inl kept ↦ rw (kept, outside) (filter-filter p q xs h)
    | inr gone ↦ rw (gone, outside) (filter-filter p q xs h)
  ]
]

-- One element in the place of another.
pub All-replaced {ℓ κ} :
    {A : Type ℓ} (P : A → Type κ) (xs before after : List A) (x x' : A)
    → xs ≡ before ++ x ∷ after
    → All P xs
    → P x'
    → All P (before ++ x' ∷ after)
All-replaced {A} P xs before after x x' at h new = go before (subst (All P) at h)
  where
    go : (us : List A) → All P (us ++ x ∷ after) → All P (us ++ x' ∷ after)
    go [] k = (new, k.1)
    go (u ∷ us) k = (k.0, go us k.1)

pub length-replaced {ℓ} :
    {A : Type ℓ} (xs before after : List A) (x x' : A)
    → xs ≡ before ++ x ∷ after
    → length (before ++ x' ∷ after) ≡ length xs
length-replaced {A} xs before after x x' at = go before ∙ ap (λ (l : List A). length l) (sym at)
  where
    go : (us : List A) → length (us ++ x' ∷ after) ≡ length (us ++ x ∷ after)
    go [] = refl
    go (u ∷ us) = ap suc (go us)

-- The first of two results.
abbrev pub or_else {ℓ} : {A : Type ℓ} → Option A → Option A → Option A
or_else (some a) o = some a
or_else none o = o
