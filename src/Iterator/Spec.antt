-- ===== src/Iterator/Spec.antt =====
-- What an iterator stands for, in a tree that nobody changes: the pairs from its place on, and those
-- before it.
use multiprocessor_programmi.Prelude.{
  ℕ, zero, suc, ◌-◌, ◌≤◌, ◌<◌, ◌≡◌, ◌⊎◌, refl, inl, inr, true, false, List, [], ◌∷◌, ◌++◌, none,
  some, ◌==◌, ltb, leb, if◌then◌else◌, length, take, drop, filter, get_elem?, All, All-map, arith,
  Bool-cases,
}
use mathlib.Core.Path.{subst}
use multiprocessor_programmi.Leaf.{KeyValue, invalid_node_id}
use multiprocessor_programmi.Leaf.Spec.{IsSorted}
use multiprocessor_programmi.Leaf.Navigate.{lower_bound}
use multiprocessor_programmi.Iterator.{Page, Cursor, is_last}

-- the pairs from the key on, and those below it
abbrev pub from : ℕ → List KeyValue → List KeyValue
from k xs = filter (λ y. leb k y.0) xs

abbrev pub upto : ℕ → List KeyValue → List KeyValue
upto k xs = filter (λ y. ltb y.0 k) xs

module _ (content : List KeyValue) where
  abbrev pub beyond : Page → List KeyValue
  beyond p = if p.high_key_pair.1 == invalid_node_id then [] else from p.high_key_pair.0 content

  abbrev pub before : Page → List KeyValue
  before p = if p.low_key_pair.1 == invalid_node_id then [] else upto p.low_key_pair.0 content

  abbrev pub rest : Cursor → List KeyValue
  rest c = drop (c.kv_p - 1) c.page.items ++ beyond c.page

  abbrev pub seen : Cursor → List KeyValue
  seen c = before c.page ++ take (c.kv_p - 1) c.page.items

-- The iterator is at the end, or points to a pair.
abbrev pub IsAtPair : Cursor → Type 0
IsAtPair c = (is_last c ≡ true) ⊎ ((0 < c.kv_p) × (c.kv_p ≤ length c.page.items))

-- A page is sorted, and its pairs are below its high key.
pub record IsPage (p : Page) : Type 0 where
  pub sorted : IsSorted p.items
  pub inside : (p.high_key_pair.1 ≡ invalid_node_id) ⊎ All (λ y. y.0 < p.high_key_pair.0) p.items

-- What is loaded, whatever other threads do: a page with the key below its high key. No high key is
-- above `top`.
pub record Loads (top : ℕ) (load : ℕ → ℕ → Page) : Type 0 where
  pub page : (t k : ℕ) → IsPage (load t k)
  pub reaches :
      (t k : ℕ) → ((load t k).high_key_pair.1 ≡ invalid_node_id) ⊎ (k < (load t k).high_key_pair.0)
  pub bounded : (t k : ℕ) → (load t k).high_key_pair.0 ≤ top

-- The pages of a tree that holds `content`, and is not changed.
pub record IsQuiet (content : List KeyValue) (load : ℕ → ℕ → Page) : Type 0 where
  pub pairs : (t k : ℕ) → from k content ≡ from k (load t k).items ++ beyond content (load t k)

pub from_same : (k : ℕ) (xs : List KeyValue) → All (λ y. k ≤ y.0) xs → from k xs ≡ xs
from_same k [] h = refl
from_same k (x ∷ xs) h = ground (arith, h.0, from_same k xs h.1)

pub drop-lower_bound :
    (k : ℕ) (xs : List KeyValue) → IsSorted xs → drop (lower_bound k xs) xs ≡ from k xs
unfolding lower_bound
drop-lower_bound k [] h = refl
drop-lower_bound k (x ∷ xs) h = elim (Bool-cases (ltb x.0 k)) [
  | inl under ↦
      let test : leb k x.0 ≡ false = ground arith in rw (under, test) (drop-lower_bound k xs h.1)
  | inr reached ↦
      let test : leb k x.0 ≡ true = ground arith in
      let all = from_same k xs (All-map (λ y p. ground (arith, p)) xs h.0) in ground (arith, all)
]

pub lower_bound-length : (k : ℕ) (xs : List KeyValue) → lower_bound k xs ≤ length xs
unfolding lower_bound
lower_bound-length k [] = omega arith
lower_bound-length k (x ∷ xs) = ground (arith, lower_bound-length k xs)

pub lower_bound-get :
    (k : ℕ) (xs : List KeyValue)
    → lower_bound k xs < length xs
    → (x : KeyValue) × (get_elem? xs (lower_bound k xs) ≡ some x) × (k ≤ x.0)
unfolding lower_bound
lower_bound-get k [] h = absurd (omega arith)
lower_bound-get k (x ∷ xs) h = elim (Bool-cases (ltb x.0 k)) [
  | inl under ↦ rw under (lower_bound-get k xs (ground arith))
  | inr reached ↦ rw reached (x, refl, ground arith)
]

-- A pair that is passed.
pub drop-get :
    (i : ℕ) (xs : List KeyValue)
    → i < length xs
    → (x : KeyValue) × (get_elem? xs i ≡ some x) × (drop i xs ≡ x ∷ drop (suc i) xs)
drop-get i [] h = absurd (omega arith)
drop-get zero (x ∷ xs) h = (x, refl, refl)
drop-get (suc i) (x ∷ xs) h = drop-get i xs (omega arith)

pub All-get :
    (P : KeyValue → Type 0) (i : ℕ) (xs : List KeyValue) (x : KeyValue)
    → All P xs
    → get_elem? xs i ≡ some x
    → P x
All-get P i [] x h e = absurd (ground arith)
All-get P zero (y ∷ xs) x h e = let same : y ≡ x = ground arith in subst P same h.0
All-get P (suc i) (y ∷ xs) x h e = All-get P i xs x h.1 e

pub get-IsSorted :
    (i : ℕ) (xs : List KeyValue) (x y : KeyValue)
    → IsSorted xs
    → get_elem? xs i ≡ some x
    → get_elem? xs (suc i) ≡ some y
    → x.0 ≤ y.0
get-IsSorted i [] x y h e e' = absurd (ground arith)
get-IsSorted zero (z ∷ xs) x y h e e' =
    let same : z ≡ x = ground arith in
    subst (λ (w : KeyValue). w.0 ≤ y.0) same (All-get _ 0 xs y h.0 e')
get-IsSorted (suc i) (z ∷ xs) x y h e e' = get-IsSorted i xs x y h.1 e e'

pub get-length : (xs : List KeyValue) → get_elem? xs (length xs) ≡ none
get-length [] = refl
get-length (x ∷ xs) = get-length xs

pub drop-length : (xs : List KeyValue) → drop (length xs) xs ≡ []
drop-length [] = refl
drop-length (x ∷ xs) = drop-length xs

pub last-rest : (content : List KeyValue) (c : Cursor) → is_last c ≡ true → rest content c ≡ []
last-rest content c e =
    let place : c.kv_p - 1 ≡ length c.page.items = ground (arith, e) in
    let unbounded : (c.page.high_key_pair.1 == invalid_node_id) ≡ true = ground (arith, e) in
    rw (place, unbounded) (ground (arith, drop-length c.page.items))
