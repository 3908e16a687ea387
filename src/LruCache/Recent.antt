-- ===== src/LruCache/Recent.antt =====
-- The cache holds the keys that were referred to last, each with its last id.
use multiprocessor_programmi.Prelude.{
  ℕ, suc, ◌-◌, ◌^◌, ◌≤◌, ◌<◌, ◌≡◌, ◌≢◌, refl, sym, ap, ◌∙◌, inl, inr, true, false, not, List, [],
  ◌∷◌, Option, none, some, ◌==◌, if◌then◌else◌, length, filter, take, All, All-filter, arith,
  Bool-cases, Option-cases,
}
use mathlib.Core.Path.{subst}
use multiprocessor_programmi.LruCache.{Node, LruCache, last_key, pop_back, erase_node}

-- The specification: pairs of a key and an id, the last one referred to first.
abbrev pub recent : ℕ → ℕ → ℕ → List (ℕ × ℕ) → List (ℕ × ℕ)
recent size key parent_node_id pairs =
    (key, parent_node_id) ∷ take (size - 1) (filter (λ x. not (x.0 == key)) pairs)

abbrev pub lookup : ℕ → List (ℕ × ℕ) → ℕ
lookup key [] = 2 ^ 64 - 1
lookup key (x ∷ xs) = if x.0 == key then x.1 else lookup key xs

abbrev pub pairs_of : List Node → List (ℕ × ℕ)
pairs_of [] = []
pairs_of (n ∷ ns) = n.1 ∷ pairs_of ns

-- the address of the node with the key
abbrev pub where_is : ℕ → List Node → Option ℕ
where_is key [] = none
where_is key (n ∷ ns) = if n.1.0 == key then some n.0 else where_is key ns

abbrev pub IsUnique : List Node → Type 0
IsUnique [] = Unit
IsUnique (n ∷ ns) = (where_is n.1.0 ns ≡ none) × All (λ m. m.0 ≢ n.0) ns × IsUnique ns

-- No key and no address twice, the map has the address of each key's node and no other, and the list
-- is not longer than the cache.
pub record IsValid (c : LruCache) : Type 0 where
  pub unique : IsUnique c.dq
  pub fresh : All (λ n. n.0 < c.free) c.dq
  pub mapped : (key : ℕ) → c.ma key ≡ where_is key c.dq
  pub bounded : length c.dq ≤ c.cache_size

module _ (P : Node → Type 0) where
  pub All-pop_back : (ns : List Node) → All P ns → All P (pop_back ns)
  unfolding pop_back
  All-pop_back [] h = tt
  All-pop_back (n ∷ []) h = tt
  All-pop_back (n ∷ m ∷ ns) h = (h.0, All-pop_back (m ∷ ns) h.1)

pub length-pop_back : (ns : List Node) → length (pop_back ns) ≡ length ns - 1
unfolding pop_back
length-pop_back [] = refl
length-pop_back (n ∷ []) = refl
length-pop_back (n ∷ m ∷ ns) = omega (arith, length-pop_back (m ∷ ns))

pub where_is-pop_back :
    (key last : ℕ) (ns : List Node)
    → IsUnique ns
    → last_key ns ≡ some last
    → where_is key (pop_back ns) ≡ (if last == key then none else where_is key ns)
unfolding pop_back last_key
where_is-pop_back key last [] u e = absurd (ground arith)
where_is-pop_back key last (n ∷ []) u e = ground arith
where_is-pop_back key last (n ∷ m ∷ ns) u e = elim (Option-cases (last_key (m ∷ ns))) [
  | inl nothing ↦ absurd (nonempty m ns nothing)
  | inr (k, found) ↦
      let same : k ≡ last = ground arith in
      let ih = where_is-pop_back key last (m ∷ ns) u.2 (found ∙ ap some same) in
      elim (Bool-cases (n.1.0 == key)) [
        | inl here ↦
            let other : (last == key) ≡ false = not_last k found same here in rw (here, other) refl
        | inr there ↦ rw there ih
      ]
]
  where
    nonempty : (m : Node) (ns : List Node) → last_key (m ∷ ns) ≡ none → ⊥
    nonempty m ns h = elim (Option-cases (last_key ns)) [
      | inl nothing ↦ ground arith
      | inr (k, found) ↦ ground arith
    ]

    is_there : (k : ℕ) (ns : List Node) → last_key ns ≡ some k → where_is k ns ≢ none
    is_there k [] h no_such = ground arith
    is_there k (m ∷ ns) h no_such = elim (Option-cases (last_key ns)) [
      | inl nothing ↦ ground arith
      | inr (j, found) ↦ ground (arith, is_there j ns found)
    ]

    not_last :
        (k : ℕ)
        → last_key (m ∷ ns) ≡ some k
        → k ≡ last
        → (n.1.0 == key) ≡ true
        → (last == key) ≡ false
    not_last k found same here = elim (Bool-cases (last == key)) [
      | inl equal ↦
          let e : n.1.0 ≡ k = ground arith in
          absurd (is_there k (m ∷ ns) found (ap (λ j. where_is j (m ∷ ns)) (sym e) ∙ u.0))
      | inr different ↦ different
    ]

pub pop_back-IsUnique : (ns : List Node) → IsUnique ns → IsUnique (pop_back ns)
unfolding pop_back
pop_back-IsUnique [] u = tt
pop_back-IsUnique (n ∷ []) u = tt
pop_back-IsUnique (n ∷ m ∷ ns) u = (
  still_none n.1.0 (m ∷ ns) u.0,
  All-pop_back (λ x. x.0 ≢ n.0) (m ∷ ns) u.1,
  pop_back-IsUnique (m ∷ ns) u.2,
)
  where
    still_none :
        (key : ℕ) (xs : List Node) → where_is key xs ≡ none → where_is key (pop_back xs) ≡ none
    still_none key [] h = refl
    still_none key (x ∷ []) h = refl
    still_none key (x ∷ y ∷ xs) h = ground (arith, still_none key (y ∷ xs))

pub pairs_of-pop_back :
    (ns : List Node) → pairs_of (pop_back ns) ≡ take (length ns - 1) (pairs_of ns)
unfolding pop_back
pairs_of-pop_back [] = refl
pairs_of-pop_back (n ∷ []) = refl
pairs_of-pop_back (n ∷ m ∷ ns) =
    let count : length (n ∷ m ∷ ns) - 1 ≡ suc (length (m ∷ ns) - 1) = omega arith in
    ap (◌∷◌ n.1) (pairs_of-pop_back (m ∷ ns)) ∙ ap (λ k. take k (pairs_of (n ∷ m ∷ ns))) (sym count)

pub last_key-some : (ns : List Node) → 0 < length ns → (key : ℕ) × (last_key ns ≡ some key)
unfolding last_key
last_key-some [] h = elim h [ ]
last_key-some (n ∷ ns) h = elim (Option-cases (last_key ns)) [
  | inl nothing ↦ (n.1.0, rw nothing refl)
  | inr (k, found) ↦ (k, rw found refl)
]

-- Erasing the node of a key.
pub where_is-address :
    (key address : ℕ) (ns : List Node)
    → where_is key ns ≡ some address
    → All (λ m. m.0 ≢ address) ns
    → ⊥
where_is-address key address [] e h = ground arith
where_is-address key address (n ∷ ns) e h = ground (arith, where_is-address key address ns, h.0)

erase_absent :
    (address : ℕ) (ns : List Node) → All (λ m. m.0 ≢ address) ns → erase_node address ns ≡ ns
unfolding erase_node
erase_absent address [] h = refl
erase_absent address (n ∷ ns) h =
    let other : (n.0 == address) ≡ false = ground (arith, h.0) in
    rw other (ap (◌∷◌ n) (erase_absent address ns h.1))

pub All-erase_node :
    (P : Node → Type 0) (address : ℕ) (ns : List Node) → All P ns → All P (erase_node address ns)
unfolding erase_node
All-erase_node P address ns h = All-filter P _ ns h

-- What is left is what has another key.
pub record Erased (key address : ℕ) (ns : List Node) : Type 0 where
  pub unique : IsUnique (erase_node address ns)
  pub found :
      (k : ℕ) → where_is k (erase_node address ns) ≡ (if key == k then none else where_is k ns)
  pub pairs : pairs_of (erase_node address ns) ≡ filter (λ x. not (x.0 == key)) (pairs_of ns)
  pub size : suc (length (erase_node address ns)) ≡ length ns

pub absent_pairs :
    (key : ℕ) (ns : List Node)
    → where_is key ns ≡ none
    → filter (λ x. not (x.0 == key)) (pairs_of ns) ≡ pairs_of ns
absent_pairs key [] h = refl
absent_pairs key (n ∷ ns) h = elim (Bool-cases (n.1.0 == key)) [
  | inl here ↦ absurd (ground arith)
  | inr there ↦ rw there (ap (◌∷◌ n.1) (absent_pairs key ns (rw there at h)))
]

pub erase_Erased :
    (key address : ℕ) (ns : List Node)
    → IsUnique ns
    → where_is key ns ≡ some address
    → Erased key address ns
unfolding erase_node
erase_Erased key address [] u e = absurd (ground arith)
erase_Erased key address (n ∷ ns) u e = elim (Bool-cases (n.1.0 == key)) [
  | inl here ↦
      let this : n.0 ≡ address = ground arith in
      let key_here : n.1.0 ≡ key = ground arith in
      let gone : (n.0 == address) ≡ true = ground arith in
      let same = erase_absent address ns (subst (λ a. All (λ (m : Node). m.0 ≢ a) ns) this u.1) in
      let none_left = ap (λ k. where_is k ns) (sym key_here) ∙ u.0 in
      record {
        unique = rw (gone, same) (u.2);
        found = λ k. rw (gone, same) (ground (arith, none_at k none_left));
        pairs = rw (gone, same, here) (sym (absent_pairs key ns none_left));
        size = rw (gone, same) refl;
      }
  | inr there ↦
      let deeper : where_is key ns ≡ some address = rw there at e in
      let i = erase_Erased key address ns u.2 deeper in
      let stays : (n.0 == address) ≡ false = ground (arith, apart deeper) in
      record {
        unique = rw stays (
          i.found n.1.0 ∙ ground (arith, u.0),
          All-erase_node (λ m. m.0 ≢ n.0) address ns u.1,
          i.unique,
        );
        found = λ k. rw stays (ground (arith, i.found k));
        pairs = rw (stays, there) (ap (◌∷◌ n.1) i.pairs);
        size = rw stays (ap suc i.size);
      }
]
  where
    none_at : (k : ℕ) → where_is key ns ≡ none → key ≡ k → where_is k ns ≡ none
    none_at k h same = ap (λ j. where_is j ns) (sym same) ∙ h

    apart : where_is key ns ≡ some address → n.0 ≢ address
    apart deeper same =
        where_is-address key address ns deeper
          (subst (λ a. All (λ (m : Node). m.0 ≢ a) ns) same u.1)
