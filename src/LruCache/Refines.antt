-- ===== src/LruCache/Refines.antt =====
-- `refer` and `get` do what the list of the last pairs says.
use multiprocessor_programmi.Prelude.{
  ℕ, zero, suc, ◌-◌, ◌^◌, ◌≤◌, ◌<◌, ◌≡◌, ◌≢◌, ◌⊎◌, refl, sym, ap, ◌∙◌, inl, inr, true, false, not,
  List, [], ◌∷◌, none, some, ◌==◌, length, filter, take, All, All-map, arith, Bool-cases,
  Option-cases,
}
use mathlib.Core.Path.{subst}
use multiprocessor_programmi.Stack.{update}
use multiprocessor_programmi.LruCache.{
  Node, LruCache, new_cache, pop_back, erase_node, make_room, push_front, refer, deref, get,
}
use multiprocessor_programmi.LruCache.Recent.{
  recent, lookup, pairs_of, where_is, IsUnique, IsValid, All-pop_back, length-pop_back,
  where_is-pop_back, pop_back-IsUnique, pairs_of-pop_back, last_key-some, All-erase_node,
  absent_pairs, erase_Erased, where_is-address,
}

take_enough : (n : ℕ) (xs : List (ℕ × ℕ)) → length xs ≤ n → take n xs ≡ xs
take_enough zero [] h = refl
take_enough zero (x ∷ xs) h = absurd (omega arith)
take_enough (suc n) [] h = refl
take_enough (suc n) (x ∷ xs) h = ap (◌∷◌ x) (take_enough n xs (omega arith))

length-pairs_of : (ns : List Node) → length (pairs_of ns) ≡ length ns
length-pairs_of [] = refl
length-pairs_of (n ∷ ns) = ap suc (length-pairs_of ns)

-- A key that is nowhere is put in front.
push_front-IsValid :
    (key parent_node_id : ℕ) (c : LruCache)
    → IsUnique c.dq
    → All (λ n. n.0 < c.free) c.dq
    → where_is key c.dq ≡ none
    → ((k : ℕ) → (key == k) ≡ false → c.ma k ≡ where_is k c.dq)
    → length c.dq < c.cache_size
    → IsValid (push_front key parent_node_id c)
unfolding push_front
push_front-IsValid key parent_node_id c u f new m lt = record {
  unique = (new, All-map (λ n p. ground (arith, p)) c.dq f, u);
  fresh = (omega arith, All-map (λ n p. omega (arith, p)) c.dq f);
  mapped = λ k. elim (Bool-cases (key == k)) [
    | inl this ↦ rw this refl
    | inr other ↦ rw other (m k other)
  ];
  bounded = omega (arith, lt);
}

-- What `refer` does to the list of pairs.
pub record Refers (key parent_node_id : ℕ) (c c' : LruCache) : Type 0 where
  pub valid : IsValid c'
  pub same_size : c'.cache_size ≡ c.cache_size
  pub pairs : pairs_of c'.dq ≡ recent c.cache_size key parent_node_id (pairs_of c.dq)

-- A key that is in the cache: its node is erased first.
refer_present :
    (key parent_node_id address : ℕ) (c : LruCache)
    → IsValid c
    → c.ma key ≡ some address
    → Refers key parent_node_id c
        (push_front key parent_node_id (record c { dq = erase_node address c.dq }))
unfolding push_front
refer_present key parent_node_id address c v e =
    let i = erase_Erased key address c.dq v.unique (sym (v.mapped key) ∙ e) in
    let fits : length (pairs_of (erase_node address c.dq)) ≤ c.cache_size - 1 =
      omega (arith, length-pairs_of (erase_node address c.dq), i.size, v.bounded) in
    record {
      valid =
          push_front-IsValid key parent_node_id (record c { dq = erase_node address c.dq }) i.unique
            (All-erase_node (λ n. n.0 < c.free) address c.dq v.fresh) (ground (arith, i.found key))
            (λ k other. v.mapped k ∙ sym (i.found k ∙ rw other refl))
            (omega (arith, i.size, v.bounded));
      same_size = refl;
      pairs = ap (◌∷◌ (key, parent_node_id)) (
          sym (take_enough (c.cache_size - 1) (pairs_of (erase_node address c.dq)) fits)
          ∙ ap (take (c.cache_size - 1)) i.pairs);
    }

-- A new key: the last node is dropped where the list is full.
refer_absent :
    (key parent_node_id : ℕ) (c : LruCache)
    → IsValid c
    → 0 < c.cache_size
    → c.ma key ≡ none
    → (c' : LruCache) × (make_room c ≡ some c')
      × Refers key parent_node_id c (push_front key parent_node_id c')
unfolding make_room push_front
refer_absent key parent_node_id c v some_room e =
    let nowhere = sym (v.mapped key) ∙ e in
    let same = absent_pairs key (c.dq) nowhere in
    elim (Bool-cases (length c.dq == c.cache_size)) [
      | inl full ↦
          let (last, is_last) = last_key-some c.dq (ground arith) in
          let gone = where_is-pop_back key last c.dq v.unique is_last in
          let c' : LruCache = record c { dq = pop_back c.dq; ma = update c.ma last none } in
          (
            c',
            rw (full, is_last) refl,
            record {
              valid =
                  push_front-IsValid key parent_node_id c' (pop_back-IsUnique c.dq v.unique)
                    (All-pop_back (λ n. n.0 < c.free) c.dq v.fresh) (ground (arith, gone, nowhere))
                    (λ k other.
                      ground (arith, v.mapped k, where_is-pop_back k last c.dq v.unique is_last))
                    (ground (arith, length-pop_back c.dq));
              same_size = refl;
              pairs = ap (◌∷◌ (key, parent_node_id)) (
                  pairs_of-pop_back c.dq
                  ∙ ap (λ n. take (n - 1) (pairs_of c.dq)) (ground arith)
                  ∙ ap (take (c.cache_size - 1)) (sym same));
            },
          )
      | inr room ↦
          let lt : length c.dq < c.cache_size = ground (arith, v.bounded) in
          (
            c,
            rw room refl,
            record {
              valid =
                  push_front-IsValid key parent_node_id c v.unique v.fresh nowhere
                    (λ k other. v.mapped k) lt;
              same_size = refl;
              pairs = ap (◌∷◌ (key, parent_node_id)) (
                  sym (
                    take_enough (c.cache_size - 1) (pairs_of c.dq)
                      (omega (arith, lt, length-pairs_of c.dq)))
                  ∙ ap (take (c.cache_size - 1)) (sym same));
            },
          )
    ]

-- On a well-formed cache with room for one pair or more, `refer` succeeds and leaves a well-formed
-- cache of the same size, whose pairs are the new one and, behind it, as many of the others as fit, in
-- their order, the old pair of the key left out.
pub refer-Refers :
    (key parent_node_id : ℕ) (c : LruCache)
    → IsValid c
    → 0 < c.cache_size
    → (c' : LruCache) × (refer key parent_node_id c ≡ some c') × Refers key parent_node_id c c'
unfolding refer
refer-Refers key parent_node_id c v some_room = elim (Option-cases (c.ma key)) [
  | inl absent ↦
      let (c', e, r) = refer_absent key parent_node_id c v some_room absent in
      (push_front key parent_node_id c', rw (absent, e, refer) refl, r)
  | inr (address, present) ↦ (
    push_front key parent_node_id (record c { dq = erase_node address c.dq }),
    rw (present, refer) refl,
    refer_present key parent_node_id address c v present,
  )
]

deref-where_is :
    (key address : ℕ) (ns : List Node)
    → IsUnique ns
    → where_is key ns ≡ some address
    → (pair : ℕ × ℕ) × (deref address ns ≡ some pair) × (pair.1 ≡ lookup key (pairs_of ns))
unfolding deref
deref-where_is key address [] u e = absurd (ground arith)
deref-where_is key address (n ∷ ns) u e = elim (Bool-cases (n.1.0 == key)) [
  | inl here ↦
      let this : (n.0 == address) ≡ true = ground arith in (n.1, rw this refl, rw here refl)
  | inr there ↦
      let deeper : where_is key ns ≡ some address = rw there at e in
      let (pair, d, l) = deref-where_is key address ns u.2 deeper in
      let other : (n.0 == address) ≡ false = apart deeper in (pair, rw other d, rw there l)
]
  where
    apart : where_is key ns ≡ some address → (n.0 == address) ≡ false
    apart deeper = elim (Bool-cases (n.0 == address)) [
      | inl same ↦
          let e' : n.0 ≡ address = ground arith in
          absurd (
            where_is-address key address ns deeper
              (subst (λ a. All (λ (m : Node). m.0 ≢ a) ns) e' u.1))
      | inr other ↦ other
    ]

lookup_nowhere :
    (key : ℕ) (ns : List Node) → where_is key ns ≡ none → lookup key (pairs_of ns) ≡ 2 ^ 64 - 1
lookup_nowhere key [] h = refl
lookup_nowhere key (n ∷ ns) h = ground (arith, lookup_nowhere key ns)

-- On a well-formed cache, `get` returns the id of the key's pair, and -1 as a NodeID if there is none;
-- it never follows an iterator whose node is gone.
get-lookup : (key : ℕ) (c : LruCache) → IsValid c → get key c ≡ some (lookup key (pairs_of c.dq))
unfolding get
get-lookup key c v = elim (Option-cases (c.ma key)) [
  | inl absent ↦
      rw (absent, get) (ap some (sym (lookup_nowhere key c.dq (sym (v.mapped key) ∙ absent))))
  | inr (address, present) ↦
      let (pair, d, l) = deref-where_is key address c.dq v.unique (sym (v.mapped key) ∙ present) in
      rw (present, d, get) (ap some l)
]

lookup-take :
    (key n : ℕ) (xs : List (ℕ × ℕ))
    → (lookup key (take n xs) ≡ lookup key xs) ⊎ (lookup key (take n xs) ≡ 2 ^ 64 - 1)
lookup-take key zero xs = inr refl
lookup-take key (suc n) [] = inl refl
lookup-take key (suc n) (x ∷ xs) = ground (arith, lookup-take key n xs)

lookup-filter :
    (key k : ℕ) (xs : List (ℕ × ℕ))
    → k ≢ key
    → lookup k (filter (λ x. not (x.0 == key)) xs) ≡ lookup k xs
lookup-filter key k [] h = refl
lookup-filter key k (x ∷ xs) h = ground (arith, lookup-filter key k xs h)

-- On a well-formed cache with room for one pair or more: after `refer` of a key with an id, `get` of the
-- key returns the id, and `get` of any other key what it returned before, or -1 as a NodeID.
pub get-refer :
    (key parent_node_id : ℕ) (c : LruCache)
    → IsValid c
    → 0 < c.cache_size
    → (c' : LruCache) × (refer key parent_node_id c ≡ some c')
      × (get key c' ≡ some parent_node_id)
      × ((k : ℕ) → (k ≡ key) ⊎ (get k c' ≡ get k c) ⊎ (get k c' ≡ some (2 ^ 64 - 1)))
get-refer key parent_node_id c v some_room =
    let (c', e, r) = refer-Refers key parent_node_id c v some_room in
    (
      c',
      e,
      get-lookup key c' r.valid ∙ ap some (ap (lookup key) r.pairs ∙ ground arith),
      λ k. others c' r k,
    )
  where
    others :
        (c' : LruCache)
        → Refers key parent_node_id c c'
        → (k : ℕ) → (k ≡ key) ⊎ (get k c' ≡ get k c) ⊎ (get k c' ≡ some (2 ^ 64 - 1))
    others c' r k = elim (Bool-cases (key == k)) [
      | inl same ↦ inl (ground arith)
      | inr other ↦
          let apart : k ≢ key = ground arith in
          let kept = filter (λ (x : ℕ × ℕ). not (x.0 == key)) (pairs_of c.dq) in
          let after : get k c' ≡ some (lookup k (take (c.cache_size - 1) kept)) =
            get-lookup k c' r.valid ∙ ap some (ap (lookup k) r.pairs ∙ rw other refl) in
          inr (elim (lookup-take k (c.cache_size - 1) kept) [
            | inl all ↦ inl (
                after
                ∙ ap some (all ∙ lookup-filter key k (pairs_of c.dq) apart)
                ∙ sym (get-lookup k c v))
            | inr gone ↦ inr (after ∙ ap some gone)
          ])
    ]

-- A new cache is well-formed.
pub new_cache-IsValid : (size : ℕ) → IsValid (new_cache size)
unfolding new_cache
new_cache-IsValid size = record {
  unique = tt;
  fresh = tt;
  mapped = λ key. refl;
  bounded = omega arith;
}
