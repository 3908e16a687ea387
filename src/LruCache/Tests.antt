-- ===== src/LruCache/Tests.antt =====
-- A cache of two pairs: the key that was referred to longest ago goes.
use multiprocessor_programmi.Prelude.{
  ℕ, ◌-◌, ◌^◌, ◌≡◌, ◌⊎◌, refl, [], ◌∷◌, none, some, ◌==◌, if◌then◌else◌, arith,
}
use multiprocessor_programmi.LruCache.{LruCache, refer, get}
use multiprocessor_programmi.LruCache.Recent.{pairs_of, IsValid}
use multiprocessor_programmi.LruCache.Refines.{Refers, refer-Refers, get-refer}

abbrev two : LruCache
two = record {
  dq = (3, (7, 70)) ∷ (1, (5, 50)) ∷ [];
  ma = λ key. if 7 == key then some 3 else if 5 == key then some 1 else none;
  free = 4;
  cache_size = 2;
}

two-IsValid : IsValid two
two-IsValid = record {
  unique = (refl, (ground arith, tt), (refl, tt, tt));
  fresh = (omega arith, (omega arith, tt));
  mapped = λ key. refl;
  bounded = omega arith;
}

refer-two : (c' : LruCache) × (refer 9 90 two ≡ some c') × (pairs_of c'.dq ≡ (9, 90) ∷ (7, 70) ∷ [])
unfolding refer
refer-two = (_, refl, refl)

refer-Refers_example : (c' : LruCache) × (refer 5 51 two ≡ some c') × Refers 5 51 two c'
refer-Refers_example = refer-Refers 5 51 two two-IsValid (omega arith)

get-refer_example :
    (c' : LruCache) × (refer 9 90 two ≡ some c')
    × (get 9 c' ≡ some 90)
    × ((k : ℕ) → (k ≡ 9) ⊎ (get k c' ≡ get k two) ⊎ (get k c' ≡ some (2 ^ 64 - 1)))
get-refer_example = get-refer 9 90 two two-IsValid (omega arith)
