-- ===== src/Bloom/Tests.antt =====
-- Tests and instances for `BloomFilter`, with a hash that makes some values collide.
use multiprocessor_programmi.Prelude.{ℕ, ◌%◌, ◌≡◌, ap, [], ◌∷◌, false, ◌==◌, ==_iff, any, arith}
use multiprocessor_programmi.Bloom.{init, insert_scalar, exists_scalar}
use multiprocessor_programmi.Bloom.Exact.{IsHashed, insert_all, exists-insert_all}

abbrev hash_mod : ℕ → ℕ
hash_mod x = x % 100

hash_mod-IsHashed : IsHashed ◌==◌ hash_mod
hash_mod-IsHashed = record { hash_eq = λ x y h. ap hash_mod ((==_iff x y).0 h) }

collision : exists_scalar ◌==◌ hash_mod 107 (insert_scalar ◌==◌ hash_mod 7 init) ≡ false
unfolding exists_scalar insert_scalar init
collision = ground arith

exists-insert_all_example :
    exists_scalar ◌==◌ hash_mod 7 (insert_all ◌==◌ hash_mod init (107 ∷ 7 ∷ []))
    ≡ any (◌==◌ 7) (107 ∷ 7 ∷ [])
exists-insert_all_example = exists-insert_all ◌==◌ hash_mod hash_mod-IsHashed 7 (107 ∷ 7 ∷ [])
