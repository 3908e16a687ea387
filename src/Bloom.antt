-- ===== src/Bloom.antt =====
-- `BloomFilter` (project3/sourcefile/bwtree/include/bloom_filter.h): the set of values met on a delta
-- chain. A bit array of 32 bytes answers most absent values, an array of pointers the others.
pub mod Exact
mod Tests
use Prim.Native.Nat.{bit_and, bit_or}
use multiprocessor_programmi.Prelude.{
  ℕ, ◌+◌, ◌/◌, ◌%◌, ◌^◌, Bool, true, false, List, [], ◌∷◌, ◌++◌, ◌==◌, if◌then◌else◌, get_or, set,
  length, replicate,
}

-- FILTER_SIZE, that is ARRAY_SIZE / FILTER_NUM
abbrev pub filter_size : ℕ
filter_size = 32

-- The values that `data_p` points to, up to `value_count`, and the bytes of `bit_array_0`.
pub record BloomFilter {ℓ} (A : Type ℓ) : Type ℓ where
  pub bit_array : List ℕ
  pub data_values : List A

-- `(hash_value & BYTE_OFFSET_MASK) >> 3`: bits 3 to 7 of the hash.
abbrev pub byte_offset : ℕ → ℕ
byte_offset hash_value = hash_value / 8 % 32

-- `0x1 << (hash_value & BIT_OFFSET_MASK)`: bits 0 to 2 say which bit of the byte.
abbrev pub bit_offset : ℕ → ℕ
bit_offset hash_value = hash_value % 8

unfoldable pub init {ℓ} : {A : Type ℓ} → BloomFilter A
init = record { bit_array = replicate filter_size 0; data_values = [] }

unfoldable pub get_size {ℓ} : {A : Type ℓ} → BloomFilter A → ℕ
get_size f = length f.data_values

-- `|=` on an `unsigned char`
unfoldable pub set_bit : ℕ → ℕ → ℕ
set_bit byte k = bit_or byte (2 ^ k) % 256

unfoldable pub test_bit : ℕ → ℕ → Bool
test_bit byte k = if bit_and byte (2 ^ k) == 0 then false else true

module _ {ℓ} {A : Type ℓ} (value_eq : A → A → Bool) (value_hash : A → ℕ) where
  unfoldable pub insert_scalar : A → BloomFilter A → BloomFilter A
  insert_scalar value f =
      let i = byte_offset (value_hash value) in
      record {
        bit_array =
            set f.bit_array i (set_bit (get_or f.bit_array i 0) (bit_offset (value_hash value)));
        data_values = f.data_values ++ value ∷ [];
      }

  -- the loop over `data_p`
  unfoldable pub search_values : A → List A → Bool
  search_values value [] = false
  search_values value (x ∷ xs) = if value_eq value x then true else search_values value xs

  unfoldable pub exists_scalar : A → BloomFilter A → Bool
  unfolding search_values
  exists_scalar value f =
      if test_bit (get_or f.bit_array (byte_offset (value_hash value)) 0)
        (bit_offset (value_hash value))
      then search_values value f.data_values
      else false
