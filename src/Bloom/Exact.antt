-- ===== src/Bloom/Exact.antt =====
-- The filter has no false answers: `Exists` is membership among the values that were inserted.
use multiprocessor_programmi.Prelude.{
  ℕ, zero, suc, ◌<◌, ◌≡◌, refl, Bool, true, false, ◌&&◌, List, [], ◌∷◌, ◌++◌, ◌==◌, if◌then◌else◌,
  get_or, set, length, replicate, length-set, All, All-map, All-snoc, any, arith, Bool-cases, inl,
  inr, get_or-set, ◌∙◌, sym, ap,
}
use mathlib.Core.List.{append-nil, append_assoc}
use multiprocessor_programmi.Bloom.{
  BloomFilter, filter_size, byte_offset, bit_offset, init, set_bit, test_bit, insert_scalar,
  search_values, exists_scalar,
}

-- a test of all numbers below a bound
passes : (test : ℕ → Bool) (bound : ℕ) → Bool
passes test zero = true
passes test (suc bound) = if test bound then passes test bound else false

passes_lem : (test : ℕ → Bool) (bound k : ℕ) → k < bound → passes test bound ≡ true → test k ≡ true
unfolding passes
passes_lem test zero k lt h = elim lt [ ]
passes_lem test (suc bound) k lt h = ground (arith, passes_lem test bound k)

-- Setting a bit sets it, and clears no other.
bit_law : ℕ → ℕ → ℕ → Bool
bit_law b k j =
    test_bit (set_bit b k) k && (if test_bit b j then test_bit (set_bit b k) j else true)

bit_table : passes (λ b. passes (λ k. passes (bit_law b k) 8) 8) 256 ≡ true
unfolding passes bit_law set_bit test_bit
bit_table = refl

bit_law_holds : (b k j : ℕ) → b < 256 → k < 8 → j < 8 → bit_law b k j ≡ true
bit_law_holds b k j hb hk hj =
    passes_lem (bit_law b k) 8 j hj (passes_lem _ 8 k hk (passes_lem _ 256 b hb bit_table))

-- What the filter asks of its equality and hash.
pub record IsHashed {ℓ} {A : Type ℓ} (value_eq : A → A → Bool) (value_hash : A → ℕ) : Type ℓ where
  pub hash_eq : (x y : A) → value_eq x y ≡ true → value_hash x ≡ value_hash y

module _ {ℓ} {A : Type ℓ} (value_eq : A → A → Bool) (value_hash : A → ℕ) where
  -- the bit of the value is set
  abbrev pub IsCovered : List ℕ → A → Type 0
  IsCovered bits x =
      test_bit (get_or bits (byte_offset (value_hash x)) 0) (bit_offset (value_hash x)) ≡ true

  pub record IsValid (f : BloomFilter A) : Type ℓ where
    pub sized : length f.bit_array ≡ filter_size
    pub bytes : (i : ℕ) → get_or f.bit_array i 0 < 256
    pub covered : All (IsCovered f.bit_array) f.data_values

  zeros : (n i : ℕ) → get_or (replicate n 0) i 0 < 256
  zeros zero i = omega arith
  zeros (suc n) zero = omega arith
  zeros (suc n) (suc i) = zeros n i

  pub init-IsValid : IsValid init
  unfolding init
  init-IsValid = record { sized = refl; bytes = zeros 32; covered = tt }

  set_bit-lt : (b k : ℕ) → set_bit b k < 256
  unfolding set_bit
  set_bit-lt b k = omega arith

  module _ (v : A) (f : BloomFilter A) (h : IsValid f) where
    open h use {sized, bytes, covered}

    abbrev byte : ℕ
    byte = byte_offset (value_hash v)

    abbrev after : List ℕ
    after = set f.bit_array byte (set_bit (get_or f.bit_array byte 0) (bit_offset (value_hash v)))

    after_lem :
        (j : ℕ)
        → get_or after j 0 ≡ (
            if byte == j
            then set_bit (get_or f.bit_array byte 0) (bit_offset (value_hash v))
            else get_or f.bit_array j 0)
    after_lem j = get_or-set f.bit_array byte j _ 0 (omega arith)

    stays : (x : A) → IsCovered f.bit_array x → IsCovered after x
    unfolding bit_law
    stays x c = ground (
      arith,
      after_lem (byte_offset (value_hash x)),
      bit_law_holds (get_or f.bit_array byte 0) (bit_offset (value_hash v))
          (bit_offset (value_hash x)) (bytes byte) (omega arith) (omega arith),
    )

    added : IsCovered after v
    unfolding bit_law
    added = ground (
      arith,
      after_lem byte,
      bit_law_holds (get_or f.bit_array byte 0) (bit_offset (value_hash v))
          (bit_offset (value_hash v)) (bytes byte) (omega arith) (omega arith),
    )

    pub insert-IsValid : IsValid (insert_scalar value_eq value_hash v f)
    unfolding insert_scalar
    insert-IsValid = record {
      sized = length-set f.bit_array byte _ ∙ sized;
      bytes = λ i. ground (
        arith,
        after_lem i,
        bytes i,
        set_bit-lt (get_or f.bit_array byte 0) (bit_offset (value_hash v)),
      );
      covered = All-snoc _ f.data_values added (All-map stays f.data_values covered);
    }

  search_values-IsCovered :
      (o : IsHashed value_eq value_hash) (bits : List ℕ) (v : A) (xs : List A)
      → All (IsCovered bits) xs
      → search_values value_eq value_hash v xs ≡ true
      → IsCovered bits v
  unfolding search_values
  search_values-IsCovered o bits v [] h e = cc
  search_values-IsCovered o bits v (x ∷ xs) h e = elim (Bool-cases (value_eq v x)) [
    | inl same ↦ rw (o.hash_eq v x same) h.0
    | inr other ↦ search_values-IsCovered o bits v xs h.1 (ground (arith, other))
  ]

  search_values-any :
      (v : A) (xs : List A) → search_values value_eq value_hash v xs ≡ any (value_eq v) xs
  unfolding search_values
  search_values-any v [] = refl
  search_values-any v (x ∷ xs) = ground (arith, search_values-any v xs)

  -- On a valid filter `Exists` answers exactly whether an equal value was inserted.
  pub exists-any :
      IsHashed value_eq value_hash
      → (v : A) (f : BloomFilter A) → IsValid f
      → exists_scalar value_eq value_hash v f ≡ any (value_eq v) f.data_values
  unfolding exists_scalar
  exists-any o v f h = ground (
    arith,
    search_values-any v f.data_values,
    search_values-IsCovered o f.bit_array v f.data_values h.covered,
  )

  -- the filter after `Insert` of the values in turn
  abbrev pub insert_all : BloomFilter A → List A → BloomFilter A
  insert_all f [] = f
  insert_all f (v ∷ vs) = insert_all (insert_scalar value_eq value_hash v f) vs

  insert_all-IsValid : (f : BloomFilter A) (vs : List A) → IsValid f → IsValid (insert_all f vs)
  insert_all-IsValid f [] h = h
  insert_all-IsValid f (v ∷ vs) h =
      insert_all-IsValid (insert_scalar value_eq value_hash v f) vs (insert-IsValid v f h)

  insert_all-values :
      (f : BloomFilter A) (vs : List A) → (insert_all f vs).data_values ≡ f.data_values ++ vs
  unfolding insert_scalar
  insert_all-values f [] = sym (append-nil f.data_values)
  insert_all-values f (v ∷ vs) =
      insert_all-values (insert_scalar value_eq value_hash v f) vs
      ∙ append_assoc f.data_values (v ∷ []) vs

  -- Let equal values have equal hashes. After any sequence of insertions into a new filter, `Exists` answers exactly whether one of the
  -- inserted values is equal to `v`: no false negative, and, since the values themselves are searched
  -- where the bits are set, no false positive either.
  pub exists-insert_all :
      IsHashed value_eq value_hash
      → (v : A) (vs : List A)
      → exists_scalar value_eq value_hash v (insert_all init vs) ≡ any (value_eq v) vs
  unfolding init
  exists-insert_all o v vs =
      exists-any o v (insert_all init vs) (insert_all-IsValid init vs init-IsValid)
      ∙ ap (any (value_eq v)) (insert_all-values init vs)
