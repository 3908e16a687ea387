-- ===== src/Leaf/Update.antt =====
-- One round of `Insert` and `Delete` at the leaf: the search, and the data node that it prepares.
use multiprocessor_programmi.Prelude.{
  ℕ, ◌≡◌, refl, Bool, true, false, not, Option, none, some, if◌then◌else◌, arith, Bool-cases, inl,
  inr,
}
use multiprocessor_programmi.Leaf.{
  LeafChain, leaf_insert, leaf_delete, get_low_key_pair, get_high_key_pair,
}
use multiprocessor_programmi.Leaf.Navigate.{navigate}
use multiprocessor_programmi.Leaf.Spec.{is_pair, holds, base_of, index_of, IsBelowHigh, IsValid}
use multiprocessor_programmi.Leaf.Point.{navigate-answer}

-- The body of the loop of `Insert`: what it returns, and the node that it would install. Where the
-- item is found nothing is installed: the node stays.
unfoldable pub insert_round : ℕ → ℕ → Bool → LeafChain → Option (Bool × LeafChain)
insert_round key value unique_key node_p = elim (navigate key value unique_key node_p) [
  | none ↦ none
  | some (some item_p, index_pair) ↦ some (false, node_p)
  | some (none, index_pair) ↦ some (true, leaf_insert (key, value) index_pair node_p)
]

-- The body of the loop of `Delete`.
unfoldable pub delete_round : ℕ → ℕ → LeafChain → Option (Bool × LeafChain)
delete_round key value node_p = elim (navigate key value false node_p) [
  | none ↦ none
  | some (none, index_pair) ↦ some (false, node_p)
  | some (some item_p, index_pair) ↦ some (true, leaf_delete (key, value) index_pair node_p)
]

-- What an update to `after` changes: the pair is held as `present` says, every other pair as before,
-- over the same range of keys.
pub record Updates (key value : ℕ) (present : Bool) (before after : LeafChain) : Type 0 where
  pub pairs :
      (k v : ℕ) → holds after k v ≡ (if is_pair k v (key, value) then present else holds before k v)
  pub same_high : get_high_key_pair after ≡ get_high_key_pair before
  pub same_low : get_low_key_pair after ≡ get_low_key_pair before
  pub kept : IsValid after

-- A round of `Insert` on a well-formed chain whose range holds the key succeeds exactly if the pair is
-- not there, and in both cases the chain that results is well-formed and holds the pair besides all
-- that it held.
pub insert_round-Updates :
    (key value : ℕ) (c : LeafChain)
    → IsValid c
    → IsBelowHigh (get_high_key_pair c) key
    → (after : LeafChain) × (insert_round key value false c ≡ some (not (holds c key value), after))
      × Updates key value true c after
unfolding insert_round get_high_key_pair get_low_key_pair
insert_round-Updates key value c h b = elim (Bool-cases (holds c key value)) [
  | inl found ↦ (
    c,
    rw (navigate-answer c key value h b, found, insert_round),
    record { pairs = λ k v. ground arith; same_high = refl; same_low = refl; kept = h },
  )
  | inr absent ↦ (
    leaf_insert (key, value) (index_of key value (base_of c key)) c,
    rw (navigate-answer c key value h b, absent, insert_round),
    record { pairs = λ k v. ground arith; same_high = refl; same_low = refl; kept = (refl, b, h) },
  )
]

-- A round of `Delete` on a well-formed chain whose range holds the key succeeds exactly if the pair is
-- there, and in both cases the chain that results is well-formed, over the same range, does not hold the pair, and holds all others as before.
pub delete_round-Updates :
    (key value : ℕ) (c : LeafChain)
    → IsValid c
    → IsBelowHigh (get_high_key_pair c) key
    → (after : LeafChain) × (delete_round key value c ≡ some (holds c key value, after))
      × Updates key value false c after
unfolding delete_round get_high_key_pair get_low_key_pair
delete_round-Updates key value c h b = elim (Bool-cases (holds c key value)) [
  | inl found ↦ (
    leaf_delete (key, value) (index_of key value (base_of c key)) c,
    rw (navigate-answer c key value h b, found, delete_round),
    record { pairs = λ k v. ground arith; same_high = refl; same_low = refl; kept = (refl, b, h) },
  )
  | inr absent ↦ (
    c,
    rw (navigate-answer c key value h b, absent, delete_round),
    record { pairs = λ k v. ground arith; same_high = refl; same_low = refl; kept = h },
  )
]
