-- ===== src/Consolidate/Same.antt =====
-- `CollectAllValuesOnLeaf`: the new base node stands for the chain.
use multiprocessor_programmi.Prelude.{
  ℕ, ◌≡◌, ◌==◌, if◌then◌else◌, refl, sym, ap, ◌∙◌, inl, inr, true, false, List, Option, none, some,
  length, any, All, All-map, arith, Bool-cases,
}
use multiprocessor_programmi.Bloom
use multiprocessor_programmi.Bloom.Exact.{init-IsValid}
use multiprocessor_programmi.SmallSet
use multiprocessor_programmi.Leaf.{
  LeafChain, leaf, KeyValue, IndexPair, get_low_key_pair, get_high_key_pair, get_item_count,
}
use multiprocessor_programmi.Leaf.Navigate.{navigate}
use multiprocessor_programmi.Leaf.Point.{navigate-answer}
use multiprocessor_programmi.Leaf.Spec.{is_pair, holds, base_of, index_of, IsBelowHigh, IsValid}
use multiprocessor_programmi.Consolidate.{Collected, pair_eq, start_collect, consolidate}
use multiprocessor_programmi.Consolidate.Set.{below}
use multiprocessor_programmi.Consolidate.Collects.{IsReady, Collects}
use multiprocessor_programmi.Consolidate.Count.{length-same}
use multiprocessor_programmi.Consolidate.Listing.{
  listing, IsCounted, any-listing, listing-IsDistinct, listing_below, length-listing,
}
use multiprocessor_programmi.Consolidate.Joined.{none_at}
use multiprocessor_programmi.Consolidate.Chain.{IsCollectable, collect_values-Collects}

-- The new node stands for the chain: a base node with its range and its pairs.
pub record StandsFor (c c' : LeafChain) : Type 0 where
  pub items : List KeyValue
  pub is_base : c' ≡ leaf (get_low_key_pair c) (get_high_key_pair c) items
  pub valid : IsValid c'
  pub inside : All (λ y. IsBelowHigh (get_high_key_pair c) y.0) items
  pub pairs : (k v : ℕ) → IsBelowHigh (get_high_key_pair c) k → holds c' k v ≡ holds c k v
  pub size : length items ≡ get_item_count c

module _ (pair_hash : KeyValue → ℕ) where
  start_IsReady :
      (low : ℕ) (c : LeafChain)
      → IsReady pair_hash low (get_high_key_pair c) (base_of c) start_collect
  unfolding start_collect SmallSet.init Bloom.init
  start_IsReady low c = record {
    sorted = tt;
    single = tt;
    placed = tt;
    from_low = tt;
    valid = init-IsValid pair_eq pair_hash;
    met = λ k v l. refl;
  }

  -- The collected items are the pairs of the chain, so they are as many.
  collected_count :
      (c : LeafChain) (s : Collected)
      → IsValid c
      → IsCollectable 0 (get_high_key_pair c) c
      → IsCounted c
      → (p : Collects pair_hash 0 (get_high_key_pair c) (holds c) start_collect s)
      → length p.tail ≡ get_item_count c
  unfolding start_collect SmallSet.init
  collected_count c s v o n p =
      length-same p.tail (listing c) p.tail_distinct (listing-IsDistinct c v n) same_pairs
      ∙ sym (length-listing 0 (get_high_key_pair c) c v o n).0
    where
      same_pairs : (k w : ℕ) → any (is_pair k w) p.tail ≡ any (is_pair k w) (listing c)
      same_pairs k w = elim (Bool-cases (below (get_high_key_pair c) k)) [
        | inl b ↦ p.pairs k w (omega arith) b ∙ sym (any-listing c k w)
        | inr out ↦
            none_at _ k w p.tail p.bounds (λ y q e. ground (arith, q.1, e, out))
            ∙ sym (
                none_at _ k w (listing c) (listing_below 0 (get_high_key_pair c) c v o n)
                  (λ y q e. ground (arith, q, e, out)))
      ]

  -- Let the chain be well-formed, collectable and counted, and take any hash. The consolidation
  -- succeeds, and its result is a well-formed base node with the range and the item count of the chain
  -- that holds exactly the chain's pairs, and no key outside the range.
  pub consolidate-StandsFor :
      (c : LeafChain)
      → IsValid c
      → IsCollectable 0 (get_high_key_pair c) c
      → IsCounted c
      → (c' : LeafChain) × (consolidate pair_hash c ≡ some c') × StandsFor c c'
  unfolding consolidate start_collect SmallSet.init get_high_key_pair
  consolidate-StandsFor c v o n =
      let high = get_high_key_pair c in
      let (s, e, p) =
        collect_values-Collects pair_hash 0 high c start_collect v o (start_IsReady 0 c) in
      let size = ap (λ (l : List KeyValue). length l) p.appended ∙ collected_count c s v o n p in
      let test : (length s.new_items == get_item_count c) ≡ true = ground arith in
      (
        leaf (get_low_key_pair c) high s.new_items,
        rw (e, test, consolidate) refl,
        record {
          items = s.new_items;
          is_base = refl;
          valid = rw (p.appended) (p.tail_sorted, p.tail_distinct);
          inside = rw (p.appended) (All-map (λ y b. ground (arith, b.1)) p.tail p.bounds);
          pairs = λ k w b. rw (p.appended) (p.pairs k w (omega arith) (ground (arith, b)));
          size = size;
        },
      )

  -- Let the chain be well-formed, collectable and counted, and the key in its range. The search in the
  -- consolidated node finds the pair exactly if the search in the chain does.
  consolidate-navigate :
      (c : LeafChain) (k v : ℕ)
      → IsValid c
      → IsCollectable 0 (get_high_key_pair c) c
      → IsCounted c
      → IsBelowHigh (get_high_key_pair c) k
      → (c' : LeafChain) × (found : Option KeyValue) × (at at' : IndexPair) × (consolidate pair_hash
            c
          ≡ some c')
        × (navigate k v false c ≡ some (found, at))
        × (navigate k v false c' ≡ some (found, at'))
  unfolding get_high_key_pair
  consolidate-navigate c k v w o n b =
      let (c', e, p) = consolidate-StandsFor c w o n in
      let b' : IsBelowHigh (get_high_key_pair c') k = rw (p.is_base) b in
      (
        c',
        (if holds c k v then some (k, v) else none),
        index_of k v (base_of c k),
        index_of k v (base_of c' k),
        e,
        navigate-answer c k v w b,
        rw (p.pairs k v b) at (navigate-answer c' k v p.valid b'),
      )
