-- ===== src/Epoch/FreeChain/Frees.antt =====
-- A chain without a merge is freed as a whole, each node once; with a merge, its merge node is destructed
-- after its memory is freed.
use multiprocessor_programmi.Prelude.{
  ℕ, true, false, ◌⊎◌, zero, suc, ◌≤◌, ◌≡◌, refl, ap, ◌∙◌, inl, inr, [], ◌∷◌, ◌++◌, none, some,
  ◌==◌, if◌then◌else◌, arith, Bool-cases,
}
use multiprocessor_programmi.Epoch.FreeChain.{
  Memory, release, recycle, destroy, returns, fault, BaseNode, case_of, frees_both,
  free_epoch_delta_chain,
}
use multiprocessor_programmi.Epoch.FreeChain.Owned.{
  Shape, has_merge, ends_at, frees, aborted, base, removed, above, joins, top, has, removed_ids,
  depth, depth_positive, case_at, IsChain, IsChain-kept,
}

module _ (chunk_of : ℕ → ℕ) where
  pub record Frees (m m' : Memory) (s : Shape) : Type 0 where
    pub nodes : (a : ℕ) → m'.node_at a ≡ (if frees chunk_of s a then none else m.node_at a)
    pub ids : m'.invalidated ≡ removed_ids s ++ m.invalidated

  -- The result of FreeEpochDeltaChain.
  abbrev pub Outcome : ℕ → Memory → Shape → Type 0
  Outcome fuel m s =
      ((has_merge s ≡ true) × (free_epoch_delta_chain chunk_of fuel (top s) m ≡ fault))
      ⊎ ((has_merge s ≡ false)
          × (m' : Memory) × (free_epoch_delta_chain chunk_of fuel (top s) m ≡ returns m')
          × Frees m m' s)

  -- The right part of a merge, after the left one is freed.
  right_kept :
      (m m' : Memory) (s t : Shape)
      → Frees m m' s
      → ((a : ℕ) → has a t ≡ true → frees chunk_of s a ≡ false)
      → IsChain chunk_of m t
      → IsChain chunk_of m' t
  right_kept m m' s t f disjoint h =
      IsChain-kept chunk_of m m' t (λ a i. f.nodes a ∙ rw (disjoint a i) refl) h

  -- What the call for a merge node gives, after the call for its left part.
  joined-Outcome :
      (fuel p : ℕ) (s t : Shape) (m m1 : Memory) (node : BaseNode)
      → m.node_at p ≡ some node
      → case_of node ≡ frees_both (top s) (top t)
      → ends_at t (chunk_of p) ≡ true
      → free_epoch_delta_chain chunk_of fuel (top s) m ≡ returns m1
      → Outcome fuel m1 t
      → free_epoch_delta_chain chunk_of (suc fuel) p m ≡ fault
  unfolding free_epoch_delta_chain
  joined-Outcome fuel p s t m m1 node here c inside found (inl (more, stuck)) =
      rw (free_epoch_delta_chain, here, c, found, stuck) refl
  joined-Outcome fuel p s t m m1 node here c inside found (inr (one, m2, found', f)) =
      let gone : m2.node_at p ≡ none = f.nodes p ∙ ground (arith, inside) in
      rw (free_epoch_delta_chain, here, c, found, found', gone) refl

  -- Let a chain stand in memory, no node twice, each merge node in the chunks of the base node of its
  -- right part, where it is allocated, and no other node of a right part in those of the left one. Let
  -- the fuel be as much as the depth of the chain. If there is no merge node in the chain, the loop
  -- of FreeEpochDeltaChain ends without an access to a destructed or freed node; after it exactly the
  -- nodes of the chain are gone, with all that is in the chunks of its base node, those below its remove
  -- and abort nodes not, and the ids of its remove nodes are invalidated, each once. If there is one,
  -- the function accesses a node whose memory is freed.
  pub free_epoch_delta_chain-Frees :
      (s : Shape) (m : Memory) (fuel : ℕ) → IsChain chunk_of m s → depth s ≤ fuel → Outcome fuel m s
  unfolding free_epoch_delta_chain
  free_epoch_delta_chain-Frees s m zero h le = absurd (omega (arith, le, depth_positive s))
  free_epoch_delta_chain-Frees (base p) m (suc fuel) (node, here, e, e', e'') le =
      let c = case_at node [] none true e e' e'' in
      inr (
        refl,
        destroy chunk_of p m,
        rw (free_epoch_delta_chain, here, c) refl,
        record { nodes = λ a. ground arith; ids = refl },
      )
  free_epoch_delta_chain-Frees (removed p id) m (suc fuel) (node, here, e, e', e'') le =
      let c = case_at node [] (some id) false e e' e'' in
      inr (
        refl,
        release p (recycle id m),
        rw (free_epoch_delta_chain, here, c) refl,
        record { nodes = λ a. ground arith; ids = refl },
      )
  free_epoch_delta_chain-Frees (aborted p) m (suc fuel) (node, here, e, e', e'') le =
      let c = case_at node [] none false e e' e'' in
      inr (
        refl,
        release p m,
        rw (free_epoch_delta_chain, here, c) refl,
        record { nodes = λ a. ground arith; ids = refl },
      )
  free_epoch_delta_chain-Frees (above p s) m (suc fuel) ((node, here, e, e', e''), apart, h) le =
      let c = case_at node (top s ∷ []) none false e e' e'' in
      let left =
        IsChain-kept chunk_of m (release p m) s
          (λ a i. elim (Bool-cases (p == a)) [
            | inl this ↦
                let same : p ≡ a = ground arith in absurd (ground (arith, ap (λ b. has b s) same))
            | inr other ↦ rw other refl
          ])
          h in
      elim (free_epoch_delta_chain-Frees s (release p m) fuel left (omega (arith, le))) [
        | inl (more, stuck) ↦ inl (more, rw (free_epoch_delta_chain, here, c) stuck)
        | inr (one, m', found, f) ↦ inr (
          one,
          m',
          rw (free_epoch_delta_chain, here, c) found,
          record { nodes = λ a. f.nodes a ∙ ground arith; ids = f.ids },
        )
      ]
  free_epoch_delta_chain-Frees (joins p s t) m (suc fuel)
        ((node, here, e, e', e''), inside, disjoint, h, k) le =
      let c = case_at node (top s ∷ top t ∷ []) none false e e' e'' in
      elim (free_epoch_delta_chain-Frees s m fuel h (omega (arith, le))) [
        | inl (more, stuck) ↦ inl (refl, rw (free_epoch_delta_chain, here, c, stuck) refl)
        | inr (one, m1, found, f) ↦ inl (
          refl,
          joined-Outcome fuel p s t m m1 node here c inside found (
              free_epoch_delta_chain-Frees t m1 fuel (right_kept m m1 s t f disjoint k)
                (omega (arith, le))),
        )
      ]
