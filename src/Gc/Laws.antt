-- ===== src/Gc/Laws.antt =====
-- What the collection frees, and that no node is freed that a thread may still reach.
use multiprocessor_programmi.Prelude.{
  ℕ, ◌-◌, ◌≤◌, ◌<◌, ◌≡◌, ◌≢◌, ◌⊎◌, inl, inr, refl, ◌==◌, ltb, Bool, false, List, [], ◌∷◌, ◌++◌, min,
  All, All-map, length, map, arith, Bool-cases, any, ap, ◌∙◌,
}
use multiprocessor_programmi.Gc.{
  GarbageNode, GcMetaData, header, reset_last, min_epoch_loop, summarize_gc_epoch, free_loop,
  perform_gc,
}

min_epoch_loop-le :
    (e : ℕ) (metas : List GcMetaData)
    → (min_epoch_loop e metas ≤ e) × All (λ m. min_epoch_loop e metas ≤ m.last_active_epoch) metas
unfolding min_epoch_loop
min_epoch_loop-le e [] = (omega arith, tt)
min_epoch_loop-le e (m ∷ metas) =
    let (low, all) = min_epoch_loop-le (min m.last_active_epoch e) metas in
    (omega (arith, low), (omega (arith, low), all))

-- `SummarizeGCEpoch` is at most the last active epoch of every thread.
summarize-le :
    (first : GcMetaData) (others : List GcMetaData)
    → All (λ m. summarize_gc_epoch first others ≤ m.last_active_epoch) (first ∷ others)
unfolding summarize_gc_epoch
summarize-le first others =
    let (low, all) = min_epoch_loop-le first.last_active_epoch others in (low, all)

-- The place of the last node, the header's for the empty list.
abbrev pub last_address : List GarbageNode → ℕ
last_address [] = header
last_address (x ∷ []) = x.address
last_address (x ∷ y ∷ xs) = last_address (y ∷ xs)

abbrev has_address : ℕ → GarbageNode → Bool
has_address a x = x.address == a

-- The addresses are distinct, and none is the header's.
abbrev pub IsLinked : List GarbageNode → Type 0
IsLinked [] = Unit
IsLinked (x ∷ xs) =
    (x.address ≢ header)
    × (any (λ (y : GarbageNode). y.address == x.address) xs ≡ false)
    × IsLinked xs

pub record IsValid (meta : GcMetaData) : Type 0 where
  pub linked : IsLinked meta.nodes
  pub last : meta.last_p ≡ last_address meta.nodes
  pub counted : meta.node_count ≡ length meta.nodes

-- What `PerformGC` does: it frees a prefix of the list, all before the epoch, and stops at the first
-- node that is not.
pub record Frees (min_epoch : ℕ) (nodes kept : List GarbageNode) (freed : List ℕ) : Type 0 where
  pub gone : List GarbageNode
  pub parts : gone ++ kept ≡ nodes
  pub nodes_freed : freed ≡ map (λ (x : GarbageNode). x.node_p) gone
  pub old : All (λ x. x.delete_epoch < min_epoch) gone
  pub stops :
      (kept ≡ [])
      ⊎ ((x : GarbageNode) × (xs : List GarbageNode) × (kept ≡ x ∷ xs)
          × (min_epoch ≤ x.delete_epoch))

free_loop-Frees :
    (e n : ℕ) (nodes : List GarbageNode)
    → Frees e nodes (free_loop e n nodes).kept (free_loop e n nodes).freed
unfolding free_loop
free_loop-Frees e n [] = record {
  gone = [];
  parts = refl;
  nodes_freed = refl;
  old = tt;
  stops = inl refl;
}
free_loop-Frees e n (x ∷ xs) = elim (Bool-cases (ltb x.delete_epoch e)) [
  | inl old ↦
      let r = free_loop-Frees e (n - 1) xs in
      rw old (record {
        gone = x ∷ r.gone;
        parts = ap (◌∷◌ x) r.parts;
        nodes_freed = ap (◌∷◌ x.node_p) r.nodes_freed;
        old = (ground arith, r.old);
        stops = r.stops;
      })
  | inr young ↦ rw young (record {
    gone = [];
    parts = refl;
    nodes_freed = refl;
    old = tt;
    stops = inr (x, xs, refl, ground arith);
  })
]

-- `kept` is the list behind a prefix.
last_address-append :
    (gone kept : List GarbageNode) → kept ≢ [] → last_address (gone ++ kept) ≡ last_address kept
last_address-append [] kept h = refl
last_address-append (x ∷ []) [] h = absurd (h refl)
last_address-append (x ∷ []) (y ∷ kept) h = refl
last_address-append (x ∷ x' ∷ gone) kept h = last_address-append (x' ∷ gone) kept h

IsLinked-append : (gone kept : List GarbageNode) → IsLinked (gone ++ kept) → IsLinked kept
IsLinked-append [] kept h = h
IsLinked-append (x ∷ gone) kept h = IsLinked-append gone kept h.2

free_loop-count :
    (e n : ℕ) (nodes : List GarbageNode)
    → n ≡ length nodes
    → (free_loop e n nodes).count ≡ length (free_loop e n nodes).kept
unfolding free_loop
free_loop-count e n [] h = h
free_loop-count e n (x ∷ xs) h = ground (arith, free_loop-count e (n - 1) xs (omega arith))

reset-last_address :
    (gone kept : List GarbageNode) (last_p : ℕ)
    → last_p ≡ last_address (gone ++ kept)
    → reset_last kept last_p ≡ last_address kept
reset-last_address gone [] last_p e = refl
reset-last_address gone (x ∷ kept) last_p e = e ∙ last_address-append gone (x ∷ kept) (λ f. cc)

-- On a well-formed list `PerformGC` frees exactly the nodes up to the first one that was not removed before the epoch, and
-- keeps the list well-formed: `last_p` at its last node, or at the header if it is empty, and the
-- count right.
pub perform_gc-Frees :
    (e : ℕ) (meta : GcMetaData)
    → IsValid meta
    → IsValid (perform_gc e meta).0
      × Frees e meta.nodes (perform_gc e meta).0.nodes (perform_gc e meta).1
unfolding perform_gc
perform_gc-Frees e meta h =
    let f = free_loop-Frees e meta.node_count meta.nodes in
    (
      record {
        linked =
            IsLinked-append f.gone (free_loop e meta.node_count meta.nodes).kept
              (rw f.parts h.linked);
        last =
            reset-last_address f.gone (free_loop e meta.node_count meta.nodes).kept meta.last_p
              (rw f.parts h.last);
        counted = free_loop-count e meta.node_count meta.nodes h.counted;
      },
      f,
    )

-- A collection with the epoch of `SummarizeGCEpoch` frees a prefix of the thread's list, and every node
-- in it was removed before the last active epoch of each of the threads, so no thread that is still
-- active in the epoch of the removal or an earlier one loses it.
perform_gc-keeps_active :
    (first : GcMetaData) (others : List GcMetaData) (meta : GcMetaData)
    → let result = perform_gc (summarize_gc_epoch first others) meta in
      (gone : List GarbageNode) × (gone ++ result.0.nodes ≡ meta.nodes)
      × (result.1 ≡ map (λ (x : GarbageNode). x.node_p) gone)
      × All (λ x. All (λ m. x.delete_epoch < m.last_active_epoch) (first ∷ others)) gone
unfolding perform_gc
perform_gc-keeps_active first others meta =
    let e = summarize_gc_epoch first others in
    let f = free_loop-Frees e meta.node_count meta.nodes in
    (
      f.gone,
      f.parts,
      f.nodes_freed,
      All-map
          (λ x old.
            All-map (λ m low. omega (arith, old, low)) (first ∷ others) (summarize-le first others))
          f.gone f.old,
    )
