-- ===== src/Gc/Add.antt =====
-- `AddGarbageNode`: the new node goes to the end of the list, and no other is lost.
use multiprocessor_programmi.Prelude.{
  ℕ, ◌+◌, ◌≤◌, ◌<◌, ◌≡◌, ◌≢◌, ◌⊎◌, inl, inr, refl, ◌==◌, ltb, true, false, List, [], ◌∷◌, ◌++◌,
  length-append, arith, Bool-cases, any, any-append, sym,
}
use mathlib.Core.Path.{subst}
use multiprocessor_programmi.Gc.{
  GarbageNode, GcMetaData, header, link_after, link, add_garbage_node, gc_node_count_threshold,
}
use multiprocessor_programmi.Gc.Laws.{last_address, IsLinked, IsValid, Frees, perform_gc-Frees}

any-last_address :
    (x : GarbageNode) (xs : List GarbageNode)
    → any (λ (y : GarbageNode). y.address == last_address (x ∷ xs)) (x ∷ xs) ≡ true
any-last_address x [] = ground arith
any-last_address x (y ∷ xs) = ground (arith, any-last_address y xs)

link_after-append :
    (node x : GarbageNode) (xs : List GarbageNode)
    → IsLinked (x ∷ xs)
    → link_after (last_address (x ∷ xs)) node (x ∷ xs) ≡ (x ∷ xs) ++ node ∷ []
unfolding link_after
link_after-append node x [] h = ground arith
link_after-append node x (y ∷ xs) h = elim (Bool-cases (x.address == last_address (y ∷ xs))) [
  | inl same ↦
      let e : x.address ≡ last_address (y ∷ xs) = ground arith in
      let other : any (λ (z : GarbageNode). z.address == last_address (y ∷ xs)) (y ∷ xs) ≡ false =
        subst (λ (a : ℕ). any (λ (z : GarbageNode). z.address == a) (y ∷ xs) ≡ false) e h.1 in
      absurd (ground (arith, any-last_address y xs))
  | inr other ↦ ground (arith, link_after-append node y xs h.2)
]

last_address-ne :
    (x : GarbageNode) (xs : List GarbageNode) → IsLinked (x ∷ xs) → last_address (x ∷ xs) ≢ header
last_address-ne x [] h = h.0
last_address-ne x (y ∷ xs) h = last_address-ne y xs h.2

link-append :
    (last_p : ℕ) (node : GarbageNode) (nodes : List GarbageNode)
    → IsLinked nodes
    → last_p ≡ last_address nodes
    → link last_p node nodes ≡ nodes ++ node ∷ []
unfolding link
link-append last_p node [] h e = rw e refl
link-append last_p node (x ∷ xs) h e =
    let ne = last_address-ne x xs h in
    let test : (last_address (x ∷ xs) == header) ≡ false = ground arith in
    subst (λ (l : ℕ). link l node (x ∷ xs) ≡ (x ∷ xs) ++ node ∷ []) (sym e)
      (rw test (link_after-append node x xs h))

IsLinked-snoc :
    (node : GarbageNode) (nodes : List GarbageNode)
    → IsLinked nodes
    → node.address ≢ header
    → any (λ (y : GarbageNode). y.address == node.address) nodes ≡ false
    → IsLinked (nodes ++ node ∷ [])
IsLinked-snoc node [] h ne new = (ne, refl, tt)
IsLinked-snoc node (x ∷ xs) h ne new = (
  h.0,
  ground (arith, any-append (λ (y : GarbageNode). y.address == x.address) xs (node ∷ [])),
  IsLinked-snoc node xs h.2 ne (ground arith),
)

last_address-snoc :
    (node : GarbageNode) (nodes : List GarbageNode)
    → last_address (nodes ++ node ∷ []) ≡ node.address
last_address-snoc node [] = refl
last_address-snoc node (x ∷ []) = refl
last_address-snoc node (x ∷ y ∷ xs) = last_address-snoc node (y ∷ xs)

-- What `AddGarbageNode` does: the node goes to the end of the list, or, where the list gets longer than
-- the threshold, the collection runs on that list.
abbrev pub Adds : ℕ → GcMetaData → List GarbageNode → GcMetaData × List ℕ → Type 0
Adds e meta nodes result =
    ((meta.node_count < gc_node_count_threshold) × (result.0.nodes ≡ nodes) × (result.1 ≡ []))
    ⊎ ((gc_node_count_threshold ≤ meta.node_count) × Frees e nodes result.0.nodes result.1)

-- `AddGarbageNode` puts a node with a new address at the end of a well-formed list, and never loses another: up
-- to the threshold nothing is freed, above it exactly what `PerformGC` frees. The list stays
-- well-formed.
pub add_garbage_node-Adds :
    (address epoch node_p e : ℕ) (meta : GcMetaData)
    → IsValid meta
    → address ≢ header
    → any (λ (y : GarbageNode). y.address == address) meta.nodes ≡ false
    → IsValid (add_garbage_node address epoch node_p e meta).0
      × Adds e meta
          (meta.nodes ++ record { address = address; delete_epoch = epoch; node_p = node_p } ∷ [])
          (add_garbage_node address epoch node_p e meta)
unfolding add_garbage_node
add_garbage_node-Adds address epoch node_p e meta h ne new =
    elim (Bool-cases (ltb gc_node_count_threshold (meta.node_count + 1))) [
      | inl full ↦
          rw (full, appended)
            (let (v, f) = perform_gc-Frees e added valid in (v, inr (ground arith, f)))
      | inr room ↦ rw (room, appended) (valid, inl (ground arith, refl, refl))
    ]
  where
    node : GarbageNode
    node = record { address = address; delete_epoch = epoch; node_p = node_p }

    appended : link meta.last_p node meta.nodes ≡ meta.nodes ++ node ∷ []
    appended = link-append meta.last_p node meta.nodes h.linked h.last

    added : GcMetaData
    added = record meta {
      nodes = meta.nodes ++ node ∷ [];
      last_p = address;
      node_count = meta.node_count + 1;
    }

    valid : IsValid added
    valid = record {
      linked = IsLinked-snoc node meta.nodes h.linked ne new;
      last = sym (last_address-snoc node meta.nodes);
      counted = omega (arith, h.counted, length-append meta.nodes (node ∷ []));
    }
