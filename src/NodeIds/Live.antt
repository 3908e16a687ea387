-- ===== src/NodeIds/Live.antt =====
-- No id is handed out while it is in use.
use multiprocessor_programmi.Prelude.{
  ℕ, suc, ◌+◌, ◌%◌, ◌^◌, ◌≤◌, ◌<◌, ◌≡◌, refl, inl, inr, List, [], ◌∷◌, ◌++◌, Option, none, some,
  false, leb, ◌≢◌, ◌==◌, ltb, if◌then◌else◌, count, count-append, arith, Bool-cases,
}
use multiprocessor_programmi.Leaf.{NodeId, invalid_node_id}
use multiprocessor_programmi.Stack.{update}
use mathlib.Core.Path.{subst}
use mathlib.Core.Option.{some-injective}
use multiprocessor_programmi.NodeIds.{
  NodeIds, mapping_table_size, get_node, get_next_node_id, invalidate_node_id, install_new_node,
  Reach, start, handed, installed, invalidated,
}

-- Every id that was handed out once is in use or in the list, once; the others are nowhere. The entry
-- of an id that is not in use is empty.
record Inv (s : NodeIds) (live : List NodeId) (n : ℕ) : Type 0 where
  positive : 0 < s.next_unused_node_id
  bounded : s.next_unused_node_id ≤ suc n
  once :
      (id : NodeId)
      → count (◌==◌ id) live + count (◌==◌ id) s.node_id_list
        ≡ (if ltb id s.next_unused_node_id then (if id == 0 then 0 else 1) else 0)
  empty : (id : NodeId) → count (◌==◌ id) live ≡ 0 → s.mapping_table id ≡ none

handed-Inv :
    (next n : ℕ) (ids live : List NodeId) (table : NodeId → Option ℕ)
    → n < 2 ^ 63
    → Inv (record { next_unused_node_id = next; node_id_list = ids; mapping_table = table }) live n
    → Inv
        (get_next_node_id
          (record { next_unused_node_id = next; node_id_list = ids; mapping_table = table })).1
        ((get_next_node_id
            (record { next_unused_node_id = next; node_id_list = ids; mapping_table = table })).0
          ∷ live)
        (suc n)
unfolding get_next_node_id
handed-Inv next n [] live table few i = record {
  positive = omega (arith, i.positive, i.bounded, few);
  bounded = omega (arith, i.bounded, few);
  once = λ id.
      let small : (next + 1) % 2 ^ 64 ≡ next + 1 = omega (arith, i.bounded, few) in
      rw small (ground (arith, i.once id, i.positive));
  empty = λ id h. i.empty id (omega (arith, h));
}
handed-Inv next n (x ∷ ids) live table few i = record {
  positive = i.positive;
  bounded = omega (arith, i.bounded);
  once = λ id. omega (arith, i.once id);
  empty = λ id h. i.empty id (omega (arith, h));
}

abbrev with_entry : NodeId → Option ℕ → List NodeId → NodeIds → NodeIds
with_entry id entry ids s = record s {
  mapping_table = update s.mapping_table id entry;
  node_id_list = s.node_id_list ++ ids;
}

installed_state :
    (id : NodeId) (node_p : ℕ) (s s' : NodeIds)
    → install_new_node id node_p s ≡ some s'
    → record s { mapping_table = update s.mapping_table id (some node_p) } ≡ s'
unfolding install_new_node
installed_state id node_p s s' e = elim (Bool-cases (leb mapping_table_size id)) [
  | inl outside ↦ absurd (ground (arith, rw outside at e))
  | inr within ↦ some-injective _ _ (rw within at e)
]

invalidated_state :
    (id : NodeId) (s s' : NodeIds)
    → invalidate_node_id id s ≡ some s'
    → with_entry id none (id ∷ []) s ≡ s'
unfolding invalidate_node_id
invalidated_state id s s' e = elim (Bool-cases (leb mapping_table_size id)) [
  | inl outside ↦ absurd (ground (arith, rw outside at e))
  | inr within ↦ some-injective _ _ (rw within at e)
]

installed-Inv :
    (s : NodeIds) (before after : List NodeId) (id : NodeId) (node_p n : ℕ)
    → Inv s (before ++ id ∷ after) n
    → Inv
        (record s { mapping_table = update s.mapping_table id (some node_p) })
        (before ++ id ∷ after)
        n
installed-Inv s before after id node_p n i = record {
  positive = i.positive;
  bounded = i.bounded;
  once = i.once;
  empty = λ k h. elim (Bool-cases (id == k)) [
    | inl this ↦ absurd (ground (arith, count-append (◌==◌ k) before (id ∷ after)))
    | inr other ↦ rw other (i.empty k h)
  ];
}

invalidated-Inv :
    (s : NodeIds) (before after : List NodeId) (id : NodeId) (n : ℕ)
    → Inv s (before ++ id ∷ after) n
    → Inv (with_entry id none (id ∷ []) s) (before ++ after) n
invalidated-Inv s before after id n i = record {
  positive = i.positive;
  bounded = i.bounded;
  once = λ k. omega (
    arith,
    i.once k,
    count-append (◌==◌ k) before (id ∷ after),
    count-append (◌==◌ k) before after,
    count-append (◌==◌ k) s.node_id_list (id ∷ []),
  );
  empty = λ k h. elim (Bool-cases (id == k)) [
    | inl this ↦ rw this refl
    | inr other ↦ rw other (
        i.empty k (
          ground
            (arith, count-append (◌==◌ k) before (id ∷ after), count-append (◌==◌ k) before after)))
  ];
}

reach-Inv : (s : NodeIds) (live : List NodeId) (n : ℕ) → n < 2 ^ 63 → Reach s live n → Inv s live n
reach-Inv s live n few start = record {
  positive = omega arith;
  bounded = omega arith;
  once = λ id. ground arith;
  empty = λ id h. refl;
}
reach-Inv s live n few (handed {s = s'} {live = live'} {n = n'} r) =
    handed-Inv s'.next_unused_node_id n' s'.node_id_list live' s'.mapping_table (omega arith)
      (reach-Inv s' live' n' (omega arith) r)
reach-Inv s live n few (installed {s = s'} before after id node_p r e) =
    subst (λ t. Inv t live n) (installed_state id node_p s' s e)
      (installed-Inv s' before after id node_p n (reach-Inv s' (before ++ id ∷ after) n few r))
reach-Inv s live n few (invalidated {s = s'} before after id r e) =
    subst (λ t. Inv t live n) (invalidated_state id s' s e)
      (invalidated-Inv s' before after id n (reach-Inv s' (before ++ id ∷ after) n few r))

-- An id in the table, not in use, with no node.
allowed :
    (t : NodeIds) (id : NodeId) (node_p : ℕ)
    → 0 < id
    → id < mapping_table_size
    → t.mapping_table id ≡ none
    → (get_node id t ≡ some none)
      × (install_new_node id node_p t ≢ none)
      × (invalidate_node_id id t ≢ none)
unfolding get_node install_new_node invalidate_node_id
allowed t id node_p pos small nothing =
    let within : leb mapping_table_size id ≡ false = ground (arith, small) in
    let valid : (id == invalid_node_id) ≡ false = ground (arith, pos) in
    (
      rw (within, valid, nothing) refl,
      (λ e. ground (arith, within, e)),
      (λ e. ground (arith, within, e)),
    )

-- Let MAPPING_TABLE_SIZE - 2 calls of GetNextNodeID or fewer lead to a state, whichever ids are
-- invalidated in between. The next call returns an id that is not in use and lies in the table:
-- GetNode of it passes its assertions and finds no node, and InstallNewNode and InvalidateNodeID of it
-- access the table within its bounds.
pub get_next_node_id-unused :
    (s : NodeIds) (live : List NodeId) (n node_p : ℕ)
    → suc n < mapping_table_size
    → Reach s live n
    → (count (◌==◌ (get_next_node_id s).0) live ≡ 0)
      × (get_node (get_next_node_id s).0 (get_next_node_id s).1 ≡ some none)
      × (install_new_node (get_next_node_id s).0 node_p (get_next_node_id s).1 ≢ none)
      × (invalidate_node_id (get_next_node_id s).0 (get_next_node_id s).1 ≢ none)
unfolding get_next_node_id
get_next_node_id-unused s live n node_p few r =
    let i = reach-Inv s live n (omega (arith, few)) r in
    unused s.next_unused_node_id s.node_id_list s.mapping_table i
  where
    unused :
        (next : ℕ) (ids : List NodeId) (table : NodeId → Option ℕ)
        → let t : NodeIds = record {
          next_unused_node_id = next;
          node_id_list = ids;
          mapping_table = table;
        } in
          Inv t live n
          → (count (◌==◌ (get_next_node_id t).0) live ≡ 0)
            × (get_node (get_next_node_id t).0 (get_next_node_id t).1 ≡ some none)
            × (install_new_node (get_next_node_id t).0 node_p (get_next_node_id t).1 ≢ none)
            × (invalidate_node_id (get_next_node_id t).0 (get_next_node_id t).1 ≢ none)
    unused next [] table i =
        let alone : count (◌==◌ next) live ≡ 0 = ground (arith, i.once next) in
        let (found, installs, invalidates) =
          allowed _ next node_p i.positive (omega (arith, i.bounded, few)) (i.empty next alone) in
        (alone, found, installs, invalidates)
    unused next (x ∷ ids) table i =
        let alone : count (◌==◌ x) live ≡ 0 = ground (arith, i.once x) in
        let below : x < next = ground (arith, i.once x) in
        let (found, installs, invalidates) =
          allowed _ x node_p (ground (arith, i.once x)) (omega (arith, below, i.bounded, few))
            (i.empty x alone) in
        (alone, found, installs, invalidates)
