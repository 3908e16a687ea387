-- ===== src/Epoch/FreeChain/Owned.antt =====
-- The nodes that a delta chain is made of, and what it is for a chain to stand in memory.
use multiprocessor_programmi.Prelude.{
  ℕ, suc, ◌<◌, ◌≡◌, refl, ◌∙◌, Bool, true, false, ◌||◌, List, [], ◌∷◌, ◌++◌, Option, none, some,
  ◌==◌, max, arith,
}
use multiprocessor_programmi.Leaf.{NodeId}
use multiprocessor_programmi.Epoch.FreeChain.{
  BaseNode, leaf_insert, leaf_delete, leaf_split, leaf_merge, leaf_remove, leaf, inner_insert,
  inner_delete, inner_split, inner_merge, inner_remove, inner, inner_abort, Memory, Case, goes_on,
  frees_both, recycles, ends, destroys, case_of,
}

-- The nodes that belong to a chain, by their addresses: down to a base node, a remove node or
-- an abort node, and both parts of a merge.
pub data Shape : Type 0 where
  base : (p : ℕ) → Shape
  removed : (p : ℕ) (id : NodeId) → Shape
  aborted : (p : ℕ) → Shape
  above : (p : ℕ) → Shape → Shape
  joins : (p : ℕ) → Shape → Shape → Shape

abbrev pub top : Shape → ℕ
top (base p) = p
top (removed p id) = p
top (aborted p) = p
top (above p s) = p
top (joins p s t) = p

abbrev pub has : ℕ → Shape → Bool
has a (base p) = p == a
has a (removed p id) = p == a
has a (aborted p) = p == a
has a (above p s) = p == a || has a s
has a (joins p s t) = p == a || has a s || has a t

-- the ids of its remove nodes, in the order in which they are met last first
abbrev pub removed_ids : Shape → List NodeId
removed_ids (base p) = []
removed_ids (removed p id) = id ∷ []
removed_ids (aborted p) = []
removed_ids (above p s) = removed_ids s
removed_ids (joins p s t) = removed_ids t ++ removed_ids s

abbrev pub depth : Shape → ℕ
depth (base p) = 1
depth (removed p id) = 1
depth (aborted p) = 1
depth (above p s) = suc (depth s)
depth (joins p s t) = suc (max (depth s) (depth t))

-- The nodes that belong to a chain through a node of it: its child and the right part of a merge. What
-- is below a remove node belongs to the chain that it was merged into, what is below an abort node to
-- the chain that goes on without it.
abbrev pub owned : BaseNode → List ℕ
owned (leaf_insert child_node_p) = child_node_p ∷ []
owned (leaf_delete child_node_p) = child_node_p ∷ []
owned (leaf_split child_node_p) = child_node_p ∷ []
owned (leaf_merge child_node_p right_merge_p) = child_node_p ∷ right_merge_p ∷ []
owned (leaf_remove child_node_p removed_id) = []
owned leaf = []
owned (inner_insert child_node_p) = child_node_p ∷ []
owned (inner_delete child_node_p) = child_node_p ∷ []
owned (inner_split child_node_p) = child_node_p ∷ []
owned (inner_merge child_node_p right_merge_p) = child_node_p ∷ right_merge_p ∷ []
owned (inner_remove child_node_p removed_id) = []
owned inner = []
owned (inner_abort child_node_p) = []

-- the id that a remove node takes out of use
abbrev pub given_up : BaseNode → Option NodeId
given_up (leaf_insert child_node_p) = none
given_up (leaf_delete child_node_p) = none
given_up (leaf_split child_node_p) = none
given_up (leaf_merge child_node_p right_merge_p) = none
given_up (leaf_remove child_node_p removed_id) = some removed_id
given_up leaf = none
given_up (inner_insert child_node_p) = none
given_up (inner_delete child_node_p) = none
given_up (inner_split child_node_p) = none
given_up (inner_merge child_node_p right_merge_p) = none
given_up (inner_remove child_node_p removed_id) = some removed_id
given_up inner = none
given_up (inner_abort child_node_p) = none

abbrev pub is_base : BaseNode → Bool
is_base (leaf_insert child_node_p) = false
is_base (leaf_delete child_node_p) = false
is_base (leaf_split child_node_p) = false
is_base (leaf_merge child_node_p right_merge_p) = false
is_base (leaf_remove child_node_p removed_id) = false
is_base leaf = true
is_base (inner_insert child_node_p) = false
is_base (inner_delete child_node_p) = false
is_base (inner_split child_node_p) = false
is_base (inner_merge child_node_p right_merge_p) = false
is_base (inner_remove child_node_p removed_id) = false
is_base inner = true
is_base (inner_abort child_node_p) = false

-- The case of the switch that a node falls under.
abbrev as_case : List ℕ → Option NodeId → Bool → Case
as_case [] none true = destroys
as_case [] none false = ends
as_case [] (some id) base_node = recycles id
as_case (p ∷ []) id base_node = goes_on p
as_case (p ∷ q ∷ rest) id base_node = frees_both p q

case_of-owned :
    (node : BaseNode) → case_of node ≡ as_case (owned node) (given_up node) (is_base node)
unfolding case_of
case_of-owned (leaf_insert child_node_p) = refl
case_of-owned (leaf_delete child_node_p) = refl
case_of-owned (leaf_split child_node_p) = refl
case_of-owned (leaf_merge child_node_p right_merge_p) = refl
case_of-owned (leaf_remove child_node_p removed_id) = refl
case_of-owned leaf = refl
case_of-owned (inner_insert child_node_p) = refl
case_of-owned (inner_delete child_node_p) = refl
case_of-owned (inner_split child_node_p) = refl
case_of-owned (inner_merge child_node_p right_merge_p) = refl
case_of-owned (inner_remove child_node_p removed_id) = refl
case_of-owned inner = refl
case_of-owned (inner_abort child_node_p) = refl

abbrev pub IsAt : Memory → ℕ → List ℕ → Option NodeId → Bool → Type 0
IsAt m p ps id base_node =
    (node : BaseNode) × (m.node_at p ≡ some node)
    × (owned node ≡ ps)
    × (given_up node ≡ id)
    × (is_base node ≡ base_node)

pub case_at :
    (node : BaseNode) (ps : List ℕ) (id : Option NodeId) (base_node : Bool)
    → owned node ≡ ps
    → given_up node ≡ id
    → is_base node ≡ base_node
    → case_of node ≡ as_case ps id base_node
case_at node ps id base_node e e' e'' = case_of-owned node ∙ (λ i. as_case (e i) (e' i) (e'' i))

-- Whether the chain goes down to a base node, by the left part of a merge; and then, whether it is `b`.
abbrev pub ends_at : Shape → ℕ → Bool
ends_at (base p) b = p == b
ends_at (removed p id) b = false
ends_at (aborted p) b = false
ends_at (above p s) b = ends_at s b
ends_at (joins p s t) b = ends_at s b

abbrev pub has_merge : Shape → Bool
has_merge (base p) = false
has_merge (removed p id) = false
has_merge (aborted p) = false
has_merge (above p s) = has_merge s
has_merge (joins p s t) = true

module _ (chunk_of : ℕ → ℕ) where
  -- whose memory is freed with the chain: the nodes of the chain, and those in the chunks of its base
  abbrev pub frees : Shape → ℕ → Bool
  frees s a = has a s || ends_at s (chunk_of a)

  -- The chain stands in memory, no node stands in it twice, and none in the chunks of another base
  -- node of it, but for a merge node: it is in the chunks of the base of its right part, where
  -- PostLeafMergeNode and PostInnerMergeNode allocate it.
  abbrev pub IsChain : Memory → Shape → Type 0
  IsChain m (base p) = IsAt m p [] none true
  IsChain m (removed p id) = IsAt m p [] (some id) false
  IsChain m (aborted p) = IsAt m p [] none false
  IsChain m (above p s) = IsAt m p (top s ∷ []) none false × (has p s ≡ false) × IsChain m s
  IsChain m (joins p s t) =
      IsAt m p (top s ∷ top t ∷ []) none false
      × (ends_at t (chunk_of p) ≡ true)
      × ((a : ℕ) → has a t ≡ true → frees s a ≡ false)
      × IsChain m s
      × IsChain m t

pub depth_positive : (s : Shape) → 0 < depth s
depth_positive (base p) = omega arith
depth_positive (removed p id) = omega arith
depth_positive (aborted p) = omega arith
depth_positive (above p s) = omega arith
depth_positive (joins p s t) = omega arith

-- A chain stays where its addresses are not written.
pub IsChain-kept :
    (chunk_of : ℕ → ℕ) (m m' : Memory) (s : Shape)
    → ((a : ℕ) → has a s ≡ true → m'.node_at a ≡ m.node_at a)
    → IsChain chunk_of m s
    → IsChain chunk_of m' s
IsChain-kept chunk_of m m' (base p) same (node, here, e, e', e'') =
    (node, same p (ground arith) ∙ here, e, e', e'')
IsChain-kept chunk_of m m' (removed p id) same (node, here, e, e', e'') =
    (node, same p (ground arith) ∙ here, e, e', e'')
IsChain-kept chunk_of m m' (aborted p) same (node, here, e, e', e'') =
    (node, same p (ground arith) ∙ here, e, e', e'')
IsChain-kept chunk_of m m' (above p s) same ((node, here, e, e', e''), apart, h) = (
  (node, same p (ground arith) ∙ here, e, e', e''),
  apart,
  IsChain-kept chunk_of m m' s (λ a i. same a (ground (arith, i))) h,
)
IsChain-kept chunk_of m m' (joins p s t) same ((node, here, e, e', e''), inside, disjoint, h, k) = (
  (node, same p (ground arith) ∙ here, e, e', e''),
  inside,
  disjoint,
  IsChain-kept chunk_of m m' s (λ a i. same a (ground (arith, i))) h,
  IsChain-kept chunk_of m m' t (λ a i. same a (ground (arith, i))) k,
)
