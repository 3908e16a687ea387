-- ===== src/NodeIds/Tests.antt =====
-- Two ids are handed out and installed, and the first one is invalidated: it comes back next.
use multiprocessor_programmi.Prelude.{ℕ, ◌≢◌, ◌≡◌, refl, [], ◌∷◌, none, some, ◌==◌, count, arith}
use multiprocessor_programmi.Stack.{update}
use multiprocessor_programmi.NodeIds.{
  NodeIds, get_next_node_id, invalidate_node_id, install_new_node, get_node, no_ids, Reach, start,
  handed, installed, invalidated,
}
use multiprocessor_programmi.NodeIds.Live.{get_next_node_id-unused}

abbrev two_handed : NodeIds
two_handed = (get_next_node_id (get_next_node_id no_ids).1).1

-- after InstallNewNode of both, and InvalidateNodeID of the first one
abbrev installed_at : (id node_p : ℕ) → NodeIds → NodeIds
installed_at id node_p s = record s { mapping_table = update s.mapping_table id (some node_p) }

abbrev one_left : NodeIds
one_left =
    let both = installed_at 2 72 (installed_at 1 71 two_handed) in
    record both { mapping_table = update both.mapping_table 1 none; node_id_list = 1 ∷ [] }

one_left-Reach : Reach one_left (2 ∷ []) 2
unfolding get_next_node_id install_new_node invalidate_node_id
one_left-Reach =
    invalidated (2 ∷ []) [] 1
      (installed [] (1 ∷ []) 2 72 (installed (2 ∷ []) [] 1 71 (handed (handed start)) refl) refl)
      refl

comes_back : (get_next_node_id one_left).0 ≡ 1
unfolding get_next_node_id
comes_back = refl

entry_kept : get_node 2 one_left ≡ some (some 72)
unfolding get_node get_next_node_id
entry_kept = refl

get_next_node_id-unused_example :
    (count (◌==◌ (get_next_node_id one_left).0) (2 ∷ []) ≡ 0)
    × (get_node (get_next_node_id one_left).0 (get_next_node_id one_left).1 ≡ some none)
    × (install_new_node (get_next_node_id one_left).0 73 (get_next_node_id one_left).1 ≢ none)
    × (invalidate_node_id (get_next_node_id one_left).0 (get_next_node_id one_left).1 ≢ none)
get_next_node_id-unused_example =
    get_next_node_id-unused one_left (2 ∷ []) 2 73 (omega arith) one_left-Reach
