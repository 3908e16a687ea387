-- ===== src/Inner/Collect/Whole.antt =====
-- The recursion over the whole chain.
use multiprocessor_programmi.Prelude.{
  ℕ, ◌≡◌, sym, ap, ◌∙◌, true, false, Option, some, ◌==◌, if◌then◌else◌, arith,
}
use multiprocessor_programmi.SmallSet.{insert}
use multiprocessor_programmi.Leaf.{NodeId, KeyNodeId}
use multiprocessor_programmi.Consolidate.Set.{below}
use multiprocessor_programmi.Inner.{
  InnerChain, inner, inner_insert, inner_delete, inner_split, inner_remove, inner_merge,
  inner_abort, inner_high_key_pair,
}
use multiprocessor_programmi.Inner.Collect.{
  Change, Seps, change_cmp, change_eq, collect_change, collect_seps,
}
use multiprocessor_programmi.Inner.Collect.Merge.{after, over}
use multiprocessor_programmi.Inner.Collect.Sorted.{
  All-add, add-IsOrdered, over-add, filter-add, side,
}
use multiprocessor_programmi.Inner.Collect.Chain.{
  Start, IsAfter, low_of, low_after, listed, IsCollectable, IsReady, Collects, base-Collects,
}
use multiprocessor_programmi.Inner.Collect.Joined.{right-IsReady, merge_then}

abbrev with_change : Seps → Change → Seps
with_change s x = record s { sss = insert change_cmp change_eq x s.sss }

collect_change-added :
    (high : KeyNodeId) (s : Seps) (x : Change)
    → below high x.item.0 ≡ true
    → collect_change high s x ≡ some (with_change s x)
unfolding collect_change insert
collect_change-added high s x b = ground (arith, b)

add-IsReady :
    (from : Start) (s : Seps) (x : Change)
    → IsAfter from x.item.0
    → IsReady (low_of from) s
    → IsReady (low_of from) (with_change s x)
unfolding insert
add-IsReady from s x after_from r = record {
  ordered = add-IsOrdered x s.sss.items r.ordered;
  from_low = All-add x _ s.sss.items (low_after from x.item.0 after_from) r.from_low;
}

-- What the rest of the chain collects, seen from before the change.
change_then :
    (low : ℕ) (high : KeyNodeId) (values : ℕ → Option ℕ) (s s' : Seps) (x : Change)
    → below high x.item.0 ≡ true
    → IsReady low s
    → Collects low high values (with_change s x) s'
    → Collects low high (λ k. if x.item.0 == k then after x else values k) s s'
unfolding insert
change_then low high values s s' x b r c = record {
  tail = c.tail;
  appended = c.appended;
  ascending = c.ascending;
  bounds = c.bounds;
  pairs = λ k l u. c.pairs k l u ∙ over-add x k s.sss.items (values k) r.ordered;
  remaining = c.remaining ∙ filter-add x (side high false) s.sss.items (ground (arith, b));
}

-- The values matter below the high key only.
same_values :
    (low : ℕ) (high : KeyNodeId) (values values' : ℕ → Option ℕ) (s s' : Seps)
    → ((k : ℕ) → below high k ≡ true → values k ≡ values' k)
    → Collects low high values s s'
    → Collects low high values' s s'
same_values low high values values' s s' same c = record {
  tail = c.tail;
  appended = c.appended;
  ascending = c.ascending;
  bounds = c.bounds;
  pairs = λ k l u. c.pairs k l u ∙ ap (over' k) (same k u);
  remaining = c.remaining;
}
  where
    over' : ℕ → Option ℕ → Option ℕ
    over' k = over k s.sss.items

pub collect_seps-Collects :
    (c : InnerChain) (from : Start) (high : KeyNodeId) (low_id : NodeId) (s : Seps)
    → IsCollectable from high low_id c
    → IsReady (low_of from) s
    → (s' : Seps) × (collect_seps high low_id s c ≡ some s')
      × Collects (low_of from) high (listed low_id c) s s'
unfolding collect_seps
collect_seps-Collects (inner low_key high_key items) from high low_id s o r =
    base-Collects from high low_id s items o r
collect_seps-Collects (inner_insert item next_item location child) from high low_id s o r =
    let x : Change = record { item = item; is_insert = true } in
    let (s', e, c) =
      collect_seps-Collects child from high low_id (with_change s x) o.2
        (add-IsReady from s x o.0 r) in
    (
      s',
      rw (collect_seps, collect_change-added high s x o.1) e,
      change_then (low_of from) high (listed low_id child) s s' x o.1 r c,
    )
collect_seps-Collects (inner_delete item prev_item next_item location child) from high low_id s o
      r =
    let x : Change = record { item = item; is_insert = false } in
    let (s', e, c) =
      collect_seps-Collects child from high low_id (with_change s x) o.2
        (add-IsReady from s x o.0 r) in
    (
      s',
      rw (collect_seps, collect_change-added high s x o.1) e,
      change_then (low_of from) high (listed low_id child) s s' x o.1 r c,
    )
collect_seps-Collects (inner_split insert_item n child) from high low_id s o r =
    let (s', e, c) = collect_seps-Collects child from high low_id s o.2 r in
    (
      s',
      e,
      same_values (low_of from) high _ _ s s'
          (λ k u.
            let at_end = ap (λ (p : KeyNodeId). p.0) o.0 in
            let real = ap (λ (p : KeyNodeId). p.1) o.0 in ground (arith, u, at_end, real, o.1))
          c,
    )
collect_seps-Collects (inner_remove removed_id child) from high low_id s o r = absurd o
collect_seps-Collects (inner_merge delete_item right child) from high low_id s o r =
    let left_high = inner_high_key_pair child in
    let m = delete_item.0 in
    let le = low_after from m o.0 in
    let (s', e, l) = collect_seps-Collects child from left_high low_id s o.6 r in
    let ready = right-IsReady (low_of from) m left_high high le o.1 o.2 o.4 _ s s' r l in
    let (s'', e', l') = collect_seps-Collects right (some m) high low_id s' o.5 ready in
    (
      s'',
      rw (collect_seps, e) (ap (λ h. collect_seps h low_id s' right) (sym o.3) ∙ e'),
      merge_then (low_of from) m left_high high le o.1 o.2 o.4 (listed low_id child)
          (listed low_id right) s s' s'' l l',
    )
collect_seps-Collects (inner_abort child) from high low_id s o r = absurd o
