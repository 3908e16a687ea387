-- ===== src/Epoch/Safe.antt =====
-- What the cleaner frees while a thread is in an epoch.
use multiprocessor_programmi.Prelude.{
  ℕ, zero, suc, ◌≤◌, ◌<◌, ◌≡◌, inl, inr, true, false, List, [], ◌∷◌, Option, none, some, any, All,
  length, arith, Bool-cases,
}
use multiprocessor_programmi.Epoch.{
  Worker, outside, joining, retracting, inside, adding, pushing, Cleaner, resting, comparing,
  testing, claiming, undoing, claimed, freeing, creating, System, max_thread_count, Reach, Run,
  stop, more,
}
use multiprocessor_programmi.Epoch.Invariant.{IsPlaced, lowest, Inv}
use multiprocessor_programmi.Epoch.Clear.{step-undefined, step-Inv, Reach-Inv}
use multiprocessor_programmi.Epoch.Older.{is_pair, is_garbage, Run-is_garbage}

-- The epoch that a thread is in.
abbrev pub joined : Worker → Option ℕ
joined outside = none
joined (joining p) = none
joined (retracting p) = none
joined (inside e) = some e
joined (adding e p address node_p) = some e
joined (pushing e p address node_p next_p) = some e

abbrev pub nth : List Worker → ℕ → Worker
nth [] i = outside
nth (w ∷ ws) zero = w
nth (w ∷ ws) (suc i) = nth ws i

Run-undefined : {s t : System} → Run s t → t.epochs.undefined ≡ false → s.epochs.undefined ≡ false
Run-undefined stop d = d
Run-undefined (more r step) d = Run-undefined r (step-undefined step d)

Run-Inv :
    {n : ℕ} {s t : System}
    → n < max_thread_count
    → Inv n s
    → Run s t
    → t.epochs.undefined ≡ false
    → Inv n t
Run-Inv few i stop d = i
Run-Inv few i (more r step) d = step-Inv few (Run-Inv few i r (step-undefined step d)) step d

nth-IsPlaced :
    (low current : ℕ) (ws : List Worker) (i : ℕ)
    → All (IsPlaced low current) ws
    → IsPlaced low current (nth ws i)
nth-IsPlaced low current [] i h = tt
nth-IsPlaced low current (w ∷ ws) zero h = h.0
nth-IsPlaced low current (w ∷ ws) (suc i) h = nth-IsPlaced low current ws i h.1

joined_between :
    (low current e : ℕ) (w : Worker)
    → IsPlaced low current w
    → joined w ≡ some e
    → (low ≤ e) × (e ≤ current)
joined_between low current e outside h j = absurd (ground arith)
joined_between low current e (joining p) h j = absurd (ground arith)
joined_between low current e (retracting p) h j = absurd (ground arith)
joined_between low current e (inside e') h j = ground (arith, h.0, h.1)
joined_between low current e (adding e' p address node_p) h j = ground (arith, h.0, h.1, h.2)
joined_between low current e (pushing e' p address node_p next_p) h j =
    ground (arith, h.0, h.1, h.2)

freed_at :
    (n c low : ℕ) (xs : List (ℕ × ℕ))
    → All (λ x. x.1 < low) xs
    → any (is_pair n c) xs ≡ true
    → c < low
freed_at n c low [] h f = absurd (ground arith)
freed_at n c low (x ∷ xs) h f = elim (Bool-cases (is_pair n c x)) [
  | inl this ↦ ground (arith, h.0)
  | inr other ↦ freed_at n c low xs h.1 (ground arith)
]

lowest_from : (c : Cleaner) (head : ℕ) → head ≤ lowest c head
lowest_from resting head = omega arith
lowest_from comparing head = omega arith
lowest_from testing head = omega arith
lowest_from claiming head = omega arith
lowest_from undoing head = omega arith
lowest_from claimed head = omega arith
lowest_from (freeing rest) head = omega arith
lowest_from creating head = omega arith

-- Let fewer than MAX_THREAD_COUNT threads use the epoch manager. In every state that they and the
-- cleaner reach without an access to a deleted epoch, as JoinEpoch can make one, and for a thread in an
-- epoch, between JoinEpoch and LeaveEpoch: neither its epoch nor a later one is deleted, and no node
-- that was freed was garbage of its epoch or a later one.
pub joined-kept :
    {ws : List Worker} {s : System}
    → length ws < max_thread_count
    → Reach ws s
    → s.epochs.undefined ≡ false
    → (i e : ℕ) → joined (nth s.workers i) ≡ some e
    → ((c : ℕ) → e ≤ c → c ≤ s.epochs.current_epoch_p → (s.epochs.epoch_at c).deleted ≡ false)
      × ((n c : ℕ) → e ≤ c → any (is_pair n c) s.epochs.freed ≡ false)
joined-kept {ws} {s} few r d i e j =
    let v = Reach-Inv few r d in
    let (le, upto) =
      joined_between _ s.epochs.current_epoch_p e (nth s.workers i)
        (nth-IsPlaced _ s.epochs.current_epoch_p s.workers i v.placed) j in
    let from = lowest_from s.cleaner s.epochs.head_epoch_p in
    (
      λ c l u. v.alive c (omega (arith, l, le, from)) u,
      λ n c l. elim (Bool-cases (any (is_pair n c) s.epochs.freed)) [
        | inl f ↦ absurd (omega (arith, l, le, freed_at n c _ s.epochs.freed v.freed_below f))
        | inr none_at ↦ none_at
      ],
    )

-- Let fewer than MAX_THREAD_COUNT threads use the epoch manager, and let a thread be in an epoch, in a
-- reached state and in a later one, up to which there is no access to a deleted epoch, as JoinEpoch can
-- make one. Every node that is freed in the later state was garbage of an
-- older epoch in the earlier one already: in its list, about to be added to it, in the hands of the
-- cleaner, or freed. So no node that is unlinked after a thread has joined is freed before it leaves.
pub joined-is_garbage :
    {ws : List Worker} {s t : System}
    → length ws < max_thread_count
    → Reach ws s
    → Run s t
    → t.epochs.undefined ≡ false
    → (i e : ℕ) → joined (nth s.workers i) ≡ some e
    → joined (nth t.workers i) ≡ some e
    → (n c : ℕ) → any (is_pair n c) t.epochs.freed ≡ true
    → (c < e) × (is_garbage n c s ≡ true)
joined-is_garbage {ws} {s} {t} few r run d i e j j' n c f =
    let v = Reach-Inv few r (Run-undefined run d) in
    let v' = Run-Inv few v run d in
    let (le, upto) =
      joined_between _ s.epochs.current_epoch_p e (nth s.workers i)
        (nth-IsPlaced _ s.epochs.current_epoch_p s.workers i v.placed) j in
    let (le', upto') =
      joined_between _ t.epochs.current_epoch_p e (nth t.workers i)
        (nth-IsPlaced _ t.epochs.current_epoch_p t.workers i v'.placed) j' in
    let lt = freed_at n c _ t.epochs.freed v'.freed_below f in
    let before : c < e = omega (arith, lt, le') in
    (before, Run-is_garbage n c (omega (arith, before, upto)) run (ground (arith, f)))
