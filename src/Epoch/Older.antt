-- ===== src/Epoch/Older.antt =====
-- The garbage of the epochs before the current one.
use multiprocessor_programmi.Prelude.{
  ℕ, ◌≤◌, ◌<◌, ◌≡◌, refl, ap, ◌∙◌, inl, inr, Bool, true, false, ◌||◌, ◌&&◌, List, ◌∷◌, ◌++◌, ◌==◌,
  if◌then◌else◌, any, any-append, arith, Bool-cases,
}
use multiprocessor_programmi.Epoch.{
  Garbage, Worker, outside, joining, retracting, inside, adding, pushing, Cleaner, resting,
  comparing, testing, claiming, undoing, claimed, freeing, creating, Epochs, Move, read, join, miss,
  retract, leave, make, load, cas_win, cas_lose, System, Clean, begin, only_current, older,
  not_empty, empty, sneaked_in, claim, undo, load_garbage, free, advance, create, Step, work, clean,
  late, Run, stop, more,
}

abbrev pub is_node : ℕ → Garbage → Bool
is_node node_p g = g.node_p == node_p

abbrev pub is_pair : ℕ → ℕ → ℕ × ℕ → Bool
is_pair node_p c x = x.0 == node_p && x.1 == c

-- A thread is about to add the node to the garbage of the epoch `c`.
abbrev pub is_adding : ℕ → ℕ → Worker → Bool
is_adding n c outside = false
is_adding n c (joining p) = false
is_adding n c (retracting p) = false
is_adding n c (inside e) = false
is_adding n c (adding e p address node_p) = node_p == n && p == c
is_adding n c (pushing e p address node_p next_p) = node_p == n && p == c

abbrev pub in_hand : ℕ → ℕ → ℕ → Cleaner → Bool
in_hand n c head resting = false
in_hand n c head comparing = false
in_hand n c head testing = false
in_hand n c head claiming = false
in_hand n c head undoing = false
in_hand n c head claimed = false
in_hand n c head (freeing rest) = head == c && any (is_node n) rest
in_hand n c head creating = false

-- The node is garbage of the epoch `c`: in its list, being put there, being freed from it, or freed.
abbrev pub is_garbage : ℕ → ℕ → System → Bool
is_garbage n c s =
    any (is_node n) (s.epochs.epoch_at c).garbage_list_p
    || any (is_adding n c) s.workers
    || in_hand n c s.epochs.head_epoch_p s.cleaner
    || any (is_pair n c) s.epochs.freed

-- Which thread of those listed is about to add the node.
split :
    (n c : ℕ) (ws before after : List Worker) (w : Worker)
    → ws ≡ before ++ w ∷ after
    → any (is_adding n c) ws ≡ (
        if any (is_adding n c) before
        then true
        else if is_adding n c w
        then true
        else any (is_adding n c) after)
split n c ws before after w e =
    ap (any (is_adding n c)) e ∙ any-append (is_adding n c) before (w ∷ after)

Move-older :
    (n c : ℕ) (s : System) (before after : List Worker) {w w' : Worker} {m : Epochs}
    → s.workers ≡ before ++ w ∷ after
    → c < s.epochs.current_epoch_p
    → Move s.epochs w m w'
    → is_garbage n c (record s { epochs = m; workers = before ++ w' ∷ after }) ≡ true
    → is_garbage n c s ≡ true
Move-older n c s before after {w} {w'} e lt read h =
    ground
      (arith, split n c s.workers before after w e, any-append (is_adding n c) before (w' ∷ after))
Move-older n c s before after {w} {w'} e lt (join d t) h =
    ground
      (arith, split n c s.workers before after w e, any-append (is_adding n c) before (w' ∷ after))
Move-older n c s before after {w} {w'} e lt (miss d t) h =
    ground
      (arith, split n c s.workers before after w e, any-append (is_adding n c) before (w' ∷ after))
Move-older n c s before after {w} {w'} e lt (retract d) h =
    ground
      (arith, split n c s.workers before after w e, any-append (is_adding n c) before (w' ∷ after))
Move-older n c s before after {w} {w'} e lt leave h =
    ground
      (arith, split n c s.workers before after w e, any-append (is_adding n c) before (w' ∷ after))
Move-older n c s before after {w} {w'} e lt (make address node_p) h =
    ground
      (arith, split n c s.workers before after w e, any-append (is_adding n c) before (w' ∷ after))
Move-older n c s before after {w} {w'} e lt load h =
    ground
      (arith, split n c s.workers before after w e, any-append (is_adding n c) before (w' ∷ after))
Move-older n c s before after {w} {w'} e lt (cas_win won) h =
    ground
      (arith, split n c s.workers before after w e, any-append (is_adding n c) before (w' ∷ after))
Move-older n c s before after {w} {w'} e lt (cas_lose lost) h =
    ground
      (arith, split n c s.workers before after w e, any-append (is_adding n c) before (w' ∷ after))

Clean-older :
    (n c : ℕ) (ws : List Worker) {m m' : Epochs} {a b : Cleaner}
    → c < m.current_epoch_p
    → Clean m a m' b
    → is_garbage n c (record { epochs = m'; cleaner = b; workers = ws }) ≡ true
    → is_garbage n c (record { epochs = m; cleaner = a; workers = ws }) ≡ true
Clean-older n c ws lt begin h = h
Clean-older n c ws lt (only_current e) h = h
Clean-older n c ws lt (older ne) h = h
Clean-older n c ws lt (not_empty ne) h = h
Clean-older n c ws lt (empty e) h = h
Clean-older n c ws lt (sneaked_in t) h = ground arith
Clean-older n c ws lt (claim t) h = ground arith
Clean-older n c ws lt undo h = ground arith
Clean-older n c ws {m} lt load_garbage h = elim (Bool-cases (m.head_epoch_p == c)) [
  | inl this ↦
      let e : m.head_epoch_p ≡ c = ground arith in
      let same = ap (λ k. any (is_node n) (m.epoch_at k).garbage_list_p) e in ground (arith, same)
  | inr other ↦ ground (arith, other)
]
Clean-older n c ws lt free h = ground arith
Clean-older n c ws lt advance h = ground arith
Clean-older n c ws lt create h = ground arith

Step-is_garbage :
    (n c : ℕ) {s t : System}
    → c < s.epochs.current_epoch_p
    → Step s t
    → is_garbage n c t ≡ true
    → is_garbage n c s ≡ true
Step-is_garbage n c {s} lt (work before after e move) h = Move-older n c s before after e lt move h
Step-is_garbage n c lt (late before after w p at a gone) h = h
Step-is_garbage n c {s} lt (clean step) h = Clean-older n c s.workers lt step h

Move-current :
    {m m' : Epochs} {w w' : Worker} → Move m w m' w' → m'.current_epoch_p ≡ m.current_epoch_p
Move-current read = refl
Move-current (join d t) = refl
Move-current (miss d t) = refl
Move-current (retract d) = refl
Move-current leave = refl
Move-current (make address node_p) = refl
Move-current load = refl
Move-current (cas_win won) = refl
Move-current (cas_lose lost) = refl

Clean-current :
    {m m' : Epochs} {a b : Cleaner} → Clean m a m' b → m.current_epoch_p ≤ m'.current_epoch_p
Clean-current begin = omega arith
Clean-current (only_current e) = omega arith
Clean-current (older ne) = omega arith
Clean-current (not_empty ne) = omega arith
Clean-current (empty e) = omega arith
Clean-current (sneaked_in t) = omega arith
Clean-current (claim t) = omega arith
Clean-current undo = omega arith
Clean-current load_garbage = omega arith
Clean-current free = omega arith
Clean-current advance = omega arith
Clean-current create = omega arith

Step-current : {s t : System} → Step s t → s.epochs.current_epoch_p ≤ t.epochs.current_epoch_p
Step-current (work before after e move) = omega (arith, Move-current move)
Step-current (late before after w p at a gone) = omega arith
Step-current (clean step) = Clean-current step

Run-current : {s t : System} → Run s t → s.epochs.current_epoch_p ≤ t.epochs.current_epoch_p
Run-current stop = omega arith
Run-current (more r step) = omega (arith, Run-current r, Step-current step)

-- The garbage of an epoch before the current one only grows less.
pub Run-is_garbage :
    (n c : ℕ) {s t : System}
    → c < s.epochs.current_epoch_p
    → Run s t
    → is_garbage n c t ≡ true
    → is_garbage n c s ≡ true
Run-is_garbage n c lt stop h = h
Run-is_garbage n c lt (more r step) h =
    Run-is_garbage n c lt r (Step-is_garbage n c (omega (arith, lt, Run-current r)) step h)
