-- ===== src/Epoch/Clear.antt =====
-- The steps of the cleaner keep the invariant, and so every state that is reached has it.
use multiprocessor_programmi.Prelude.{
  ℕ, suc, ◌<◌, ◌≡◌, refl, sym, ap, ◌∙◌, inl, inr, false, List, ◌==◌, All-map, length, arith,
  Bool-cases,
}
use multiprocessor_programmi.Epoch.{
  Worker, Cleaner, comparing, testing, claiming, freeing, creating, Epochs, System,
  max_thread_count, Clean, begin, only_current, older, not_empty, empty, sneaked_in, claim, undo,
  load_garbage, free, advance, create, Step, work, clean, late, Move, Worker, read, join, miss,
  retract, leave, make, load, cas_win, cas_lose, Reach, start, later,
}
use multiprocessor_programmi.Epoch.Invariant.{total, taken_by, lowest, IsOlder, Inv}
use multiprocessor_programmi.Epoch.Placed.{
  All-later, none_later, wider, outside-IsPlaced, outside_total,
}
use multiprocessor_programmi.Epoch.Work.{work-Inv}

-- A step that only moves the cleaner, between two places that take nothing from the count.
abbrev at_place : System → Cleaner → System
at_place s c = record s { cleaner = c }

same_taken :
    {n : ℕ} (s : System) (c : Cleaner)
    → Inv n s
    → taken_by c ≡ taken_by s.cleaner
    → lowest c s.epochs.head_epoch_p ≡ lowest s.cleaner s.epochs.head_epoch_p
    → IsOlder c s.epochs.head_epoch_p s.epochs.current_epoch_p
    → Inv n (at_place s c)
same_taken s c i taken low o = record {
  many = i.many;
  first = i.first;
  order = i.order;
  older = o;
  linked = i.linked;
  alive = i.alive;
  gone = i.gone;
  counted = λ k l u. rw taken (i.counted k l u);
  placed = rw low i.placed;
  freed_below = rw low i.freed_below;
}

-- The same invariant, with the epochs and the place of the cleaner as arguments.
abbrev InvAt : ℕ → List Worker → Epochs → Cleaner → Type 0
InvAt n ws m c = Inv n (record { epochs = m; cleaner = c; workers = ws })

Clean-Inv :
    {n : ℕ} (ws : List Worker) {m m' : Epochs} {c c' : Cleaner}
    → Clean m c m' c'
    → InvAt n ws m c
    → InvAt n ws m' c'
Clean-Inv ws {m} begin i = same_taken _ comparing i refl refl tt
Clean-Inv ws {m} (only_current e) i = same_taken _ creating i refl refl tt
Clean-Inv ws {m} (older ne) i = same_taken _ testing i refl refl (omega (arith, i.order, ne))
Clean-Inv ws {m} (not_empty ne) i = same_taken _ creating i refl refl tt
Clean-Inv ws {m} (empty e) i = same_taken _ claiming i refl refl i.older
Clean-Inv ws {m} (sneaked_in lt) i = record {
  many = i.many;
  first = i.first;
  order = i.order;
  older = i.older;
  linked = λ k l u. ground (arith, i.linked k l u);
  alive = λ k l u. ground (arith, i.alive k l u);
  gone = λ k p u. ground (arith, i.gone k p u);
  counted = λ k l u. ground (arith, i.counted k l u);
  placed = i.placed;
  freed_below = i.freed_below;
}
Clean-Inv ws {m} (claim le) i =
    let none_in = i.counted m.head_epoch_p (omega arith) i.order in
    let z : total m.head_epoch_p ws ≡ 0 = ground (arith, none_in) in
    record {
      many = i.many;
      first = i.first;
      order = i.order;
      older = i.older;
      linked = λ k l u. ground (arith, i.linked k l u);
      alive = λ k l u. ground (arith, i.alive k l u);
      gone = λ k p u. ground (arith, i.gone k p u);
      counted = λ k l u. ground (arith, i.counted k l u);
      placed = All-later m.head_epoch_p m.current_epoch_p ws z i.placed;
      freed_below = All-map (λ p lt. omega (arith, lt)) m.freed i.freed_below;
    }
Clean-Inv ws {m} undo i = record {
  many = i.many;
  first = i.first;
  order = i.order;
  older = tt;
  linked = λ k l u. ground (arith, i.linked k l u);
  alive = λ k l u. ground (arith, i.alive k l u);
  gone = λ k p u. ground (arith, i.gone k p u);
  counted = λ k l u. ground (arith, i.counted k l u);
  placed = i.placed;
  freed_below = i.freed_below;
}
Clean-Inv ws {m} load_garbage i = same_taken _ (freeing _) i refl refl i.older
Clean-Inv ws {m} (free {g} {rest}) i = record {
  many = i.many;
  first = i.first;
  order = i.order;
  older = i.older;
  linked = i.linked;
  alive = i.alive;
  gone = i.gone;
  counted = i.counted;
  placed = i.placed;
  freed_below = (omega arith, i.freed_below);
}
Clean-Inv ws {m} advance i =
    let next = i.linked m.head_epoch_p (omega arith) i.older in
    record {
      many = i.many;
      first = omega (arith, next);
      order = omega (arith, next, i.older);
      older = tt;
      linked = λ k l u. ground (arith, next, i.linked k (omega (arith, next, l)) u);
      alive = λ k l u. ground (arith, next, i.alive k (omega (arith, next, l)) u);
      gone = λ k p u. elim (Bool-cases (m.head_epoch_p == k)) [
        | inl this ↦ rw this refl
        | inr other ↦ rw other (i.gone k p (ground (arith, next)))
      ];
      counted = λ k l u. ground (arith, next, i.counted k (omega (arith, next, l)) u);
      placed = rw next i.placed;
      freed_below = rw next i.freed_below;
    }
Clean-Inv ws {m} create i = record {
  many = i.many;
  first = i.first;
  order = omega (arith, i.order);
  older = tt;
  linked = λ k l u. elim (Bool-cases (m.current_epoch_p == k)) [
    | inl this ↦
        let new : (suc m.current_epoch_p == k) ≡ false = ground arith in
        let e : m.current_epoch_p ≡ k = ground arith in rw (new, this) (ap suc e)
    | inr other ↦
        let new : (suc m.current_epoch_p == k) ≡ false = ground arith in
        rw (new, other) (i.linked k l (ground arith))
  ];
  alive = λ k l u. elim (Bool-cases (suc m.current_epoch_p == k)) [
    | inl this ↦ rw this refl
    | inr other ↦ ground (arith, other, i.alive k l (ground arith))
  ];
  gone = λ k p u. ground (arith, i.gone k p u, i.order);
  counted = λ k l u. elim (Bool-cases (suc m.current_epoch_p == k)) [
    | inl this ↦
        let e : suc m.current_epoch_p ≡ k = ground arith in
        let far : (m.head_epoch_p == k) ≡ false = ground (arith, i.order) in
        let none_in = ap (λ c. total c ws) (sym e) ∙ none_later _ m.current_epoch_p ws i.placed in
        rw (this, far) (omega (arith, none_in))
    | inr other ↦ ground (arith, other, i.counted k l (ground arith))
  ];
  placed = wider m.head_epoch_p m.current_epoch_p ws i.placed;
  freed_below = i.freed_below;
}

Move-undefined : {m m' : Epochs} {w w' : Worker} → Move m w m' w' → m'.undefined ≡ m.undefined
Move-undefined read = refl
Move-undefined (join d t) = refl
Move-undefined (miss d t) = refl
Move-undefined (retract d) = refl
Move-undefined leave = refl
Move-undefined (make address node_p) = refl
Move-undefined load = refl
Move-undefined (cas_win won) = refl
Move-undefined (cas_lose lost) = refl

Clean-undefined : {m m' : Epochs} {a b : Cleaner} → Clean m a m' b → m'.undefined ≡ m.undefined
Clean-undefined begin = refl
Clean-undefined (only_current e) = refl
Clean-undefined (older ne) = refl
Clean-undefined (not_empty ne) = refl
Clean-undefined (empty e) = refl
Clean-undefined (sneaked_in t) = refl
Clean-undefined (claim t) = refl
Clean-undefined undo = refl
Clean-undefined load_garbage = refl
Clean-undefined free = refl
Clean-undefined advance = refl
Clean-undefined create = refl

-- An undefined access is not undone.
pub step-undefined :
    {s t : System} → Step s t → t.epochs.undefined ≡ false → s.epochs.undefined ≡ false
step-undefined (work before after e move) d = sym (Move-undefined move) ∙ d
step-undefined (clean c) d = sym (Clean-undefined c) ∙ d
step-undefined (late before after w p at a gone) d = absurd (ground (arith, d))

pub step-Inv :
    {n : ℕ} {s t : System}
    → n < max_thread_count
    → Inv n s
    → Step s t
    → t.epochs.undefined ≡ false
    → Inv n t
step-Inv few i (work before after e move) d = work-Inv before after few e move i
step-Inv few i (clean c) d = Clean-Inv _ c i
step-Inv few i (late before after w p at a gone) d = absurd (ground (arith, d))

pub Reach-Inv :
    {ws : List Worker} {s : System}
    → length ws < max_thread_count
    → Reach ws s
    → s.epochs.undefined ≡ false
    → Inv (length ws) s
Reach-Inv {ws} few (start o) d = record {
  many = refl;
  first = omega arith;
  order = omega arith;
  older = tt;
  linked = λ k l u. absurd (omega arith);
  alive = λ k l u. refl;
  gone = λ k p u. absurd (omega arith);
  counted = λ k l u. ground (arith, outside_total k ws o);
  placed = outside-IsPlaced ws o;
  freed_below = tt;
}
Reach-Inv few (later r st) d = step-Inv few (Reach-Inv few r (step-undefined st d)) st d
