-- ===== src/Epoch/Work.antt =====
-- The steps of the workers keep the invariant.
use multiprocessor_programmi.Prelude.{
  ℕ, ◌+◌, ◌≤◌, ◌<◌, ◌≡◌, refl, ◌∙◌, inl, inr, false, List, [], ◌∷◌, ◌++◌, ◌==◌, ltb, if◌then◌else◌,
  All, arith, Bool-cases, All-replaced, length-replaced,
}
use mathlib.Core.Path.{subst}
use multiprocessor_programmi.Epoch.{
  Worker, joining, Cleaner, resting, comparing, testing, claiming, undoing, claimed, freeing,
  creating, Epochs, Move, read, join, miss, retract, leave, make, load, cas_win, cas_lose, System,
  max_thread_count,
}
use multiprocessor_programmi.Epoch.Invariant.{
  visits, total, total-length, IsPlaced, taken_by, lowest, IsOlder, Inv,
}

-- What a worker's step changes: only the count of one epoch, by what the worker counts there, or a
-- garbage list.
record Kept (low : ℕ) (m m' : Epochs) (w w' : Worker) : Type 0 where
  head : m'.head_epoch_p ≡ m.head_epoch_p
  current : m'.current_epoch_p ≡ m.current_epoch_p
  freed : m'.freed ≡ m.freed
  next_p : (c : ℕ) → (m'.epoch_at c).next_p ≡ (m.epoch_at c).next_p
  deleted : (c : ℕ) → (m'.epoch_at c).deleted ≡ (m.epoch_at c).deleted
  balance :
      (c : ℕ)
      → (m'.epoch_at c).added + (m.epoch_at c).taken + visits c w
        ≡ (m'.epoch_at c).taken + (m.epoch_at c).added + visits c w'
  placed : IsPlaced low m.current_epoch_p w'

move-Kept :
    (low : ℕ) {m m' : Epochs} {w w' : Worker}
    → 0 < m.current_epoch_p
    → low ≤ m.current_epoch_p
    → IsPlaced low m.current_epoch_p w
    → ((p : ℕ)
        → w ≡ joining p
        → (m.epoch_at p).deleted ≡ false
        → (m.epoch_at p).taken ≤ (m.epoch_at p).added
        → low ≤ p)
    → Move m w m' w'
    → Kept low m m' w w'
move-Kept low first o h j read = record {
  head = refl;
  current = refl;
  freed = refl;
  next_p = λ c. refl;
  deleted = λ c. refl;
  balance = λ c. omega arith;
  placed = (first, omega arith);
}
move-Kept low first o h j (join {p} d t) = record {
  head = refl;
  current = refl;
  freed = refl;
  next_p = λ c. ground arith;
  deleted = λ c. ground arith;
  balance = λ c. ground arith;
  placed = (j p refl d t, h.1);
}
move-Kept low first o h j (miss {p} d t) = record {
  head = refl;
  current = refl;
  freed = refl;
  next_p = λ c. ground arith;
  deleted = λ c. ground arith;
  balance = λ c. ground arith;
  placed = h.1;
}
move-Kept low first o h j (retract {p} d) = record {
  head = refl;
  current = refl;
  freed = refl;
  next_p = λ c. ground arith;
  deleted = λ c. ground arith;
  balance = λ c. ground arith;
  placed = tt;
}
move-Kept low first o h j (leave {e}) = record {
  head = refl;
  current = refl;
  freed = refl;
  next_p = λ c. ground arith;
  deleted = λ c. ground arith;
  balance = λ c. ground arith;
  placed = tt;
}
move-Kept low first o h j (make address node_p) = record {
  head = refl;
  current = refl;
  freed = refl;
  next_p = λ c. refl;
  deleted = λ c. refl;
  balance = λ c. omega arith;
  placed = (h.0, h.1, omega arith);
}
move-Kept low first o h j load = record {
  head = refl;
  current = refl;
  freed = refl;
  next_p = λ c. refl;
  deleted = λ c. refl;
  balance = λ c. omega arith;
  placed = h;
}
move-Kept low first o h j (cas_win {e} {p} won) = record {
  head = refl;
  current = refl;
  freed = refl;
  next_p = λ c. ground arith;
  deleted = λ c. ground arith;
  balance = λ c. ground arith;
  placed = (h.0, omega (arith, h.1, h.2));
}
move-Kept low first o h j (cas_lose lost) = record {
  head = refl;
  current = refl;
  freed = refl;
  next_p = λ c. refl;
  deleted = λ c. refl;
  balance = λ c. omega arith;
  placed = h;
}

module _ {ℓ} (P : Worker → Type ℓ) where
  pub All-at : {w : Worker} (before after : List Worker) → All P (before ++ w ∷ after) → P w
  All-at [] after h = h.0
  All-at (x ∷ before) after h = All-at before after h.1

total-replace :
    (c : ℕ) (w w' : Worker) (before after : List Worker)
    → total c (before ++ w' ∷ after) + visits c w ≡ total c (before ++ w ∷ after) + visits c w'
total-replace c w w' [] after = omega arith
total-replace c w w' (x ∷ before) after = omega (arith, total-replace c w w' before after)

-- A thread joins no epoch before those in use, nor the head epoch while it is claimed.
pub joined_low :
    {n : ℕ} {s : System} {w : Worker} (before after : List Worker)
    → n < max_thread_count
    → s.workers ≡ before ++ w ∷ after
    → Inv n s
    → (p : ℕ) → w ≡ joining p
    → (s.epochs.epoch_at p).deleted ≡ false
    → (s.epochs.epoch_at p).taken ≤ (s.epochs.epoch_at p).added
    → lowest s.cleaner s.epochs.head_epoch_p ≤ p
joined_low {n} {s} {w} before after few e i p at_join d t =
    let placed = All-at _ before after (subst (All _) e i.placed) in
    let here : (0 < p) × (p ≤ s.epochs.current_epoch_p) =
      subst (IsPlaced (lowest s.cleaner s.epochs.head_epoch_p) s.epochs.current_epoch_p) at_join
        placed in
    elim (Bool-cases (ltb p s.epochs.head_epoch_p)) [
      | inl gone ↦ absurd (ground (arith, i.gone p here.0))
      | inr stays ↦
          let le : s.epochs.head_epoch_p ≤ p = ground arith in
          by_cleaner s.cleaner (i.counted p le here.1) le
    ]
  where
    by_cleaner :
        (c : Cleaner)
        → (s.epochs.epoch_at p).added + (if s.epochs.head_epoch_p == p then taken_by c else 0)
          ≡ (s.epochs.epoch_at p).taken + total p s.workers
        → s.epochs.head_epoch_p ≤ p
        → lowest c s.epochs.head_epoch_p ≤ p
    by_cleaner resting b le = le
    by_cleaner comparing b le = le
    by_cleaner testing b le = le
    by_cleaner claiming b le = le
    by_cleaner undoing b le = le
    by_cleaner claimed b le = ground (arith, total-length p s.workers, i.many)
    by_cleaner (freeing rest) b le = ground (arith, total-length p s.workers, i.many)
    by_cleaner creating b le = le

lowest_current :
    (c : Cleaner) (head current : ℕ)
    → head ≤ current
    → IsOlder c head current
    → lowest c head ≤ current
lowest_current resting head current le h = le
lowest_current comparing head current le h = le
lowest_current testing head current le h = le
lowest_current claiming head current le h = le
lowest_current undoing head current le h = le
lowest_current claimed head current le h = h
lowest_current (freeing rest) head current le h = h
lowest_current creating head current le h = le

pub work-Inv :
    {n : ℕ} {s : System} {m : Epochs} {w w' : Worker} (before after : List Worker)
    → n < max_thread_count
    → s.workers ≡ before ++ w ∷ after
    → Move s.epochs w m w'
    → Inv n s
    → Inv n (record s { epochs = m; workers = before ++ w' ∷ after })
work-Inv {n} {s} {m} {w} {w'} before after few e move i =
    let low = lowest s.cleaner s.epochs.head_epoch_p in
    let le =
      lowest_current s.cleaner s.epochs.head_epoch_p s.epochs.current_epoch_p i.order i.older in
    let h = All-at _ before after (subst (All _) e i.placed) in
    let k =
      move-Kept low (omega (arith, i.first, i.order)) le h (joined_low before after few e i) move in
    record {
      many = length-replaced s.workers before after w w' e ∙ i.many;
      first = rw (k.head) i.first;
      order = rw (k.head, k.current) i.order;
      older = rw (k.head, k.current) i.older;
      linked = λ c l u. k.next_p c ∙ i.linked c (rw (k.head) at l) (rw (k.current) at u);
      alive = λ c l u. k.deleted c ∙ i.alive c (rw (k.head) at l) (rw (k.current) at u);
      gone = λ c pos u. k.deleted c ∙ i.gone c pos (rw (k.head) at u);
      counted = λ c l u.
          let same = total-replace c w w' before after in
          let was = rw e at (i.counted c (rw (k.head) at l) (rw (k.current) at u)) in
          rw (k.head) (omega (arith, same, was, k.balance c));
      placed =
          rw (k.head, k.current) (All-replaced _ s.workers before after w w' e i.placed k.placed);
      freed_below = rw (k.head, k.freed) i.freed_below;
    }
