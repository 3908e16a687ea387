-- ===== src/Epoch/Invariant.antt =====
-- What every step of the epoch manager keeps: each count is the number of threads in the epoch, less
-- what the cleaner has taken from it, and no thread is in an epoch before those in use.
use multiprocessor_programmi.Prelude.{
  ℕ, suc, ◌+◌, ◌≤◌, ◌<◌, ◌≡◌, true, false, List, [], ◌∷◌, ◌++◌, ◌==◌, if◌then◌else◌, All, length,
  arith,
}
use multiprocessor_programmi.Epoch.{
  Worker, outside, joining, retracting, inside, adding, pushing, Cleaner, resting, comparing,
  testing, claiming, undoing, claimed, freeing, creating, System, max_thread_count,
}

-- Whether a thread counts in the epoch `c`.
abbrev pub visits : ℕ → Worker → ℕ
visits c outside = 0
visits c (joining p) = 0
visits c (retracting p) = if p == c then 1 else 0
visits c (inside e) = if e == c then 1 else 0
visits c (adding e p address node_p) = if e == c then 1 else 0
visits c (pushing e p address node_p next_p) = if e == c then 1 else 0

abbrev pub total : ℕ → List Worker → ℕ
total c [] = 0
total c (w ∷ ws) = visits c w + total c ws

pub total-append : (c : ℕ) (ws us : List Worker) → total c (ws ++ us) ≡ total c ws + total c us
total-append c [] us = omega arith
total-append c (w ∷ ws) us = omega (arith, total-append c ws us)

visits_one : (c : ℕ) (w : Worker) → visits c w ≤ 1
visits_one c outside = omega arith
visits_one c (joining p) = omega arith
visits_one c (retracting p) = ground arith
visits_one c (inside e) = ground arith
visits_one c (adding e p address node_p) = ground arith
visits_one c (pushing e p address node_p next_p) = ground arith

pub total-length : (c : ℕ) (ws : List Worker) → total c ws ≤ length ws
total-length c [] = omega arith
total-length c (w ∷ ws) = omega (arith, visits_one c w, total-length c ws)

-- The epochs from `low` on can have threads in them; garbage is added to the thread's epoch or later.
abbrev pub IsPlaced : ℕ → ℕ → Worker → Type 0
IsPlaced low current outside = Unit
IsPlaced low current (joining p) = (0 < p) × (p ≤ current)
IsPlaced low current (retracting p) = p ≤ current
IsPlaced low current (inside e) = (low ≤ e) × (e ≤ current)
IsPlaced low current (adding e p address node_p) = (low ≤ e) × (e ≤ p) × (p ≤ current)
IsPlaced low current (pushing e p address node_p next_p) = (low ≤ e) × (e ≤ p) × (p ≤ current)

-- what the cleaner has taken from the count of the head epoch
abbrev pub taken_by : Cleaner → ℕ
taken_by resting = 0
taken_by comparing = 0
taken_by testing = 0
taken_by claiming = 0
taken_by undoing = max_thread_count
taken_by claimed = max_thread_count
taken_by (freeing rest) = max_thread_count
taken_by creating = 0

-- the first epoch that can have threads in it
abbrev pub lowest : Cleaner → ℕ → ℕ
lowest resting head = head
lowest comparing head = head
lowest testing head = head
lowest claiming head = head
lowest undoing head = head
lowest claimed head = suc head
lowest (freeing rest) head = suc head
lowest creating head = head

-- While the cleaner is at the head epoch, there is a newer one.
abbrev pub IsOlder : Cleaner → ℕ → ℕ → Type 0
IsOlder resting head current = Unit
IsOlder comparing head current = Unit
IsOlder testing head current = head < current
IsOlder claiming head current = head < current
IsOlder undoing head current = head < current
IsOlder claimed head current = head < current
IsOlder (freeing rest) head current = head < current
IsOlder creating head current = Unit

pub record Inv (n : ℕ) (s : System) : Type 0 where
  pub many : length s.workers ≡ n
  pub first : 0 < s.epochs.head_epoch_p
  pub order : s.epochs.head_epoch_p ≤ s.epochs.current_epoch_p
  pub older : IsOlder s.cleaner s.epochs.head_epoch_p s.epochs.current_epoch_p
  pub linked :
      (c : ℕ)
      → s.epochs.head_epoch_p ≤ c
      → c < s.epochs.current_epoch_p
      → (s.epochs.epoch_at c).next_p ≡ suc c
  pub alive :
      (c : ℕ)
      → s.epochs.head_epoch_p ≤ c
      → c ≤ s.epochs.current_epoch_p
      → (s.epochs.epoch_at c).deleted ≡ false
  pub gone : (c : ℕ) → 0 < c → c < s.epochs.head_epoch_p → (s.epochs.epoch_at c).deleted ≡ true
  pub counted :
      (c : ℕ)
      → s.epochs.head_epoch_p ≤ c
      → c ≤ s.epochs.current_epoch_p
      → (s.epochs.epoch_at c).added + (if s.epochs.head_epoch_p == c then taken_by s.cleaner else 0)
        ≡ (s.epochs.epoch_at c).taken + total c s.workers
  pub placed :
      All (IsPlaced (lowest s.cleaner s.epochs.head_epoch_p) s.epochs.current_epoch_p) s.workers
  pub freed_below : All (λ p. p.1 < lowest s.cleaner s.epochs.head_epoch_p) s.epochs.freed
