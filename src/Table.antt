-- ===== src/Table.antt =====
-- One leaf's entry of the mapping table of the Bw-Tree (project3/sourcefile/bwtree/include/bwtree.h),
-- and the threads in `Insert` and `Delete` that replace it by compare-exchange (InstallNodeToReplace).
pub mod Linearizable
mod Tests
use multiprocessor_programmi.Prelude.{
  ℕ, suc, ◌≡◌, ◌≢◌, Bool, true, false, Option, some, if◌then◌else◌,
}
use multiprocessor_programmi.Leaf.{LeafChain, get_high_key_pair}
use multiprocessor_programmi.Leaf.Spec.{IsBelowHigh}
use multiprocessor_programmi.Leaf.Update.{insert_round, delete_round}
use multiprocessor_programmi.Stack.{update}

-- A call of `Insert` (without `unique_key`) or of `Delete`.
pub record Operation : Type 0 where
  pub is_insert : Bool
  pub key : ℕ
  pub value : ℕ

unfoldable pub round : Operation → LeafChain → Option (Bool × LeafChain)
unfolding insert_round delete_round
round op node_p =
    if op.is_insert
    then insert_round op.key op.value false node_p
    else delete_round op.key op.value node_p

-- The nodes by address, the first address that is free, and `mapping_table[node_id]`. A node is not
-- changed once it is written, and its address is not used again while a thread may still hold it:
-- this is what the epochs are for.
pub record Memory : Type 0 where
  pub nodes : ℕ → LeafChain
  pub free : ℕ
  pub entry : ℕ

pub data Thread : Type 0 where
  idle : Thread
  running : Operation → Thread  -- at the head of the loop
  installing : (op : Operation) (prev_p node_p : ℕ) → Thread  -- before the compare-exchange

pub data Event : Type 0 where
  internal : Event
  returned : Operation → Bool → Event

-- One step of a thread. The search of a round starts from the entry, and reads no shared memory but
-- that; it runs on the node whose range holds the key, where `NavigateSiblingChain` ends.
pub data Move (m : Memory) : Thread → Event → Memory → Thread → Type 0 where
  call : (op : Operation) → Move m idle internal m (running op)
  refuse :
      {op : Operation} {after : LeafChain}
      → IsBelowHigh (get_high_key_pair (m.nodes m.entry)) op.key
      → round op (m.nodes m.entry) ≡ some (false, after)
      → Move m (running op) (returned op false) m idle
  prepare :
      {op : Operation} {after : LeafChain}
      → IsBelowHigh (get_high_key_pair (m.nodes m.entry)) op.key
      → round op (m.nodes m.entry) ≡ some (true, after)
      → Move m
          (running op)
          internal
          (record m { nodes = update m.nodes m.free after; free = suc m.free })
          (installing op m.entry m.free)
  win :
      {op : Operation} {prev_p node_p : ℕ}
      → m.entry ≡ prev_p
      → Move m (installing op prev_p node_p) (returned op true) (record m { entry = node_p }) idle
  lose :
      {op : Operation} {prev_p node_p : ℕ}
      → m.entry ≢ prev_p
      → Move m (installing op prev_p node_p) internal m (running op)

pub record Table : Type 0 where
  pub mem : Memory
  pub threads : ℕ → Thread

pub data Step (s : Table) : Event → Table → Type 0 where
  move :
      (i : ℕ) {e : Event} {m : Memory} {t : Thread}
      → Move s.mem (s.threads i) e m t
      → Step s e (record { mem = m; threads = update s.threads i t })

-- A leaf is installed at the address 0, and no thread is in a call.
abbrev pub installed : LeafChain → Table
installed c = record { mem = record { nodes = λ _. c; free = 1; entry = 0 }; threads = λ _. idle }

pub data Reach (c : LeafChain) : Table → Type 0 where
  start : Reach c (installed c)
  later : {e : Event} {s t : Table} → Reach c s → Step s e t → Reach c t
