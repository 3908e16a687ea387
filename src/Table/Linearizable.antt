-- ===== src/Table/Linearizable.antt =====
-- Every call of `Insert` and `Delete` takes effect at once, at one of its steps.
use multiprocessor_programmi.Prelude.{
  ℕ, suc, ◌<◌, ◌≡◌, ◌==◌, refl, sym, Bool, true, false, not, some, if◌then◌else◌, arith, Bool-cases,
  inl, inr,
}
use mathlib.Core.Path.{subst}
use multiprocessor_programmi.Leaf.{LeafChain, get_high_key_pair}
use multiprocessor_programmi.Leaf.Spec.{IsBelowHigh, IsValid, holds, is_pair}
use multiprocessor_programmi.Leaf.Update.{Updates, insert_round-Updates, delete_round-Updates}
use multiprocessor_programmi.Stack.{update}
use multiprocessor_programmi.Table.{
  Operation, round, Memory, Thread, idle, running, installing, Event, internal, returned, Move,
  call, refuse, prepare, win, lose, Table, Step, move, Reach, start, later,
}

-- The specification: a set of pairs. `Insert` returns whether the pair was new, `Delete` whether it was
-- there; afterwards it is there, or is not, and all other pairs are as before.
abbrev pub expected : Operation → (ℕ → ℕ → Bool) → Bool
expected op pairs = if op.is_insert then not (pairs op.key op.value) else pairs op.key op.value

abbrev pub Effect : Event → (ℕ → ℕ → Bool) → (ℕ → ℕ → Bool) → Type 0
Effect internal before after = (k v : ℕ) → after k v ≡ before k v
Effect (returned op result) before after =
    (result ≡ expected op before)
    × ((k v : ℕ)
        → after k v ≡ (if is_pair k v (op.key, op.value) then op.is_insert else before k v))

round-Updates :
    (op : Operation) (c : LeafChain)
    → IsValid c
    → IsBelowHigh (get_high_key_pair c) op.key
    → (after : LeafChain) × (round op c ≡ some (expected op (holds c), after))
      × Updates op.key op.value op.is_insert c after
unfolding round
round-Updates op c h b = elim (Bool-cases op.is_insert) [
  | inl insert ↦ rw insert (insert_round-Updates op.key op.value c h b)
  | inr delete ↦ rw delete (delete_round-Updates op.key op.value c h b)
]

-- What a thread before its compare-exchange knows of the nodes that it names.
abbrev IsReady : (ℕ → LeafChain) → ℕ → Thread → Type 0
IsReady nodes free idle = Unit
IsReady nodes free (running op) = Unit
IsReady nodes free (installing op prev_p node_p) =
    (prev_p < free)
    × (node_p < free)
    × (expected op (holds (nodes prev_p)) ≡ true)
    × Updates op.key op.value op.is_insert (nodes prev_p) (nodes node_p)

record Inv (m : Memory) (threads : ℕ → Thread) : Type 0 where
  bounded : m.entry < m.free
  valid : IsValid (m.nodes m.entry)
  ready : (i : ℕ) → IsReady m.nodes m.free (threads i)

IsReady-update :
    (nodes : ℕ → LeafChain) (free : ℕ) (c : LeafChain) (t : Thread)
    → IsReady nodes free t
    → IsReady (update nodes free c) (suc free) t
IsReady-update nodes free c idle h = tt
IsReady-update nodes free c (running op) h = tt
IsReady-update nodes free c (installing op prev_p node_p) (lt, lt', was, u) =
    let prev : (free == prev_p) ≡ false = ground arith in
    let node : (free == node_p) ≡ false = ground arith in
    (omega arith, omega arith, rw prev was, rw (prev, node) u)

IsReady-threads :
    (nodes : ℕ → LeafChain) (free i : ℕ) (threads : ℕ → Thread) (t : Thread)
    → IsReady nodes free t
    → ((j : ℕ) → IsReady nodes free (threads j))
    → (j : ℕ) → IsReady nodes free (update threads i t j)
IsReady-threads nodes free i threads t h hs j = elim (Bool-cases (i == j)) [
  | inl same ↦ rw same h
  | inr other ↦ rw other (hs j)
]

-- A call that is refused changes nothing, as its pair is as it asks for.
refused_same :
    (op : Operation) (pairs : ℕ → ℕ → Bool) (k v : ℕ)
    → expected op pairs ≡ false
    → pairs k v ≡ (if is_pair k v (op.key, op.value) then op.is_insert else pairs k v)
refused_same op pairs k v e = elim (Bool-cases (is_pair k v (op.key, op.value))) [
  | inl this ↦
      let same : (k ≡ op.key) × (v ≡ op.value) = ground arith in
      rw (this, same.0, same.1) (ground arith)
  | inr other ↦ rw other refl
]

-- What a round answers is what the specification expects, and what it prepares is the update.
round_answer :
    (op : Operation) (c after : LeafChain) (result : Bool)
    → IsValid c
    → IsBelowHigh (get_high_key_pair c) op.key
    → round op c ≡ some (result, after)
    → (result ≡ expected op (holds c)) × Updates op.key op.value op.is_insert c after
round_answer op c after result h b e =
    let (after', answer, u) = round-Updates op c h b in
    let same : (result ≡ expected op (holds c)) × (after' ≡ after) = ground arith in
    (same.0, subst (Updates op.key op.value op.is_insert c) same.1 u)

-- What a step does, given what its thread knows.
Move-Effect :
    {m m' : Memory} {e : Event} {t t' : Thread}
    → IsValid (m.nodes m.entry)
    → m.entry < m.free
    → IsReady m.nodes m.free t
    → Move m t e m' t'
    → Effect e (holds (m.nodes m.entry)) (holds (m'.nodes m'.entry))
Move-Effect h lt r (call op) = λ k v. refl
Move-Effect {m} h lt r (refuse {op} {after} b e) =
    let (answer, u) = round_answer op (m.nodes m.entry) after false h b e in
    (answer, λ k v. refused_same op (holds (m.nodes m.entry)) k v (sym answer))
Move-Effect {m} h lt r (prepare {op} {after} b e) =
    let old : (m.free == m.entry) ≡ false = ground arith in λ k v. rw old refl
Move-Effect {m} h lt r (win {op} {prev_p} {node_p} e) = rw e (sym r.2, r.3.pairs)
Move-Effect h lt r (lose n) = λ k v. refl

Move-Inv :
    {m m' : Memory} {e : Event} {t t' : Thread}
    → IsValid (m.nodes m.entry)
    → m.entry < m.free
    → IsReady m.nodes m.free t
    → Move m t e m' t'
    → (m'.entry < m'.free)
      × IsValid (m'.nodes m'.entry)
      × IsReady m'.nodes m'.free t'
      × ((t : Thread) → IsReady m.nodes m.free t → IsReady m'.nodes m'.free t)
Move-Inv h lt r (call op) = (lt, h, tt, λ t q. q)
Move-Inv h lt r (refuse b e) = (lt, h, tt, λ t q. q)
Move-Inv {m} h lt r (prepare {op} {after} b e) =
    let (answer, u) = round_answer op (m.nodes m.entry) after true h b e in
    let old : (m.free == m.entry) ≡ false = ground arith in
    let new : (m.free == m.free) ≡ true = ground arith in
    (
      omega arith,
      rw old h,
      (omega arith, omega arith, rw old (sym answer), rw (old, new) u),
      IsReady-update m.nodes m.free after,
    )
Move-Inv h lt r (win e) = (r.1, r.3.kept, tt, λ t q. q)
Move-Inv h lt r (lose n) = (lt, h, tt, λ t q. q)

Reach-Inv : {c : LeafChain} {s : Table} → IsValid c → Reach c s → Inv s.mem s.threads
Reach-Inv h start = record { bounded = omega arith; valid = h; ready = λ i. tt }
Reach-Inv h (later {s} r (move i {m} {t} mv)) =
    let inv = Reach-Inv h r in
    let (bounded, valid, ready, others) = Move-Inv inv.valid inv.bounded (inv.ready i) mv in
    record {
      bounded = bounded;
      valid = valid;
      ready =
          IsReady-threads m.nodes m.free i s.threads t ready
            (λ j. others (s.threads j) (inv.ready j));
    }

-- the pairs of the leaf that the entry points to
abbrev pub pairs : Table → ℕ → ℕ → Bool
pairs s = holds (s.mem.nodes s.mem.entry)

-- Let the leaf be well-formed at first, and let any number of threads call `Insert` and `Delete` on it,
-- each round on a node whose range holds its key. Then every step has exactly the effect of its event
-- on the set of pairs: the step at which a call returns does what the call is to do, with the right
-- result, and all other steps change no pair. So the calls are linearizable.
pub table-Effect :
    {c : LeafChain} {s t : Table} {e : Event}
    → IsValid c
    → Reach c s
    → Step s e t
    → Effect e (pairs s) (pairs t)
table-Effect h r (move i mv) =
    let inv = Reach-Inv h r in Move-Effect inv.valid inv.bounded (inv.ready i) mv
