-- ===== src/Stack/Invariant.antt =====
-- Why the version number rules out the ABA problem: a snapshot with the current version is current.
use multiprocessor_programmi.Prelude.{
  ℕ, zero, suc, ◌^◌, ◌≤◌, ◌<◌, ◌≡◌, ◌==◌, refl, List, [], ◌∷◌, arith, Bool-cases, inl, inr, ap, sym,
}
use mathlib.Core.Path.{subst, subst₂}
use multiprocessor_programmi.Stack.{
  Pointer, null, slot, VersionedPointer, null_pointer, to_next_version, update, Shared, Popper,
  idle, loaded, ready, Pusher, quiet, writing, Event, Move, load, see_null, see_empty, read,
  cas_win, cas_lose, Push, prepare, write, store, System, pop, push, init, Reach, start, later,
}

-- The place that a pointer stands for.
abbrev pub size_at : Pointer → ℕ
size_at null = 0
size_at (slot n) = n

-- What a snapshot of the top says, if its version is the stack's.
abbrev pub IsCurrent : Pointer → ℕ → ℕ → ℕ → Type 0
IsCurrent null version n v = Unit
IsCurrent (slot i) version n v = (version ≤ v) × (version ≡ v → i ≡ n)

-- A newer version is no snapshot's.
IsCurrent-newer :
    (p : Pointer) (version n v n' v' : ℕ)
    → v < v'
    → IsCurrent p version n v
    → IsCurrent p version n' v'
IsCurrent-newer null version n v n' v' lt c = tt
IsCurrent-newer (slot i) version n v n' v' lt c =
    (omega (arith, c.0), λ e. absurd (omega (arith, c.0)))

IsCurrent-self : (p : Pointer) (version : ℕ) → IsCurrent p version (size_at p) version
IsCurrent-self null version = tt
IsCurrent-self (slot i) version = (omega arith, λ e. refl)

module _ {A : Type 0} where
  -- The items of the stack, the top first.
  abbrev pub stack_of : (ℕ → A) → ℕ → List A
  stack_of cells zero = []
  stack_of cells (suc n) = cells n ∷ stack_of cells n

  -- The items pushed one after the other.
  abbrev pub push_all : List A → List A → List A
  push_all [] stack = stack
  push_all (x ∷ items) stack = push_all items (x ∷ stack)

  -- The stack's size and version: while items are written, those of the snapshot taken before.
  abbrev pub size : Shared A → Pusher A → ℕ
  size m quiet = size_at m.top_p.ptr
  size m (writing base version cursor items rest) = base

  abbrev pub version_of : Shared A → Pusher A → ℕ
  version_of m quiet = m.top_p.version
  version_of m (writing base version cursor items rest) = version

  abbrev pub contents : System A → List A
  contents s = stack_of s.mem.cells (size s.mem s.pusher)

  abbrev pub IsShaped : Shared A → Pusher A → Type 0
  IsShaped m quiet = m.top_p.ptr ≡ slot (size_at m.top_p.ptr)
  IsShaped m (writing base version cursor items rest) =
      (m.top_p ≡ null_pointer)
      × (base ≤ cursor)
      × (push_all rest (stack_of m.cells cursor) ≡ push_all items (stack_of m.cells base))

  abbrev pub IsFresh : (ℕ → A) → ℕ → ℕ → Popper A → Type 0
  IsFresh cells n v idle = Unit
  IsFresh cells n v (loaded snap) = IsCurrent snap.ptr snap.version n v
  IsFresh cells n v (ready i version ret) =
      (version ≤ v) × (version ≡ v → (suc i ≡ n) × (ret ≡ cells i))

  pub record Inv (k : ℕ) (m : Shared A) (q : Pusher A) (ps : ℕ → Popper A) : Type 0 where
    pub counted : version_of m q ≤ k
    pub shaped : IsShaped m q
    pub fresh : (i : ℕ) → IsFresh m.cells (size m q) (version_of m q) (ps i)

  pub stack_of-update :
      (cells : ℕ → A) (n c : ℕ) (x : A) → n ≤ c → stack_of (update cells c x) n ≡ stack_of cells n
  stack_of-update cells zero c x h = refl
  stack_of-update cells (suc n) c x h = ground (arith, stack_of-update cells n c x)

  Inv-init : (cells : ℕ → A) → Inv 0 (init cells).mem quiet (λ _. idle)
  Inv-init cells = record { counted = omega arith; shaped = refl; fresh = λ i. tt }

  IsFresh-newer :
      (m m' : ℕ → A) (n v n' v' : ℕ) (p : Popper A) → v < v' → IsFresh m n v p → IsFresh m' n' v' p
  IsFresh-newer m m' n v n' v' idle lt f = tt
  IsFresh-newer m m' n v n' v' (loaded snap) lt f =
      IsCurrent-newer snap.ptr snap.version n v n' v' lt f
  IsFresh-newer m m' n v n' v' (ready i version ret) lt f =
      (omega (arith, f.0), λ e. absurd (omega (arith, f.0)))

  -- A write at or above the top changes no snapshot's item.
  IsFresh-write :
      (cells : ℕ → A) (n v c : ℕ) (x : A) (p : Popper A)
      → n ≤ c
      → IsFresh cells n v p
      → IsFresh (update cells c x) n v p
  IsFresh-write cells n v c x idle le f = tt
  IsFresh-write cells n v c x (loaded snap) le f = f
  IsFresh-write cells n v c x (ready i version ret) le f =
      (f.0, λ e. let g = f.1 e in (g.0, ground arith))

  -- The top as it stands now is current.
  IsCurrent-top :
      (m : Shared A) (q : Pusher A)
      → IsShaped m q
      → IsCurrent m.top_p.ptr m.top_p.version (size m q) (version_of m q)
  IsCurrent-top m quiet h = IsCurrent-self m.top_p.ptr m.top_p.version
  IsCurrent-top m (writing base version cursor items rest) h = rw h.0 tt

  fresh-update :
      (P : Popper A → Type 0) (ps : ℕ → Popper A) (i : ℕ) (p : Popper A)
      → ((j : ℕ) → P (ps j))
      → P p
      → (j : ℕ) → P (update ps i p j)
  fresh-update P ps i p f h j = elim (Bool-cases (i == j)) [
    | inl same ↦ rw same h
    | inr other ↦ rw other (f j)
  ]

  -- A compare-exchange that wins finds no push under way, and its item is the top.
  pub cas_win-top :
      (m : Shared A) (q : Pusher A) (i version : ℕ) (ret : A)
      → IsShaped m q
      → IsFresh m.cells (size m q) (version_of m q) (ready i version ret)
      → m.top_p ≡ record { ptr = slot (suc i); version = version }
      → (q ≡ quiet) × (ret ≡ m.cells i)
  cas_win-top m quiet i version ret h f e =
      (refl, (f.1 (ap (λ (t : VersionedPointer). t.version) (sym e))).1)
  cas_win-top m (writing base v cursor items rest) i version ret h f e = absurd (ground arith)

  -- A step that leaves the stack alone, and a thread with a snapshot that is fresh.
  stay :
      {k : ℕ} {m : Shared A} {q : Pusher A} {ps : ℕ → Popper A} (i : ℕ) (p : Popper A)
      → Inv k m q ps
      → IsFresh m.cells (size m q) (version_of m q) p
      → Inv (suc k) m q (update ps i p)
  stay {m} {q} {ps} i p inv f = record {
    counted = omega (arith, inv.counted);
    shaped = inv.shaped;
    fresh = fresh-update (IsFresh m.cells (size m q) (version_of m q)) ps i p inv.fresh f;
  }

  cas_win-Inv :
      (k : ℕ) (m : Shared A) (q : Pusher A) (ps : ℕ → Popper A) (i j version : ℕ)
      → suc k < 2 ^ 64
      → Inv k m q ps
      → m.top_p ≡ record { ptr = slot (suc i); version = version }
      → Inv
          (suc k)
          (record m { top_p = record { ptr = slot i; version = to_next_version version } })
          q
          (update ps j idle)
  cas_win-Inv k m quiet ps i j version lt inv e =
      let now : m.top_p.version ≡ version = ap (λ (t : VersionedPointer). t.version) e in
      let newer : m.top_p.version < to_next_version version = omega (arith, inv.counted) in
      record {
        counted = omega (arith, inv.counted);
        shaped = refl;
        fresh =
            fresh-update (IsFresh m.cells i (to_next_version version)) ps j idle
              (λ l. IsFresh-newer m.cells m.cells _ m.top_p.version i _ (ps l) newer (inv.fresh l))
              tt;
      }
  cas_win-Inv k m (writing base v cursor items rest) ps i j version lt inv e =
      let null_top = inv.shaped.0 in absurd (ground arith)

  IsFresh-read :
      (m : Shared A) (n v i : ℕ) (snap : VersionedPointer)
      → snap.ptr ≡ slot (suc i)
      → IsCurrent snap.ptr snap.version n v
      → IsFresh m.cells n v (ready i snap.version (m.cells i))
  IsFresh-read m n v i snap h f =
      let g : IsCurrent (slot (suc i)) snap.version n v =
        subst (λ p. IsCurrent p snap.version n v) h f in
      (g.0, λ e. (g.1 e, refl))

  Move-Inv :
      {k : ℕ} {m m' : Shared A} {q : Pusher A} {ps : ℕ → Popper A} {e : Event A} (i : ℕ)
      {p p' : Popper A}
      → suc k < 2 ^ 64
      → Inv k m q ps
      → IsFresh m.cells (size m q) (version_of m q) p
      → Move m p e m' p'
      → Inv (suc k) m' q (update ps i p')
  Move-Inv {m} {q} i lt inv f load = stay i (loaded m.top_p) inv (IsCurrent-top m q inv.shaped)
  Move-Inv i lt inv f (see_null h) = stay i idle inv tt
  Move-Inv i lt inv f (see_empty h) = stay i idle inv tt
  Move-Inv {m} {q} i lt inv f (read {snap = s} {i = j} h) =
      stay i _ inv (IsFresh-read m (size m q) (version_of m q) j s h f)
  Move-Inv {k} {m} {q = q} {ps = ps} i lt inv f (cas_win {i = j} {version = v} h) =
      cas_win-Inv k m q ps j i v lt inv h
  Move-Inv {m} {q} i lt inv f (cas_lose h) =
      stay i (loaded m.top_p) inv (IsCurrent-top m q inv.shaped)

  Push-Inv :
      {k : ℕ} {m m' : Shared A} {q q' : Pusher A} {ps : ℕ → Popper A} {e : Event A}
      → suc k < 2 ^ 64
      → Inv k m q ps
      → Push m q e m' q'
      → Inv (suc k) m' q' ps
  Push-Inv {m} {ps} lt inv (prepare {n} {version} items e) =
      let at : size_at m.top_p.ptr ≡ n = ap (λ (t : VersionedPointer). size_at t.ptr) e in
      let now : m.top_p.version ≡ version = ap (λ (t : VersionedPointer). t.version) e in
      record {
        counted = omega (arith, inv.counted);
        shaped = (refl, omega arith, refl);
        fresh = λ i. subst₂ (λ n v. IsFresh m.cells n v (ps i)) at now (inv.fresh i);
      }
  Push-Inv {m} {ps} lt inv (write {base} {cursor = c} {items} {rest} {item = x}) = record {
    counted = omega (arith, inv.counted);
    shaped = (
      inv.shaped.0,
      omega (arith, inv.shaped.1),
      ground (
        arith,
        stack_of-update m.cells base c x inv.shaped.1,
        stack_of-update m.cells c c x (omega arith),
      ),
    );
    fresh = λ i. IsFresh-write m.cells base _ c x (ps i) inv.shaped.1 (inv.fresh i);
  }
  Push-Inv {m} {ps} lt inv (store {version} {cursor}) =
      let newer : version < to_next_version version = omega (arith, inv.counted) in
      record {
        counted = omega (arith, inv.counted);
        shaped = refl;
        fresh = λ i. IsFresh-newer m.cells m.cells _ version cursor _ (ps i) newer (inv.fresh i);
      }

  -- Fewer than 2^64 steps keep the version from coming round.
  pub Reach-Inv :
      {cells : ℕ → A} {k : ℕ} {s : System A}
      → Reach cells k s
      → k < 2 ^ 64
      → Inv k s.mem s.pusher s.poppers
  Reach-Inv {cells} start lt = Inv-init cells
  Reach-Inv (later {s} r (pop i mv)) lt =
      let inv = Reach-Inv r (omega arith) in Move-Inv i lt inv (inv.fresh i) mv
  Reach-Inv (later r (push mv)) lt = Push-Inv lt (Reach-Inv r (omega arith)) mv
