-- ===== src/Stack/Refines.antt =====
-- The stack of the callers: what each step does to its items, in every reachable state.
use multiprocessor_programmi.Prelude.{
  ℕ, suc, ◌+◌, ◌%◌, ◌^◌, ◌<◌, ◌≡◌, ◌≢◌, ◌⊎◌, inl, inr, refl, List, ◌∷◌, arith, ap, dec_lt,
}
use mathlib.Core.Path.{subst}
use multiprocessor_programmi.Stack.{
  slot, VersionedPointer, null_pointer, Shared, Popper, ready, Pusher, quiet, writing, Event,
  internal, popped, failed, pushed, Move, load, see_null, see_empty, read, cas_win, cas_lose, Push,
  prepare, write, store, System, Step, pop, push, Reach,
}
use multiprocessor_programmi.Stack.Invariant.{
  stack_of, push_all, size_at, size, version_of, contents, stack_of-update, cas_win-top, Reach-Inv,
  IsFresh, IsShaped,
}

module _ {A : Type 0} where
  -- The specification: a stack, the top first. `Pop` takes the top, a push adds its items one after
  -- the other, and everything else, a `Pop` that fails included, changes nothing.
  abbrev pub Effect : Event A → List A → List A → Type 0
  Effect internal before after = after ≡ before
  Effect (popped x) before after = before ≡ x ∷ after
  Effect failed before after = after ≡ before
  Effect (pushed items) before after = after ≡ push_all items before

  cas_win-Effect :
      (m : Shared A) (q : Pusher A) (i version : ℕ) (ret : A)
      → IsShaped m q
      → IsFresh m.cells (size m q) (version_of m q) (ready i version ret)
      → m.top_p ≡ record { ptr = slot (suc i); version = version }
      → stack_of m.cells (size m q)
        ≡ ret
          ∷ stack_of m.cells (
              size
                (record m { top_p = record { ptr = slot i; version = (version + 1) % 2 ^ 64 } })
                q)
  cas_win-Effect m quiet i version ret h f e =
      let at : size_at m.top_p.ptr ≡ suc i = ap (λ (t : VersionedPointer). size_at t.ptr) e in
      let top : ret ≡ m.cells i = (cas_win-top m quiet i version ret h f e).1 in rw (at, top) refl
  cas_win-Effect m (writing base v cursor items rest) i version ret h f e = absurd (ground arith)

  Move-Effect :
      {m m' : Shared A} (q : Pusher A) {e : Event A} {p p' : Popper A}
      → IsShaped m q
      → IsFresh m.cells (size m q) (version_of m q) p
      → Move m p e m' p'
      → Effect e (stack_of m.cells (size m q)) (stack_of m'.cells (size m' q))
  Move-Effect q h f load = refl
  Move-Effect q h f (see_null n) = refl
  Move-Effect q h f (see_empty n) = refl
  Move-Effect q h f (read n) = refl
  Move-Effect {m} q h f (cas_win {i} {version} {ret} e) = cas_win-Effect m q i version ret h f e
  Move-Effect q h f (cas_lose n) = refl

  Push-Effect :
      {m m' : Shared A} {q q' : Pusher A} {e : Event A}
      → IsShaped m q
      → Push m q e m' q'
      → Effect e (stack_of m.cells (size m q)) (stack_of m'.cells (size m' q'))
  Push-Effect {m} h (prepare {n} items e) =
      let at : size_at m.top_p.ptr ≡ n = ap (λ (t : VersionedPointer). size_at t.ptr) e in
      rw at refl
  Push-Effect {m} h (write {base} {cursor = c} {item = x}) = stack_of-update m.cells base c x h.1
  Push-Effect h store = h.2

  -- In every state that fewer than 2^64 steps reach, with any number of popping threads and one
  -- pushing thread, each step has exactly the effect of its event on the stack of the callers: a `Pop`
  -- that returns a value takes the top item, a push adds its items in order, and no other step, a
  -- failing `Pop` included, changes the stack.
  pub Step-Effect :
      {cells : ℕ → A} {k : ℕ} {s t : System A} {e : Event A}
      → Reach cells k s
      → k < 2 ^ 64
      → Step s e t
      → Effect e (contents s) (contents t)
  Step-Effect {s} r lt (pop i mv) =
      let inv = Reach-Inv r lt in Move-Effect s.pusher inv.shaped (inv.fresh i) mv
  Step-Effect r lt (push mv) = Push-Effect (Reach-Inv r lt).shaped mv

  cas_lose-reason :
      (m : Shared A) (q : Pusher A) (i version : ℕ) (ret : A)
      → IsShaped m q
      → IsFresh m.cells (size m q) (version_of m q) (ready i version ret)
      → m.top_p ≢ record { ptr = slot (suc i); version = version }
      → (version < version_of m q) ⊎ (m.top_p ≡ null_pointer)
  cas_lose-reason m quiet i version ret h f n = elim (dec_lt version m.top_p.version) [
    | yes older ↦ inl older
    | no same ↦ absurd (ground arith)
  ]
  cas_lose-reason m (writing base v cursor items rest) i version ret h f n = inr h.0

  -- In every state that fewer than 2^64 steps reach the stack is lock-free: if the compare-exchange of a `Pop` loses, then another thread has changed
  -- the stack since the snapshot was taken, its version being newer, or a push is under way.
  pub cas_lose-progress :
      {cells : ℕ → A} {k i version thread : ℕ} {ret : A} {s : System A}
      → Reach cells k s
      → k < 2 ^ 64
      → s.poppers thread ≡ ready i version ret
      → s.mem.top_p ≢ record { ptr = slot (suc i); version = version }
      → (version < version_of s.mem s.pusher) ⊎ (s.mem.top_p ≡ null_pointer)
  cas_lose-progress {i} {version} {thread} {ret} {s} r lt e n =
      let inv = Reach-Inv r lt in
      cas_lose-reason s.mem s.pusher i version ret inv.shaped
        (subst (λ p. IsFresh s.mem.cells (size s.mem s.pusher) (version_of s.mem s.pusher) p) e
          (inv.fresh thread))
        n
