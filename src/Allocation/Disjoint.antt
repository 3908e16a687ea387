-- ===== src/Allocation/Disjoint.antt =====
-- No two allocations overlap, and each lies inside its chunk.
use multiprocessor_programmi.Prelude.{
  ℕ, ◌+◌, ◌*◌, ◌≤◌, ◌≡◌, ◌⊎◌, refl, inl, inr, List, [], ◌∷◌, none, some, ◌==◌, All, All-map, length,
  arith, Bool-cases,
}
use mathlib.Core.Path.{subst}
use multiprocessor_programmi.Allocation.{
  Event, Thread, idle, subtracting, Sizes, call, depleted, has_room, gets, misses, follow, grow,
  link, link_lost, System, Step, move, IsIdle, note, Reach, start, later,
}
use multiprocessor_programmi.Allocation.Invariant.{
  pending, total, Area, Apart, IsApart, IsLogged, Inside, IsAt, Inv,
}
use multiprocessor_programmi.Allocation.Fresh.{IsSpread, Reach-IsSpread}
use multiprocessor_programmi.Allocation.Steps.{
  old-IsAt, same_chunks, linked, subtract_Inv, allocated_Inv,
}

module _ (z : Sizes) where
  step-Inv :
      (n : ℕ) (s s' : System z) (log : List Area) (e : Event)
      → n * z.max_size ≤ z.low_address
      → Step z s e s'
      → Inv z n s log
      → Inv z n s' (note z e log)
  step-Inv n s s' log e low (move before after {t} {t'} at (call le)) i =
      same_chunks z n s log i before after idle t' at (le, i.not_empty) (λ c. inl (omega arith))
  step-Inv n s s' log e low (move before after {t} {t'} at (depleted less)) i =
      same_chunks z n s log i before after t t' at (old-IsAt z n s log i before after t t' at)
        (λ c. inl (omega arith))
  step-Inv n s s' log e low (move before after {t} {t'} at (has_room {size} {meta_p} room)) i =
      same_chunks z n s log i before after t t' at (old-IsAt z n s log i before after t t' at)
        passes
    where
      passes :
          (c : ℕ)
          → (pending c (subtracting size meta_p) ≤ 0)
            ⊎ ((s.chunks.chunk_at c).limit ≤ (s.chunks.chunk_at c).tail)
      passes c = elim (Bool-cases (meta_p == c)) [
        | inl here ↦
            let same : meta_p ≡ c = ground arith in
            inr (subst (λ k. (s.chunks.chunk_at k).limit ≤ (s.chunks.chunk_at k).tail) same room)
        | inr elsewhere ↦ inl (rw elsewhere (omega arith))
      ]
  step-Inv n s s' log e low
        (move before after {t} {t'} at (gets {size} {meta_p} {address} {chunk} got)) i =
      allocated_Inv z n s log i before after t t' at size meta_p chunk (some address) got refl
        (λ c. refl) address refl (old-IsAt z n s log i before after t t' at) tt
  step-Inv n s s' log e low (move before after {t} {t'} at (misses {size} {meta_p} {chunk} got)) i =
      subtract_Inv z n s log i before after t t' at size meta_p chunk none got refl (λ c. refl)
        (old-IsAt z n s log i before after t t' at)
  step-Inv n s s' log e low (move before after {t} {t'} at (follow {size} {meta_p} next)) i =
      let old = old-IsAt z n s log i before after t t' at in
      same_chunks z n s log i before after t t' at (old.0, omega (arith, old.1, next))
        (λ c. inl (omega arith))
  step-Inv n s s' log e low (move before after {t} {t'} at (grow base last a fresh)) i =
      let old = old-IsAt z n s log i before after t t' at in
      same_chunks z n s log i before after t t' at (old.0, old.1, a) (λ c. inl (omega arith))
  step-Inv n s s' log e low (move before after {t} {t'} at (link {size} {meta_p} {base} last)) i =
      let old = old-IsAt z n s log i before after t t' at in
      linked z n s log i before after t t' at base low old.2 (old.0, omega (arith, old.1))
        (λ c. omega arith)
  step-Inv n s s' log e low (move before after {t} {t'} at (link_lost next)) i =
      let old = old-IsAt z n s log i before after t t' at in
      same_chunks z n s log i before after t t' at (old.0, omega (arith, old.1, next))
        (λ c. inl (omega arith))

  idle_total : (c : ℕ) (ts : List Thread) → IsIdle z ts → total c ts ≡ 0
  idle_total c [] h = refl
  idle_total c (t ∷ ts) h = rw (h.0) (omega (arith, idle_total c ts h.1))

  idle_placed : (ts : List Thread) → IsIdle z ts → All (IsAt z 1) ts
  idle_placed [] h = tt
  idle_placed (t ∷ ts) h = (rw (h.0) tt, idle_placed ts h.1)

  reach-Inv :
      (base : ℕ) (threads : List Thread) (s : System z) (log : List Area)
      → length threads * z.max_size ≤ z.low_address
      → Reach z base threads s log
      → Inv z (length threads) s log
  reach-Inv base threads s log low (start a h) = record {
    many = refl;
    not_empty = omega arith;
    placed = idle_placed threads h;
    sound = λ c. record {
      no_wrap = omega (arith, idle_total c threads h);
      high = omega (arith, low, a.0);
      top = omega arith;
      word = omega (arith, a.1);
    };
    logged = tt;
    apart = tt;
  }
  reach-Inv base threads s log low (later {s = before} {e = e} {log = earlier} r step) =
      step-Inv (length threads) before s earlier e low step
        (reach-Inv base threads before earlier low r)

  -- Two areas share no address.
  abbrev pub Disjoint : Area → Area → Type 0
  Disjoint x y = (x.1.0 + x.1.1 ≤ y.1.0) ⊎ (y.1.0 + y.1.1 ≤ x.1.0)

  abbrev pub AreDisjoint : List Area → Type 0
  AreDisjoint [] = Unit
  AreDisjoint (x ∷ xs) = All (Disjoint x) xs × AreDisjoint xs

  -- Areas in one chunk follow each other, and those of two chunks lie in the two chunks.
  two_areas :
      (s : System z) (x y : Area)
      → IsSpread z s
      → IsLogged z s.chunks.chunk_at s.chunks.count x
      → IsLogged z s.chunks.chunk_at s.chunks.count y
      → Apart x y
      → Disjoint x y
  two_areas s x y spread h k (inr follows) = inl follows
  two_areas s x y spread (listed, above, inside) (listed', above', inside') (inl other) =
      elim (spread.chunks x.0 y.0 listed listed' other) [
        | inl below ↦ inl (omega (arith, below, inside.1, inside'.0))
        | inr over ↦ inr (omega (arith, over, inside.0, inside'.1))
      ]

  each_area :
      (s : System z) (log : List Area)
      → IsSpread z s
      → All (IsLogged z s.chunks.chunk_at s.chunks.count) log
      → IsApart log
      → AreDisjoint log
  each_area s [] spread h apart = tt
  each_area s (x ∷ log) spread h apart = (one log h.1 apart.0, each_area s log spread h.1 apart.1)
    where
      one :
          (ys : List Area)
          → All (IsLogged z s.chunks.chunk_at s.chunks.count) ys
          → All (Apart x) ys
          → All (Disjoint x) ys
      one [] k a = tt
      one (y ∷ ys) k a = (two_areas s x y spread h.0 k.0 a.0, one ys k.1 a.1)

  -- Let no chunk lie so low that the threads, each asking for at most `max_size` at a time, could pass
  -- below address 0 together, and let `new` return only memory that no chunk of the list takes, nor one
  -- that another thread is about to link. In every state that the threads reach, each area that Allocate
  -- returned lies inside its chunk, and no two of them have an address in common.
  pub Reach-AreDisjoint :
      (base : ℕ) (threads : List Thread) (s : System z) (log : List Area)
      → length threads * z.max_size ≤ z.low_address
      → Reach z base threads s log
      → All (Inside z s.chunks.chunk_at) log × AreDisjoint log
  Reach-AreDisjoint base threads s log low r =
      let i = reach-Inv base threads s log low r in
      (
        All-map (λ x h. h.2) log i.logged,
        each_area s log (Reach-IsSpread z base threads s log r) i.logged i.apart,
      )
