-- ===== src/Allocation/Fresh.antt =====
-- No two chunks overlap, since each is made in memory that is not in use.
use multiprocessor_programmi.Prelude.{
  ℕ, suc, ◌+◌, ◌<◌, ◌≡◌, ◌≢◌, refl, sym, ap, ◌∙◌, inl, inr, false, List, [], ◌∷◌, ◌++◌, Option,
  none, some, ◌==◌, All, All-map, arith, Bool-cases,
}
use mathlib.Core.Path.{subst, subst₂}
use mathlib.Core.List.{append_assoc}
use multiprocessor_programmi.Stack.{update}
use multiprocessor_programmi.Allocation.{
  Move, Chunk, Chunks, try_subtract, Event, Thread, Sizes, new_chunk, Separate, IsFresh, held_by,
  held, call, depleted, has_room, gets, misses, follow, grow, link, link_lost, System, Step, move,
  IsIdle, Reach, start, later,
}

-- One element among others.
All-without :
    (P : ℕ → Type 0) (xs ys : List ℕ) (b : ℕ) → All P (xs ++ b ∷ ys) → P b × All P (xs ++ ys)
All-without P [] ys b h = h
All-without P (x ∷ xs) ys b h =
    let (this, others) = All-without P xs ys b h.1 in (this, (h.0, others))

All-among :
    (P : ℕ → Type 0) (xs ys : List ℕ) (b : ℕ) → P b → All P (xs ++ ys) → All P (xs ++ b ∷ ys)
All-among P [] ys b this h = (this, h)
All-among P (x ∷ xs) ys b this h = (h.0, All-among P xs ys b this h.1)

held-append : (ts us : List Thread) → held (ts ++ us) ≡ held ts ++ held us
held-append [] us = refl
held-append (t ∷ ts) us =
    ap (held_by t ++◌) (held-append ts us) ∙ sym (append_assoc (held_by t) (held ts) (held us))

module _ (z : Sizes) where
  abbrev ArePairs : List ℕ → Type 0
  ArePairs [] = Unit
  ArePairs (b ∷ bs) = All (Separate z b) bs × ArePairs bs

  flip : (b c : ℕ) → Separate z b c → Separate z c b
  flip b c (inl below) = inr below
  flip b c (inr above) = inl above

  pairs_without :
      (xs ys : List ℕ) (b : ℕ)
      → ArePairs (xs ++ b ∷ ys)
      → All (Separate z b) (xs ++ ys) × ArePairs (xs ++ ys)
  pairs_without [] ys b h = h
  pairs_without (x ∷ xs) ys b h =
      let (others, pairs) = pairs_without xs ys b h.1 in
      let (this, apart) = All-without (Separate z x) xs ys b h.0 in
      ((flip x b this, others), (apart, pairs))

  pairs_among :
      (xs ys : List ℕ) (b : ℕ)
      → All (Separate z b) (xs ++ ys)
      → ArePairs (xs ++ ys)
      → ArePairs (xs ++ b ∷ ys)
  pairs_among [] ys b h pairs = (h, pairs)
  pairs_among (x ∷ xs) ys b h pairs =
      (All-among (Separate z x) xs ys b (flip b x h.0) pairs.0, pairs_among xs ys b h.1 pairs.1)

  -- No chunk of the list overlaps another one, nor one that is held, and no two that are held overlap.
  pub record IsSpreadAt (chunk_at : ℕ → Chunk) (count : ℕ) (bases : List ℕ) : Type 0 where
    pub chunks :
        (c d : ℕ) → c < count → d < count → c ≢ d → Separate z (chunk_at c).limit (chunk_at d).limit
    pub from_list :
        All (λ b. (c : ℕ) → c < count → Separate z (b + z.meta_size) (chunk_at c).limit) bases
    pub among : ArePairs bases

  abbrev pub IsSpread : System z → Type 0
  IsSpread s = IsSpreadAt s.chunks.chunk_at s.chunks.count (held s.threads)

  same_limits :
      (f g : ℕ → Chunk) (n : ℕ) (bases : List ℕ)
      → ((c : ℕ) → (f c).limit ≡ (g c).limit)
      → IsSpreadAt f n bases
      → IsSpreadAt g n bases
  same_limits f g n bases e i = record {
    chunks = λ c d l k ne. subst₂ (Separate z) (e c) (e d) (i.chunks c d l k ne);
    from_list =
        All-map (λ b h c l. subst (Separate z (b + z.meta_size)) (e c) (h c l)) bases i.from_list;
    among = i.among;
  }

  given_back :
      (f : ℕ → Chunk) (n b : ℕ) (xs ys : List ℕ)
      → IsSpreadAt f n (xs ++ b ∷ ys)
      → IsSpreadAt f n (xs ++ ys)
  given_back f n b xs ys i = record {
    chunks = i.chunks;
    from_list = (All-without _ xs ys b i.from_list).1;
    among = (pairs_without xs ys b i.among).1;
  }

  taken :
      (s : Chunks) (b : ℕ) (xs ys : List ℕ)
      → IsFresh z (xs ++ ys) s b
      → IsSpreadAt s.chunk_at s.count (xs ++ ys)
      → IsSpreadAt s.chunk_at s.count (xs ++ b ∷ ys)
  taken s b xs ys fresh i = record {
    chunks = i.chunks;
    from_list = All-among _ xs ys b fresh.from_list i.from_list;
    among = pairs_among xs ys b fresh.from_held i.among;
  }

  linked_in :
      (f : ℕ → Chunk) (n b : ℕ) (xs ys : List ℕ)
      → IsSpreadAt f n (xs ++ b ∷ ys)
      → IsSpreadAt (update f n (new_chunk z b)) (suc n) (xs ++ ys)
  linked_in f n b xs ys i =
      let (this, others) = All-without _ xs ys b i.from_list in
      let (apart, pairs) = pairs_without xs ys b i.among in
      record {
        chunks = λ c d l k ne. elim (Bool-cases (n == c)) [
          | inl first ↦
              let second : (n == d) ≡ false = ground (arith, first, ne) in
              rw (first, second) (this d (ground (arith, second, k)))
          | inr first ↦ elim (Bool-cases (n == d)) [
            | inl second ↦ rw (first, second) (flip _ _ (this c (ground (arith, first, l))))
            | inr second ↦
                rw (first, second)
                  (i.chunks c d (ground (arith, first, l)) (ground (arith, second, k)) ne)
          ]
        ];
        from_list = both (xs ++ ys) others apart;
        among = pairs;
      }
    where
      both :
          (bases : List ℕ)
          → All (λ a. (c : ℕ) → c < n → Separate z (a + z.meta_size) (f c).limit) bases
          → All (Separate z b) bases
          → All
              (λ a.
                (c : ℕ)
                → c < suc n
                → Separate z (a + z.meta_size) (update f n (new_chunk z b) c).limit)
              bases
      both [] h k = tt
      both (a ∷ bases) h k = (
        λ c l. elim (Bool-cases (n == c)) [
          | inl new ↦ rw new (elim k.0 [
            | inl below ↦ inr (omega (arith, below))
            | inr above ↦ inl (omega (arith, above))
          ])
          | inr old ↦ rw old (h.0 c (ground (arith, old, l)))
        ],
        both bases h.1 k.1,
      )

  subtract_limits :
      (f : ℕ → Chunk) (size p : ℕ) (chunk : Chunk) (got : Option ℕ)
      → try_subtract size (f p) ≡ (chunk, got)
      → (c : ℕ) → (f c).limit ≡ (update f p chunk c).limit
  unfolding try_subtract
  subtract_limits f size p chunk got e c = elim (Bool-cases (p == c)) [
    | inl here ↦
        let same : p ≡ c = ground (arith, here) in
        rw here (ap (λ q. (f q).limit) (sym same) ∙ ap (λ (r : Chunk × Option ℕ). r.0.limit) e)
    | inr other ↦ rw other refl
  ]

  -- A step of a thread, between those that hold the other chunks.
  move-IsSpread :
      (xs ys : List ℕ) (s s' : Chunks) (t t' : Thread) (e : Event)
      → Move z (xs ++ (held_by t ++ ys)) s t e s' t'
      → IsSpreadAt s.chunk_at s.count (xs ++ (held_by t ++ ys))
      → IsSpreadAt s'.chunk_at s'.count (xs ++ (held_by t' ++ ys))
  move-IsSpread xs ys s s' t t' e (call le) i = i
  move-IsSpread xs ys s s' t t' e (depleted less) i = i
  move-IsSpread xs ys s s' t t' e (has_room room) i = i
  move-IsSpread xs ys s s' t t' e (gets {size} {meta_p} {address} {chunk} got) i =
      same_limits s.chunk_at _ s.count (xs ++ ys)
        (subtract_limits s.chunk_at size meta_p chunk (some address) got) i
  move-IsSpread xs ys s s' t t' e (misses {size} {meta_p} {chunk} got) i =
      same_limits s.chunk_at _ s.count (xs ++ ys)
        (subtract_limits s.chunk_at size meta_p chunk none got) i
  move-IsSpread xs ys s s' t t' e (follow next) i = i
  move-IsSpread xs ys s s' t t' e (grow base last a fresh) i = taken s base xs ys fresh i
  move-IsSpread xs ys s s' t t' e (link {base = base} last) i =
      linked_in s.chunk_at s.count base xs ys i
  move-IsSpread xs ys s s' t t' e (link_lost {base = base} next) i =
      given_back s.chunk_at s.count base xs ys i

  step-IsSpread : (s s' : System z) (e : Event) → Step z s e s' → IsSpread s → IsSpread s'
  step-IsSpread s s' e (move before after {t} {t'} {m = m} at step) i =
      let as_held = ap held at ∙ held-append before (t ∷ after) in
      let next =
        move-IsSpread (held before) (held after) s.chunks m t t' e
          (subst (λ in_use. Move z in_use s.chunks t e m t') as_held step)
          (subst (IsSpreadAt s.chunks.chunk_at s.chunks.count) as_held i) in
      subst (IsSpreadAt m.chunk_at m.count) (sym (held-append before (t' ∷ after))) next

  idle_held : (ts : List Thread) → IsIdle z ts → held ts ≡ []
  idle_held [] h = refl
  idle_held (t ∷ ts) h = rw (h.0) (idle_held ts h.1)

  pub Reach-IsSpread :
      (base : ℕ) (threads : List Thread) (s : System z) (log : List (ℕ × (ℕ × ℕ)))
      → Reach z base threads s log
      → IsSpread s
  Reach-IsSpread base threads s log (start a h) =
      subst (IsSpreadAt _ 1) (sym (idle_held threads h)) (record {
        chunks = λ c d l k ne. absurd (ne (omega (arith, l, k)));
        from_list = tt;
        among = tt;
      })
  Reach-IsSpread base threads s log (later {s = before} {e = e} {log = earlier} r step) =
      step-IsSpread before s e step (Reach-IsSpread base threads before earlier r)
