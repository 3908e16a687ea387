-- ===== src/Allocation/Invariant.antt =====
-- What every step keeps: how far the tails of the chunks can go down.
use multiprocessor_programmi.Prelude.{
  ℕ, ◌+◌, ◌*◌, ◌^◌, ◌≤◌, ◌<◌, ◌≡◌, ◌≢◌, ◌⊎◌, sym, ap, inl, inr, List, [], ◌∷◌, ◌++◌, Option, some,
  ◌==◌, if◌then◌else◌, All, length, arith, Bool-cases,
}
use multiprocessor_programmi.Allocation.{
  Chunk, try_subtract, Thread, idle, trying, subtracting, growing, linking, Sizes, IsAddress,
  System,
}

-- what a thread is about to subtract from the chunk `c`
abbrev pub pending : ℕ → Thread → ℕ
pending c idle = 0
pending c (trying size meta_p) = 0
pending c (subtracting size meta_p) = if meta_p == c then size else 0
pending c (growing size meta_p) = 0
pending c (linking size meta_p base) = 0

abbrev pub total : ℕ → List Thread → ℕ
total c [] = 0
total c (t ∷ ts) = pending c t + total c ts

pub total-append : (c : ℕ) (ts us : List Thread) → total c (ts ++ us) ≡ total c ts + total c us
total-append c [] us = omega arith
total-append c (t ∷ ts) us = omega (arith, total-append c ts us)

abbrev pub Area : Type 0
Area = ℕ × (ℕ × ℕ)

-- Two areas lie in different chunks, or the newer one ends where the older one begins or below.
abbrev pub Apart : Area → Area → Type 0
Apart x y = (x.0 ≢ y.0) ⊎ (x.1.0 + x.1.1 ≤ y.1.0)

abbrev pub IsApart : List Area → Type 0
IsApart [] = Unit
IsApart (x ∷ xs) = All (Apart x) xs × IsApart xs

module _ (z : Sizes) where
  -- The area lies between the metadata and the end of its chunk.
  abbrev pub Inside : (ℕ → Chunk) → Area → Type 0
  Inside chunk_at x =
      ((chunk_at x.0).limit ≤ x.1.0) × (x.1.0 + x.1.1 ≤ (chunk_at x.0).limit + z.delta_size * 8)

  abbrev pub IsAt : ℕ → Thread → Type 0
  IsAt count idle = Unit
  IsAt count (trying size meta_p) = (size ≤ z.max_size) × (meta_p < count)
  IsAt count (subtracting size meta_p) = (size ≤ z.max_size) × (meta_p < count)
  IsAt count (growing size meta_p) = (size ≤ z.max_size) × (meta_p < count)
  IsAt count (linking size meta_p base) = (size ≤ z.max_size) × (meta_p < count) × IsAddress z base

  -- `room` is as much as all threads together may subtract below the limit.
  pub record IsSound (room : ℕ) (waiting : ℕ) (chunk : Chunk) : Type 0 where
    pub no_wrap : chunk.limit + waiting ≤ chunk.tail + room
    pub high : room ≤ chunk.limit
    pub top : chunk.tail ≤ chunk.limit + z.delta_size * 8
    pub word : chunk.limit + z.delta_size * 8 < 2 ^ 64

  abbrev pub IsLogged : (ℕ → Chunk) → ℕ → Area → Type 0
  IsLogged chunk_at count x = (x.0 < count) × ((chunk_at x.0).tail ≤ x.1.0) × Inside chunk_at x

  pub record Inv (threads : ℕ) (s : System z) (log : List Area) : Type 0 where
    pub many : length s.threads ≡ threads
    pub not_empty : 0 < s.chunks.count
    pub placed : All (IsAt s.chunks.count) s.threads
    pub sound : (c : ℕ) → IsSound (threads * z.max_size) (total c s.threads) (s.chunks.chunk_at c)
    pub logged : All (IsLogged s.chunks.chunk_at s.chunks.count) log
    pub apart : IsApart log

  -- One subtraction, by a thread that passed the guard.
  pub subtract-IsSound :
      (room waiting size : ℕ) (chunk chunk' : Chunk) (got : Option ℕ)
      → try_subtract size chunk ≡ (chunk', got)
      → IsSound room (size + waiting) chunk
      → IsSound room waiting chunk'
        × (chunk'.limit ≡ chunk.limit)
        × (chunk'.tail + size ≡ chunk.tail)
        × ((address : ℕ) → got ≡ some address → (address ≡ chunk'.tail) × (chunk.limit ≤ address))
  unfolding try_subtract
  subtract-IsSound room waiting size chunk chunk' got e i =
      let same = ap (λ (r : Chunk × Option ℕ). r.0) e in
      let tail = ap (λ (c : Chunk). c.tail) same in
      let limit = ap (λ (c : Chunk). c.limit) same in
      let result = ap (λ (r : Chunk × Option ℕ). r.1) e in
      let less : chunk'.tail + size ≡ chunk.tail =
        omega (arith, tail, i.no_wrap, i.high, i.top, i.word) in
      (
        record {
          no_wrap = omega (arith, less, limit, i.no_wrap);
          high = omega (arith, limit, i.high);
          top = omega (arith, less, limit, i.top);
          word = omega (arith, limit, i.word);
        },
        sym limit,
        less,
        λ address got_it. ground (arith, tail, result, got_it),
      )

  pub total-le :
      (c count : ℕ) (ts : List Thread) → All (IsAt count) ts → total c ts ≤ length ts * z.max_size
  total-le c count [] h = omega arith
  total-le c count (idle ∷ ts) h = omega (arith, total-le c count ts h.1)
  total-le c count (trying size meta_p ∷ ts) h = omega (arith, total-le c count ts h.1)
  total-le c count (subtracting size meta_p ∷ ts) h = elim (Bool-cases (meta_p == c)) [
    | inl here ↦ rw here (omega (arith, total-le c count ts h.1, h.0.0))
    | inr elsewhere ↦ rw elsewhere (omega (arith, total-le c count ts h.1))
  ]
  total-le c count (growing size meta_p ∷ ts) h = omega (arith, total-le c count ts h.1)
  total-le c count (linking size meta_p base ∷ ts) h = omega (arith, total-le c count ts h.1)

  pub total-replaced :
      (c : ℕ) (ts before after : List Thread) (t t' : Thread)
      → ts ≡ before ++ t ∷ after
      → pending c t + total c (before ++ t' ∷ after) ≡ pending c t' + total c ts
  total-replaced c ts before after t t' at = omega (
    arith,
    ap (total c) at,
    total-append c before (t ∷ after),
    total-append c before (t' ∷ after),
  )

  pub IsSound-less :
      {room waiting less : ℕ} {chunk : Chunk}
      → less ≤ waiting
      → IsSound room waiting chunk
      → IsSound room less chunk
  IsSound-less le i = record {
    no_wrap = omega (arith, i.no_wrap, le);
    high = i.high;
    top = i.top;
    word = i.word;
  }
