-- ===== src/Allocation/Steps.antt =====
-- How the steps of a thread keep the invariant.
use multiprocessor_programmi.Prelude.{
  ℕ, suc, ◌+◌, ◌*◌, ◌≤◌, ◌<◌, ◌≡◌, ◌⊎◌, ap, ◌∙◌, inl, inr, false, true, List, [], ◌∷◌, ◌++◌, Option,
  some, ◌==◌, if◌then◌else◌, All, All-map, arith, Bool-cases, All-replaced, length-replaced,
}
use mathlib.Core.Path.{subst}
use multiprocessor_programmi.Stack.{update}
use multiprocessor_programmi.Allocation.{
  Chunk, try_subtract, Thread, idle, trying, subtracting, growing, linking, Sizes, new_chunk,
  IsAddress, System,
}
use multiprocessor_programmi.Allocation.Invariant.{
  pending, total, Area, Apart, IsAt, IsSound, IsLogged, Inv, subtract-IsSound, total-le,
  total-replaced, IsSound-less,
}

module _ (z : Sizes) where
  module _ (n : ℕ) (s : System z) (log : List Area) (i : Inv z n s log) (before after : List Thread)
      (t t' : Thread) (at : s.threads ≡ before ++ t ∷ after) where
    abbrev chunks : ℕ → Chunk
    chunks = s.chunks.chunk_at

    abbrev threads' : List Thread
    threads' = before ++ t' ∷ after

    placed' :
        (count : ℕ)
        → ((u : Thread) → IsAt z s.chunks.count u → IsAt z count u)
        → IsAt z count t'
        → All (IsAt z count) threads'
    placed' count grows new =
        All-replaced (IsAt z count) s.threads before after t t' at
          (All-map grows s.threads i.placed) new

    pub old-IsAt : IsAt z s.chunks.count t
    old-IsAt = at_self before (subst (All (IsAt z s.chunks.count)) at i.placed)
      where
        at_self :
            (us : List Thread)
            → All (IsAt z s.chunks.count) (us ++ t ∷ after)
            → IsAt z s.chunks.count t
        at_self [] h = h.0
        at_self (u ∷ us) h = at_self us h.1

    -- A step that leaves the chunks as they are.
    pub same_chunks :
        IsAt z s.chunks.count t'
        → ((c : ℕ) → (pending c t' ≤ pending c t) ⊎ ((chunks c).limit ≤ (chunks c).tail))
        → Inv z n (record { chunks = s.chunks; threads = threads' }) log
    same_chunks new few = record {
      many = length-replaced s.threads before after t t' at ∙ i.many;
      not_empty = i.not_empty;
      placed = here;
      sound = λ c. elim (few c) [
        | inl fewer ↦
            IsSound-less z (omega (arith, fewer, total-replaced z c s.threads before after t t' at))
              (i.sound c)
        | inr room ↦
            let all = total-le z c s.chunks.count threads' here in
            let size = length-replaced s.threads before after t t' at ∙ i.many in
            let bound : total c threads' ≤ n * z.max_size =
              subst (λ k. total c threads' ≤ k * z.max_size) size all in
            record {
              no_wrap = omega (arith, room, bound);
              high = (i.sound c).high;
              top = (i.sound c).top;
              word = (i.sound c).word;
            }
      ];
      logged = i.logged;
      apart = i.apart;
    }
      where
        here : All (IsAt z s.chunks.count) threads'
        here = placed' s.chunks.count (λ u h. h) new

    -- The thread links a new chunk.
    pub linked :
        (base : ℕ)
        → n * z.max_size ≤ z.low_address
        → IsAddress z base
        → IsAt z (suc s.chunks.count) t'
        → ((c : ℕ) → pending c t' ≤ pending c t)
        → Inv z n
            (record {
              chunks = record {
                chunk_at = update chunks s.chunks.count (new_chunk z base);
                count = suc s.chunks.count;
              };
              threads = threads';
            })
            log
    linked base low a new few = record {
      many = length-replaced s.threads before after t t' at ∙ i.many;
      not_empty = omega arith;
      placed = here;
      sound = λ c. elim (Bool-cases (s.chunks.count == c)) [
        | inl added ↦
            let all = total-le z c (suc s.chunks.count) threads' here in
            let size = length-replaced s.threads before after t t' at ∙ i.many in
            let bound : total c threads' ≤ n * z.max_size =
              subst (λ k. total c threads' ≤ k * z.max_size) size all in
            rw added (record {
              no_wrap = omega (arith, bound);
              high = omega (arith, low, a.0);
              top = omega arith;
              word = omega (arith, a.1);
            })
        | inr old ↦ rw old (
            IsSound-less z (omega (arith, few c, total-replaced z c s.threads before after t t' at))
              (i.sound c))
      ];
      logged = All-map still log i.logged;
      apart = i.apart;
    }
      where
        here : All (IsAt z (suc s.chunks.count)) threads'
        here = placed' (suc s.chunks.count) grows new
          where
            grows : (u : Thread) → IsAt z s.chunks.count u → IsAt z (suc s.chunks.count) u
            grows idle h = tt
            grows (trying size meta_p) h = (h.0, omega (arith, h.1))
            grows (subtracting size meta_p) h = (h.0, omega (arith, h.1))
            grows (growing size meta_p) h = (h.0, omega (arith, h.1))
            grows (linking size meta_p b) h = (h.0, omega (arith, h.1), h.2)

        still :
            (x : Area)
            → IsLogged z chunks s.chunks.count x
            → IsLogged z (update chunks s.chunks.count (new_chunk z base)) (suc s.chunks.count) x
        still x h =
            let old : (s.chunks.count == x.0) ≡ false = ground (arith, h.0) in
            rw old (omega (arith, h.0), h.1, h.2)

    -- The thread subtracts its size from the tail of its chunk.
    module _ (size m : ℕ) (chunk : Chunk) (got : Option ℕ)
        (e : try_subtract size (chunks m) ≡ (chunk, got)) (was : t ≡ subtracting size m)
        (done : (c : ℕ) → pending c t' ≡ 0) where
      abbrev chunks' : ℕ → Chunk
      chunks' = update chunks m chunk

      spent : (c : ℕ) → (if m == c then size else 0) + total c threads' ≡ total c s.threads
      spent c =
          let all = total-replaced z c s.threads before after t t' at in
          let now = ap (pending c) was in omega (arith, all, now, done c)

      subtracted :
          IsSound z (n * z.max_size) (total m threads') chunk
          × (chunk.limit ≡ (chunks m).limit)
          × (chunk.tail + size ≡ (chunks m).tail)
          × ((address : ℕ)
              → got ≡ some address
              → (address ≡ chunk.tail) × ((chunks m).limit ≤ address))
      subtracted =
          subtract-IsSound z (n * z.max_size) (total m threads') size (chunks m) chunk got e
            (IsSound-less z (ground (arith, spent m)) (i.sound m))

      sound' : (c : ℕ) → IsSound z (n * z.max_size) (total c threads') (chunks' c)
      sound' c = elim (Bool-cases (m == c)) [
        | inl here ↦
            let same : m ≡ c = ground arith in
            rw here
              (subst (λ k. IsSound z (n * z.max_size) (total k threads') chunk) same (subtracted.0))
        | inr elsewhere ↦
            rw elsewhere (IsSound-less z (ground (arith, spent c, elsewhere)) (i.sound c))
      ]

      logged' :
          (x : Area) → IsLogged z chunks s.chunks.count x → IsLogged z chunks' s.chunks.count x
      logged' x h = elim (Bool-cases (m == x.0)) [
        | inl here ↦
            let same : m ≡ x.0 = ground arith in
            let limit = subtracted.1 ∙ ap (λ k. (chunks k).limit) same in
            let tail = subtracted.2 ∙ ap (λ k. (chunks k).tail) same in
            rw here (
              h.0,
              omega (arith, h.1, tail),
              (omega (arith, h.2.0, limit), omega (arith, h.2.1, limit)),
            )
        | inr elsewhere ↦ rw elsewhere h
      ]

      pub subtract_Inv :
          IsAt z s.chunks.count t'
          → Inv z n
              (record { chunks = record s.chunks { chunk_at = chunks' }; threads = threads' })
              log
      subtract_Inv new = record {
        many = length-replaced s.threads before after t t' at ∙ i.many;
        not_empty = i.not_empty;
        placed = placed' s.chunks.count (λ u h. h) new;
        sound = sound';
        logged = All-map logged' log i.logged;
        apart = i.apart;
      }

      -- The new area ends where the older ones of its chunk begin, or below.
      pub allocated_Inv :
          (address : ℕ)
          → got ≡ some address
          → IsAt z s.chunks.count t
          → IsAt z s.chunks.count t'
          → Inv z n
              (record { chunks = record s.chunks { chunk_at = chunks' }; threads = threads' })
              ((m, (address, size)) ∷ log)
      allocated_Inv address g old new =
          let j = subtract_Inv new in
          let (is_tail, above) = subtracted.3 address g in
          let inside : m < s.chunks.count = (subst (IsAt z s.chunks.count) was old).1 in
          record {
            many = j.many;
            not_empty = j.not_empty;
            placed = j.placed;
            sound = j.sound;
            logged = (fits is_tail above inside, j.logged);
            apart = (All-map (apart_from is_tail) log i.logged, i.apart);
          }
        where
          fits :
              address ≡ chunk.tail
              → (chunks m).limit ≤ address
              → m < s.chunks.count
              → IsLogged z chunks' s.chunks.count (m, (address, size))
          fits is_tail above inside =
              let here : (m == m) ≡ true = ground arith in
              rw here (
                inside,
                omega (arith, is_tail),
                (
                  omega (arith, above, subtracted.1),
                  omega (arith, is_tail, subtracted.2, subtracted.1, (i.sound m).top),
                ),
              )

          apart_from :
              address ≡ chunk.tail
              → (x : Area) → IsLogged z chunks s.chunks.count x
              → Apart (m, (address, size)) x
          apart_from is_tail x h = elim (Bool-cases (m == x.0)) [
            | inl here ↦
                let same : m ≡ x.0 = ground arith in
                let tail = subtracted.2 ∙ ap (λ k. (chunks k).tail) same in
                inr (omega (arith, tail, h.1, is_tail))
            | inr elsewhere ↦ inl (ground arith)
          ]
