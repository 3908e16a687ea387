-- ===== src/Allocation/Tests.antt =====
-- A thread that fills a chunk and links the next one.
use multiprocessor_programmi.Prelude.{ℕ, ◌≡◌, inr, refl, List, [], ◌∷◌, All, arith}
use multiprocessor_programmi.Stack.{update}
use multiprocessor_programmi.Allocation.{
  misses, Chunks, IsFresh, grow, link, Chunk, try_subtract, Thread, idle, Sizes, call, has_room,
  gets, move, first_chunk, Reach, start, later,
}
use multiprocessor_programmi.Allocation.Invariant.{Area, Inside}
use multiprocessor_programmi.Allocation.Disjoint.{AreDisjoint, Reach-AreDisjoint}

abbrev sizes : Sizes
sizes = record { delta_size = 2; meta_size = 4; max_size = 10; low_address = 30 }

abbrev threads : List Thread
threads = idle ∷ idle ∷ []

at_start : Reach sizes 100 threads (record { chunks = first_chunk sizes 100; threads = threads }) []
at_start = start (omega arith, omega arith) (refl, (refl, tt))

abbrev at_tail : ℕ → ℕ → Chunk
at_tail tail limit = record { tail = tail; limit = limit }

abbrev after_two : ℕ → Chunk
after_two = update (update (first_chunk sizes 100).chunk_at 0 (at_tail 112 104)) 0 (at_tail 104 104)

abbrev after_three : ℕ → Chunk
after_three =
    update (update (update after_two 0 (at_tail 96 104)) 1 (at_tail 220 204)) 1 (at_tail 212 204)

abbrev areas : List Area
areas = (1, (212, 8)) ∷ (0, (104, 8)) ∷ (0, (112, 8)) ∷ []

-- The first thread gets 8 bytes below 120, then 8 bytes below 112.
two_areas :
    Reach sizes 100 threads
      (record { chunks = record { chunk_at = after_two; count = 1 }; threads = threads })
      ((0, (104, 8)) ∷ (0, (112, 8)) ∷ [])
unfolding try_subtract
two_areas =
    later
      (later
        (later
          (later
            (later (later at_start (move [] (idle ∷ []) refl (call {size = 8} (omega arith))))
              (move [] (idle ∷ []) refl (has_room (omega arith))))
            (move [] (idle ∷ []) refl (gets refl)))
          (move [] (idle ∷ []) refl (call {size = 8} (omega arith))))
        (move [] (idle ∷ []) refl (has_room (omega arith))))
      (move [] (idle ∷ []) refl (gets refl))

abbrev after_miss : Chunks
after_miss = record { chunk_at = update after_two 0 (at_tail 96 104); count = 1 }

chunk-IsFresh : IsFresh sizes [] after_miss 200
chunk-IsFresh = record {
  from_list = λ c lt. let first : c ≡ 0 = omega (arith, lt) in rw first (inr (omega arith));
  from_held = tt;
}

-- The second thread finds that chunk spent, links one at 200, and gets 8 bytes there.
three_areas :
    Reach sizes 100 threads
      (record { chunks = record { chunk_at = after_three; count = 2 }; threads = threads })
      areas
unfolding try_subtract
three_areas =
    later
      (later
        (later
          (later
            (later
              (later (later two_areas (move (idle ∷ []) [] refl (call {size = 8} (omega arith))))
                (move (idle ∷ []) [] refl (has_room (omega arith))))
              (move (idle ∷ []) [] refl (misses refl)))
            (move (idle ∷ []) [] refl (grow 200 refl (omega arith, omega arith) chunk-IsFresh)))
          (move (idle ∷ []) [] refl (link refl)))
        (move (idle ∷ []) [] refl (has_room (omega arith))))
      (move (idle ∷ []) [] refl (gets refl))

Reach-AreDisjoint_example : All (Inside sizes after_three) areas × AreDisjoint sizes areas
Reach-AreDisjoint_example = Reach-AreDisjoint sizes 100 threads _ areas (omega arith) three_areas
