-- ===== src/Stack/Tests.antt =====
-- A run of the stack: one push, and two threads in `Pop`, of which the second one loses.
use multiprocessor_programmi.Prelude.{ℕ, ◌<◌, ◌≡◌, ◌≢◌, ◌⊎◌, refl, [], ◌∷◌, arith}
use multiprocessor_programmi.Stack.{
  slot, VersionedPointer, null_pointer, update, Shared, Popper, idle, loaded, ready, quiet, writing,
  popped, load, read, cas_win, prepare, write, store, System, Step, pop, push, Reach, start, later,
}
use multiprocessor_programmi.Stack.Invariant.{contents, version_of}
use multiprocessor_programmi.Stack.Refines.{Effect, Step-Effect, cas_lose-progress}

abbrev zeros : ℕ → ℕ
zeros i = 0

abbrev top : ℕ → ℕ → VersionedPointer
top n version = record { ptr = slot n; version = version }

abbrev memory : (ℕ → ℕ) → VersionedPointer → Shared ℕ
memory cells top_p = record { cells = cells; top_p = top_p }

abbrev at_rest : ℕ → Popper ℕ
at_rest i = idle

abbrev preparing : System ℕ
preparing = record {
  mem = memory zeros null_pointer;
  pusher = writing 0 0 0 (7 ∷ []) (7 ∷ []);
  poppers = at_rest;
}

abbrev seven : ℕ → ℕ
seven = update zeros 0 7

abbrev written : System ℕ
written = record {
  mem = memory seven null_pointer;
  pusher = writing 0 0 1 (7 ∷ []) [];
  poppers = at_rest;
}

abbrev pushed_one : System ℕ
pushed_one = record { mem = memory seven (top 1 1); pusher = quiet; poppers = at_rest }

abbrev with_poppers : (ℕ → Popper ℕ) → System ℕ
with_poppers poppers = record pushed_one { poppers = poppers }

abbrev one_loaded : ℕ → Popper ℕ
one_loaded = update at_rest 0 (loaded (top 1 1))

abbrev one_ready : ℕ → Popper ℕ
one_ready = update one_loaded 0 (ready 0 1 7)

abbrev two_loaded : ℕ → Popper ℕ
two_loaded = update one_ready 1 (loaded (top 1 1))

abbrev two_ready : ℕ → Popper ℕ
two_ready = update two_loaded 1 (ready 0 1 7)

abbrev won : System ℕ
won = record { mem = memory seven (top 0 2); pusher = quiet; poppers = update two_ready 0 idle }

pushed-Reach : Reach zeros 3 pushed_one
pushed-Reach = later (later (later start (push (prepare (7 ∷ []) refl))) (push write)) (push store)

both-Reach : Reach zeros 7 (with_poppers two_ready)
both-Reach =
    later (later (later (later pushed-Reach (pop 0 load)) (pop 0 (read refl))) (pop 1 load))
      (pop 1 (read refl))

wins : Step (with_poppers two_ready) (popped 7) won
wins = pop 0 (cas_win refl)

Step-Effect_example : Effect (popped 7) (contents (with_poppers two_ready)) (contents won)
Step-Effect_example = Step-Effect both-Reach (omega arith) wins

moved_on : top 0 2 ≢ top 1 1
moved_on e = ground arith

cas_lose-progress_example : (1 < version_of won.mem won.pusher) ⊎ (won.mem.top_p ≡ null_pointer)
cas_lose-progress_example =
    cas_lose-progress {thread = 1} {ret = 7} {s = won} (later both-Reach wins) (omega arith) refl
      moved_on
