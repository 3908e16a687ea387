-- ===== src/Snapshot.antt =====
-- The atomic snapshot of project2 (snapshot.cpp, snapshot.hpp, snapvalue.hpp): one register per thread,
-- `update` writes a thread's own, `scan` reads all of them as if at one moment.
pub mod Labels
pub mod Atomic
pub mod WaitFree
pub mod Clean
mod Tests
use multiprocessor_programmi.Prelude.{
  ℕ, zero, suc, ◌+◌, ◌-◌, ◌%◌, ◌^◌, ◌==◌, ltb, Bool, true, false, List, [], ◌∷◌, Option, none, some,
  if◌then◌else◌, get_or, set, length, replicate,
}

-- `int` values are numbers: they are only copied. `snap` is `none` for `nullptr`.
pub record SnapValue : Type 0 where
  pub label : ℕ  -- size_t
  pub value : ℕ
  pub snap : Option (List ℕ)

-- `std::make_shared<SnapValue>()`
abbrev pub initial : SnapValue
initial = record { label = 0; value = 0; snap = none }

-- UINT_MAX
abbrev pub uint_max : ℕ
uint_max = 2 ^ 32 - 1

-- A number below 2^32 through an `int` into a `size_t`: from 2^31 on the `int` is negative.
abbrev pub through_int : ℕ → ℕ
through_int x = if ltb x (2 ^ 31) then x else x + 2 ^ 64 - 2 ^ 32

-- `int new_label = (oldValue->label + 1) % UINT_MAX`, as the label of the new value
unfoldable pub next_label : ℕ → ℕ
next_label label = through_int ((label + 1) % 2 ^ 64 % uint_max)

-- The value that `update` stores over the old one.
unfoldable pub new_value : SnapValue → ℕ → List ℕ → SnapValue
unfolding next_label
new_value old value snap = record { label = next_label old.label; value = value; snap = some snap }

-- The `for` loop over the labels: the first register that differs between the copies.
unfoldable pub first_moved : ℕ → List SnapValue → List SnapValue → Option ℕ
first_moved i [] new = none
first_moved i (x ∷ old) [] = none
first_moved i (x ∷ old) (y ∷ new) =
    let rest = first_moved (suc i) old new in if x.label == y.label then rest else some i

-- `for j: snap[i] = newCopy[i]->snap[j]`, with `i` fixed
unfoldable pub steal : List ℕ → ℕ → List ℕ → List ℕ
steal snap i [] = snap
steal snap i (x ∷ stolen) = steal (set snap i x) i stolen

-- `for i: snap[i] = newCopy[i]->value`
unfoldable pub copy_values : List SnapValue → List ℕ
copy_values [] = []
copy_values (x ∷ copy) = x.value ∷ copy_values copy

pub data ScanResult : Type 0 where
  clean : (time : ℕ) (snap : List ℕ) → ScanResult  -- `time` is the number of the last collect
  stolen : (i : ℕ) (snap : List ℕ) → ScanResult
  null_snap : ScanResult  -- reads through `nullptr`
  out_of_fuel : ScanResult

abbrev pub register_at : List SnapValue → ℕ → SnapValue
register_at copy i = get_or copy i initial

abbrev pub moved_at : List Bool → ℕ → Bool
moved_at moved i = get_or moved i false

-- The loop of `scan`. `collects t` is what the call number `t` of `collect` reads, `garbage` what
-- `new int[num_threads_]` holds at first.
unfoldable pub scan_loop :
    (ℕ → List SnapValue) → List ℕ → ℕ → ℕ → List SnapValue → List Bool → ScanResult
unfolding first_moved steal copy_values
scan_loop collects garbage zero t old moved = out_of_fuel
scan_loop collects garbage (suc fuel) t old moved =
    let new = collects t in
    elim (first_moved 0 old new) [
      | none ↦ clean t (copy_values new)
      | some i ↦ elim (moved_at moved i) [
        | true ↦ elim (register_at new i).snap [
          | none ↦ null_snap
          | some snap ↦ stolen i (steal garbage i snap)
        ]
        | false ↦ scan_loop collects garbage fuel (suc t) new (set moved i true)
      ]
    ]

-- `scan` for `n` threads: the first collect, and then the loop, at most `n + 1` times around.
unfoldable pub scan : (ℕ → List SnapValue) → List ℕ → ℕ → ScanResult
unfolding scan_loop
scan collects garbage n = scan_loop collects garbage (suc n) 1 (collects 0) (replicate n false)
