-- ===== src/Iterator/Contexts.antt =====
-- `IteratorContext` of project3/sourcefile/bwtree/include/bwtree.h and what the constructors,
-- assignments and the destructor of `ForwardIterator` do to its reference count.
pub mod Counts
pub mod Balance
use multiprocessor_programmi.Prelude.{
  ℕ, zero, suc, Bool, true, false, ◌+◌, ◌-◌, List, [], ◌∷◌, Option, none, some, ◌==◌, if◌then◌else◌,
  get_elem?,
}

-- `ref_count` of the context at an address; `none` where the memory is free. The size_t does
-- not wrap before 2^64 references are made.
abbrev pub Contexts : Type 0
Contexts = ℕ → Option ℕ

unfoldable pub put_count : Contexts → ℕ → Option ℕ → Contexts
put_count contexts p c q = if q == p then c else contexts q

-- `none` is an access to freed memory or a failed assertion.
unfoldable pub inc_ref : ℕ → Contexts → Option Contexts
unfolding put_count
inc_ref p contexts = elim (contexts p) [
  | none ↦ none
  | some n ↦ some (put_count contexts p (some (suc n)))
]

unfoldable pub dec_ref : ℕ → Contexts → Option Contexts
unfolding put_count
dec_ref p contexts = elim (contexts p) [
  | none ↦ none
  | some n ↦
      if n == 0
      then none
      else some (put_count contexts p (if n - 1 == 0 then none else some (n - 1)))
]

-- `Get`, at the address that `new char[size]` gives
unfoldable pub get : ℕ → Contexts → Option Contexts
unfolding put_count inc_ref
get p contexts = elim (contexts p) [
  | none ↦ inc_ref p (put_count contexts p (some 0))
  | some n ↦ none
]

-- `if (ic_p != nullptr) { ic_p->DecRef(); }` and `other.ic_p->IncRef()`
unfoldable pub release : Option ℕ → Contexts → Option Contexts
unfolding dec_ref
release none contexts = some contexts
release (some p) contexts = dec_ref p contexts

unfoldable pub share : Option ℕ → Contexts → Option Contexts
unfolding inc_ref
share none contexts = none
share (some p) contexts = inc_ref p contexts

-- The two pointers of an iterator, `none` for nullptr.
pub record Iterator : Type 0 where
  pub ic_p : Option ℕ
  pub kv_p : Option ℕ

abbrev pub null_iterator : Iterator
null_iterator = record { ic_p = none; kv_p = none }

-- What both assignments and the destructor assert: `kv_p` is nullptr just if `ic_p` is.
unfoldable pub is_paired : Iterator → Bool
is_paired it = elim it.ic_p [
  | none ↦ elim it.kv_p [ none ↦ true | some kv_p ↦ false ]
  | some ic_p ↦ elim it.kv_p [ none ↦ false | some kv_p ↦ true ]
]

-- The iterators that are alive, the newest first.
pub record State : Type 0 where
  pub contexts : Contexts
  pub iterators : List Iterator

unfoldable pub set_at : List Iterator → ℕ → Iterator → List Iterator
set_at [] i it = []
set_at (x ∷ xs) zero it = it ∷ xs
set_at (x ∷ xs) (suc i) it = x ∷ set_at xs i it

unfoldable pub remove_at : List Iterator → ℕ → List Iterator
remove_at [] i = []
remove_at (x ∷ xs) zero = xs
remove_at (x ∷ xs) (suc i) = x ∷ remove_at xs i

-- A constructor with a tree: `IteratorContext::Get(...)`, and a place in the page.
unfoldable pub begin_at : ℕ → ℕ → State → Option State
unfolding get
begin_at p place s = elim (get p s.contexts) [
  | none ↦ none
  | some contexts ↦ some (record {
    contexts = contexts;
    iterators = record { ic_p = some p; kv_p = some place } ∷ s.iterators;
  })
]

-- The copy constructor.
unfoldable pub copy_construct : ℕ → State → Option State
unfolding share
copy_construct j s = elim (get_elem? s.iterators j) [
  | none ↦ none
  | some other ↦ elim (share other.ic_p s.contexts) [
    | none ↦ none
    | some contexts ↦ some (record { contexts = contexts; iterators = other ∷ s.iterators })
  ]
]

-- The copy assignment: the i-th iterator gets what the j-th one has.
unfoldable pub assign : ℕ → ℕ → State → Option State
unfolding set_at release share is_paired
assign i j s = elim (get_elem? s.iterators i) [
  | none ↦ none
  | some it ↦ elim (get_elem? s.iterators j) [
    | none ↦ none
    | some other ↦
        if i == j
        then some s
        else if is_paired it
        then elim (release it.ic_p s.contexts) [
          | none ↦ none
          | some released ↦ elim (share other.ic_p released) [
            | none ↦ none
            | some contexts ↦
                some (record { contexts = contexts; iterators = set_at s.iterators i other })
          ]
        ]
        else none
  ]
]

-- The move assignment. It has no DecRef.
unfoldable pub assign_moved : ℕ → ℕ → State → Option State
unfolding set_at is_paired
assign_moved i j s = elim (get_elem? s.iterators i) [
  | none ↦ none
  | some it ↦ elim (get_elem? s.iterators j) [
    | none ↦ none
    | some other ↦
        if i == j
        then some s
        else if is_paired it
        then some (record s { iterators = set_at (set_at s.iterators i other) j null_iterator })
        else none
  ]
]

-- A page is left for another one, in LowerBound and in MoveBackByOne.
unfoldable pub load_page : ℕ → ℕ → ℕ → State → Option State
unfolding set_at release get
load_page i p place s = elim (get_elem? s.iterators i) [
  | none ↦ none
  | some it ↦ elim (release it.ic_p s.contexts) [
    | none ↦ none
    | some released ↦ elim (get p released) [
      | none ↦ none
      | some contexts ↦ some (record {
        contexts = contexts;
        iterators = set_at s.iterators i (record { ic_p = some p; kv_p = some place });
      })
    ]
  ]
]

-- The destructor.
unfoldable pub destruct : ℕ → State → Option State
unfolding remove_at release is_paired
destruct i s = elim (get_elem? s.iterators i) [
  | none ↦ none
  | some it ↦
      if is_paired it
      then elim (release it.ic_p s.contexts) [
        | none ↦ none
        | some contexts ↦ some (record { contexts = contexts; iterators = remove_at s.iterators i })
      ]
      else none
]

pub data Action : Type 0 where
  construct_null : Action
  construct : (p place : ℕ) → Action
  copy : (j : ℕ) → Action
  copy_assign move_assign : (i j : ℕ) → Action
  load : (i p place : ℕ) → Action
  destroy : (i : ℕ) → Action

unfoldable pub step : Action → State → Option State
unfolding begin_at copy_construct assign assign_moved load_page destruct
step construct_null s = some (record s { iterators = null_iterator ∷ s.iterators })
step (construct p place) s = begin_at p place s
step (copy j) s = copy_construct j s
step (copy_assign i j) s = assign i j s
step (move_assign i j) s = assign_moved i j s
step (load i p place) s = load_page i p place s
step (destroy i) s = destruct i s
