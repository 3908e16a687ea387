-- ===== src/Iterator.antt =====
-- `ForwardIterator` of project3/sourcefile/bwtree/include/bwtree.h: a consolidated leaf page, and a place
-- in it. Its reference counts stand in Iterator/Contexts.
pub mod Spec
pub mod Forward
pub mod Ordered
pub mod Rest
pub mod Scan
pub mod Backward
pub mod Leaves
pub mod Begin
pub mod Contexts
mod Tests
use multiprocessor_programmi.Prelude.{
  ℕ, zero, suc, ◌+◌, ◌-◌, Bool, true, false, ◌&&◌, ◌||◌, not, List, Option, none, some, ◌==◌, ltb,
  if◌then◌else◌, length, get_elem?,
}
use multiprocessor_programmi.Leaf.{KeyNodeId, KeyValue, invalid_node_id}
use multiprocessor_programmi.Leaf.Navigate.{lower_bound}

-- The leaf node of an iterator's context.
pub record Page : Type 0 where
  pub low_key_pair : KeyNodeId
  pub high_key_pair : KeyNodeId
  pub items : List KeyValue

-- An iterator with a context. `kv_p` counts from REnd(), so that 0 is REnd() and 1 is Begin().
pub record Cursor : Type 0 where
  pub page : Page
  pub kv_p : ℕ

-- `none` for the null iterator
abbrev pub ForwardIterator : Type 0
ForwardIterator = Option Cursor

-- `ForwardIterator(BwTree *)`, from the first leaf of the tree
unfoldable pub begin : Page → ForwardIterator
begin page = some (record { page = page; kv_p = 1 })

abbrev pub is_last : Cursor → Bool
is_last c = c.page.high_key_pair.1 == invalid_node_id && c.kv_p == suc (length c.page.items)

abbrev pub is_end : ForwardIterator → Bool
is_end none = true
is_end (some c) = is_last c

abbrev pub is_begin : ForwardIterator → Bool
is_begin none = true
is_begin (some c) = c.page.low_key_pair.1 == invalid_node_id && c.kv_p == 1

abbrev pub is_rend : ForwardIterator → Bool
is_rend none = true
is_rend (some c) = c.page.low_key_pair.1 == invalid_node_id && c.kv_p == 0

-- `operator*`; `none` where no pair is pointed to
abbrev pub deref : ForwardIterator → Option KeyValue
deref none = none
deref (some c) = if c.kv_p == 0 then none else get_elem? c.page.items (c.kv_p - 1)

-- Other threads change the tree: `load t key` is the page that Traverse of the key ends at and
-- CollectAllValuesOnLeaf gives when a page is loaded for the t-th time; `load_bi` is that of TraverseBI.
module _ (load load_bi : ℕ → ℕ → Page) where
  -- The loop of LowerBound.
  unfoldable pub lower_bound_from : ℕ → ℕ → ℕ → Option Cursor
  unfolding lower_bound
  lower_bound_from zero t start_key = none
  lower_bound_from (suc fuel) t start_key =
      let page = load t start_key in
      let at = lower_bound start_key page.items in
      let c : Cursor = record { page = page; kv_p = suc at } in
      let next = lower_bound_from fuel (suc t) page.high_key_pair.0 in
      if at == length page.items then (if is_last c then some c else next) else some c

  -- `MoveAheadByOne`, whose assertion is that the iterator is not at the end.
  unfoldable pub move_ahead_by_one : ℕ → ℕ → Cursor → Option Cursor
  unfolding lower_bound_from
  move_ahead_by_one fuel t c =
      let c' : Cursor = record c { kv_p = suc c.kv_p } in
      if is_last c
      then none
      else if c'.kv_p == suc (length c.page.items)
      then (if is_last c' then some c' else lower_bound_from fuel t c.page.high_key_pair.0)
      else some c'

  -- `operator++`
  unfoldable pub increment : ℕ → ℕ → ForwardIterator → Option ForwardIterator
  unfolding move_ahead_by_one
  increment fuel t none = some none
  increment fuel t (some c) =
      let moved = move_ahead_by_one fuel t c in
      if is_last c then some (some c) else elim moved [ none ↦ none | some c' ↦ some (some c') ]

  -- The loop of MoveBackByOne, from the low key of the page that is left.
  unfoldable pub previous_page : ℕ → ℕ → ℕ → Option Cursor
  unfolding lower_bound
  previous_page zero t low_key = none
  previous_page (suc fuel) t low_key =
      let page = load_bi t low_key in
      let at = lower_bound low_key page.items in
      let next = previous_page fuel (suc t) page.low_key_pair.0 in
      if page.low_key_pair.1 == invalid_node_id || ltb page.low_key_pair.0 low_key
      then (if at == 0
          then (if page.low_key_pair.1 == invalid_node_id
              then some (record { page = page; kv_p = 0 })
              else next)
          else some (record { page = page; kv_p = at }))
      else none

  -- `MoveBackByOne`, whose assertion is that the iterator is not at REnd() of its page.
  unfoldable pub move_back_by_one : ℕ → ℕ → Cursor → Option Cursor
  unfolding previous_page
  move_back_by_one fuel t c =
      let c' : Cursor = record c { kv_p = c.kv_p - 1 } in
      let previous = previous_page fuel t c.page.low_key_pair.0 in
      if c.kv_p == 0
      then none
      else if is_rend (some c')
      then some c'
      else if c'.kv_p == 0
      then previous
      else some c'

  -- `operator--`
  unfoldable pub decrement : ℕ → ℕ → ForwardIterator → Option ForwardIterator
  unfolding move_back_by_one
  decrement fuel t none = some none
  decrement fuel t (some c) =
      let moved = move_back_by_one fuel t c in
      if is_rend (some c)
      then some (some c)
      else elim moved [ none ↦ none | some c' ↦ some (some c') ]

-- `operator<` and `operator==`
unfoldable pub less : ForwardIterator → ForwardIterator → Option Bool
less a b =
    if is_end b then some (not (is_end a)) else if is_end a then some false else elim (deref a) [
      | none ↦ none
      | some x ↦ elim (deref b) [ none ↦ none | some y ↦ some (ltb x.0 y.0) ]
    ]

unfoldable pub equal : ForwardIterator → ForwardIterator → Option Bool
equal a b = if is_end b then some (is_end a) else if is_end a then some false else elim (deref a) [
  | none ↦ none
  | some x ↦ elim (deref b) [ none ↦ none | some y ↦ some (x.0 == y.0) ]
]
