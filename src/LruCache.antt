-- ===== src/LruCache.antt =====
-- `LRUcache` (project3/sourcefile/bwtree/include/bwtree.h): the cache of a thread, from a key to the id of
-- the leaf's parent. The nodes of the `std::list` have addresses, which the map keeps as iterators.
pub mod Recent
pub mod Refines
mod Tests
use multiprocessor_programmi.Prelude.{
  ℕ, suc, ◌+◌, ◌-◌, ◌^◌, Bool, true, false, not, List, [], ◌∷◌, Option, none, some, ◌==◌,
  if◌then◌else◌, length, filter,
}
use multiprocessor_programmi.Stack.{update}

-- A node of `dq`: its address, and the pair of a key and an id.
abbrev pub Node : Type 0
Node = ℕ × (ℕ × ℕ)

-- `free` is the address of the next node.
pub record LruCache : Type 0 where
  pub dq : List Node
  pub ma : ℕ → Option ℕ
  pub free : ℕ
  pub cache_size : ℕ

unfoldable pub new_cache : ℕ → LruCache
new_cache size = record { dq = []; ma = λ key. none; free = 0; cache_size = size }

-- `dq.back().first`; `none` where the list is empty
unfoldable pub last_key : List Node → Option ℕ
last_key [] = none
last_key (n ∷ ns) = elim (last_key ns) [ none ↦ some n.1.0 | some key ↦ some key ]

unfoldable pub pop_back : List Node → List Node
pop_back [] = []
pop_back (n ∷ ns) = let rest = pop_back ns in elim ns [ [] ↦ [] | _ ↦ n ∷ rest ]

-- `dq.erase`
unfoldable pub erase_node : ℕ → List Node → List Node
erase_node address ns = filter (λ n. not (n.0 == address)) ns

-- The last element is dropped where the list is full; `none` is `back()` of an empty list.
unfoldable pub make_room : LruCache → Option LruCache
unfolding last_key pop_back
make_room c =
    if length c.dq == c.cache_size
    then elim (last_key c.dq) [
      | none ↦ none
      | some key ↦ some (record c { dq = pop_back c.dq; ma = update c.ma key none })
    ]
    else some c

-- `push_front` and `ma[key] = dq.begin()`
unfoldable pub push_front : ℕ → ℕ → LruCache → LruCache
push_front key parent_node_id c = record c {
  dq = (c.free, (key, parent_node_id)) ∷ c.dq;
  ma = update c.ma key (some c.free);
  free = suc c.free;
}

unfoldable pub refer : ℕ → ℕ → LruCache → Option LruCache
unfolding make_room erase_node push_front
refer key parent_node_id c = elim (c.ma key) [
  | none ↦ elim (make_room c) [ none ↦ none | some c' ↦ some (push_front key parent_node_id c') ]
  | some address ↦ some (push_front key parent_node_id (record c { dq = erase_node address c.dq }))
]

-- the pair at an address; `none` for an iterator whose node is gone
unfoldable pub deref : ℕ → List Node → Option (ℕ × ℕ)
deref address [] = none
deref address (n ∷ ns) = if n.0 == address then some n.1 else deref address ns

-- `-1` as a NodeID where the key is not in the cache
unfoldable pub get : ℕ → LruCache → Option ℕ
unfolding deref
get key c = elim (c.ma key) [
  | none ↦ some (2 ^ 64 - 1)
  | some address ↦ elim (deref address c.dq) [ none ↦ none | some pair ↦ some pair.1 ]
]
