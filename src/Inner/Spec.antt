-- ===== src/Inner/Spec.antt =====
-- What an inner chain says, without any order of search: the separators in its base nodes, changed by
-- the data nodes from the oldest to the newest; and when a chain is well-formed.
use multiprocessor_programmi.Prelude.{
  ℕ, suc, ◌+◌, ◌≤◌, ◌<◌, ◌≡◌, ◌≢◌, ◌⊎◌, List, [], ◌∷◌, Option, none, some, ◌==◌, ltb, leb,
  if◌then◌else◌, All,
}
use multiprocessor_programmi.Leaf.{KeyNodeId, invalid_node_id}
use multiprocessor_programmi.Leaf.Spec.{IsBelowHigh}
use multiprocessor_programmi.Inner.{
  InnerChain, inner, inner_insert, inner_delete, inner_split, inner_remove, inner_merge,
  inner_abort, inner_low_key_pair, inner_high_key_pair,
}

-- the first item's key is the low key, which separates nothing
abbrev pub separators : List KeyNodeId → List KeyNodeId
separators [] = []
separators (x ∷ xs) = xs

abbrev pub lookup : List KeyNodeId → ℕ → Option ℕ
lookup [] k = none
lookup (x ∷ xs) k = if x.0 == k then some x.1 else lookup xs k

-- the id that a separator leads to
abbrev pub separator : InnerChain → ℕ → Option ℕ
separator (inner low_key high_key items) k = lookup (separators items) k
separator (inner_insert item next_item location child) k =
    if item.0 == k then some item.1 else separator child k
separator (inner_delete item prev_item next_item location child) k =
    if item.0 == k then none else separator child k
separator (inner_split insert_item n child) k =
    if ltb k insert_item.0 then separator child k else none
separator (inner_remove removed_id child) k = separator child k
separator (inner_merge delete_item right child) k =
    if ltb k delete_item.0
    then separator child k
    else if k == delete_item.0
    then some (inner_low_key_pair right).1
    else separator right k
separator (inner_abort child) k = separator child k

abbrev pub count_below : ℕ → List KeyNodeId → ℕ
count_below k [] = 0
count_below k (x ∷ xs) = (if ltb x.0 k then 1 else 0) + count_below k xs

abbrev pub count_upto : ℕ → List KeyNodeId → ℕ
count_upto k [] = 0
count_upto k (x ∷ xs) = (if leb x.0 k then 1 else 0) + count_upto k xs

abbrev pub IsAscending : List KeyNodeId → Type 0
IsAscending [] = Unit
IsAscending (x ∷ xs) = All (λ y. x.0 < y.0) xs × IsAscending xs

-- A location of a key: what stands before it is not above the key, what stands from it on not below.
-- Below a merge node locations are not used.
abbrev pub IsLocated : InnerChain → ℕ → ℕ → Type 0
IsLocated (inner low_key high_key items) key location =
    (count_below key (separators items) < location)
    × (location ≤ suc (count_upto key (separators items)))
IsLocated (inner_insert item next_item l child) key location = IsLocated child key location
IsLocated (inner_delete item prev_item next_item l child) key location =
    IsLocated child key location
IsLocated (inner_split insert_item n child) key location = IsLocated child key location
IsLocated (inner_remove removed_id child) key location = IsLocated child key location
IsLocated (inner_merge delete_item right child) key location = Unit
IsLocated (inner_abort child) key location = IsLocated child key location

-- the next separator after the key, or none
abbrev pub IsNext : (ℕ → Option ℕ) → ℕ → KeyNodeId → Type 0
IsNext seps key next_item =
    ((next_item.1 ≡ invalid_node_id) × ((t : ℕ) → key < t → seps t ≡ none))
    ⊎ ((next_item.1 ≢ invalid_node_id)
        × (key < next_item.0)
        × (seps next_item.0 ≡ some next_item.1)
        × ((t : ℕ) → key < t → t < next_item.0 → seps t ≡ none))

-- the separator before the key, or the low key
abbrev pub IsPrevious : (ℕ → Option ℕ) → ℕ → ℕ → KeyNodeId → Type 0
IsPrevious seps low key prev_item =
    ((prev_item.1 ≡ low) × ((t : ℕ) → t < key → seps t ≡ none))
    ⊎ ((prev_item.1 ≢ low)
        × (prev_item.0 < key)
        × (seps prev_item.0 ≡ some prev_item.1)
        × ((t : ℕ) → prev_item.0 < t → t < key → seps t ≡ none))

abbrev pub IsValid : InnerChain → Type 0
IsValid (inner low_key high_key items) =
    (first : KeyNodeId) × (rest : List KeyNodeId) × (items ≡ first ∷ rest)
    × (first.1 ≡ low_key.1)
    × IsAscending rest
IsValid (inner_insert item next_item location child) =
    IsNext (separator child) item.0 next_item × IsLocated child item.0 location × IsValid child
IsValid (inner_delete item prev_item next_item location child) =
    IsNext (separator child) item.0 next_item
    × IsPrevious (separator child) (inner_low_key_pair child).1 item.0 prev_item
    × IsLocated child item.0 location
    × IsValid child
IsValid (inner_split insert_item n child) =
    IsBelowHigh (inner_high_key_pair child) insert_item.0 × (0 < insert_item.1) × IsValid child
IsValid (inner_remove removed_id child) = ⊥
IsValid (inner_merge delete_item right child) =
    ((inner_high_key_pair child).0 ≡ delete_item.0)
    × ((t : ℕ) → t ≤ delete_item.0 → separator right t ≡ none)
    × IsValid right
    × IsValid child
IsValid (inner_abort child) = ⊥
