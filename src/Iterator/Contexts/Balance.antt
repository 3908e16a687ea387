-- ===== src/Iterator/Contexts/Balance.antt =====
-- The reference count of each context is the number of iterators that point to it, and of the
-- references that a move assignment left behind; and the pointers of an iterator are null together.
use multiprocessor_programmi.Prelude.{
  ℕ, ◌+◌, ◌≡◌, ◌≢◌, refl, ap, ◌∙◌, inl, inr, List, ◌∷◌, Option, none, some, ◌==◌, if◌then◌else◌,
  get_elem?, arith, Bool-cases,
}
use multiprocessor_programmi.Iterator.Contexts.{
  Contexts, inc_ref, Iterator, null_iterator, is_paired, release, share, State, set_at, remove_at,
  Action, construct_null, construct, copy, copy_assign, move_assign, load, destroy, step, begin_at,
  copy_construct, assign, assign_moved, load_page, destruct,
}
use multiprocessor_programmi.Iterator.Contexts.Counts.{
  points, references, pointing_to, Counts, Counts-same, with_ref, inc_ref-Counts, get-Counts,
  release-Counts, pointing_to-set_at, pointing_to-remove_at, get-pointing_to, get-set_at, ArePaired,
  get-ArePaired, set_at-ArePaired, remove_at-ArePaired,
}

-- `lost` holds the contexts that a move assignment let go without a DecRef.
abbrev pub counts_of : List (Option ℕ) → State → ℕ → ℕ
counts_of lost s q = references q lost + pointing_to q s.iterators

pub record Balanced (lost : List (Option ℕ)) (s : State) : Type 0 where
  pub counts : Counts s.contexts (counts_of lost s)
  pub paired : ArePaired s.iterators

abbrev pub now_lost : Action → State → List (Option ℕ) → List (Option ℕ)
now_lost construct_null s lost = lost
now_lost (construct p place) s lost = lost
now_lost (copy j) s lost = lost
now_lost (copy_assign i j) s lost = lost
now_lost (move_assign i j) s lost =
    if i == j
    then lost
    else elim (get_elem? s.iterators i) [ none ↦ lost | some it ↦ it.ic_p ∷ lost ]
now_lost (load i p place) s lost = lost
now_lost (destroy i) s lost = lost

-- The i-th iterator is alive.
abbrev pub IsAlive : State → ℕ → Type 0
IsAlive s i = (it : Iterator) × (get_elem? s.iterators i ≡ some it)

-- The j-th iterator is alive, and not the null iterator.
abbrev pub IsReal : State → ℕ → Type 0
IsReal s j = (it : Iterator) × (p : ℕ) × (get_elem? s.iterators j ≡ some it) × (it.ic_p ≡ some p)

-- An iterator that is copied is not the null iterator, and a context that is constructed takes memory
-- that no other iterator's context takes.
abbrev pub Allowed : List (Option ℕ) → State → Action → Type 0
Allowed lost s construct_null = Unit
Allowed lost s (construct p place) = counts_of lost s p ≡ 0
Allowed lost s (copy j) = IsReal s j
Allowed lost s (copy_assign i j) = IsAlive s i × IsReal s j
Allowed lost s (move_assign i j) = IsAlive s i × IsAlive s j
Allowed lost s (load i p place) =
    (it : Iterator) × (get_elem? s.iterators i ≡ some it) × (counts_of lost s p ≡ points p it.ic_p)
Allowed lost s (destroy i) = IsAlive s i

-- The state after the action, balanced.
abbrev pub Moves : List (Option ℕ) → State → Action → Type 0
Moves lost s action =
    (after : State) × (step action s ≡ some after) × Balanced (now_lost action s lost) after

abbrev at_place : ℕ → ℕ → Iterator
at_place p place = record { ic_p = some p; kv_p = some place }

share_real :
    (ic : Option ℕ) (p : ℕ) (contexts after : Contexts)
    → ic ≡ some p
    → inc_ref p contexts ≡ some after
    → share ic contexts ≡ some after
unfolding share
share_real none p contexts after real got = absurd (ground (arith, real))
share_real (some q) p contexts after real got =
    let same : q ≡ p = ground (arith, real) in ap (λ r. inc_ref r contexts) same ∙ got

module _ (lost : List (Option ℕ)) (s : State) (balanced : Balanced lost s) where
  -- The counts without the reference of the i-th iterator.
  counts_without : ℕ → ℕ → ℕ
  counts_without i q = references q lost + pointing_to q (set_at s.iterators i null_iterator)

  without :
      (i : ℕ) (it : Iterator)
      → get_elem? s.iterators i ≡ some it
      → (q : ℕ) → counts_of lost s q ≡ with_ref (counts_without i) it.ic_p q
  unfolding counts_without points
  without i it at q = omega (arith, pointing_to-set_at q s.iterators i it null_iterator at)

  released :
      (i : ℕ) (it : Iterator)
      → get_elem? s.iterators i ≡ some it
      → (after : Contexts) × (release it.ic_p s.contexts ≡ some after)
        × Counts after (counts_without i)
  released i it at = release-Counts s.contexts (counts_without i) it.ic_p (
      Counts-same s.contexts (counts_of lost s) (with_ref (counts_without i) it.ic_p)
        balanced.counts (without i it at))

  -- The i-th iterator is another one instead.
  instead :
      (i : ℕ) (it new : Iterator)
      → get_elem? s.iterators i ≡ some it
      → (q : ℕ)
      → with_ref (counts_without i) new.ic_p q
        ≡ references q lost + pointing_to q (set_at s.iterators i new)
  unfolding counts_without points
  instead i it new at q = omega (
    arith,
    pointing_to-set_at q s.iterators i it null_iterator at,
    pointing_to-set_at q s.iterators i it new at,
  )

  construct-Balanced :
      (p place : ℕ) → Allowed lost s (construct p place) → Moves lost s (construct p place)
  unfolding step begin_at pointing_to is_paired
  construct-Balanced p place unused =
      let (contexts, got, counts) =
        get-Counts s.contexts (counts_of lost s) p balanced.counts unused in
      (
        record { contexts = contexts; iterators = at_place p place ∷ s.iterators },
        rw (step, begin_at, got) refl,
        record {
          counts =
              Counts-same contexts (with_ref (counts_of lost s) (some p)) _ counts
                (λ q. omega arith);
          paired = (refl, balanced.paired);
        },
      )

  copy-Balanced : (j : ℕ) → Allowed lost s (copy j) → Moves lost s (copy j)
  unfolding step copy_construct pointing_to
  copy-Balanced j (it, p, at, real) =
      let (contexts, got, counts) =
        inc_ref-Counts s.contexts (counts_of lost s) p balanced.counts
          (omega (arith, get-pointing_to p s.iterators j it at real)) in
      let shared = share_real it.ic_p p s.contexts contexts real got in
      (
        record { contexts = contexts; iterators = it ∷ s.iterators },
        rw (step, copy_construct, at, shared) refl,
        record {
          counts =
              Counts-same contexts (with_ref (counts_of lost s) (some p)) _ counts
                (λ q. omega (arith, ap (points q) real));
          paired = (get-ArePaired s.iterators j it balanced.paired at, balanced.paired);
        },
      )

  copy_assign-Balanced :
      (i j : ℕ) → Allowed lost s (copy_assign i j) → Moves lost s (copy_assign i j)
  unfolding step assign counts_without
  copy_assign-Balanced i j ((it, at), (other, p, from, real)) = elim (Bool-cases (i == j)) [
    | inl same ↦ (s, rw (step, assign, at, from, same) refl, balanced)
    | inr apart ↦
        let ne : i ≢ j = λ e. ground (arith, e, apart) in
        let asserted = get-ArePaired s.iterators i it balanced.paired at in
        let (freed, let_go, counts) = released i it at in
        let kept =
          get-pointing_to p (set_at s.iterators i null_iterator) j other
            (get-set_at s.iterators i j null_iterator ne ∙ from) real in
        let (contexts, got, after) =
          inc_ref-Counts freed (counts_without i) p counts (omega (arith, kept)) in
        let shared = share_real other.ic_p p freed contexts real got in
        (
          record { contexts = contexts; iterators = set_at s.iterators i other },
          rw (step, assign, at, from, apart, asserted, let_go, shared) refl,
          record {
            counts =
                Counts-same contexts (with_ref (counts_without i) (some p)) _ after
                  (λ q. omega (arith, ap (points q) real, instead i it other at q));
            paired =
                set_at-ArePaired s.iterators i other balanced.paired
                  (get-ArePaired s.iterators j other balanced.paired from);
          },
        )
  ]

  move_assign-Balanced :
      (i j : ℕ) → Allowed lost s (move_assign i j) → Moves lost s (move_assign i j)
  unfolding step assign_moved references points is_paired
  move_assign-Balanced i j ((it, at), (other, from)) = elim (Bool-cases (i == j)) [
    | inl same ↦ (s, rw (step, assign_moved, at, from, same) refl, rw same balanced)
    | inr apart ↦
        let ne : i ≢ j = λ e. ground (arith, e, apart) in
        let asserted = get-ArePaired s.iterators i it balanced.paired at in
        let assigned = set_at s.iterators i other in
        let there = get-set_at s.iterators i j other ne ∙ from in
        (
          record s { iterators = set_at assigned j null_iterator },
          rw (step, assign_moved, at, from, apart, asserted) refl,
          rw (apart, at)
              (record {
                counts = Counts-same s.contexts (counts_of lost s) _ balanced.counts (λ q. omega (
                  arith,
                  pointing_to-set_at q s.iterators i it other at,
                  pointing_to-set_at q assigned j other null_iterator there,
                ));
                paired =
                    set_at-ArePaired assigned j null_iterator
                      (set_at-ArePaired s.iterators i other balanced.paired
                        (get-ArePaired s.iterators j other balanced.paired from))
                      refl;
              }),
        )
  ]

  load-Balanced : (i p place : ℕ) → Allowed lost s (load i p place) → Moves lost s (load i p place)
  unfolding step load_page is_paired
  load-Balanced i p place (it, at, unused) =
      let (freed, let_go, counts) = released i it at in
      let (contexts, got, after) =
        get-Counts freed (counts_without i) p counts (omega (arith, without i it at p, unused)) in
      (
        record { contexts = contexts; iterators = set_at s.iterators i (at_place p place) },
        rw (step, load_page, at, let_go, got) refl,
        record {
          counts =
              Counts-same contexts (with_ref (counts_without i) (some p)) _ after
                (instead i it (at_place p place) at);
          paired = set_at-ArePaired s.iterators i (at_place p place) balanced.paired refl;
        },
      )

  destroy-Balanced : (i : ℕ) → Allowed lost s (destroy i) → Moves lost s (destroy i)
  unfolding step destruct
  destroy-Balanced i (it, at) =
      let asserted = get-ArePaired s.iterators i it balanced.paired at in
      let (freed, let_go, counts) = released i it at in
      (
        record { contexts = freed; iterators = remove_at s.iterators i },
        rw (step, destruct, at, asserted, let_go) refl,
        record {
          counts =
              Counts-same freed (counts_without i) _ counts (λ q.
                omega (arith, without i it at q, pointing_to-remove_at q s.iterators i it at));
          paired = remove_at-ArePaired s.iterators i balanced.paired;
        },
      )

-- Let the reference count of each context be the number of iterators that point to it, and of the
-- references that move assignments let go, with no context where that is 0, and let the two pointers
-- of each iterator be null together or not at all. An action on iterators that are alive, which copies
-- no null iterator and constructs a context only in unused memory, accesses no freed memory, fails
-- none of the assertions on the counts and on the two pointers, and keeps that so. Only a move
-- assignment to another iterator lets a reference go: that of the iterator that it assigns to.
pub step-Balanced :
    (lost : List (Option ℕ)) (s : State) (action : Action)
    → Balanced lost s
    → Allowed lost s action
    → (after : State) × (step action s ≡ some after) × Balanced (now_lost action s lost) after
unfolding step pointing_to points is_paired
step-Balanced lost s construct_null b a = (
  record s { iterators = null_iterator ∷ s.iterators },
  refl,
  record {
    counts = Counts-same s.contexts (counts_of lost s) _ b.counts (λ q. omega arith);
    paired = (refl, b.paired);
  },
)
step-Balanced lost s (construct p place) b a = construct-Balanced lost s b p place a
step-Balanced lost s (copy j) b a = copy-Balanced lost s b j a
step-Balanced lost s (copy_assign i j) b a = copy_assign-Balanced lost s b i j a
step-Balanced lost s (move_assign i j) b a = move_assign-Balanced lost s b i j a
step-Balanced lost s (load i p place) b a = load-Balanced lost s b i p place a
step-Balanced lost s (destroy i) b a = destroy-Balanced lost s b i a
