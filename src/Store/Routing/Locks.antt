-- ===== src/Store/Routing/Locks.antt =====
-- The list that `lockOrder` (src/db/repos/aliasRouting.ts) makes of the users to lock. The advisory
-- locks themselves are not modelled.
use email_to_telegram.Base.{
  ℕ, ◌<◌, Bool, true, false, Option, none, some, List, [], ◌∷◌, ◌≡◌, refl, arith, inl, inr, ◌==◌,
  ◌||◌, Bool-cases, ==_iff, subst, ◌∙◌,
}
use email_to_telegram.Store.Routing.{has_id, insert_id, distinct_ids, sort_ids, lock_order}

-- Every element is above `n`, and the list ascends strictly.
abbrev pub Ascends : ℕ → List ℕ → Type 0
Ascends n [] = Unit
Ascends n (k ∷ ids) = (n < k) × Ascends k ids

abbrev pub IsAscending : List ℕ → Type 0
IsAscending [] = Unit
IsAscending (k ∷ ids) = Ascends k ids

has_id-insert :
    (a id : ℕ) (ids : List ℕ) → has_id a (insert_id id ids) ≡ ((id == a) || has_id a ids)
unfolding insert_id
has_id-insert a id [] = refl
has_id-insert a id (k ∷ ids) = ground (arith, has_id-insert a id ids)

has_id-sort : (a : ℕ) (ids : List ℕ) → has_id a (sort_ids ids) ≡ has_id a ids
unfolding sort_ids
has_id-sort a [] = refl
has_id-sort a (k ∷ ids) = rw (has_id-insert a k (sort_ids ids), has_id-sort a ids)

insert-Ascends :
    (n id : ℕ) (ids : List ℕ)
    → Ascends n ids
    → n < id
    → has_id id ids ≡ false
    → Ascends n (insert_id id ids)
unfolding insert_id
insert-Ascends n id [] h lt fresh = (lt, tt)
insert-Ascends n id (k ∷ ids) h lt fresh = ground (arith, insert-Ascends k id ids h.1)

insert-IsAscending :
    (id : ℕ) (ids : List ℕ)
    → IsAscending ids
    → has_id id ids ≡ false
    → IsAscending (insert_id id ids)
unfolding insert_id
insert-IsAscending id [] h fresh = tt
insert-IsAscending id (k ∷ ids) h fresh = ground (arith, insert-Ascends k id ids h)

-- No id stands twice.
abbrev IsDistinct : List ℕ → Type 0
IsDistinct [] = Unit
IsDistinct (k ∷ ids) = (has_id k ids ≡ false) × IsDistinct ids

distinct_ids-IsDistinct : (ids : List (Option ℕ)) → IsDistinct (distinct_ids ids)
unfolding distinct_ids
distinct_ids-IsDistinct [] = tt
distinct_ids-IsDistinct (none ∷ ids) = distinct_ids-IsDistinct ids
distinct_ids-IsDistinct (some id ∷ ids) = elim (Bool-cases (has_id id (distinct_ids ids))) [
  | inl e ↦ rw e (distinct_ids-IsDistinct ids)
  | inr e ↦ rw e (e, distinct_ids-IsDistinct ids)
]

sort-IsAscending : (ids : List ℕ) → IsDistinct ids → IsAscending (sort_ids ids)
unfolding sort_ids
sort-IsAscending [] h = tt
sort-IsAscending (k ∷ ids) h =
    insert-IsAscending k (sort_ids ids) (sort-IsAscending ids h.1) (rw (has_id-sort k ids) h.0)

-- Whether an id is among those given, nulls left out.
abbrev pub is_given : ℕ → List (Option ℕ) → Bool
is_given a [] = false
is_given a (none ∷ ids) = is_given a ids
is_given a (some id ∷ ids) = (id == a) || is_given a ids

has_id-distinct : (a : ℕ) (ids : List (Option ℕ)) → has_id a (distinct_ids ids) ≡ is_given a ids
unfolding distinct_ids
has_id-distinct a [] = refl
has_id-distinct a (none ∷ ids) = has_id-distinct a ids
has_id-distinct a (some id ∷ ids) = elim (Bool-cases (has_id id (distinct_ids ids))) [
  | inl e ↦ rw e (ground (arith, has_id-distinct a ids, ==_iff id a, same_id e))
  | inr e ↦ rw e (ground (arith, has_id-distinct a ids))
]
  where
    same_id :
        has_id id (distinct_ids ids) ≡ true → (id == a) ≡ true → has_id a (distinct_ids ids) ≡ true
    same_id e s = subst (λ k. has_id k (distinct_ids ids) ≡ true) ((==_iff id a).0 s) e

-- The list is strictly ascending, so no id is in it twice, and it has exactly the ids that were given.
pub lock_order_lem :
    (ids : List (Option ℕ))
    → IsAscending (lock_order ids) × ((a : ℕ) → has_id a (lock_order ids) ≡ is_given a ids)
unfolding lock_order
lock_order_lem ids = (
  sort-IsAscending (distinct_ids ids) (distinct_ids-IsDistinct ids),
  λ a. has_id-sort a (distinct_ids ids) ∙ has_id-distinct a ids,
)
