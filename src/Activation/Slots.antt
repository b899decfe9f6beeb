-- ===== src/Activation/Slots.antt =====
-- `Slots` of src/activation/noticeQueue.ts: the slots that sender authentications take. Who asks for
-- one is a number, whose promise settles where it is in a result.
pub mod Held
use email_to_telegram.Base.{
  ℕ, ◌+◌, ◌-◌, Bool, true, false, Option, none, some, List, [], ◌∷◌, ◌++◌, ◌==◌, ltb, if◌then◌else◌,
}

pub record Slots : Type 0 where
  pub limit : ℕ
  pub active : ℕ
  pub waiters : List ℕ

abbrev pub new_slots : ℕ → Slots
new_slots limit = record { limit = limit; active = 0; waiters = [] }

-- The promise of `acquire`: false, true, or not settled yet.
pub data Acquired : Type 0 where
  refused granted waiting : Acquired

unfoldable pub acquire : Bool → ℕ → Slots → Slots × Acquired
acquire aborted id s =
    if aborted
    then (s, refused)
    else if ltb s.active s.limit
    then (record s { active = s.active + 1 }, granted)
    else (record s { waiters = s.waiters ++ id ∷ [] }, waiting)

-- `shift`, and the grant of the one that was shifted.
abbrev pub grant_next : ℕ → ℕ → List ℕ → Slots × Option ℕ
grant_next limit active [] = (record { limit = limit; active = active; waiters = [] }, none)
grant_next limit active (w ∷ waiters) =
    (record { limit = limit; active = active + 1; waiters = waiters }, some w)

unfoldable pub release_slot : Slots → Slots × Option ℕ
release_slot s = grant_next s.limit (s.active - 1) s.waiters

abbrev pub without : ℕ → List ℕ → List ℕ
without id [] = []
without id (w ∷ waiters) = let rest = without id waiters in if w == id then waiters else w ∷ rest

-- `onAbort` of one that waits.
unfoldable pub abort : ℕ → Slots → Slots
abort id s = record s { waiters = without id s.waiters }
