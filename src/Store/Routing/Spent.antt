-- ===== src/Store/Routing/Spent.antt =====
-- The version guard of src/db/repos/aliasRouting.ts: a version is good for one mutation.
use email_to_telegram.Base.{
  ℕ, ◌≤◌, Bool, true, not, ◌||◌, none, some, List, [], ◌∷◌, ◌≡◌, refl, ap, ◌∙◌, arith, ◌==◌, ltb,
  all, count, find?, update_where, Bool-cases, Option-cases, inl, inr,
}
use email_to_telegram.Store.Rows.{Db, EmailAddress}
use email_to_telegram.Store.Users.{is_deleted}
use email_to_telegram.Store.Routing.{cas_condition, version_conflict, done, cas_result}
use email_to_telegram.Store.Routing.Guard.{
  RoutingOp, move, topic, delete, op_alias, op_version, op_change, run_op, run_ops, op-aliases,
  op-result,
}

-- The row is another's, or deleted, or past the version.
abbrev is_spent : ℕ → ℕ → EmailAddress → Bool
is_spent id version a = not (a.id == id) || (is_deleted a.status || ltb version a.routing_version)

abbrev IsSpent : ℕ → ℕ → List EmailAddress → Type 0
IsSpent id version rows = all (is_spent id version) rows ≡ true

change-is_spent :
    (op : RoutingOp) (id version : ℕ) (a : EmailAddress)
    → is_spent id version a ≡ true
    → is_spent id version (op_change op a) ≡ true
change-is_spent (move p) id version a h = ground (arith, h)
change-is_spent (topic i v thread) id version a h = ground (arith, h)
change-is_spent (delete i v tombstone) id version a h = ground (arith, h)

hit-is_spent :
    (op : RoutingOp) (a : EmailAddress)
    → cas_condition (op_alias op) (op_version op) a ≡ true
    → is_spent (op_alias op) (op_version op) (op_change op a) ≡ true
hit-is_spent (move p) a h = ground (arith, h)
hit-is_spent (topic i v thread) a h = ground (arith, h)
hit-is_spent (delete i v tombstone) a h = ground (arith, h)

update-IsSpent :
    (op : RoutingOp) (p : EmailAddress → Bool) (id version : ℕ) (rows : List EmailAddress)
    → IsSpent id version rows
    → IsSpent id version (update_where p (op_change op) rows)
update-IsSpent op p id version [] h = refl
update-IsSpent op p id version (a ∷ rows) h =
    ground (arith, h, change-is_spent op id version a, update-IsSpent op p id version rows)

run_ops-IsSpent :
    (ops : List RoutingOp) (id version : ℕ) (db : Db)
    → IsSpent id version db.aliases
    → IsSpent id version (run_ops ops db).aliases
unfolding run_ops
run_ops-IsSpent [] id version db h = h
run_ops-IsSpent (op ∷ ops) id version db h =
    run_ops-IsSpent ops id version (run_op op db).0
      (rw (op-aliases op db) (update-IsSpent op _ id version db.aliases h))

-- The rows of an alias.
abbrev pub count_of : ℕ → List EmailAddress → ℕ
count_of id rows = count (λ a. a.id == id) rows

absent-IsSpent :
    (id version : ℕ) (rows : List EmailAddress) → count_of id rows ≡ 0 → IsSpent id version rows
absent-IsSpent id version [] h = refl
absent-IsSpent id version (a ∷ rows) h = ground (arith, h, absent-IsSpent id version rows)

absent-find? :
    (id version : ℕ) (rows : List EmailAddress)
    → count_of id rows ≡ 0
    → find? (cas_condition id version) rows ≡ none
absent-find? id version [] h = refl
absent-find? id version (a ∷ rows) h = ground (arith, h, absent-find? id version rows)

-- The mutation hits the alias's only row.
hit-IsSpent :
    (op : RoutingOp) (rows : List EmailAddress) {b : EmailAddress}
    → count_of (op_alias op) rows ≤ 1
    → find? (cas_condition (op_alias op) (op_version op)) rows ≡ some b
    → IsSpent
        (op_alias op)
        (op_version op)
        (update_where (cas_condition (op_alias op) (op_version op)) (op_change op) rows)
hit-IsSpent op [] one h = cc
hit-IsSpent op (a ∷ rows) one h =
    let p = cas_condition (op_alias op) (op_version op) in
    elim (Bool-cases (p a)) [
      | inl hit ↦
          let others =
            update-IsSpent op p (op_alias op) (op_version op) rows
              (absent-IsSpent (op_alias op) (op_version op) rows (ground (arith, one, hit))) in
          rw hit (ground (arith, hit-is_spent op a hit, others))
      | inr miss ↦ elim (Bool-cases (a.id == op_alias op)) [
        | inl own ↦
            let gone = absent-find? (op_alias op) (op_version op) rows (ground (arith, one, own)) in
            ground (arith, gone, h, miss)
        | inr other ↦
            let later = hit-IsSpent op rows (ground (arith, one, other)) (rw miss at h) in
            rw (miss, other) later
      ]
    ]

spent-find? :
    (id version v : ℕ) (rows : List EmailAddress)
    → v ≤ version
    → IsSpent id version rows
    → find? (cas_condition id v) rows ≡ none
spent-find? id version v [] le h = refl
spent-find? id version v (a ∷ rows) le h = ground (arith, le, h, spent-find? id version v rows le)

pub update-missed :
    (p : EmailAddress → Bool) (f : EmailAddress → EmailAddress) (xs : List EmailAddress)
    → find? p xs ≡ none
    → update_where p f xs ≡ xs
update-missed p f [] h = refl
update-missed p f (x ∷ xs) h = elim (Bool-cases (p x)) [
  | inl e ↦ let hit : some x ≡ none = rw e at h in cc
  | inr e ↦ rw e (ap (λ ys. x ∷ ys) (update-missed p f xs (rw e at h)))
]

done-IsSpent :
    (op : RoutingOp) (db : Db) {a : EmailAddress}
    → count_of (op_alias op) db.aliases ≤ 1
    → (run_op op db).1 ≡ done a
    → IsSpent (op_alias op) (op_version op) (run_op op db).0.aliases
done-IsSpent op db one h =
    elim (Option-cases (find? (cas_condition (op_alias op) (op_version op)) db.aliases)) [
      | inl e ↦ let refused : version_conflict ≡ done _ = rw (op-result op db, e) at h in cc
      | inr (b, e) ↦ rw (op-aliases op db) (hit-IsSpent op db.aliases one e)
    ]

-- A version is spent by the mutation that goes through against it. Whatever that one was, and
-- whatever mutations of any aliases come in between, a move, a topic change or a deletion of the same
-- alias against that version or an older one is a conflict, and leaves the aliases as they are. The
-- alias's id, the primary key, stands in one row at most.
pub cas_spent :
    (op op' : RoutingOp) (between : List RoutingOp) (db : Db) {a : EmailAddress}
    → count_of (op_alias op) db.aliases ≤ 1
    → (run_op op db).1 ≡ done a
    → op_alias op' ≡ op_alias op
    → op_version op' ≤ op_version op
    → let later = run_ops between (run_op op db).0 in
      ((run_op op' later).1 ≡ version_conflict) × ((run_op op' later).0.aliases ≡ later.aliases)
cas_spent op op' between db one went same_alias older = (
  op-result op' later ∙ ap (λ o. cas_result o (op_change op')) gone,
  op-aliases op' later ∙ update-missed _ (op_change op') _ gone,
)
  where
    later : Db
    later = run_ops between (run_op op db).0

    gone : find? (cas_condition (op_alias op') (op_version op')) later.aliases ≡ none
    gone = rw same_alias (
        spent-find? (op_alias op) (op_version op) (op_version op') later.aliases older (
          run_ops-IsSpent between (op_alias op) (op_version op) (run_op op db).0
            (done-IsSpent op db one went)))
