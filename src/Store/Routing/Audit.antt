-- ===== src/Store/Routing/Audit.antt =====
-- A move of src/db/repos/aliasRouting.ts with its audit row.
use mathlib.Core.List.{Memᴰ}
use mathlib.Core.Bool.{false≢true}
use email_to_telegram.Base.{
  ◌+◌, Bool, true, false, none, some, List, [], ◌∷◌, ◌++◌, ◌≡◌, ◌≢◌, refl, sym, ap, ◌∙◌, ◌⊎◌, inl,
  inr, arith, ==_refl, find?, find?-passes, update_where, Bool-cases, Option-cases,
}
use email_to_telegram.Store.Rows.{Db, EmailAddress, AliasStatus, AliasMoveEvent}
use email_to_telegram.Store.Users.{is_deleted}
use email_to_telegram.Store.Routing.{
  MoveAliasParams, RoutingMutationResult, done, version_conflict, cas_condition, moved, move_event,
  cas_update, move_alias_with_cas, insert_alias_move_event,
}
use email_to_telegram.Store.Routing.Spent.{update-missed}

-- The row that the move was authorised against: the alias at that version, and not deleted.
pub record IsAuthorised (p : MoveAliasParams) (a : EmailAddress) : Type 0 where
  pub same_alias : a.id ≡ p.alias_id
  pub same_version : a.routing_version ≡ p.expected_version
  pub alive : a.status ≢ AliasStatus.deleted

-- The audit row has who moved what under which right, and the route before and after: no topic at
-- the new chat.
pub record Records (p : MoveAliasParams) (e : AliasMoveEvent) : Type 0 where
  pub operation : e.operation_id ≡ p.operation_id
  pub alias : e.alias_id ≡ p.alias_id
  pub owner : e.alias_owner_id ≡ p.alias_owner_id
  pub actor : e.actor_id ≡ p.actor_id
  pub right : e.authz_path ≡ p.authz_path
  pub old_chat : e.old_chat_id ≡ p.old_chat_id
  pub old_topic : e.old_thread_id ≡ p.old_thread_id
  pub new_chat : e.new_chat_id ≡ p.new_chat_id
  pub no_topic : e.new_thread_id ≡ none

-- The move went through.
pub record IsMoved (p : MoveAliasParams) (db after : Db) (r : RoutingMutationResult) : Type 0 where
  pub old : EmailAddress
  pub listed : Memᴰ old db.aliases
  pub authorised : IsAuthorised p old
  pub new : EmailAddress
  pub result : r ≡ done new
  pub stored : Memᴰ new after.aliases
  pub same_alias : new.id ≡ p.alias_id
  pub same_owner : new.created_by ≡ old.created_by
  pub at_new_chat : new.chat_id ≡ p.new_chat_id
  pub no_topic : new.message_thread_id ≡ none
  pub next_version : new.routing_version ≡ p.expected_version + 1
  pub event : AliasMoveEvent
  pub recorded : after.move_events ≡ db.move_events ++ event ∷ []
  pub records : Records p event

-- The move found nothing that it was authorised against.
pub record IsRefused (p : MoveAliasParams) (db after : Db) (r : RoutingMutationResult)
    : Type 0 where
  pub result : r ≡ version_conflict
  pub missing : (a : EmailAddress) → Memᴰ a db.aliases → IsAuthorised p a → ⊥
  pub aliases : after.aliases ≡ db.aliases
  pub events : after.move_events ≡ db.move_events

not_deleted : (s : AliasStatus) → is_deleted s ≡ false → s ≢ AliasStatus.deleted
not_deleted s h e = let t = rw e at h in cc

deleted-false : (s : AliasStatus) → s ≢ AliasStatus.deleted → is_deleted s ≡ false
deleted-false s h = ground (arith, h)

passes-IsAuthorised :
    (p : MoveAliasParams) (a : EmailAddress)
    → cas_condition p.alias_id p.expected_version a ≡ true
    → IsAuthorised p a
passes-IsAuthorised p a h = record {
  same_alias = ground (arith, h);
  same_version = ground (arith, h);
  alive = not_deleted a.status (ground (arith, h));
}

IsAuthorised-passes :
    (p : MoveAliasParams) (a : EmailAddress)
    → IsAuthorised p a
    → cas_condition p.alias_id p.expected_version a ≡ true
IsAuthorised-passes p a h =
    rw
      (
        h.same_alias,
        h.same_version,
        ==_refl p.alias_id,
        ==_refl p.expected_version,
        deleted-false a.status h.alive,
      )
      refl

found-listed :
    (q : EmailAddress → Bool) (f : EmailAddress → EmailAddress) (rows : List EmailAddress)
    {b : EmailAddress}
    → find? q rows ≡ some b
    → Memᴰ b rows × Memᴰ (f b) (update_where q f rows)
found-listed q f [] h = cc
found-listed q f (a ∷ rows) {b} h = elim (Bool-cases (q a)) [
  | inl e ↦
      let same : a ≡ b = ground (arith, rw e at h) in
      rw (e, ← same) (Memᴰ.head refl, Memᴰ.head refl)
  | inr e ↦
      let later = found-listed q f rows (rw e at h) in rw e (Memᴰ.tail later.0, Memᴰ.tail later.1)
]

missed-all :
    (q : EmailAddress → Bool) (rows : List EmailAddress) {a : EmailAddress}
    → find? q rows ≡ none
    → Memᴰ a rows
    → q a ≡ false
missed-all q [] h m = elim m [ ]
missed-all q (b ∷ rows) {a} h (Memᴰ.head e) = elim (Bool-cases (q b)) [
  | inl hit ↦ let t : some b ≡ none = rw hit at h in cc
  | inr miss ↦ rw e miss
]
missed-all q (b ∷ rows) {a} h (Memᴰ.tail m) = elim (Bool-cases (q b)) [
  | inl hit ↦ let t : some b ≡ none = rw hit at h in cc
  | inr miss ↦ missed-all q rows (rw miss at h) m
]

-- The tables after the update of the row.
abbrev updated : MoveAliasParams → Db → Db
updated p db = record db {
  aliases =
      update_where (cas_condition p.alias_id p.expected_version) (moved p.new_chat_id) db.aliases;
}

move-done :
    (p : MoveAliasParams) (db : Db) {b : EmailAddress}
    → find? (cas_condition p.alias_id p.expected_version) db.aliases ≡ some b
    → move_alias_with_cas p db
      ≡ (insert_alias_move_event (move_event p) (updated p db), done (moved p.new_chat_id b))
unfolding move_alias_with_cas cas_update
move-done p db e = rw e refl

move-conflict :
    (p : MoveAliasParams) (db : Db)
    → find? (cas_condition p.alias_id p.expected_version) db.aliases ≡ none
    → move_alias_with_cas p db ≡ (updated p db, version_conflict)
unfolding move_alias_with_cas cas_update
move-conflict p db e = rw e refl

-- A move goes through where some row of the alias has the version that was authorised and is not
-- deleted: the alias then stands at the new chat with no topic and the next version, and one audit
-- row is added, which has the operation, the actor, the right and the route before and after. Where
-- there is no such row the move is a conflict, and neither an alias nor an audit row is written.
pub move-audit :
    (p : MoveAliasParams) (db : Db)
    → let after = move_alias_with_cas p db in
      IsMoved p db after.0 after.1 ⊎ IsRefused p db after.0 after.1
unfolding insert_alias_move_event
move-audit p db =
    let q = cas_condition p.alias_id p.expected_version in
    elim (Option-cases (find? q db.aliases)) [
      | inl e ↦ rw (move-conflict p db e) (
          inr (record {
            result = refl;
            missing = λ a m authorised.
                let t = missed-all q db.aliases e m in
                let hit = IsAuthorised-passes p a authorised in false≢true (sym t ∙ hit);
            aliases = update-missed q (moved p.new_chat_id) db.aliases e;
            events = refl;
          }))
      | inr (b, e) ↦
          let found = found-listed q (moved p.new_chat_id) db.aliases e in
          let authorised = passes-IsAuthorised p b (find?-passes q db.aliases e) in
          rw (move-done p db e) (
            inl (record {
              old = b;
              listed = found.0;
              authorised = authorised;
              new = moved p.new_chat_id b;
              result = refl;
              stored = found.1;
              same_alias = authorised.same_alias;
              same_owner = refl;
              at_new_chat = refl;
              no_topic = refl;
              next_version = ap (λ v. v + 1) authorised.same_version;
              event = move_event p;
              recorded = refl;
              records = record {
                operation = refl;
                alias = refl;
                owner = refl;
                actor = refl;
                right = refl;
                old_chat = refl;
                old_topic = refl;
                new_chat = refl;
                no_topic = refl;
              };
            }))
    ]
