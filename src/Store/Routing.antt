-- ===== src/Store/Routing.antt =====
-- src/db/repos/aliasRouting.ts: the version-guarded mutations of an alias's route and existence.
pub mod Guard
pub mod Spent
pub mod Audit
pub mod Locks
use email_to_telegram.Base.{
  ℕ, ◌+◌, ℤ, String, Bool, true, false, not, ◌&&◌, Option, none, some, List, [], ◌∷◌, ◌++◌, ◌==◌,
  ltb, any, find?, update_where, if◌then◌else◌,
}
use email_to_telegram.Store.Rows.{Db, EmailAddress, AliasStatus, AliasMoveEvent, AuthzPath}
use email_to_telegram.Store.Users.{is_deleted}

unfoldable pub insert_alias_move_event : AliasMoveEvent → Db → Db
insert_alias_move_event event db = record db { move_events = db.move_events ++ event ∷ [] }

-- `lockOrder`: the distinct ids, ascending. `insert_id` puts an id into its place, so a list sorted
-- by it is the result of the source's `sort`.
abbrev pub has_id : ℕ → List ℕ → Bool
has_id id ids = any (λ k. k == id) ids

unfoldable pub insert_id : ℕ → List ℕ → List ℕ
insert_id id [] = id ∷ []
insert_id id (k ∷ ids) = let rest = k ∷ insert_id id ids in if ltb k id then rest else id ∷ k ∷ ids

unfoldable pub distinct_ids : List (Option ℕ) → List ℕ
distinct_ids [] = []
distinct_ids (none ∷ ids) = distinct_ids ids
distinct_ids (some id ∷ ids) =
    let rest = distinct_ids ids in if has_id id rest then rest else id ∷ rest

unfoldable pub sort_ids : List ℕ → List ℕ
unfolding insert_id
sort_ids [] = []
sort_ids (id ∷ ids) = insert_id id (sort_ids ids)

unfoldable pub lock_order : List (Option ℕ) → List ℕ
unfolding sort_ids distinct_ids
lock_order ids = sort_ids (distinct_ids ids)

-- `WHERE id = ? AND routing_version = ? AND status <> 'deleted'`
abbrev pub cas_condition : ℕ → ℕ → EmailAddress → Bool
cas_condition id version a =
    (a.id == id) && ((a.routing_version == version) && not (is_deleted a.status))

pub data RoutingMutationResult : Type 0 where
  done : EmailAddress → RoutingMutationResult
  version_conflict : RoutingMutationResult

-- `update ... set f where cas returning`: the first updated row.
abbrev pub cas_result : Option EmailAddress → (EmailAddress → EmailAddress) → RoutingMutationResult
cas_result none f = version_conflict
cas_result (some a) f = done (f a)

pub record MoveAliasParams : Type 0 where
  pub alias_id : ℕ
  pub expected_version : ℕ
  pub new_chat_id : ℤ
  pub old_chat_id : ℤ
  pub old_thread_id : Option ℕ
  pub actor_id : Option ℕ
  pub authz_path : AuthzPath
  pub alias_owner_id : ℕ
  pub operation_id : ℕ

abbrev pub moved : ℤ → EmailAddress → EmailAddress
moved chat a = record a {
  chat_id = chat;
  message_thread_id = none;
  routing_version = a.routing_version + 1;
}

abbrev pub move_event : MoveAliasParams → AliasMoveEvent
move_event p = record {
  operation_id = p.operation_id;
  alias_id = p.alias_id;
  alias_owner_id = p.alias_owner_id;
  actor_id = p.actor_id;
  authz_path = p.authz_path;
  old_chat_id = p.old_chat_id;
  new_chat_id = p.new_chat_id;
  old_thread_id = p.old_thread_id;
  new_thread_id = none;
}

-- `update emailAddresses set f where casCondition returning`.
unfoldable pub cas_update : ℕ → ℕ → (EmailAddress → EmailAddress) → Db → Db × RoutingMutationResult
cas_update id version f db = (
  record db { aliases = update_where (cas_condition id version) f db.aliases },
  cas_result (find? (cas_condition id version) db.aliases) f,
)

-- The audit row is written in the transaction of a move that went through.
abbrev pub audit_move : MoveAliasParams → Db × RoutingMutationResult → Db × RoutingMutationResult
audit_move p (db, version_conflict) = (db, version_conflict)
audit_move p (db, done a) = (insert_alias_move_event (move_event p) db, done a)

unfoldable pub move_alias_with_cas : MoveAliasParams → Db → Db × RoutingMutationResult
unfolding cas_update
move_alias_with_cas p db =
    audit_move p (cas_update p.alias_id p.expected_version (moved p.new_chat_id) db)

abbrev pub with_topic : Option ℕ → EmailAddress → EmailAddress
with_topic thread a = record a {
  message_thread_id = thread;
  routing_version = a.routing_version + 1;
}

unfoldable pub set_alias_topic_with_cas : ℕ → ℕ → Option ℕ → Db → Db × RoutingMutationResult
unfolding cas_update
set_alias_topic_with_cas id version thread db = cas_update id version (with_topic thread) db

-- `buildAliasTombstoneSet` with its random suffix: what the tombstone is called.
pub record Tombstone : Type 0 where
  pub local_part : EmailAddress → String
  pub full_address : EmailAddress → String

abbrev pub entomb : Tombstone → EmailAddress → EmailAddress
entomb t a = record a {
  local_part = t.local_part a;
  full_address = t.full_address a;
  status = AliasStatus.deleted;
}

unfoldable pub soft_delete_alias_with_cas : ℕ → ℕ → Tombstone → Db → Db × RoutingMutationResult
unfolding cas_update
soft_delete_alias_with_cas id version tombstone db = cas_update id version (entomb tombstone) db
