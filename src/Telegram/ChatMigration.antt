-- ===== src/Telegram/ChatMigration.antt =====
-- src/telegram/chatMigration.ts, with the repository operations of chats.ts and aliases.ts that it
-- calls: a group that became a supergroup is re-keyed in one locked transaction.
pub mod Laws
use email_to_telegram.Base.{
  ℕ, ◌+◌, ℤ, eq_ℤ, String, Bool, true, false, ◌&&◌, Option, none, some, List, [], ◌∷◌, ◌++◌, map,
  filter, find?, length, upsert, update_where, or_else, is_some, if◌then◌else◌,
}
use email_to_telegram.Store.Rows.{Db, Chat, EmailAddress, AliasMoveEvent, AuthzPath}
use email_to_telegram.Store.Routing.{insert_alias_move_event, lock_order}

pub record ChatMigrationMeta : Type 0 where
  pub title : String
  pub chat_type : String

unfoldable pub find_chat_by_id : Db → ℤ → Option Chat
find_chat_by_id db id = find? (λ c. eq_ℤ c.id id) db.chats

unfoldable pub upsert_chat : ℤ → ChatMigrationMeta → Db → Db
upsert_chat id meta db = record db {
  chats =
      upsert (λ c. eq_ℤ c.id id)
        (λ c. record c { title = meta.title; chat_type = meta.chat_type; is_active = true })
        (record { id = id; title = meta.title; chat_type = meta.chat_type; is_active = true })
        db.chats;
}

unfoldable pub deactivate_chat : ℤ → Db → Db
deactivate_chat id db = record db {
  chats = update_where (λ c. eq_ℤ c.id id) (λ c. record c { is_active = false }) db.chats;
}

abbrev pub is_at : ℤ → EmailAddress → Bool
is_at chat a = eq_ℤ a.chat_id chat

-- The distinct owners of the aliases at a chat, whose locks are taken before the re-key.
unfoldable pub list_alias_owners_by_chat : Db → ℤ → List (Option ℕ)
list_alias_owners_by_chat db chat = map (λ a. some a.created_by) (filter (is_at chat) db.aliases)

unfoldable pub migration_locks : Db → ℤ → List ℕ
migration_locks db old_chat = lock_order (list_alias_owners_by_chat db old_chat)

abbrev pub rekeyed : ℤ → EmailAddress → EmailAddress
rekeyed chat a = record a { chat_id = chat; routing_version = a.routing_version + 1 }

-- The new tables, and the rows that were hit; the columns that are returned are not written.
unfoldable pub repoint_aliases_to_chat : ℤ → ℤ → Db → Db × List EmailAddress
repoint_aliases_to_chat old_chat new_chat db = (
  record db { aliases = update_where (is_at old_chat) (rekeyed new_chat) db.aliases },
  filter (is_at old_chat) db.aliases,
)

-- The metadata phase before the transaction: asked of Telegram only for an unregistered target.
unfoldable pub prefetch_metadata :
    Db → ℤ → Option ChatMigrationMeta → Option ChatMigrationMeta → Option ChatMigrationMeta
prefetch_metadata db new_chat (some meta) answer = none
prefetch_metadata db new_chat none answer =
    if is_some (find_chat_by_id db new_chat) then none else answer

abbrev pub title_of : Option Chat → String
title_of none = "Unknown"
title_of (some c) = c.title

-- The chat row of the new id.
unfoldable pub register_target :
    ℤ → ℤ → Option ChatMigrationMeta → Option ChatMigrationMeta → Db → Db
register_target old_chat new_chat (some meta) fetched db = upsert_chat new_chat meta db
register_target old_chat new_chat none fetched db =
    if is_some (find_chat_by_id db new_chat)
    then db
    else upsert_chat new_chat
        (or_else fetched
          (record { title = title_of (find_chat_by_id db old_chat); chat_type = "supergroup" }))
        db

abbrev pub migration_event : ℕ → ℤ → ℤ → EmailAddress → AliasMoveEvent
migration_event operation old_chat new_chat a = record {
  operation_id = operation;
  alias_id = a.id;
  alias_owner_id = a.created_by;
  actor_id = none;
  authz_path = AuthzPath.migration;
  old_chat_id = old_chat;
  new_chat_id = new_chat;
  old_thread_id = a.message_thread_id;
  new_thread_id = a.message_thread_id;
}

-- The loop over the re-pointed aliases.
unfoldable pub audit_migration : ℕ → ℤ → ℤ → List EmailAddress → Db → Db
audit_migration operation old_chat new_chat [] db = db
audit_migration operation old_chat new_chat (a ∷ rest) db =
    audit_migration operation old_chat new_chat rest
      (insert_alias_move_event (migration_event operation old_chat new_chat a) db)

-- The transaction of `repairChatMigration`, and its `aliasCount`.
unfoldable pub repair_chat_migration :
    ℕ → ℤ → ℤ → Option ChatMigrationMeta → Option ChatMigrationMeta → Db → Db × ℕ
unfolding repoint_aliases_to_chat
repair_chat_migration operation old_chat new_chat meta fetched db =
    let registered = register_target old_chat new_chat meta fetched db in
    let (repointed, affected) = repoint_aliases_to_chat old_chat new_chat registered in
    (
      deactivate_chat old_chat (audit_migration operation old_chat new_chat affected repointed),
      length affected,
    )
