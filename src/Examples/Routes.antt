-- ===== src/Examples/Routes.antt =====
-- The theorems on routes and their repair, at a move, a topic change and a migration.
use email_to_telegram.Base.{
  none, some, refl, arith, ◌⊎◌, ◌≡◌, ◌≢◌, ◌++◌, [], ◌∷◌, true, false, ◌&&◌, any, count, map, filter,
  eq_ℤ,
}
use email_to_telegram.Store.Rows.{admin}
use email_to_telegram.Store.Routing.{
  MoveAliasParams, move_alias_with_cas, moved, done, version_conflict,
}
use email_to_telegram.Store.Routing.Guard.{
  RoutingOp, move, topic, run_op, run_ops, AllGrow, run_ops-AllGrow,
}
use email_to_telegram.Store.Routing.Spent.{cas_spent}
use email_to_telegram.Store.Routing.Audit.{IsMoved, IsRefused, move-audit}
use email_to_telegram.Telegram.ChatMigration.{
  ChatMigrationMeta, repair_chat_migration, is_at, migration_event,
}
use email_to_telegram.Telegram.ChatMigration.Laws.{repair_lem, repair_replay}
use email_to_telegram.Telegram.Errors.{
  SendError, bot_api, describe_send_error, structured, retry_disposition_for_error, retry_uncounted,
}
use email_to_telegram.Telegram.Errors.Laws.{describe-transient_uncounted}
use email_to_telegram.Examples.Data.{lower_ops, tables, news, old_group, new_group}

-- The owner moves the alias to the new group.
abbrev pub to_new_group : MoveAliasParams
to_new_group = record {
  alias_id = 1;
  expected_version = 0;
  new_chat_id = new_group;
  old_chat_id = old_group;
  old_thread_id = some 5;
  actor_id = some 7;
  authz_path = admin;
  alias_owner_id = 7;
  operation_id = 11;
}

-- A topic that was confirmed before the move.
abbrev stale_topic : RoutingOp
stale_topic = topic 1 0 (some 8)

-- Another topic, confirmed after the move.
abbrev next_topic : RoutingOp
next_topic = topic 1 1 (some 9)

first_move : (run_op (move to_new_group) tables).1 ≡ done (moved new_group news)
unfolding run_op move_alias_with_cas
first_move = refl

cas_spent_example :
    let later = run_ops (next_topic ∷ []) (run_op (move to_new_group) tables).0 in
    ((run_op stale_topic later).1 ≡ version_conflict)
    × ((run_op stale_topic later).0.aliases ≡ later.aliases)
cas_spent_example =
    cas_spent (move to_new_group) stale_topic (next_topic ∷ []) tables (omega arith) first_move refl
      (omega arith)

run_ops-AllGrow_example :
    AllGrow tables.aliases (run_ops (move to_new_group ∷ stale_topic ∷ []) tables).aliases
run_ops-AllGrow_example = run_ops-AllGrow (move to_new_group ∷ stale_topic ∷ []) tables

move-audit_example :
    let after = move_alias_with_cas to_new_group tables in
    IsMoved to_new_group tables after.0 after.1 ⊎ IsRefused to_new_group tables after.0 after.1
move-audit_example = move-audit to_new_group tables

groups_apart : new_group ≢ old_group
groups_apart e = cc

repair_lem_example :
    let r = repair_chat_migration 12 old_group new_group none none tables in
    (count (is_at old_group) r.0.aliases ≡ 0)
    × (any (λ c. eq_ℤ c.id old_group && c.is_active) r.0.chats ≡ false)
    × AllGrow tables.aliases r.0.aliases
    × (r.1 ≡ count (is_at old_group) tables.aliases)
    × (r.0.move_events
        ≡ tables.move_events
          ++ map (migration_event 12 old_group new_group) (filter (is_at old_group) tables.aliases))
repair_lem_example = repair_lem old_group new_group groups_apart 12 none none tables

abbrev team : ChatMigrationMeta
team = record { title = "Team"; chat_type = "supergroup" }

repair_replay_example :
    let first = (repair_chat_migration 12 old_group new_group none (some team) tables).0 in
    let second = repair_chat_migration 13 old_group new_group (some team) none first in
    (second.1 ≡ 0) × (second.0.aliases ≡ first.aliases) × (second.0.move_events ≡ first.move_events)
repair_replay_example =
    repair_replay old_group new_group groups_apart 12 13 none (some team) (some team) none tables

abbrev flood : SendError
flood = bot_api 429 "too many requests: retry after 5" none

flood_transient : (describe_send_error lower_ops flood).transient ≡ true
unfolding describe_send_error
flood_transient = refl

describe-transient_uncounted_example :
    retry_disposition_for_error lower_ops (structured (describe_send_error lower_ops flood))
    ≡ retry_uncounted
describe-transient_uncounted_example = describe-transient_uncounted lower_ops flood flood_transient
