-- ===== src/Telegram/ChatMigration/Laws.antt =====
-- What `repairChatMigration` (src/telegram/chatMigration.ts) leaves behind, once and again.
use email_to_telegram.Base.{
  ℕ, suc, ◌&&◌, ℤ, eq_ℤ, eq_ℤ→eq, Bool, false, Option, none, some, List, [], ◌∷◌, ◌++◌, ◌≡◌, ◌≢◌,
  refl, ap, sym, ◌∙◌, arith, inl, inr, Bool-cases, map, filter, count, any, update_where,
  length-filter,
}
use mathlib.Core.List.{append-nil, append_assoc}
use mathlib.Core.Path.{ap₂}
use email_to_telegram.Store.Rows.{Db, Chat, EmailAddress}
use email_to_telegram.Store.Routing.{insert_alias_move_event}
use email_to_telegram.Store.Routing.Guard.{Grows, AllGrow, AllGrow-update}
use email_to_telegram.Telegram.ChatMigration.{
  ChatMigrationMeta, upsert_chat, deactivate_chat, is_at, rekeyed, register_target, migration_event,
  audit_migration, repair_chat_migration,
}

audit-aliases :
    (operation : ℕ) (old_chat new_chat : ℤ) (rows : List EmailAddress) (db : Db)
    → ((audit_migration operation old_chat new_chat rows db).aliases ≡ db.aliases)
      × ((audit_migration operation old_chat new_chat rows db).chats ≡ db.chats)
unfolding audit_migration insert_alias_move_event
audit-aliases operation old_chat new_chat [] db = (refl, refl)
audit-aliases operation old_chat new_chat (a ∷ rest) db =
    audit-aliases operation old_chat new_chat rest _

audit-events :
    (operation : ℕ) (old_chat new_chat : ℤ) (rows : List EmailAddress) (db : Db)
    → (audit_migration operation old_chat new_chat rows db).move_events
      ≡ db.move_events ++ map (migration_event operation old_chat new_chat) rows
unfolding audit_migration insert_alias_move_event
audit-events operation old_chat new_chat [] db = sym (append-nil _)
audit-events operation old_chat new_chat (a ∷ rest) db =
    audit-events operation old_chat new_chat rest _ ∙ append_assoc db.move_events _ _

register-keeps :
    (old_chat new_chat : ℤ) (meta fetched : Option ChatMigrationMeta) (db : Db)
    → ((register_target old_chat new_chat meta fetched db).aliases ≡ db.aliases)
      × ((register_target old_chat new_chat meta fetched db).move_events ≡ db.move_events)
unfolding register_target upsert_chat
register-keeps old_chat new_chat none fetched db = ground arith
register-keeps old_chat new_chat (some meta) fetched db = (refl, refl)

-- Aliases that point elsewhere than they did.
rekeyed-gone :
    (old_chat new_chat : ℤ) (xs : List EmailAddress)
    → new_chat ≢ old_chat
    → count (is_at old_chat) (update_where (is_at old_chat) (rekeyed new_chat) xs) ≡ 0
rekeyed-gone old_chat new_chat [] h = refl
rekeyed-gone old_chat new_chat (x ∷ xs) h = elim (Bool-cases (is_at old_chat x)) [
  | inl e ↦ rw (e, apart) (rekeyed-gone old_chat new_chat xs h)
  | inr e ↦ rw (e, e) (rekeyed-gone old_chat new_chat xs h)
]
  where
    apart : eq_ℤ new_chat old_chat ≡ false
    apart = elim (Bool-cases (eq_ℤ new_chat old_chat)) [
      | inl e ↦ absurd (h (eq_ℤ→eq _ _ e))
      | inr e ↦ e
    ]

rekeyed-Grows : (chat : ℤ) (a : EmailAddress) → Grows a (rekeyed chat a)
rekeyed-Grows chat a = ground arith

module _ (operation : ℕ) (old_chat new_chat : ℤ) (meta fetched : Option ChatMigrationMeta)
    (db : Db) where
  abbrev after : Db × ℕ
  after = repair_chat_migration operation old_chat new_chat meta fetched db

  repair-aliases : after.0.aliases ≡ update_where (is_at old_chat) (rekeyed new_chat) db.aliases
  unfolding repair_chat_migration deactivate_chat
  repair-aliases =
      (audit-aliases operation old_chat new_chat _ _).0
      ∙ ap (update_where (is_at old_chat) (rekeyed new_chat))
          (register-keeps old_chat new_chat meta fetched db).0

  repair-events :
      after.0.move_events
      ≡ db.move_events
        ++ map (migration_event operation old_chat new_chat) (filter (is_at old_chat) db.aliases)
  unfolding repair_chat_migration deactivate_chat
  repair-events =
      audit-events operation old_chat new_chat _ _
      ∙ ap₂
          (λ es (d : List EmailAddress).
            es ++ map (migration_event operation old_chat new_chat) (filter (is_at old_chat) d))
          (register-keeps old_chat new_chat meta fetched db).1
          (register-keeps old_chat new_chat meta fetched db).0

  repair-count : after.1 ≡ count (is_at old_chat) db.aliases
  unfolding repair_chat_migration
  repair-count =
      length-filter (is_at old_chat) _
      ∙ ap (count (is_at old_chat)) (register-keeps old_chat new_chat meta fetched db).0

none_at :
    (p : EmailAddress → Bool) (f : EmailAddress → EmailAddress) (xs : List EmailAddress)
    → count p xs ≡ 0
    → (filter p xs ≡ []) × (update_where p f xs ≡ xs)
none_at p f [] h = (refl, refl)
none_at p f (x ∷ xs) h = elim (Bool-cases (p x)) [
  | inl e ↦ let one_at_least : suc (count p xs) ≡ 0 = rw e at h in absurd (omega arith)
  | inr e ↦ let ih = none_at p f xs (rw e at h) in rw e (ih.0, ap (λ ys. x ∷ ys) ih.1)
]

-- No chat with the id is active after its deactivation.
deactivated :
    (id : ℤ) (xs : List Chat)
    → any
        (λ c. eq_ℤ c.id id && c.is_active)
        (update_where (λ c. eq_ℤ c.id id) (λ c. record c { is_active = false }) xs)
      ≡ false
deactivated id [] = refl
deactivated id (x ∷ xs) = elim (Bool-cases (eq_ℤ x.id id)) [
  | inl e ↦ rw (e, e) (deactivated id xs)
  | inr e ↦ rw (e, e) (deactivated id xs)
]

module _ (old_chat new_chat : ℤ) (apart : new_chat ≢ old_chat) where
  -- After the repair of a migration no alias points at the old chat, the old chat is not active,
  -- no alias's version fell and each one that was re-keyed has a later version, and the audit has
  -- one row more for each alias that pointed at the old chat, as many as the count returned.
  pub repair_lem :
      (operation : ℕ) (meta fetched : Option ChatMigrationMeta) (db : Db)
      → let r = repair_chat_migration operation old_chat new_chat meta fetched db in
        (count (is_at old_chat) r.0.aliases ≡ 0)
        × (any (λ c. eq_ℤ c.id old_chat && c.is_active) r.0.chats ≡ false)
        × AllGrow db.aliases r.0.aliases
        × (r.1 ≡ count (is_at old_chat) db.aliases)
        × (r.0.move_events
            ≡ db.move_events
              ++ map
                  (migration_event operation old_chat new_chat)
                  (filter (is_at old_chat) db.aliases))
  repair_lem operation meta fetched db = (
    rw (repair-aliases operation old_chat new_chat meta fetched db)
        (rekeyed-gone old_chat new_chat db.aliases apart),
    unfold repair_chat_migration deactivate_chat in deactivated old_chat _,
    rw (repair-aliases operation old_chat new_chat meta fetched db)
        (AllGrow-update (is_at old_chat) (rekeyed new_chat) db.aliases (rekeyed-Grows new_chat)),
    repair-count operation old_chat new_chat meta fetched db,
    repair-events operation old_chat new_chat meta fetched db,
  )

  -- A replay of the repair, whichever hook it comes from, re-keys and audits nothing.
  pub repair_replay :
      (operation operation' : ℕ) (meta meta' fetched fetched' : Option ChatMigrationMeta) (db : Db)
      → let first = (repair_chat_migration operation old_chat new_chat meta fetched db).0 in
        let second = repair_chat_migration operation' old_chat new_chat meta' fetched' first in
        (second.1 ≡ 0)
        × (second.0.aliases ≡ first.aliases)
        × (second.0.move_events ≡ first.move_events)
  repair_replay operation operation' meta meta' fetched fetched' db =
      let first = (repair_chat_migration operation old_chat new_chat meta fetched db).0 in
      let gone = (repair_lem operation meta fetched db).0 in
      let still = none_at (is_at old_chat) (rekeyed new_chat) first.aliases gone in
      (
        repair-count operation' old_chat new_chat meta' fetched' first ∙ gone,
        repair-aliases operation' old_chat new_chat meta' fetched' first ∙ still.1,
        repair-events operation' old_chat new_chat meta' fetched' first
            ∙ ap
                (λ (rows : List EmailAddress).
                  first.move_events ++ map (migration_event operation' old_chat new_chat) rows)
                still.0
            ∙ append-nil _,
      )
