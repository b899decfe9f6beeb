-- ===== src/Telegram/Authorization/Recent.antt =====
-- How old the answer may be that src/telegram/authorization.ts allows something for.
use mathlib.Core.Bool.{false≢true}
use email_to_telegram.Base.{
  ℕ, ◌+◌, ℤ, pos, eq_ℤ, eq_ℤ→eq, eq_ℤ_refl, Bool, true, false, not, ◌&&◌, ◌||◌, Option, none, some,
  List, [], ◌∷◌, ◌≡◌, refl, subst, ◌⊎◌, inl, inr, arith, ◌==◌, ==_refl, any, all, filter, ltb,
  if-split, if◌then◌else◌, Bool-cases,
}
use email_to_telegram.Store.Rows.{Db, EmailAddress}
use email_to_telegram.Store.Users.{find_alias_by_id, is_deleted}
use email_to_telegram.Telegram.Cache.{
  CacheEntry, cached, drop_key, evict_oldest, all-drop_key, all-evict_oldest, all-put_entry,
}
use email_to_telegram.Telegram.Cache.Founded.{or-right, is_founded, founded-older, cached-origin}
use email_to_telegram.Telegram.Authorization.{
  MemberKey, eq_key, MemberCheck, ChatMemberCache, member_ttl_ms, member_cache_max_size,
  is_admin_status, key_of, entry_of, manage_live, or_manage_live, can_manage_chat,
  invalidate_chat_authorization_cache, manages_chat_of, can_manage_alias, MemberEvent, checked,
  chat_invalidated, members_after,
}

-- A check less than five minutes before `now` in which Telegram's status of the user is the chat's
-- creator or one of its administrators.
abbrev pub is_grant : ℤ → ℕ → ℕ → MemberEvent → Bool
is_grant chat user now (chat_invalidated c) = false
is_grant chat user now (checked c) =
    (eq_ℤ c.chat_id chat && (c.user_id == user))
    && (ltb now (c.now + member_ttl_ms) && is_admin_status c.status)

-- The answer that an entry was cached for.
abbrev pub is_member_origin : CacheEntry MemberKey → MemberEvent → Bool
is_member_origin e (chat_invalidated c) = false
is_member_origin e (checked c) =
    (eq_ℤ c.chat_id e.key.0 && (c.user_id == e.key.1))
    && ((c.now + member_ttl_ms == e.expires_at) && is_admin_status c.status)

abbrev IsFounded : List MemberEvent → ChatMemberCache → Type 0
IsFounded events entries = all (is_founded eq_key is_member_origin events) entries ≡ true

all-filter {ℓ} :
    {A : Type ℓ} (p q : A → Bool) (xs : List A) → all p xs ≡ true → all p (filter q xs) ≡ true
all-filter p q [] h = refl
all-filter p q (x ∷ xs) h = ground (arith, all-filter p q xs, h)

entry-founded :
    (c : MemberCheck) (events : List MemberEvent)
    → is_founded eq_key is_member_origin (checked c ∷ events) (entry_of c) ≡ true
entry-founded c events =
    rw (eq_ℤ_refl c.chat_id, ==_refl c.user_id, ==_refl (c.now + member_ttl_ms))
      (by_status (is_admin_status c.status))
  where
    by_status : (b : Bool) → (not b || (b || any (is_member_origin (entry_of c)) events)) ≡ true
    by_status true = refl
    by_status false = refl

live-IsFounded :
    (c : MemberCheck) (events : List MemberEvent) (entries : ChatMemberCache)
    → IsFounded events entries
    → IsFounded (checked c ∷ events) (manage_live c entries).1
live-IsFounded c events entries h =
    let p = is_founded eq_key is_member_origin (checked c ∷ events) in
    all-put_entry eq_key p (entry_of c)
      (evict_oldest eq_key member_cache_max_size (drop_key eq_key (key_of c) entries))
      (entry-founded c events)
      (all-evict_oldest eq_key p member_cache_max_size (drop_key eq_key (key_of c) entries) (
        all-drop_key eq_key p (key_of c) entries
          (founded-older eq_key is_member_origin (checked c) events entries h)))

or_live-IsFounded :
    (o : Option Bool) (c : MemberCheck) (events : List MemberEvent) (entries : ChatMemberCache)
    → IsFounded events entries
    → IsFounded (checked c ∷ events) (or_manage_live o c entries).1
or_live-IsFounded none c events entries h = live-IsFounded c events entries h
or_live-IsFounded (some b) c events entries h =
    founded-older eq_key is_member_origin (checked c) events entries h

members_after-IsFounded : (events : List MemberEvent) → IsFounded events (members_after events)
unfolding members_after can_manage_chat invalidate_chat_authorization_cache
members_after-IsFounded [] = refl
members_after-IsFounded (checked c ∷ events) =
    let before = members_after events in
    if-split (λ (r : Bool × ChatMemberCache). IsFounded (checked c ∷ events) r.1)
      (eq_ℤ c.chat_id (pos c.user_id))
      (λ own.
        founded-older eq_key is_member_origin (checked c) events before
          (members_after-IsFounded events))
      (λ other.
        or_live-IsFounded (if c.fresh then none else cached eq_key (key_of c) c.now before) c events
          before (members_after-IsFounded events))
members_after-IsFounded (chat_invalidated chat ∷ events) =
    founded-older eq_key is_member_origin (chat_invalidated chat) events
      (filter (λ e. not (eq_ℤ e.key.0 chat)) (members_after events))
      (all-filter (is_founded eq_key is_member_origin events) (λ e. not (eq_ℤ e.key.0 chat))
        (members_after events) (members_after-IsFounded events))

origin-grant :
    (e : CacheEntry MemberKey) (chat : ℤ) (user now : ℕ) (events : List MemberEvent)
    → eq_key e.key (chat, user) ≡ true
    → ltb now e.expires_at ≡ true
    → any (is_member_origin e) events ≡ true
    → any (is_grant chat user now) events ≡ true
origin-grant e chat user now [] same live h = h
origin-grant e chat user now (chat_invalidated c ∷ events) same live h =
    origin-grant e chat user now events same live h
origin-grant e chat user now (checked c ∷ events) same live h =
    elim (Bool-cases (is_member_origin e (checked c))) [
      | inl t ↦
          let at_chat : eq_ℤ c.chat_id chat ≡ true =
            subst (λ k. eq_ℤ c.chat_id k ≡ true) (eq_ℤ→eq e.key.0 chat (ground (arith, same)))
              (ground (arith, t)) in
          ground (arith, at_chat, t, live, same)
      | inr f ↦
          or-right (is_grant chat user now (checked c))
            (origin-grant e chat user now events same live (rw f at h))
    ]

-- The answers that a check may rely on: its own, and where it is not fresh those before it.
abbrev pub relied_on : MemberCheck → List MemberEvent → List MemberEvent
relied_on c events = checked c ∷ (if c.fresh then [] else events)

live-grant :
    (c : MemberCheck) (events : List MemberEvent)
    → is_admin_status c.status ≡ true
    → any (is_grant c.chat_id c.user_id c.now) (checked c ∷ events) ≡ true
live-grant c events admin = rw (eq_ℤ_refl c.chat_id, ==_refl c.user_id, admin) (ground arith)

manage-grant :
    (c : MemberCheck) (events : List MemberEvent)
    → (can_manage_chat c (members_after events)).0 ≡ true
    → (c.chat_id ≡ pos c.user_id)
      ⊎ (any (is_grant c.chat_id c.user_id c.now) (relied_on c events) ≡ true)
unfolding can_manage_chat
manage-grant c events =
    if-split
      (λ (r : Bool × ChatMemberCache).
        r.0 ≡ true
        → (c.chat_id ≡ pos c.user_id)
          ⊎ (any (is_grant c.chat_id c.user_id c.now) (relied_on c events) ≡ true))
      (eq_ℤ c.chat_id (pos c.user_id)) (λ own h. inl (eq_ℤ→eq c.chat_id (pos c.user_id) own))
      (λ other h. inr (by_fresh c.fresh (cached eq_key (key_of c) c.now before) refl h))
  where
    before : ChatMemberCache
    before = members_after events

    by_fresh :
        (fresh : Bool) (o : Option Bool)
        → cached eq_key (key_of c) c.now before ≡ o
        → (or_manage_live (if fresh then none else o) c before).0 ≡ true
        → any (is_grant c.chat_id c.user_id c.now) (checked c ∷ (if fresh then [] else events))
          ≡ true
    by_fresh true o e h = live-grant c [] h
    by_fresh false none e h = live-grant c events h
    by_fresh false (some false) e h = absurd (false≢true h)
    by_fresh false (some true) e h =
        let found =
          cached-origin eq_key is_member_origin (key_of c) c.now events before
            (members_after-IsFounded events) e in
        or-right (is_grant c.chat_id c.user_id c.now (checked c))
          (origin-grant found.0 c.chat_id c.user_id c.now events found.1 found.2 found.3)

-- The right to manage an alias: it is not deleted, and its chat is the user's own or one that
-- Telegram said the user administers.
pub record MayManage (db : Db) (alias : ℕ) (c : MemberCheck) (events : List MemberEvent)
    : Type 0 where
  pub row : EmailAddress
  pub found : find_alias_by_id db alias ≡ some row
  pub not_deleted : is_deleted row.status ≡ false
  pub right :
      (row.chat_id ≡ pos c.user_id)
      ⊎ (any
            (is_grant row.chat_id c.user_id c.now)
            (relied_on (record c { chat_id = row.chat_id }) events)
          ≡ true)

-- An alias may be managed only where it is not deleted and its chat is the user's own, or one of
-- which a check of that chat and user found them the creator or an administrator by the status that
-- Telegram reports: this check where it is fresh, and otherwise this one or one that is less than
-- five minutes older, whatever was checked and invalidated before.
pub can_manage_alias-MayManage :
    (db : Db) (alias : ℕ) (c : MemberCheck) (events : List MemberEvent)
    → can_manage_alias db alias c (members_after events) ≡ true
    → MayManage db alias c events
unfolding can_manage_alias
can_manage_alias-MayManage db alias c events h = by_row (find_alias_by_id db alias) refl h
  where
    by_row :
        (o : Option EmailAddress)
        → find_alias_by_id db alias ≡ o
        → manages_chat_of c (members_after events) o ≡ true
        → MayManage db alias c events
    by_row none e h = absurd (false≢true h)
    by_row (some row) e h = record {
      row = row;
      found = e;
      not_deleted = ground (arith, h);
      right = manage-grant (record c { chat_id = row.chat_id }) events (ground (arith, h));
    }
