-- ===== src/Telegram/Authorization.antt =====
-- src/telegram/authorization.ts: who may manage a chat and its aliases. What Telegram answers about a
-- member is an argument; a key of the cache is the pair that its text is made of.
pub mod Recent
use email_to_telegram.Base.{
  ℕ, ◌+◌, ◌*◌, ℤ, pos, eq_ℤ, String, Bool, true, false, not, ◌&&◌, Option, none, some, List, [],
  ◌∷◌, ◌==◌, any, filter, str_eq, if◌then◌else◌,
}
use email_to_telegram.Store.Rows.{Db, EmailAddress}
use email_to_telegram.Store.Users.{find_alias_by_id, is_deleted}
use email_to_telegram.Telegram.Cache.{CacheEntry, cached, drop_key, evict_oldest, put_entry}

abbrev pub MemberKey : Type 0
MemberKey = ℤ × ℕ

abbrev pub eq_key : MemberKey → MemberKey → Bool
eq_key a b = eq_ℤ a.0 b.0 && (a.1 == b.1)

-- A call of `canManageChat`: its time, whether the cache is bypassed, and the member's status, which
-- is missing where Telegram fails.
pub record MemberCheck : Type 0 where
  pub now : ℕ
  pub user_id : ℕ
  pub chat_id : ℤ
  pub fresh : Bool
  pub status : Option String

abbrev pub ChatMemberCache : Type 0
ChatMemberCache = List (CacheEntry MemberKey)

abbrev pub member_ttl_ms : ℕ
member_ttl_ms = 5 * 60 * 1000

abbrev pub member_cache_max_size : ℕ
member_cache_max_size = 10000

abbrev pub is_admin_status : Option String → Bool
is_admin_status none = false
is_admin_status (some status) = any (λ s. str_eq s status) ("creator" ∷ "administrator" ∷ [])

abbrev pub key_of : MemberCheck → MemberKey
key_of c = (c.chat_id, c.user_id)

abbrev pub entry_of : MemberCheck → CacheEntry MemberKey
entry_of c = record {
  key = key_of c;
  result = is_admin_status c.status;
  expires_at = c.now + member_ttl_ms;
}

abbrev pub manage_live : MemberCheck → ChatMemberCache → Bool × ChatMemberCache
manage_live c entries = (
  is_admin_status c.status,
  put_entry eq_key (entry_of c)
      (evict_oldest eq_key member_cache_max_size (drop_key eq_key (key_of c) entries)),
)

abbrev pub or_manage_live : Option Bool → MemberCheck → ChatMemberCache → Bool × ChatMemberCache
or_manage_live none c entries = manage_live c entries
or_manage_live (some result) c entries = (result, entries)

unfoldable pub can_manage_chat : MemberCheck → ChatMemberCache → Bool × ChatMemberCache
can_manage_chat c entries =
    if eq_ℤ c.chat_id (pos c.user_id)
    then (true, entries)
    else or_manage_live (if c.fresh then none else cached eq_key (key_of c) c.now entries) c entries

unfoldable pub invalidate_chat_authorization_cache : ℤ → ChatMemberCache → ChatMemberCache
invalidate_chat_authorization_cache chat entries = filter (λ e. not (eq_ℤ e.key.0 chat)) entries

abbrev pub manages_chat_of : MemberCheck → ChatMemberCache → Option EmailAddress → Bool
manages_chat_of c entries none = false
manages_chat_of c entries (some a) =
    not (is_deleted a.status) && (can_manage_chat (record c { chat_id = a.chat_id }) entries).0

unfoldable pub can_manage_alias : Db → ℕ → MemberCheck → ChatMemberCache → Bool
can_manage_alias db alias c entries = manages_chat_of c entries (find_alias_by_id db alias)

-- What happens to the cache.
pub data MemberEvent : Type 0 where
  checked : MemberCheck → MemberEvent
  chat_invalidated : ℤ → MemberEvent

abbrev pub member_step : MemberEvent → ChatMemberCache → ChatMemberCache
member_step (checked c) entries = (can_manage_chat c entries).1
member_step (chat_invalidated chat) entries = invalidate_chat_authorization_cache chat entries

-- The cache after the events, of which the newest comes first.
unfoldable pub members_after : List MemberEvent → ChatMemberCache
members_after [] = []
members_after (e ∷ events) = member_step e (members_after events)
