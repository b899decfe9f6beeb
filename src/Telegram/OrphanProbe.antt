-- ===== src/Telegram/OrphanProbe.antt =====
-- src/telegram/orphanProbe.ts and src/telegram/orphanRecovery.ts: whether a chat is gone for the bot,
-- and who may then recover its aliases. What Telegram answers is an argument. The repair that a
-- migration starts only drops cached results, which are events of their own here.
pub mod Signs
pub mod Recovery
use email_to_telegram.Base.{
  ℕ, ◌+◌, ◌*◌, ℤ, eq_ℤ, String, Bool, true, false, not, ◌&&◌, ◌||◌, Option, none, some, List, [],
  ◌∷◌, ◌==◌, any, includes, is_some, is_just, str_eq, filter, if◌then◌else◌, TextOps,
}
use email_to_telegram.Store.Rows.{Db, EmailAddress, AliasStatus}
use email_to_telegram.Store.Users.{find_alias_by_id, is_deleted}
use email_to_telegram.Telegram.Errors.{SendError, TelegramSendFailure, describe_send_error}
use email_to_telegram.Telegram.Cache.{CacheEntry, cached, drop_key, evict_oldest, put_entry}

pub data Reachability : Type 0 where
  reachable dead unknown : Reachability

-- The answer to `getChatMember` for the bot itself.
pub data MemberAnswer : Type 0 where
  member : String → MemberAnswer
  no_member : SendError → MemberAnswer

-- A call of the probe: its time and chat, whether the cache is bypassed, whether `getMe` answered, and
-- the bot's membership.
pub record Probe : Type 0 where
  pub now : ℕ
  pub chat_id : ℤ
  pub fresh : Bool
  pub knows_itself : Bool
  pub answer : MemberAnswer

-- A cached result is true where the chat is dead; `unknown` is never cached.
abbrev pub ReachabilityCache : Type 0
ReachabilityCache = List (CacheEntry ℤ)

abbrev pub cache_ttl_ms : ℕ
cache_ttl_ms = 60 * 1000

abbrev pub cache_max_size : ℕ
cache_max_size = 5000

abbrev pub definitive_dead_patterns : List String
definitive_dead_patterns =
    "chat not found" ∷ "bot was kicked" ∷ "bot is not a member" ∷ "group chat was deactivated"
    ∷ "chat was deleted" ∷ "user is deactivated" ∷ []

unfoldable pub invalidate_reachability_cache : ℤ → ReachabilityCache → ReachabilityCache
invalidate_reachability_cache chat entries = drop_key eq_ℤ chat entries

-- `cache`
abbrev pub cache_result : ℤ → Bool → ℕ → ReachabilityCache → ReachabilityCache
cache_result chat is_dead now entries =
    put_entry eq_ℤ (record { key = chat; result = is_dead; expires_at = now + cache_ttl_ms })
      (evict_oldest eq_ℤ cache_max_size entries)

abbrev pub is_gone : String → Bool
is_gone status = str_eq status "left" || str_eq status "kicked"

abbrev pub verdict_of : Bool → Reachability
verdict_of true = dead
verdict_of false = reachable

abbrev pub is_dead : Reachability → Bool
is_dead reachable = false
is_dead dead = true
is_dead unknown = false

-- What happens to the cache.
pub data CacheEvent : Type 0 where
  probed : Probe → CacheEvent
  invalidated : ℤ → CacheEvent

module _ (ops : TextOps) where
  open ops use {to_lower}

  -- `definitive`, of a failure without a migration hint.
  abbrev pub is_definitive_failure : TelegramSendFailure → Bool
  is_definitive_failure f =
      is_some f.code
      && (not f.transient
          && any (λ pattern. includes (to_lower f.description) pattern) definitive_dead_patterns)

  -- The verdict of a failure, where it is `dead`.
  abbrev pub is_dead_failure : TelegramSendFailure → Bool
  is_dead_failure f = not (is_some f.migrate_to_chat_id) && is_definitive_failure f

  -- The live part of the probe.
  abbrev pub probe_member :
      Probe → MemberAnswer → ReachabilityCache → Reachability × ReachabilityCache
  probe_member p (member status) entries =
      (verdict_of (is_gone status), cache_result p.chat_id (is_gone status) p.now entries)
  probe_member p (no_member e) entries =
      if is_dead_failure (describe_send_error ops e)
      then (dead, cache_result p.chat_id true p.now entries)
      else (unknown, entries)

  abbrev pub probe_live : Probe → ReachabilityCache → Reachability × ReachabilityCache
  probe_live p entries =
      if p.knows_itself then probe_member p p.answer entries else (unknown, entries)

  abbrev pub or_live : Option Bool → Probe → ReachabilityCache → Reachability × ReachabilityCache
  or_live none p entries = probe_live p entries
  or_live (some is_dead) p entries = (verdict_of is_dead, entries)

  unfoldable pub probe_chat_reachability :
      Probe → ReachabilityCache → Reachability × ReachabilityCache
  probe_chat_reachability p entries =
      or_live (if p.fresh then none else cached eq_ℤ p.chat_id p.now entries) p entries

  abbrev pub cache_step : CacheEvent → ReachabilityCache → ReachabilityCache
  cache_step (probed p) entries = (probe_chat_reachability p entries).1
  cache_step (invalidated chat) entries = invalidate_reachability_cache chat entries

  -- The cache after the events, of which the newest comes first.
  unfoldable pub cache_after : List CacheEvent → ReachabilityCache
  cache_after [] = []
  cache_after (e ∷ events) = cache_step e (cache_after events)

  -- The probe of the alias' chat.
  abbrev pub recover_from : ℕ → Probe → ReachabilityCache → Option EmailAddress → Bool
  recover_from actor p entries none = false
  recover_from actor p entries (some a) =
      not (is_deleted a.status)
      && ((a.created_by == actor)
          && is_dead (probe_chat_reachability (record p { chat_id = a.chat_id }) entries).0)

  unfoldable pub can_recover_orphan_alias : Db → ℕ → ℕ → Probe → ReachabilityCache → Bool
  can_recover_orphan_alias db actor alias p entries =
      recover_from actor p entries (find_alias_by_id db alias)

  -- All the probes look into the cache before any of them is answered.
  unfoldable pub list_recoverable_orphans :
      ℕ → (ℤ → Probe) → ReachabilityCache → List EmailAddress → List EmailAddress
  list_recoverable_orphans actor probes entries candidates =
      filter
        (λ a.
          is_dead
            (probe_chat_reachability (record (probes a.chat_id) { chat_id = a.chat_id }) entries).0)
        (filter (λ a. not (is_deleted a.status) && (a.created_by == actor)) candidates)
