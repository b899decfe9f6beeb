-- ===== src/Telegram/OrphanProbe/Signs.antt =====
-- The answers behind the cache of src/telegram/orphanProbe.ts.
use mathlib.Core.Bool.{false≢true}
use email_to_telegram.Base.{
  ℕ, ◌+◌, ℤ, eq_ℤ, eq_ℤ_refl, ==_refl, Bool, true, false, not, ◌&&◌, Option, none, some, List, [],
  ◌∷◌, ◌≡◌, refl, ◌==◌, any, all, includes, is_some, if-split, if◌then◌else◌, ltb, TextOps,
}
use email_to_telegram.Telegram.Errors.{SendError, bot_api, plain, describe_send_error}
use email_to_telegram.Telegram.Cache.{
  CacheEntry, cached, all-drop_key, all-evict_oldest, all-put_entry, evict_oldest, drop_key,
}
use email_to_telegram.Telegram.OrphanProbe.{
  Reachability, Probe, MemberAnswer, member, no_member, ReachabilityCache, cache_ttl_ms,
  cache_max_size, cache_result, is_gone, is_dead_failure, definitive_dead_patterns, probe_member,
  probe_live, or_live, probe_chat_reachability, invalidate_reachability_cache, CacheEvent, probed,
  invalidated, cache_after, is_dead, verdict_of,
}
use email_to_telegram.Telegram.Cache.Founded.{is_founded, founded-older}

module _ (ops : TextOps) where
  open ops use {to_lower}

  -- The Bot API itself refused for good, without naming another chat, in one of the listed ways.
  abbrev pub is_refused_for_good : SendError → Bool
  is_refused_for_good (plain description) = false
  is_refused_for_good (bot_api code description migrate) =
      not (is_some migrate)
      && (not (describe_send_error ops (bot_api code description migrate)).transient
          && any (λ pattern. includes (to_lower description) pattern) definitive_dead_patterns)

  dead_failure-is_refused_for_good :
      (e : SendError)
      → is_dead_failure ops (describe_send_error ops e) ≡ true
      → is_refused_for_good e ≡ true
  unfolding describe_send_error
  dead_failure-is_refused_for_good (plain description) h = absurd (false≢true h)
  dead_failure-is_refused_for_good (bot_api code description migrate) h = h

  -- Telegram said that the chat is gone: the bot left it or was removed, or it was refused for good.
  abbrev pub is_definitive_answer : MemberAnswer → Bool
  is_definitive_answer (member status) = is_gone status
  is_definitive_answer (no_member e) = is_refused_for_good e

  abbrev pub is_definitive : Probe → Bool
  is_definitive p = p.knows_itself && is_definitive_answer p.answer

  -- A definitive answer about the chat that is less than a minute old.
  abbrev pub is_sign : ℤ → ℕ → CacheEvent → Bool
  is_sign chat now (invalidated c) = false
  is_sign chat now (probed p) =
      eq_ℤ p.chat_id chat && (ltb now (p.now + cache_ttl_ms) && is_definitive p)

  -- The answer that an entry was cached for.
  abbrev pub is_origin : CacheEntry ℤ → CacheEvent → Bool
  is_origin e (invalidated c) = false
  is_origin e (probed p) =
      eq_ℤ p.chat_id e.key && ((p.now + cache_ttl_ms == e.expires_at) && is_definitive p)

  new-founded :
      (p : Probe) (gone : Bool) (events : List CacheEvent)
      → (gone ≡ true → is_definitive p ≡ true)
      → is_founded eq_ℤ is_origin
          (probed p ∷ events)
          (record { key = p.chat_id; result = gone; expires_at = p.now + cache_ttl_ms })
        ≡ true
  new-founded p false events sign = refl
  new-founded p true events sign =
      rw (eq_ℤ_refl p.chat_id, ==_refl (p.now + cache_ttl_ms), sign refl) refl

  cached-founded :
      (p : Probe) (gone : Bool) (events : List CacheEvent) (entries : ReachabilityCache)
      → (gone ≡ true → is_definitive p ≡ true)
      → all (is_founded eq_ℤ is_origin events) entries ≡ true
      → all
          (is_founded eq_ℤ is_origin (probed p ∷ events))
          (cache_result p.chat_id gone p.now entries)
        ≡ true
  cached-founded p gone events entries sign h =
      all-put_entry eq_ℤ (is_founded eq_ℤ is_origin (probed p ∷ events))
        (record { key = p.chat_id; result = gone; expires_at = p.now + cache_ttl_ms })
        (evict_oldest eq_ℤ cache_max_size entries) (new-founded p gone events sign)
        (all-evict_oldest eq_ℤ (is_founded eq_ℤ is_origin (probed p ∷ events)) cache_max_size
          entries (founded-older eq_ℤ is_origin (probed p) events entries h))

  -- A live probe caches what it has the answer for, and is dead by a definitive answer only.
  pub record IsSound (p : Probe) (events : List CacheEvent) (r : Reachability × ReachabilityCache)
      : Type 0 where
    pub founded : all (is_founded eq_ℤ is_origin (probed p ∷ events)) r.1 ≡ true
    pub signed : is_dead r.0 ≡ true → is_definitive p ≡ true

  member-IsSound :
      (p : Probe) (events : List CacheEvent) (entries : ReachabilityCache)
      → p.knows_itself ≡ true
      → all (is_founded eq_ℤ is_origin events) entries ≡ true
      → (a : MemberAnswer) → p.answer ≡ a
      → IsSound p events (probe_member ops p a entries)
  member-IsSound p events entries known h (member status) e =
      let sign : is_gone status ≡ true → is_definitive p ≡ true = λ gone. rw (known, e) gone in
      record {
        founded = cached-founded p (is_gone status) events entries sign h;
        signed = λ d. sign (gone_of (is_gone status) d);
      }
    where
      gone_of : (b : Bool) → is_dead (verdict_of b) ≡ true → b ≡ true
      gone_of true d = refl
      gone_of false d = d
  member-IsSound p events entries known h (no_member err) e =
      if-split (λ (r : Reachability × ReachabilityCache). IsSound p events r)
        (is_dead_failure ops (describe_send_error ops err))
        (λ gone. record {
          founded =
              cached-founded p true events entries
                (λ t. rw (known, e) (dead_failure-is_refused_for_good err gone)) h;
          signed = λ d. rw (known, e) (dead_failure-is_refused_for_good err gone);
        })
        (λ other. record {
          founded = founded-older eq_ℤ is_origin (probed p) events entries h;
          signed = λ d. absurd (false≢true d);
        })

  pub live-IsSound :
      (p : Probe) (events : List CacheEvent) (entries : ReachabilityCache)
      → all (is_founded eq_ℤ is_origin events) entries ≡ true
      → IsSound p events (probe_live ops p entries)
  live-IsSound p events entries h =
      if-split (λ (r : Reachability × ReachabilityCache). IsSound p events r) p.knows_itself
        (λ known. member-IsSound p events entries known h p.answer refl)
        (λ not_known. record {
          founded = founded-older eq_ℤ is_origin (probed p) events entries h;
          signed = λ d. absurd (false≢true d);
        })

  or_live-founded :
      (o : Option Bool) (p : Probe) (events : List CacheEvent) (entries : ReachabilityCache)
      → all (is_founded eq_ℤ is_origin events) entries ≡ true
      → all (is_founded eq_ℤ is_origin (probed p ∷ events)) (or_live ops o p entries).1 ≡ true
  or_live-founded none p events entries h = (live-IsSound p events entries h).founded
  or_live-founded (some gone) p events entries h =
      founded-older eq_ℤ is_origin (probed p) events entries h

  pub cache_after-founded :
      (events : List CacheEvent)
      → all (is_founded eq_ℤ is_origin events) (cache_after ops events) ≡ true
  unfolding cache_after probe_chat_reachability invalidate_reachability_cache
  cache_after-founded [] = refl
  cache_after-founded (probed p ∷ events) =
      or_live-founded
        (if p.fresh then none else cached eq_ℤ p.chat_id p.now (cache_after ops events)) p events
        (cache_after ops events) (cache_after-founded events)
  cache_after-founded (invalidated chat ∷ events) =
      founded-older eq_ℤ is_origin (invalidated chat) events
        (drop_key eq_ℤ chat (cache_after ops events))
        (all-drop_key eq_ℤ (is_founded eq_ℤ is_origin events) chat (cache_after ops events)
          (cache_after-founded events))
