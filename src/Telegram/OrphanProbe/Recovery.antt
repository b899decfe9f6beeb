-- ===== src/Telegram/OrphanProbe/Recovery.antt =====
-- What gives somebody the right to recover an alias, in src/telegram/orphanRecovery.ts.
use mathlib.Core.Bool.{false≢true}
use email_to_telegram.Base.{
  ℕ, ◌+◌, ℤ, eq_ℤ, eq_ℤ→eq, eq_ℤ_refl, Bool, true, false, ◌&&◌, Option, none, some, List, [], ◌∷◌,
  ◌≡◌, refl, subst, arith, ◌==◌, any, if-split, if◌then◌else◌, ltb, TextOps, Bool-cases, inl, inr,
}
use email_to_telegram.Store.Rows.{Db, EmailAddress}
use email_to_telegram.Store.Users.{find_alias_by_id, is_deleted}
use email_to_telegram.Telegram.Cache.{CacheEntry, cached}
use email_to_telegram.Telegram.OrphanProbe.{
  Probe, cache_ttl_ms, or_live, probe_chat_reachability, CacheEvent, probed, invalidated,
  cache_after, is_dead, recover_from, can_recover_orphan_alias,
}
use email_to_telegram.Telegram.OrphanProbe.Signs.{
  is_definitive, is_sign, is_origin, live-IsSound, cache_after-founded,
}
use email_to_telegram.Telegram.Cache.Founded.{&&-left, or-right, cached-origin}

module _ (ops : TextOps) where
  origin-sign :
      (e : CacheEntry ℤ) (chat : ℤ) (now : ℕ) (events : List CacheEvent)
      → eq_ℤ e.key chat ≡ true
      → ltb now e.expires_at ≡ true
      → any (is_origin ops e) events ≡ true
      → any (is_sign ops chat now) events ≡ true
  origin-sign e chat now [] same live h = h
  origin-sign e chat now (invalidated c ∷ events) same live h =
      origin-sign e chat now events same live h
  origin-sign e chat now (probed p ∷ events) same live h =
      elim (Bool-cases (is_origin ops e (probed p))) [
        | inl t ↦
            let at_chat : eq_ℤ p.chat_id chat ≡ true =
              subst (λ c. eq_ℤ p.chat_id c ≡ true) (eq_ℤ→eq e.key chat same)
                (&&-left (eq_ℤ p.chat_id e.key)
                  ((p.now + cache_ttl_ms == e.expires_at) && is_definitive ops p) t) in
            ground (arith, at_chat, t, live)
        | inr f ↦
            or-right (is_sign ops chat now (probed p))
              (origin-sign e chat now events same live (rw f at h))
      ]

  cached-sign :
      (p : Probe) (events : List CacheEvent) (o : Option Bool)
      → (if p.fresh then none else cached eq_ℤ p.chat_id p.now (cache_after ops events)) ≡ o
      → is_dead (or_live ops o p (cache_after ops events)).0 ≡ true
      → any (is_sign ops p.chat_id p.now) (probed p ∷ events) ≡ true
  cached-sign p events none e d =
      let signed =
        (live-IsSound ops p events (cache_after ops events) (cache_after-founded ops events)).signed
          d in
      rw (eq_ℤ_refl p.chat_id, signed) (ground arith)
  cached-sign p events (some false) e d = absurd (false≢true d)
  cached-sign p events (some true) e d =
      let found : cached eq_ℤ p.chat_id p.now (cache_after ops events) ≡ some true =
        if-split
          (λ (o : Option Bool).
            o ≡ some true → cached eq_ℤ p.chat_id p.now (cache_after ops events) ≡ some true)
          p.fresh (λ fresh h. cc) (λ stale h. h) e in
      let c =
        cached-origin eq_ℤ (is_origin ops) p.chat_id p.now events (cache_after ops events)
          (cache_after-founded ops events) found in
      or-right (is_sign ops p.chat_id p.now (probed p))
        (origin-sign c.0 p.chat_id p.now events c.1 c.2 c.3)

  probe-sign :
      (p : Probe) (events : List CacheEvent)
      → is_dead (probe_chat_reachability ops p (cache_after ops events)).0 ≡ true
      → any (is_sign ops p.chat_id p.now) (probed p ∷ events) ≡ true
  unfolding probe_chat_reachability
  probe-sign p events =
      cached-sign p events
        (if p.fresh then none else cached eq_ℤ p.chat_id p.now (cache_after ops events)) refl

  -- The right to recover an alias, after any probes and invalidations of the cache: the alias is not
  -- deleted, its creator asks, and Telegram said definitively, in this probe or less than a minute
  -- before it, that its chat is gone.
  pub record MayRecover (db : Db) (actor alias : ℕ) (p : Probe) (events : List CacheEvent)
      : Type 0 where
    pub row : EmailAddress
    pub found : find_alias_by_id db alias ≡ some row
    pub not_deleted : is_deleted row.status ≡ false
    pub creator : row.created_by ≡ actor
    pub sign :
        any (is_sign ops row.chat_id p.now) (probed (record p { chat_id = row.chat_id }) ∷ events)
        ≡ true

  -- An alias may be recovered only where it is not deleted, its creator asks, and Telegram said
  -- definitively, in this probe or in one less than a minute before it, that its chat is gone:
  -- whatever was probed, answered and invalidated before, no transient failure gives the right.
  pub recover-MayRecover :
      (db : Db) (actor alias : ℕ) (p : Probe) (events : List CacheEvent)
      → can_recover_orphan_alias ops db actor alias p (cache_after ops events) ≡ true
      → MayRecover db actor alias p events
  unfolding can_recover_orphan_alias
  recover-MayRecover db actor alias p events h = by_row (find_alias_by_id db alias) refl h
    where
      by_row :
          (o : Option EmailAddress)
          → find_alias_by_id db alias ≡ o
          → recover_from ops actor p (cache_after ops events) o ≡ true
          → MayRecover db actor alias p events
      by_row none e h = absurd (false≢true h)
      by_row (some row) e h = record {
        row = row;
        found = e;
        not_deleted = ground (arith, h);
        creator = ground (arith, h);
        sign = probe-sign (record p { chat_id = row.chat_id }) events (ground (arith, h));
      }
