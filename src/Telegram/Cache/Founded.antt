-- ===== src/Telegram/Cache/Founded.antt =====
-- A cache whose results go back to events, as those of src/telegram/orphanProbe.ts and
-- src/telegram/authorization.ts do.
use email_to_telegram.Base.{
  ℕ, Bool, true, false, not, ◌&&◌, ◌||◌, some, List, [], ◌∷◌, ◌≡◌, refl, arith, any, all, ltb,
}
use email_to_telegram.Telegram.Cache.{CacheEntry, cached, cached-entry}

pub &&-left : (a b : Bool) → (a && b) ≡ true → a ≡ true
&&-left true b h = refl
&&-left false b h = h

pub or-right : (a : Bool) {b : Bool} → b ≡ true → (a || b) ≡ true
or-right true h = refl
or-right false h = h

module _ {K E : Type 0} (eq : K → K → Bool) (origin : CacheEntry K → E → Bool) where
  -- An entry that says yes has an event that it goes back to.
  abbrev pub is_founded : List E → CacheEntry K → Bool
  is_founded events e = not e.result || any (origin e) events

  pub founded-older :
      (ev : E) (events : List E) (entries : List (CacheEntry K))
      → all (is_founded events) entries ≡ true
      → all (is_founded (ev ∷ events)) entries ≡ true
  founded-older ev events [] h = refl
  founded-older ev events (e ∷ entries) h = ground (arith, founded-older ev events entries, h)

  pub cached-origin :
      (key : K) (now : ℕ) (events : List E) (entries : List (CacheEntry K))
      → all (is_founded events) entries ≡ true
      → cached eq key now entries ≡ some true
      → (e : CacheEntry K) × (eq e.key key ≡ true)
        × (ltb now e.expires_at ≡ true)
        × (any (origin e) events ≡ true)
  cached-origin key now events entries h found =
      let c = cached-entry eq (is_founded events) key now entries true h found in
      let yes_result : c.0.result ≡ true = c.4 in
      let founded : (not c.0.result || any (origin c.0) events) ≡ true = c.1 in
      (c.0, c.2, c.3, ground (arith, yes_result, founded))
