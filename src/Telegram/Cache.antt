-- ===== src/Telegram/Cache.antt =====
-- The caches of src/telegram/orphanProbe.ts and src/telegram/authorization.ts: a `Map` in the order of
-- insertion, whose entries expire, and which is kept below a size.
pub mod Founded
use email_to_telegram.Base.{
  ℕ, Bool, true, false, Option, none, some, List, [], ◌∷◌, ◌++◌, ◌≡◌, refl, arith, length, leb, ltb,
  any, all, find?, update_where, if◌then◌else◌, if-split, Bool-cases, ◌⊎◌, inl, inr,
}

pub record CacheEntry {ℓ} (K : Type ℓ) : Type ℓ where
  pub key : K
  pub result : Bool
  pub expires_at : ℕ

module _ {ℓ} {K : Type ℓ} (eq : K → K → Bool) where
  abbrev pub is_entry : K → CacheEntry K → Bool
  is_entry key e = eq e.key key

  -- `delete`
  abbrev pub drop_key : K → List (CacheEntry K) → List (CacheEntry K)
  drop_key key [] = []
  drop_key key (e ∷ entries) =
      let rest = drop_key key entries in if is_entry key e then rest else e ∷ rest

  -- `keys().next()`, deleted where the cache is full.
  abbrev pub evict_oldest : ℕ → List (CacheEntry K) → List (CacheEntry K)
  evict_oldest most [] = []
  evict_oldest most (e ∷ entries) = if leb most (length (e ∷ entries)) then entries else e ∷ entries

  -- `set`, which keeps the place of a key that is there.
  abbrev pub put_entry : CacheEntry K → List (CacheEntry K) → List (CacheEntry K)
  put_entry new entries =
      if any (is_entry new.key) entries
      then update_where (is_entry new.key) (λ e. new) entries
      else entries ++ new ∷ []

  abbrev pub alive : ℕ → Option (CacheEntry K) → Option Bool
  alive now none = none
  alive now (some e) = if ltb now e.expires_at then some e.result else none

  -- The result that is cached and has not expired.
  abbrev pub cached : K → ℕ → List (CacheEntry K) → Option Bool
  cached key now entries = alive now (find? (is_entry key) entries)

  -- What every entry of a cache satisfies, it still does after these.
  module _ (p : CacheEntry K → Bool) where
    pub all-drop_key :
        (key : K) (entries : List (CacheEntry K))
        → all p entries ≡ true
        → all p (drop_key key entries) ≡ true
    all-drop_key key [] h = refl
    all-drop_key key (e ∷ entries) h = ground (arith, all-drop_key key entries, h)

    pub all-evict_oldest :
        (most : ℕ) (entries : List (CacheEntry K))
        → all p entries ≡ true
        → all p (evict_oldest most entries) ≡ true
    all-evict_oldest most [] h = refl
    all-evict_oldest most (e ∷ entries) h =
        if-split (λ (es : List (CacheEntry K)). all p es ≡ true) (leb most (length (e ∷ entries)))
          (λ full. ground (arith, h)) (λ room. h)

    all-replaced :
        (new : CacheEntry K) (q : CacheEntry K → Bool) (entries : List (CacheEntry K))
        → p new ≡ true
        → all p entries ≡ true
        → all p (update_where q (λ e. new) entries) ≡ true
    all-replaced new q [] hit h = refl
    all-replaced new q (e ∷ entries) hit h = elim (Bool-cases (q e)) [
      | inl t ↦ rw (t, hit) (all-replaced new q entries hit (ground (arith, h)))
      | inr t ↦ rw t (ground (arith, all-replaced new q entries hit, h))
    ]

    all-appended :
        (new : CacheEntry K) (entries : List (CacheEntry K))
        → p new ≡ true
        → all p entries ≡ true
        → all p (entries ++ new ∷ []) ≡ true
    all-appended new [] hit h = rw hit refl
    all-appended new (e ∷ entries) hit h = ground (arith, all-appended new entries hit, h)

    pub all-put_entry :
        (new : CacheEntry K) (entries : List (CacheEntry K))
        → p new ≡ true
        → all p entries ≡ true
        → all p (put_entry new entries) ≡ true
    all-put_entry new entries hit h =
        if-split (λ (es : List (CacheEntry K)). all p es ≡ true) (any (is_entry new.key) entries)
          (λ there. all-replaced new (is_entry new.key) entries hit h)
          (λ missing. all-appended new entries hit h)

    -- A result that is found alive stands in an entry of its key that satisfies `p`.
    pub cached-entry :
        (key : K) (now : ℕ) (entries : List (CacheEntry K)) (result : Bool)
        → all p entries ≡ true
        → cached key now entries ≡ some result
        → (e : CacheEntry K) × (p e ≡ true)
          × (eq e.key key ≡ true)
          × (ltb now e.expires_at ≡ true)
          × (e.result ≡ result)
    cached-entry key now [] result h found = cc
    cached-entry key now (e ∷ entries) result h found = elim (Bool-cases (is_entry key e)) [
      | inl t ↦ at_head t (Bool-cases (ltb now e.expires_at))
      | inr t ↦ cached-entry key now entries result (ground (arith, h)) (rw t at found)
    ]
      where
        at_head :
            is_entry key e ≡ true
            → (ltb now e.expires_at ≡ true) ⊎ (ltb now e.expires_at ≡ false)
            → (e' : CacheEntry K) × (p e' ≡ true)
              × (eq e'.key key ≡ true)
              × (ltb now e'.expires_at ≡ true)
              × (e'.result ≡ result)
        at_head t (inl live) = (
          e,
          ground (arith, h),
          t,
          live,
          let s : some e.result ≡ some result = rw (t, live) at found in cc,
        )
        at_head t (inr dead) = let s : none ≡ some result = rw (t, dead) at found in cc
