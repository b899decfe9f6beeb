-- ===== src/Base/Tables.antt =====
-- A table as a list of rows: insert with its conflict clause, and what a read finds afterwards.
use mathlib.Core.Path.{◌≡◌, refl, ap}
use mathlib.Core.Bool.{Bool, true, false}
use mathlib.Core.List.{List, [], ◌∷◌, ◌++◌}
use mathlib.Core.Option
use mathlib.Core.Option.{Option, none, some}
use mathlib.Core.Logic.{inl, inr}
use native.Mathlib.Omega.{arith}
use email_to_telegram.Base.Tests.{if◌then◌else◌, Bool-cases}
use email_to_telegram.Base.Lists.{any, find?, filter, update_where}

module _ {ℓ} {A : Type ℓ} where
  -- `insert ... on conflict do update`: `p` says which row conflicts, `f` is the update.
  abbrev pub upsert : (A → Bool) → (A → A) → A → List A → List A
  upsert p f new xs = if any p xs then update_where p f xs else xs ++ new ∷ []

  -- `insert ... on conflict do nothing`, with whether a row was inserted.
  abbrev pub insert_new : (A → Bool) → A → List A → List A × Bool
  insert_new p new xs = if any p xs then (xs, false) else (xs ++ new ∷ [], true)

  pub find?-none-any : (p : A → Bool) (xs : List A) → any p xs ≡ false → find? p xs ≡ none
  find?-none-any p [] h = refl
  find?-none-any p (x ∷ xs) h = ground (arith, find?-none-any p xs)

  pub find?-append_none :
      (p : A → Bool) (xs ys : List A) → find? p xs ≡ none → find? p (xs ++ ys) ≡ find? p ys
  find?-append_none p [] ys h = refl
  find?-append_none p (x ∷ xs) ys h = ground (arith, find?-append_none p xs ys)

  pub find?-append_miss :
      (q : A → Bool) (xs : List A) (y : A) → q y ≡ false → find? q (xs ++ y ∷ []) ≡ find? q xs
  find?-append_miss q [] y h = rw h
  find?-append_miss q (x ∷ xs) y h = ground (arith, find?-append_miss q xs y h)

  pub find?-update_self :
      (p : A → Bool) (f : A → A) (xs : List A)
      → ((x : A) → p (f x) ≡ p x)
      → find? p (update_where p f xs) ≡ Option.map f (find? p xs)
  find?-update_self p f [] keep = refl
  find?-update_self p f (x ∷ xs) keep = elim (Bool-cases (p x)) [
    | inl e ↦ rw (e, keep x, e)
    | inr e ↦ rw (e, e) (find?-update_self p f xs keep)
  ]

  pub find?-update_other :
      (p q : A → Bool) (f : A → A) (xs : List A)
      → ((x : A) → p x ≡ true → q x ≡ false)
      → ((x : A) → q (f x) ≡ q x)
      → find? q (update_where p f xs) ≡ find? q xs
  find?-update_other p q f [] apart keep = refl
  find?-update_other p q f (x ∷ xs) apart keep = elim (Bool-cases (p x)) [
    | inl e ↦ rw (e, keep x, apart x e) (find?-update_other p q f xs apart keep)
    | inr e ↦ rw e (ground (arith, find?-update_other p q f xs apart keep))
  ]

  -- A read of the written key finds the new row, or the old one as updated.
  pub find?-upsert_self :
      (p : A → Bool) (f : A → A) (new : A) (xs : List A)
      → p new ≡ true
      → ((x : A) → p (f x) ≡ p x)
      → find? p (upsert p f new xs) ≡ (elim (find? p xs) [ none ↦ some new | some x ↦ some (f x) ])
  find?-upsert_self p f new xs hit keep = elim (Bool-cases (any p xs)) [
    | inl e ↦ rw e (found xs e)
    | inr e ↦
        rw (e, find?-append_none p xs (new ∷ []) (find?-none-any p xs e))
          (rw (find?-none-any p xs e, hit))
  ]
    where
      found :
          (xs : List A)
          → any p xs ≡ true
          → find? p (update_where p f xs)
            ≡ (elim (find? p xs) [ none ↦ some new | some x ↦ some (f x) ])
      found [] e = cc
      found (x ∷ xs) e = elim (Bool-cases (p x)) [
        | inl h ↦ rw (h, keep x, h)
        | inr h ↦ rw (h, h) (found xs (rw h at e))
      ]

  -- A read of another key finds what it found before.
  pub find?-upsert_other :
      (p q : A → Bool) (f : A → A) (new : A) (xs : List A)
      → ((x : A) → p x ≡ true → q x ≡ false)
      → p new ≡ true
      → ((x : A) → q (f x) ≡ q x)
      → find? q (upsert p f new xs) ≡ find? q xs
  find?-upsert_other p q f new xs apart hit keep = elim (Bool-cases (any p xs)) [
    | inl e ↦ rw e (find?-update_other p q f xs apart keep)
    | inr e ↦ rw e (find?-append_miss q xs new (apart new hit))
  ]

  -- A row that does not pass adds nothing.
  pub filter-append :
      (q : A → Bool) (xs : List A) (y : A) → q y ≡ false → filter q (xs ++ y ∷ []) ≡ filter q xs
  filter-append q [] y h = rw h
  filter-append q (x ∷ xs) y h = elim (Bool-cases (q x)) [
    | inl e ↦ rw e (ap (λ zs. x ∷ zs) (filter-append q xs y h))
    | inr e ↦ rw e (filter-append q xs y h)
  ]

  -- An update of rows that do not pass, and still do not.
  pub filter-update_other :
      (q p : A → Bool) (f : A → A) (xs : List A)
      → ((x : A) → p x ≡ true → q x ≡ false)
      → ((x : A) → q (f x) ≡ q x)
      → filter q (update_where p f xs) ≡ filter q xs
  filter-update_other q p f [] miss keep = refl
  filter-update_other q p f (x ∷ xs) miss keep =
      let ih = filter-update_other q p f xs miss keep in
      elim (Bool-cases (p x)) [
        | inl e ↦ rw (e, keep x, miss x e) ih
        | inr e ↦ elim (Bool-cases (q x)) [
          | inl t ↦ rw (e, t) (ap (λ zs. x ∷ zs) ih)
          | inr t ↦ rw (e, t) ih
        ]
      ]

  -- An update that hits nothing.
  pub update_where-missed :
      (p : A → Bool) (f : A → A) (xs : List A) → any p xs ≡ false → update_where p f xs ≡ xs
  update_where-missed p f [] h = refl
  update_where-missed p f (x ∷ xs) h = elim (Bool-cases (p x)) [
    | inl e ↦ let hit : true ≡ false = rw e at h in cc
    | inr e ↦ rw e (ap (λ ys. x ∷ ys) (update_where-missed p f xs (rw e at h)))
  ]
