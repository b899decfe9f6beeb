-- ===== src/Base/Lists.antt =====
-- Lists measured by native numbers and filtered by Boolean tests, as the source's arrays are.
use Prim.Native.Nat.{ℕ, zero, suc, ◌+◌, ◌-◌, ◌≤◌}
use mathlib.Core.Path.{◌≡◌, refl, ap}
use mathlib.Core.Bool.{Bool, true, false, not, ◌&&◌, ◌||◌}
use mathlib.Core.List.{List, [], ◌∷◌, ◌++◌, Memᴰ}
use mathlib.Core.Option.{Option, none, some}
use native.Mathlib.Omega.{arith}
use mathlib.Core.Logic.{inl, inr}
use email_to_telegram.Base.Tests.{if◌then◌else◌, Bool-cases}

module _ {ℓ} {A : Type ℓ} where
  abbrev pub length : List A → ℕ
  length [] = 0
  length (x ∷ xs) = suc (length xs)

  abbrev pub any : (A → Bool) → List A → Bool
  any p [] = false
  any p (x ∷ xs) = p x || any p xs

  abbrev pub all : (A → Bool) → List A → Bool
  all p [] = true
  all p (x ∷ xs) = p x && all p xs

  abbrev pub filter : (A → Bool) → List A → List A
  filter p [] = []
  filter p (x ∷ xs) = let rest = filter p xs in if p x then x ∷ rest else rest

  -- The first element that passes the test.
  abbrev pub find? : (A → Bool) → List A → Option A
  find? p [] = none
  find? p (x ∷ xs) = let rest = find? p xs in if p x then some x else rest

  -- How many elements pass the test, as `count(*)` under a `where`.
  abbrev pub count : (A → Bool) → List A → ℕ
  count p [] = 0
  count p (x ∷ xs) = let rest = count p xs in if p x then suc rest else rest

  abbrev pub take : ℕ → List A → List A
  take zero xs = []
  take (suc n) [] = []
  take (suc n) (x ∷ xs) = x ∷ take n xs

  abbrev pub drop : ℕ → List A → List A
  drop zero xs = xs
  drop (suc n) [] = []
  drop (suc n) (x ∷ xs) = drop n xs

  -- `update ... set ... where`
  abbrev pub update_where : (A → Bool) → (A → A) → List A → List A
  update_where p f [] = []
  update_where p f (x ∷ xs) = let rest = update_where p f xs in (if p x then f x else x) ∷ rest

module _ {ℓ} {A : Type ℓ} where
  pub length-append : (xs ys : List A) → length (xs ++ ys) ≡ length xs + length ys
  length-append [] ys = omega arith
  length-append (x ∷ xs) ys = omega (arith, length-append xs ys)

  pub length-filter-le : (p : A → Bool) (xs : List A) → length (filter p xs) ≤ length xs
  length-filter-le p [] = omega arith
  length-filter-le p (x ∷ xs) = ground (arith, length-filter-le p xs)

  pub length-filter : (p : A → Bool) (xs : List A) → length (filter p xs) ≡ count p xs
  length-filter p [] = refl
  length-filter p (x ∷ xs) = ground (arith, length-filter p xs)

  pub length-update_where :
      (p : A → Bool) (f : A → A) (xs : List A) → length (update_where p f xs) ≡ length xs
  length-update_where p f [] = refl
  length-update_where p f (x ∷ xs) = ap suc (length-update_where p f xs)

  pub count-append : (p : A → Bool) (xs ys : List A) → count p (xs ++ ys) ≡ count p xs + count p ys
  count-append p [] ys = omega arith
  count-append p (x ∷ xs) ys = ground (arith, count-append p xs ys)

  pub count-take-drop :
      (p : A → Bool) (n : ℕ) (xs : List A) → count p (take n xs) + count p (drop n xs) ≡ count p xs
  count-take-drop p zero xs = omega arith
  count-take-drop p (suc n) [] = refl
  count-take-drop p (suc n) (x ∷ xs) = ground (arith, count-take-drop p n xs)

  pub length-drop : (n : ℕ) (xs : List A) → length (drop n xs) ≡ length xs - n
  length-drop zero xs = omega arith
  length-drop (suc n) [] = omega arith
  length-drop (suc n) (x ∷ xs) = omega (arith, length-drop n xs)

  pub length-take-le : (n : ℕ) (xs : List A) → length (take n xs) ≤ n
  length-take-le zero xs = omega arith
  length-take-le (suc n) [] = omega arith
  length-take-le (suc n) (x ∷ xs) = omega (arith, length-take-le n xs)

  pub any-witness :
      (p : A → Bool) (xs : List A) → any p xs ≡ true → (x : A) × Memᴰ x xs × (p x ≡ true)
  any-witness p [] h = cc
  any-witness p (x ∷ xs) h = elim (Bool-cases (p x)) [
    | inl e ↦ (x, Memᴰ.head refl, e)
    | inr e ↦ let (y, m, q) = any-witness p xs (rw e at h) in (y, Memᴰ.tail m, q)
  ]

  pub any_of_mem : (p : A → Bool) {x : A} {xs : List A} → Memᴰ x xs → p x ≡ true → any p xs ≡ true
  any_of_mem p (Memᴰ.head e) h = rw (← e, h)
  any_of_mem p (Memᴰ.tail m) h = ground (arith, any_of_mem p m h)

  pub find?-passes : (p : A → Bool) (xs : List A) {x : A} → find? p xs ≡ some x → p x ≡ true
  find?-passes p [] h = cc
  find?-passes p (y ∷ xs) {x} h = elim (Bool-cases (p y)) [
    | inl e ↦ let same : y ≡ x = ground arith in rw same at e
    | inr e ↦ find?-passes p xs (rw e at h)
  ]

  pub filter-filter :
      (p q : A → Bool)
      → ((x : A) → q x ≡ true → p x ≡ true)
      → (xs : List A) → filter q (filter p xs) ≡ filter q xs
  filter-filter p q imp [] = refl
  filter-filter p q imp (x ∷ xs) = elim (Bool-cases (q x)) [
    | inl e ↦ rw (e, imp x e, e) (ap (λ ys. x ∷ ys) (filter-filter p q imp xs))
    | inr e ↦ elim (Bool-cases (p x)) [
      | inl h ↦ rw (e, h, e) (filter-filter p q imp xs)
      | inr h ↦ rw (e, h) (filter-filter p q imp xs)
    ]
  ]

  pub filter-append_lem :
      (p : A → Bool) (xs ys : List A) → filter p (xs ++ ys) ≡ filter p xs ++ filter p ys
  filter-append_lem p [] ys = refl
  filter-append_lem p (x ∷ xs) ys = elim (Bool-cases (p x)) [
    | inl e ↦ rw e (ap (λ zs. x ∷ zs) (filter-append_lem p xs ys))
    | inr e ↦ rw e (filter-append_lem p xs ys)
  ]

  pub filter-none :
      (p q : A → Bool)
      → ((x : A) → p x ≡ true → q x ≡ true)
      → (xs : List A) → all (λ x. not (q x)) xs ≡ true
      → filter p xs ≡ []
  filter-none p q imp [] h = refl
  filter-none p q imp (x ∷ xs) h = elim (Bool-cases (p x)) [
    | inl e ↦ let hit = imp x e in absurd (ground (arith, hit, h))
    | inr e ↦ rw e (filter-none p q imp xs (ground (arith, h)))
  ]
