-- ===== src/Base/Maps.antt =====
-- A `Map`, as the function that its `get` is; `eq` tells its keys apart.
use mathlib.Core.Path.{◌≡◌}
use mathlib.Core.Bool.{Bool, true, false}
use mathlib.Core.Option.{Option, none, some}
use email_to_telegram.Base.Tests.{if◌then◌else◌}

module _ {ℓ ℓ'} {K : Type ℓ} {V : Type ℓ'} (eq : K → K → Bool) where
  abbrev pub set : K → V → (K → Option V) → K → Option V
  set k v m = λ j. if eq j k then some v else m j

  abbrev pub delete : K → (K → Option V) → K → Option V
  delete k m = λ j. if eq j k then none else m j

  pub set-hit : (k : K) (v : V) (m : K → Option V) (j : K) → eq j k ≡ true → set k v m j ≡ some v
  set-hit k v m j h = rw h

  pub set-miss : (k : K) (v : V) (m : K → Option V) (j : K) → eq j k ≡ false → set k v m j ≡ m j
  set-miss k v m j h = rw h

  pub delete-hit : (k : K) (m : K → Option V) (j : K) → eq j k ≡ true → delete k m j ≡ none
  delete-hit k m j h = rw h

  pub delete-miss : (k : K) (m : K → Option V) (j : K) → eq j k ≡ false → delete k m j ≡ m j
  delete-miss k m j h = rw h
