-- ===== src/Utils/RetryAsync.antt =====
-- src/utils/retryAsync.ts: a write that is tried again. What each try comes to is an argument.
use email_to_telegram.Base.{
  ℕ, zero, suc, ◌+◌, ◌-◌, ◌≤◌, ◌<◌, Bool, true, false, Option, none, some, List, [], ◌∷◌, ◌++◌, ◌≡◌,
  refl, ◌⊎◌, inl, inr, arith, length, length-append, ltb, or_else, lt_or_eq, if◌then◌else◌,
}

-- A promise that settled.
pub data Settled {ℓ} (T E : Type ℓ) : Type ℓ where
  resolved : T → Settled T E
  rejected : E → Settled T E

-- The outcome, in which no try at all rejects without a reason, with the calls and the waits.
pub record Retried {ℓ} (T E : Type ℓ) : Type ℓ where
  pub outcome : Settled T (Option E)
  pub calls : ℕ
  pub waits_ms : List ℕ

abbrev pub nth {ℓ} : {A : Type ℓ} → List A → ℕ → Option A
nth [] n = none
nth (x ∷ xs) zero = some x
nth (x ∷ xs) (suc n) = nth xs n

-- `a ?? b` where `b` may be missing as well.
abbrev pub or_option {ℓ} : {A : Type ℓ} → Option A → Option A → Option A
or_option none b = b
or_option (some a) b = some a

-- `delaysMs[attempt] ?? delaysMs[delaysMs.length - 1] ?? 0`, in which `[][-1]` is missing too.
abbrev pub delay_of : List ℕ → ℕ → ℕ
delay_of delays_ms attempt =
    or_else (or_option (nth delays_ms attempt) (nth delays_ms (length delays_ms - 1))) 0

abbrev pub waited : List ℕ → ℕ → ℕ → List ℕ → List ℕ
waited delays_ms attempt left waits =
    if ltb 0 left then waits ++ delay_of delays_ms attempt ∷ [] else waits

module _ {ℓ} {T E : Type ℓ} (fn : ℕ → Settled T E) (delays_ms : List ℕ) where
  -- The loop with so many tries left, after `attempt` of them.
  unfoldable pub retry_from : ℕ → ℕ → Option E → List ℕ → Retried T E
  retry_from zero attempt last waits = record {
    outcome = rejected last;
    calls = attempt;
    waits_ms = waits;
  }
  retry_from (suc left) attempt last waits = elim (fn attempt) [
    | resolved v ↦ record { outcome = resolved v; calls = suc attempt; waits_ms = waits }
    | rejected e ↦ retry_from left (suc attempt) (some e) (waited delays_ms attempt left waits)
  ]

  unfoldable pub retry_async : ℕ → Retried T E
  retry_async attempts = retry_from attempts 0 none []

  -- The outcome of the last call, of which there may be none.
  abbrev pub Ends : ℕ → Settled T (Option E) → Type ℓ
  Ends zero outcome = outcome ≡ rejected none
  Ends (suc n) outcome =
      outcome ≡ (elim (fn n) [ resolved v ↦ resolved v | rejected e ↦ rejected (some e) ])

  abbrev pub is_rejected : Settled T E → Bool
  is_rejected (resolved v) = false
  is_rejected (rejected e) = true

  abbrev pub is_resolved : Settled T (Option E) → Bool
  is_resolved (resolved v) = true
  is_resolved (rejected e) = false

  pub record IsRetried (attempts : ℕ) (r : Retried T E) : Type ℓ where
    pub calls-le : r.calls ≤ attempts
    pub repeated : (i : ℕ) → suc i < r.calls → is_rejected (fn i) ≡ true
    pub ended : Ends r.calls r.outcome
    pub given_up : (is_resolved r.outcome ≡ true) ⊎ (r.calls ≡ attempts)
    pub paused : length r.waits_ms ≡ r.calls - 1

  Settled-cases : (s : Settled T E) → ((v : T) × (s ≡ resolved v)) ⊎ ((e : E) × (s ≡ rejected e))
  Settled-cases (resolved v) = inl (v, refl)
  Settled-cases (rejected e) = inr (e, refl)

  retry_from-IsRetried :
      (left attempt attempts : ℕ) (last : Option E) (waits : List ℕ)
      → attempt + left ≡ attempts
      → ((i : ℕ) → i < attempt → is_rejected (fn i) ≡ true)
      → Ends attempt (rejected last)
      → length waits ≡ (if ltb 0 left then attempt else attempt - 1)
      → IsRetried attempts (retry_from left attempt last waits)
  unfolding retry_from
  retry_from-IsRetried zero attempt attempts last waits total before ended paused = record {
    calls-le = omega (arith, total);
    repeated = λ i lt. before i (omega (arith, lt));
    ended = ended;
    given_up = inr (omega (arith, total));
    paused = paused;
  }
  retry_from-IsRetried (suc left) attempt attempts last waits total before ended paused =
      elim (Settled-cases (fn attempt)) [
        | inl (v, e) ↦
            rw (e, retry_from)
              (record {
                calls-le = omega (arith, total);
                repeated = λ i lt. before i (omega (arith, lt));
                ended = rw e refl;
                given_up = inl refl;
                paused = ground (arith, paused);
              })
        | inr (err, e) ↦
            rw (e, retry_from)
              (retry_from-IsRetried left (suc attempt) attempts (some err)
                (waited delays_ms attempt left waits) (omega (arith, total))
                (λ i lt. elim (lt_or_eq i attempt (omega (arith, lt))) [
                  | inl earlier ↦ before i earlier
                  | inr same ↦ rw (same, e) refl
                ])
                (rw e refl)
                (ground (arith, paused, length-append waits (delay_of delays_ms attempt ∷ []))))
      ]

  -- A retried write makes at most as many calls as it is allowed, tries again exactly after
  -- rejections, with one wait between two calls; it comes to what the last call came to, and gives
  -- up only where it made all of its calls.
  pub retry_async-IsRetried : (attempts : ℕ) → IsRetried attempts (retry_async attempts)
  unfolding retry_async
  retry_async-IsRetried attempts =
      retry_from-IsRetried attempts 0 attempts none [] (omega arith)
        (λ i lt. absurd (omega (arith, lt))) refl (ground arith)
