-- ===== src/Base/Run.antt =====
-- The outcome of code that may stop: ASSERT and FATAL of source/llbase/macros.h end the process, an
-- exception that leaves a `noexcept` function terminates it, and a null pointer that is followed
-- has no defined result. The code's loops take fuel; `out_of_fuel` is proved not to happen.
use mathlib.Core.Path.{◌≡◌, refl, ap, subst}
use native.Mathlib.Omega.{arith}
use mathlib.Core.Logic.{◌≢◌, ◌⊎◌, inl, inr}
use mathlib.Core.Bool.{Bool}
use nitek.Base.Tests.{if◌then◌else◌}

pub data Fault : Type 0 where
  exits terminates undefined out_of_fuel : Fault

pub data Result {ℓ} (A : Type ℓ) : Type ℓ where
  ok : A → Result A
  fault : Fault → Result A

-- A computation over a state.
abbrev pub M : Type 0 → Type 0 → Type 0
M S A = S → Result (A × S)

module _ {S : Type 0} where
  abbrev pub pure : {A : Type 0} → A → M S A
  pure a s = ok (a, s)

  infixl 5 ◌>>=◌ ◌>>◌
  abbrev pub and_then : {A B : Type 0} → Result (A × S) → (A → M S B) → Result (B × S)
  and_then (ok (a, s)) f = f a s
  and_then (fault e) f = fault e

  abbrev pub ◌>>=◌ : {A B : Type 0} → M S A → (A → M S B) → M S B
  ◌>>=◌ m f s = and_then (m s) f

  abbrev pub ◌>>◌ : {B : Type 0} → M S (Unit {0}) → M S B → M S B
  m >> k = m >>= λ _. k

  -- ASSERT(cond, msg)
  abbrev pub assert : Bool → M S (Unit {0})
  assert b s = if b then ok (tt, s) else fault exits

  abbrev pub stop : {A : Type 0} → Fault → M S A
  stop e s = fault e

  abbrev pub gets : {A : Type 0} → (S → A) → M S A
  gets f s = ok (f s, s)

  abbrev pub modify : (S → S) → M S (Unit {0})
  modify f s = ok (tt, f s)

  -- If the run succeeds its result satisfies `P`, and it never runs out of fuel.
  pub data Returns {A : Type 0} (P : A → S → Type 0) : Result (A × S) → Type 0 where
    returns : {a : A} {s : S} → P a s → Returns P (ok (a, s))
    faults : {e : Fault} → e ≢ out_of_fuel → Returns P (fault e)

  module _ {A : Type 0} {P : A → S → Type 0} where
    pub Returns-bind :
        {B : Type 0} {Q : B → S → Type 0} {r : Result (A × S)} {k : A → M S B}
        → Returns P r
        → ((a : A) (s : S) → P a s → Returns Q (k a s))
        → Returns Q (and_then r k)
    Returns-bind (returns p) next = next _ _ p
    Returns-bind (faults h) next = faults h

    pub Returns-mono :
        {Q : A → S → Type 0} {r : Result (A × S)}
        → Returns P r
        → ((a : A) (s : S) → P a s → Q a s)
        → Returns Q r
    Returns-mono (returns p) weaken = returns (weaken _ _ p)
    Returns-mono (faults h) weaken = faults h

    pub Returns-intro :
        (r : Result (A × S))
        → ((a : A) (s : S) → r ≡ ok (a, s) → P a s)
        → r ≢ fault out_of_fuel
        → Returns P r
    Returns-intro (ok (a, s)) good fuel = returns (good a s refl)
    Returns-intro (fault e) good fuel = faults (λ h. fuel (ap fault h))

    pub Returns-ok : {r : Result (A × S)} {a : A} {s : S} → Returns P r → r ≡ ok (a, s) → P a s
    Returns-ok (returns {a = c} {s = t} p) h = subst (λ (x : A × S). P x.0 x.1) (pair (c, t) _ h) p
      where
        pair : (x y : A × S) → ok x ≡ ok y → x ≡ y
        pair x y h = ground arith
    Returns-ok (faults g) h = cc

    pub Returns-fuel : {r : Result (A × S)} → Returns P r → r ≢ fault out_of_fuel
    Returns-fuel (returns p) h = cc
    Returns-fuel (faults g) h = g (ground arith)

pub Result-cases {ℓ} :
    {A : Type ℓ} (r : Result A) → ((a : A) × (r ≡ ok a)) ⊎ ((e : Fault) × (r ≡ fault e))
Result-cases (ok a) = inl (a, refl)
Result-cases (fault e) = inr (e, refl)
