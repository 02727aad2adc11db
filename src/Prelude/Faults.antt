-- ===== src/Prelude/Faults.antt =====
-- Results of code that may throw. `fail` and `check_that` of src/common.hpp throw an exception that
-- carries a message; a call that throws has no other result.
use Prim.Native.String.{String}
use mathlib.Core.Bool.{Bool, true, false}
use mathlib.Core.Path.{◌≡◌, refl}

pub data Outcome {ℓ} (A : Type ℓ) : Type ℓ where
  ok : A → Outcome A
  fail : String → Outcome A

-- A call that throws ends the calls after it.
abbrev pub ◌>>=◌ {ℓ κ} : {A : Type ℓ} {B : Type κ} → Outcome A → (A → Outcome B) → Outcome B
fail what >>= next = fail what
ok value >>= next = next value

abbrev pub ◌>>◌ {κ} : {B : Type κ} → Outcome (Unit {0}) → Outcome B → Outcome B
first >> next = first >>= (λ done. next)

infixl 5 ◌>>=◌ ◌>>◌
-- The message is the argument; the prefix that `fail_invariant` puts before it is left out.
unfoldable pub check_that : Bool → String → Outcome (Unit {0})
check_that true what = ok tt
check_that false what = fail what

-- A chain of calls that returns went through a first call that returned.
pub returned {ℓ κ} :
    {A : Type ℓ} {B : Type κ} (call : Outcome A) (next : A → Outcome B) (result : B)
    → (call >>= next) ≡ ok result
    → (value : A) × (call ≡ ok value) × (next value ≡ ok result)
returned (fail what) next result h = cc
returned (ok value) next result h = (value, refl, h)

pub checked :
    (test : Bool) (what : String) (u : Unit {0}) → check_that test what ≡ ok u → test ≡ true
unfolding check_that
checked true what u h = refl
checked false what u h = cc

pub ok-injective {ℓ} : {A : Type ℓ} {a b : A} → Outcome.ok a ≡ Outcome.ok b → a ≡ b
ok-injective h = cc

-- A call that returns is followed by the rest, at its value.
pub goes_on {ℓ κ} :
    {A : Type ℓ} {B : Type κ} {call : Outcome A} (next : A → Outcome B) {value : A}
    {result : Outcome B}
    → call ≡ ok value
    → next value ≡ result
    → (call >>= next) ≡ result
goes_on next e h = rw e h
