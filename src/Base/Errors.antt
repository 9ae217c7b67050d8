-- ===== src/Base/Errors.antt =====
-- Exceptions as values: a call that may raise returns a `Result`.
use mathlib.Core.Path.{◌≡◌, refl}
use mathlib.Core.Bool.{Bool}
use recoup_ai.Base.Tests.{if◌then◌else◌}
use Prim.Native.Nat.{ℕ}
use Prim.Native.String.{String}

-- The exceptions that the modelled code raises, by class; `value_error` is Python's `ValueError`.
pub data Error : Type 0 where
  illegal_transition : String → Error
  key_error : String → Error
  value_error : Error
  index_error : Error
  chain_broken : ℕ → Error
  refused overflow_error : Error
  no_payable_link : Error
  live_run_divergence : Error

-- What a call gives: the exception that it raised, or the value that it returned.
pub data Result {ℓ} (V : Type ℓ) : Type ℓ where
  err : Error → Result V
  ok : V → Result V

infixl 5 ◌>>=◌ ◌>>◌
-- The statements after a call run on its value, unless it raised.
abbrev pub ◌>>=◌ {ℓ κ} : {V : Type ℓ} {S : Type κ} → Result V → (V → Result S) → Result S
err raised >>= after = err raised
ok value >>= after = after value

-- `if c: raise e`
abbrev pub raise_if : Bool → Error → Result (Unit {0})
raise_if c e = if c then err e else ok tt

-- The same, after a statement whose value nothing reads.
abbrev pub ◌>>◌ {κ} : {S : Type κ} → Result (Unit {0}) → Result S → Result S
call >> after = call >>= λ done. after

-- Two calls that return: the first one's value, and that the second returns from it.
pub call-then {ℓ κ} :
    {V : Type ℓ} {S : Type κ} (call : Result V) (after : V → Result S) {result : S}
    → (call >>= after) ≡ ok result
    → (value : V) × (call ≡ ok value) × (after value ≡ ok result)
call-then (err raised) after h = cc
call-then (ok value) after h = (value, refl, h)
