-- ===== src/Common/Errors.antt =====
-- `dterr_t` of dtcore. A `NULL` result is `none`. An error is its `error_code`, which is all that
-- callers test; its location, its message and the chain of errors inside it are left out.
use Prim.Native.Nat.{ℕ}
use mathlib.Core.Bool.{Bool}
use mathlib.Core.Option.{Option, none, some}

-- The codes that the modelled code names. `other` is any further code of dtcore, as one that a
-- callback may return.
pub data ErrorCode : Type 0 where
  argument_null badarg badconfig bounds corrupt fail io nomem overflow range timeout : ErrorCode
  other : ℕ → ErrorCode

abbrev pub Dterr : Type 0
Dterr = Option ErrorCode

-- `DTERR_C (e)`: with an error, go to cleanup; else go on.
infixl 5 ◌or_else◌
abbrev pub ◌or_else◌ : Dterr → Dterr → Dterr
some e or_else k = some e
none or_else k = k

-- One check of a chain: an error with this code if the test holds.
abbrev pub fail_if : Bool → ErrorCode → Dterr
fail_if Bool.true e = some e
fail_if Bool.false e = none

-- An error, or a value that goes back through an out parameter.
pub data Result {ℓ} (A : Type ℓ) : Type ℓ where
  ok : A → Result A
  err : ErrorCode → Result A
