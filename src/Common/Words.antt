-- ===== src/Common/Words.antt =====
-- `u64` addition and subtraction. An overflow panics in a debug build and wraps in a release build.
use Prim.Native.Nat.{ℕ, ◌+◌, ◌-◌, ◌%◌, ◌^◌}
use mathlib.Core.Option.{Option, none, some}
use stateless_payments.Common.Tests.{ltb, leb, if◌then◌else◌}
use stateless_payments.Common.Int.{ℤ, pos, negsuc}
use stateless_payments.Common.Outcome.{Result, ok, panic}

pub data Profile : Type 0 where
  debug release : Profile

abbrev pub u64_mod : ℕ
u64_mod = 2 ^ 64

abbrev pub on_overflow : {E : Type 0} → Profile → ℕ → Result E ℕ
on_overflow debug wrapped = panic
on_overflow release wrapped = ok wrapped

-- `a + b`
abbrev pub add_u64 : {E : Type 0} → Profile → ℕ → ℕ → Result E ℕ
add_u64 profile a b =
    if ltb (a + b) u64_mod then ok (a + b) else on_overflow profile ((a + b) % u64_mod)

-- `a - b`
abbrev pub sub_u64 : {E : Type 0} → Profile → ℕ → ℕ → Result E ℕ
sub_u64 profile a b =
    if leb b a then ok (a - b) else on_overflow profile ((a + u64_mod - b) % u64_mod)

-- `a.checked_sub(b)`
abbrev pub checked_sub : ℕ → ℕ → Option ℕ
checked_sub a b = if leb b a then some (a - b) else none

-- `u64::try_from(i128)`
abbrev pub try_into_u64 : ℤ → Option ℕ
try_into_u64 (pos n) = if ltb n u64_mod then some n else none
try_into_u64 (negsuc n) = none
