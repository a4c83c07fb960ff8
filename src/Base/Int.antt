-- ===== src/Base/Int.antt =====
-- Python's `int` where a value can be negative; `negsuc n` is -(n + 1).
use Prim.Native.Nat.{ℕ, zero, suc, ◌-◌, ◌/◌}
use xfce_linux.Base.Tests.{leb, if◌then◌else◌}

pub data ℤ : Type 0 where
  pos : ℕ → ℤ
  negsuc : ℕ → ℤ

abbrev pub negate : ℕ → ℤ
negate zero = pos 0
negate (suc n) = negsuc n

-- Clock readings are whole microseconds.
abbrev pub second : ℕ
second = 1_000_000

-- `int(now - start)`: whole seconds, towards zero, also where the clock was set back.
unfoldable pub int_seconds : ℕ → ℕ → ℤ
int_seconds now start =
    if leb start now then pos ((now - start) / second) else negate ((start - now) / second)
