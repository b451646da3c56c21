-- ===== src/Prelude/Words.antt =====
-- Machine words of an x86-64 host. A value is a plain number below its width; each operation
-- that can leave the range wraps, as release builds of the code do.
use Prim.Native.Nat.{ℕ, ◌+◌, ◌-◌, ◌*◌, ◌%◌, ◌^◌}
use mathlib.Core.Option.{Option, none, some}
use lucet.Prelude.Tests.{ltb, if◌then◌else◌}

abbrev pub u32_mod : ℕ
u32_mod = 2 ^ 32

-- The same modulus serves usize, u64 and pointers.
abbrev pub usize_mod : ℕ
usize_mod = 2 ^ 64

abbrev pub as_u32 : ℕ → ℕ
as_u32 a = a % u32_mod

abbrev pub add_usize : ℕ → ℕ → ℕ
add_usize a b = (a + b) % usize_mod

-- `-` on ℕ stops at 0, so the modulus is added first.
abbrev pub sub_usize : ℕ → ℕ → ℕ
sub_usize a b = (a + usize_mod - b) % usize_mod

abbrev pub mul_usize : ℕ → ℕ → ℕ
mul_usize a b = (a * b) % usize_mod

abbrev pub add_u32 : ℕ → ℕ → ℕ
add_u32 a b = (a + b) % u32_mod

abbrev pub sub_u32 : ℕ → ℕ → ℕ
sub_u32 a b = (a + u32_mod - b) % u32_mod

abbrev pub mul_u32 : ℕ → ℕ → ℕ
mul_u32 a b = (a * b) % u32_mod

abbrev pub checked_add_usize : ℕ → ℕ → Option ℕ
checked_add_usize a b = if ltb (a + b) usize_mod then some (a + b) else none

abbrev pub checked_mul_u32 : ℕ → ℕ → Option ℕ
checked_mul_u32 a b = if ltb (a * b) u32_mod then some (a * b) else none
