-- ===== src/Base/Words.antt =====
-- Fixed widths: a cast to `uint8_t`, `uint32_t` or `uint64_t` is a remainder, and a `char` that is
-- converted to a wider unsigned type is extended by its sign.
use Prim.Native.Nat.{ℕ, ◌+◌, ◌-◌, ◌*◌, ◌/◌, ◌%◌, ◌^◌}
use lite3_cpp.Base.Tests.{ltb, if◌then◌else◌}

abbrev pub u8 : ℕ → ℕ
u8 n = n % 2 ^ 8

abbrev pub u32 : ℕ → ℕ
u32 n = n % 2 ^ 32

abbrev pub u64 : ℕ → ℕ
u64 n = n % 2 ^ 64

-- `SIZE_MAX`
abbrev pub size_max : ℕ
size_max = 2 ^ 64 - 1

infixl 75 ◌<<◌ ◌>>>◌
abbrev pub ◌<<◌ : ℕ → ℕ → ℕ
x << k = x * 2 ^ k

abbrev pub ◌>>>◌ : ℕ → ℕ → ℕ
x >>> k = x / 2 ^ k

-- A byte of a `char` string, as the conversion of a signed `char` to a `w`-bit unsigned type.
abbrev pub sign_extend : ℕ → ℕ → ℕ
sign_extend w c = if ltb c 128 then c else 2 ^ w - 256 + c
