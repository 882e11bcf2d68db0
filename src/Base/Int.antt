-- ===== src/Base/Int.antt =====
-- Signed integers over the native numbers, and the casts of C++ between them and the words.
use Prim.Native.Nat.{ℕ, suc, ◌+◌, ◌-◌, ◌*◌, ◌/◌, ◌%◌, ◌^◌, ◌<◌}
use mathlib.Core.Bool.{Bool, true, false, xor}
use native.Mathlib.Omega.{arith}
use pugputer6309_emulator.Base.Tests.{ltb, leb, if◌then◌else◌}

-- `negsuc n` is -(n + 1).
pub data ℤ : Type 0 where
  pos : ℕ → ℤ
  negsuc : ℕ → ℤ

-- a - b, as an integer.
abbrev pub sub_ℕ : ℕ → ℕ → ℤ
sub_ℕ a b = if leb b a then pos (a - b) else negsuc (b - a - 1)

abbrev pub is_neg : ℤ → Bool
is_neg (pos n) = false
is_neg (negsuc n) = true

abbrev pub magnitude : ℤ → ℕ
magnitude (pos n) = n
magnitude (negsuc n) = suc n

-- The casts of a non-negative value.
abbrev pub u8 : ℕ → ℕ
u8 n = n % 256

abbrev pub u16 : ℕ → ℕ
u16 n = n % 65536

abbrev pub u32 : ℕ → ℕ
u32 n = n % 2 ^ 32

-- The casts of a signed value are two's complement: -(n + 1) is 2 ^ w - 1 - n modulo 2 ^ w.
abbrev pub u8_ℤ : ℤ → ℕ
u8_ℤ (pos n) = n % 256
u8_ℤ (negsuc n) = 255 - n % 256

abbrev pub u16_ℤ : ℤ → ℕ
u16_ℤ (pos n) = n % 65536
u16_ℤ (negsuc n) = 65535 - n % 65536

abbrev pub u32_ℤ : ℤ → ℕ
u32_ℤ (pos n) = n % 2 ^ 32
u32_ℤ (negsuc n) = 2 ^ 32 - 1 - n % 2 ^ 32

-- `static_cast<int8_t>`, `int16_t` and `int32_t` of a word.
abbrev pub i8 : ℕ → ℤ
i8 n = if ltb n 128 then pos n else negsuc (255 - n)

abbrev pub i16 : ℕ → ℤ
i16 n = if ltb n 32768 then pos n else negsuc (65535 - n)

abbrev pub i32 : ℕ → ℤ
i32 n = if ltb n (2 ^ 31) then pos n else negsuc (2 ^ 32 - 1 - n)

-- `static_cast<uint16_t>(n + z)`
abbrev pub add_u16 : ℕ → ℤ → ℕ
add_u16 n (pos k) = (n + k) % 65536
add_u16 n (negsuc k) = (n + (65535 - k % 65536)) % 65536

-- n, with the sign of the first argument: -n if it is set.
abbrev pub signed : Bool → ℕ → ℤ
signed false n = pos n
signed true n = if ltb 0 n then negsuc (n - 1) else pos 0

pub u8_ℤ-lt : (z : ℤ) → u8_ℤ z < 256
u8_ℤ-lt (pos n) = omega arith
u8_ℤ-lt (negsuc n) = omega arith

pub u16_ℤ-lt : (z : ℤ) → u16_ℤ z < 65536
u16_ℤ-lt (pos n) = omega arith
u16_ℤ-lt (negsuc n) = omega arith

pub add_u16-lt : (n : ℕ) (z : ℤ) → add_u16 n z < 65536
add_u16-lt n (pos k) = omega arith
add_u16-lt n (negsuc k) = omega arith

-- `/` and `%` of C++ on signed values: the quotient is cut towards zero, and the remainder has
-- the sign of the dividend.
unfoldable pub quotient : ℤ → ℤ → ℤ
quotient n d = signed (xor (is_neg n) (is_neg d)) (magnitude n / magnitude d)

unfoldable pub remainder : ℤ → ℤ → ℤ
remainder n d = signed (is_neg n) (magnitude n % magnitude d)

unfoldable pub product : ℤ → ℤ → ℤ
product n d = signed (xor (is_neg n) (is_neg d)) (magnitude n * magnitude d)
