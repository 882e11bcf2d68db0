-- ===== src/Base/Bits.antt =====
-- The bits of a number, and what the native bit operations do to each of them.
use Prim.Native.Nat.{min, max, digits, differ, bit_and-bitwise, bit_or-bitwise, bit_xor-bitwise}
use Prim.Native.Nat.{ℕ, zero, suc, ◌+◌, ◌-◌, ◌*◌, ◌/◌, ◌%◌, ◌^◌, ◌≤◌, ◌<◌, bit_and, bit_or, bit_xor}
use mathlib.Core.Path.{◌≡◌, refl, sym, ◌∙◌}
use mathlib.Core.Bool.{Bool, not}
use native.Mathlib.Omega.{arith}
use pugputer6309_emulator.Base.Tests.{◌==◌, bit_test}
use native.Mathlib.Nat.{le_refl, pow-suc, one-le-pow}
use native.Mathlib.Decide.{dec_lt}

-- Bit `k` of `a`, counted from the lowest.
abbrev pub bit : ℕ → ℕ → ℕ
bit zero a = a % 2
bit (suc k) a = bit k (a / 2)

pub bit-lt : (k a : ℕ) → bit k a < 2
bit-lt zero a = omega arith
bit-lt (suc k) a = bit-lt k (a / 2)

pub bit-zero : (k : ℕ) → bit k 0 ≡ 0
bit-zero zero = refl
bit-zero (suc k) = bit-zero k

-- Numbers with the same bits are the same.
bits_below : (n a b : ℕ) → a ≤ n → b ≤ n → ((k : ℕ) → bit k a ≡ bit k b) → a ≡ b
bits_below zero a b p q same = omega arith
bits_below (suc n) a b p q same =
    let low : a % 2 ≡ b % 2 = same 0 in
    omega (arith, low, bits_below n (a / 2) (b / 2) (omega arith) (omega arith) (λ k. same (suc k)))

bits_ext : (a b : ℕ) → ((k : ℕ) → bit k a ≡ bit k b) → a ≡ b
bits_ext a b = bits_below (a + b) a b (omega arith) (omega arith)

-- A digit recursion acts on each bit by the function on digits.
module _ (z : ℕ → ℕ) (f : ℕ → ℕ → ℕ) (small : (x y : ℕ) → x < 2 → y < 2 → f x y < 2)
    (rest : (k b : ℕ) → bit k (z b) ≡ f 0 (bit k b)) where
  at_zero : (k b : ℕ) → bit k (z b) ≡ f (bit k 0) (bit k b)
  at_zero k b = rw (bit-zero k) (rest k b)

  bit-digits : (n k a b : ℕ) → a ≤ n → bit k (digits z f n a b) ≡ f (bit k a) (bit k b)
  bit-digits zero k zero b p = at_zero k b
  bit-digits zero k (suc a) b p = absurd (omega arith)
  bit-digits (suc n) k zero b p = at_zero k b
  bit-digits (suc n) zero (suc a) b p =
      omega (arith, small (suc a % 2) (b % 2) (omega arith) (omega arith))
  bit-digits (suc n) (suc k) (suc a) b p =
      let d = digits z f n (suc a / 2) (b / 2) in
      let e : (d * 2 + f (suc a % 2) (b % 2)) / 2 ≡ d =
        omega (arith, small (suc a % 2) (b % 2) (omega arith) (omega arith)) in
      rw e (bit-digits n k (suc a / 2) (b / 2) (omega arith))

differ-lt : (x y : ℕ) → x < 2 → y < 2 → differ x y < 2
differ-lt zero y p q = q
differ-lt (suc zero) zero p q = omega arith
differ-lt (suc zero) (suc y) p q = omega arith
differ-lt (suc (suc x)) y p q = absurd (omega arith)

pub bit-bit_and : (k a b : ℕ) → bit k (bit_and a b) ≡ min (bit k a) (bit k b)
bit-bit_and k a b = rw (bit_and-bitwise a b) (
    bit-digits (λ y. zero) min (λ x y p q. omega arith) (λ j y. rw (bit-zero j) (omega arith)) a k a
      b (le_refl a))

pub bit-bit_or : (k a b : ℕ) → bit k (bit_or a b) ≡ max (bit k a) (bit k b)
bit-bit_or k a b =
    rw (bit_or-bitwise a b)
      (bit-digits (λ y. y) max (λ x y p q. omega arith) (λ j y. omega arith) a k a b (le_refl a))

pub bit-bit_xor : (k a b : ℕ) → bit k (bit_xor a b) ≡ differ (bit k a) (bit k b)
bit-bit_xor k a b =
    rw (bit_xor-bitwise a b)
      (bit-digits (λ y. y) differ differ-lt (λ j y. refl) a k a b (le_refl a))

-- The operations on the halves.
bit_and_half : (a b : ℕ) → bit_and a b / 2 ≡ bit_and (a / 2) (b / 2)
bit_and_half a b = bits_ext _ _ (λ k. bit-bit_and (suc k) a b ∙ sym (bit-bit_and k (a / 2) (b / 2)))

bit_or_half : (a b : ℕ) → bit_or a b / 2 ≡ bit_or (a / 2) (b / 2)
bit_or_half a b = bits_ext _ _ (λ k. bit-bit_or (suc k) a b ∙ sym (bit-bit_or k (a / 2) (b / 2)))

bit_xor_half : (a b : ℕ) → bit_xor a b / 2 ≡ bit_xor (a / 2) (b / 2)
bit_xor_half a b = bits_ext _ _ (λ k. bit-bit_xor (suc k) a b ∙ sym (bit-bit_xor k (a / 2) (b / 2)))

-- A mask of one bit.
pub bit_and-zero : (a : ℕ) → bit_and a 0 ≡ 0
bit_and-zero a = bits_ext _ _ (λ k. bit-bit_and k a 0 ∙ rw (bit-zero k) (omega arith))

pub bit_and-pow : (k a : ℕ) → bit_and a (2 ^ k) ≡ bit k a * 2 ^ k
bit_and-pow zero a =
    let low : bit_and a 1 % 2 ≡ min (a % 2) 1 = bit-bit_and 0 a 1 in
    let high : bit_and a 1 / 2 ≡ bit_and (a / 2) 0 = bit_and_half a 1 in
    omega (arith, low, high, bit_and-zero (a / 2))
bit_and-pow (suc k) a =
    let p : 2 ^ suc k ≡ 2 ^ k * 2 = pow-suc 2 k in
    let half : 2 ^ k * 2 / 2 ≡ 2 ^ k = omega arith in
    let low : bit_and a (2 ^ k * 2) % 2 ≡ min (a % 2) (2 ^ k * 2 % 2) = bit-bit_and 0 a _ in
    let high : bit_and a (2 ^ k * 2) / 2 ≡ bit_and (a / 2) (2 ^ k) =
      rw half at (bit_and_half a (2 ^ k * 2)) in
    rw p (omega (arith, low, high, bit_and-pow k (a / 2)))

abbrev pub is_one : ℕ → Bool
is_one n = n == 1

test_bit : (n b p : ℕ) → n ≡ b * p → b < 2 → 0 < p → not (n == 0) ≡ is_one b
test_bit n zero p h l q = ground arith
test_bit n (suc zero) p h l q = ground arith
test_bit n (suc (suc b)) p h l q = absurd (omega arith)

pub bit_test-pow : (k n : ℕ) → bit_test n (2 ^ k) ≡ is_one (bit k n)
bit_test-pow k n =
    test_bit _ (bit k n) (2 ^ k) (bit_and-pow k n) (bit-lt k n) (one-le-pow k 2 (omega arith))

-- The number that the `k` low bits make, which is the remainder by `2 ^ k`.
abbrev pub low_part : ℕ → ℕ → ℕ
low_part zero a = 0
low_part (suc k) a = low_part k (a / 2) * 2 + a % 2

bit_and-ones : (k a : ℕ) → bit_and a (2 ^ k - 1) ≡ low_part k a
bit_and-ones zero a = bit_and-zero a
bit_and-ones (suc k) a =
    let p : 2 ^ suc k ≡ 2 ^ k * 2 = pow-suc 2 k in
    let one : 1 ≤ 2 ^ k = one-le-pow k 2 (omega arith) in
    let half : (2 ^ suc k - 1) / 2 ≡ 2 ^ k - 1 = omega (arith, p, one) in
    let low : bit_and a (2 ^ suc k - 1) % 2 ≡ min (a % 2) ((2 ^ suc k - 1) % 2) =
      bit-bit_and 0 a _ in
    let high : bit_and a (2 ^ suc k - 1) / 2 ≡ bit_and (a / 2) (2 ^ k - 1) =
      rw half at (bit_and_half a (2 ^ suc k - 1)) in
    omega (arith, p, one, low, high, bit_and-ones k (a / 2))

pub bit_and-0xf : (a : ℕ) → bit_and a 0xf ≡ a % 16
bit_and-0xf a = omega (arith, bit_and-ones 4 a)

pub bit_and-0xff : (a : ℕ) → bit_and a 0xff ≡ a % 256
bit_and-0xff a = omega (arith, bit_and-ones 8 a)

pub bit_and-0x3fff : (a : ℕ) → bit_and a 0x3fff ≡ a % 16384
bit_and-0x3fff a = omega (arith, bit_and-ones 14 a)

-- Fields that do not overlap add up.
bit_or-zero : (a : ℕ) → bit_or 0 a ≡ a
bit_or-zero a = bits_ext _ _ (λ k. bit-bit_or k 0 a ∙ rw (bit-zero k) (omega arith))

pub bit_or-fields : (k q r : ℕ) → r < 2 ^ k → bit_or (q * 2 ^ k) r ≡ q * 2 ^ k + r
bit_or-fields zero q zero h =
    let e : bit_or (q * 1) 0 ≡ q * 1 =
      bits_ext _ _ (λ j. bit-bit_or j (q * 1) 0 ∙ rw (bit-zero j) (omega arith)) in
    omega (arith, e)
bit_or-fields zero q (suc r) h = absurd (omega arith)
bit_or-fields (suc k) q r h =
    let p : 2 ^ suc k ≡ 2 ^ k * 2 = pow-suc 2 k in
    let even : q * 2 ^ suc k ≡ q * 2 ^ k * 2 = rw p (omega arith) in
    let half : q * 2 ^ k * 2 / 2 ≡ q * 2 ^ k = omega arith in
    let low : bit_or (q * 2 ^ k * 2) r % 2 ≡ max (q * 2 ^ k * 2 % 2) (r % 2) = bit-bit_or 0 _ r in
    let high : bit_or (q * 2 ^ k * 2) r / 2 ≡ bit_or (q * 2 ^ k) (r / 2) =
      rw half at (bit_or_half (q * 2 ^ k * 2) r) in
    rw even (omega (arith, low, high, bit_or-fields k q (r / 2) (omega (arith, p))))

-- Results stay within the width.
pub bit_or-lt : (k a b : ℕ) → a < 2 ^ k → b < 2 ^ k → bit_or a b < 2 ^ k
bit_or-lt zero a b p q =
    let ea : a ≡ 0 = omega arith in let eb : b ≡ 0 = omega arith in rw (ea, eb) (omega arith)
bit_or-lt (suc k) a b p q =
    let e : 2 ^ suc k ≡ 2 ^ k * 2 = pow-suc 2 k in
    let ih = bit_or-lt k (a / 2) (b / 2) (omega (arith, e)) (omega (arith, e)) in
    omega (arith, e, bit_or_half a b, ih)

pub bit_xor-lt : (k a b : ℕ) → a < 2 ^ k → b < 2 ^ k → bit_xor a b < 2 ^ k
bit_xor-lt zero a b p q =
    let ea : a ≡ 0 = omega arith in let eb : b ≡ 0 = omega arith in rw (ea, eb) (omega arith)
bit_xor-lt (suc k) a b p q =
    let e : 2 ^ suc k ≡ 2 ^ k * 2 = pow-suc 2 k in
    let ih = bit_xor-lt k (a / 2) (b / 2) (omega (arith, e)) (omega (arith, e)) in
    omega (arith, e, bit_xor_half a b, ih)

bit_and-le_below : (n a b : ℕ) → a ≤ n → bit_and a b ≤ a
bit_and-le_below zero a b p =
    let ea : a ≡ 0 = omega arith in rw (ea, bit_and-bitwise 0 b) (omega arith)
bit_and-le_below (suc n) a b p =
    let low : bit_and a b % 2 ≡ min (a % 2) (b % 2) = bit-bit_and 0 a b in
    let ih : 1 ≤ a → bit_and (a / 2) (b / 2) ≤ a / 2 =
      λ h. bit_and-le_below n (a / 2) (b / 2) (omega arith) in
    elim (dec_lt 0 a) [
      | yes h ↦ omega (arith, low, bit_and_half a b, ih h)
      | no h ↦ let ea : a ≡ 0 = omega arith in rw (ea, bit_and-bitwise 0 b) (omega arith)
    ]

pub bit_and-le : (a b : ℕ) → bit_and a b ≤ a
bit_and-le a b = bit_and-le_below a a b (le_refl a)

pub bit_and-lt : (k a b : ℕ) → a < 2 ^ k → bit_and a b < 2 ^ k
bit_and-lt k a b h = omega (arith, bit_and-le a b)

-- A mask that is shifted up selects from the number shifted down.
abbrev halve : ℕ → ℕ → ℕ
halve zero a = a
halve (suc k) a = halve k (a / 2)

bit_and-shifted : (k a m : ℕ) → bit_and a (m * 2 ^ k) ≡ bit_and (halve k a) m * 2 ^ k
bit_and-shifted zero a m = let one : m * 2 ^ 0 ≡ m = omega arith in rw one (omega arith)
bit_and-shifted (suc k) a m =
    let p : 2 ^ suc k ≡ 2 ^ k * 2 = pow-suc 2 k in
    let even : m * 2 ^ suc k ≡ m * 2 ^ k * 2 = rw p (omega arith) in
    let half : m * 2 ^ k * 2 / 2 ≡ m * 2 ^ k = omega arith in
    let low : bit_and a (m * 2 ^ k * 2) % 2 ≡ min (a % 2) (m * 2 ^ k * 2 % 2) = bit-bit_and 0 a _ in
    let high : bit_and a (m * 2 ^ k * 2) / 2 ≡ bit_and (a / 2) (m * 2 ^ k) =
      rw half at (bit_and_half a (m * 2 ^ k * 2)) in
    let up : bit_and (halve k (a / 2)) m * 2 ^ suc k ≡ bit_and (halve k (a / 2)) m * 2 ^ k * 2 =
      rw p (omega arith) in
    rw (even, up) (omega (arith, low, high, bit_and-shifted k (a / 2) m))

pub bit_and-0xff00 : (a : ℕ) → bit_and a 0xff00 ≡ a / 256 % 256 * 256
bit_and-0xff00 a =
    let low : bit_and (halve 8 a) 0xff ≡ halve 8 a % 256 = bit_and-0xff (halve 8 a) in
    omega (arith, bit_and-shifted 8 a 0xff, low)

pub bit_or_comm : (a b : ℕ) → bit_or a b ≡ bit_or b a
bit_or_comm a b = bits_ext _ _ (λ k. bit-bit_or k a b ∙ omega (arith, bit-bit_or k b a))
