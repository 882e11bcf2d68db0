-- ===== src/Srec/Printed.antt =====
-- Records written as lines of text.
use native.Mathlib.Nat.{pow-suc}
use pugputer6309_emulator.Base.{
  ℕ, zero, suc, ◌+◌, ◌*◌, ◌/◌, ◌%◌, ◌^◌, ◌<◌, ◌≡◌, refl, ◌∙◌, List, [], ◌∷◌, ◌++◌, arith, u32,
  bit_or, length, length-append, All,
}
use pugputer6309_emulator.Base.Bits.{bit_or-fields}
use pugputer6309_emulator.Srec.Text.{hex_byte, read_bytes}
use pugputer6309_emulator.Srec.Parse.{address_of, byte_sum, checksum_of}
use pugputer6309_emulator.Srec.Hex.{
  hex_text, IsByte, hex_byte-shift, read_bytes-shift, hex_byte-skip, read_bytes-skip,
}

-- The `n` low bytes of `a`, the highest first.
abbrev pub address_bytes : ℕ → ℕ → List ℕ
address_bytes zero a = []
address_bytes (suc n) a = address_bytes n (a / 256) ++ a % 256 ∷ []

pub length-address_bytes : (n a : ℕ) → length (address_bytes n a) ≡ n
length-address_bytes zero a = refl
length-address_bytes (suc n) a = omega (
  arith,
  length-append (address_bytes n (a / 256)) (a % 256 ∷ []),
  length-address_bytes n (a / 256),
)

pub All-IsByte-append : (xs ys : List ℕ) → All IsByte xs → All IsByte ys → All IsByte (xs ++ ys)
All-IsByte-append [] ys h k = k
All-IsByte-append (x ∷ xs) ys h k = (h.0, All-IsByte-append xs ys h.1 k)

pub address_bytes-IsByte : (n a : ℕ) → All IsByte (address_bytes n a)
address_bytes-IsByte zero a = tt
address_bytes-IsByte (suc n) a =
    All-IsByte-append (address_bytes n (a / 256)) (a % 256 ∷ []) (address_bytes-IsByte n (a / 256))
      (omega arith, tt)

address_of-append :
    (a b : ℕ) (bs : List ℕ) → address_of a (bs ++ b ∷ []) ≡ bit_or (u32 (address_of a bs * 256)) b
unfolding address_of
address_of-append a b [] = refl
address_of-append a b (c ∷ bs) = address_of-append (bit_or (u32 (a * 256)) c) b bs

pub address_of-address_bytes :
    (n a : ℕ) → a < 256 ^ n → a < 2 ^ 32 → address_of 0 (address_bytes n a) ≡ a
unfolding address_of
address_of-address_bytes zero a h k = omega arith
address_of-address_bytes (suc n) a h k =
    let p : 256 ^ suc n ≡ 256 ^ n * 256 = pow-suc 256 n in
    let high : address_of 0 (address_bytes n (a / 256)) ≡ a / 256 =
      address_of-address_bytes n (a / 256) (omega (arith, p)) (omega arith) in
    let shifted : u32 (a / 256 * 256) ≡ a / 256 * 256 = omega arith in
    address_of-append 0 (a % 256) (address_bytes n (a / 256))
    ∙ rw (high, shifted) (bit_or-fields 8 (a / 256) (a % 256) (omega arith) ∙ omega arith)

-- The byte count, the address and the data of a record of type `t` with `n` bytes of address.
abbrev pub record_bytes : ℕ → ℕ → List ℕ → List ℕ
record_bytes n a bs = (n + length bs + 1) ∷ address_bytes n a ++ bs

-- The line of an S-record file: "S", the type, and the bytes and a last byte in hexadecimal.
abbrev pub print_line : ℕ → ℕ → ℕ → List ℕ → ℕ → List ℕ
print_line t n a bs sum = b'S' ∷ t ∷ hex_text (record_bytes n a bs ++ sum ∷ [])

-- The line with the checksum as its last byte.
abbrev pub print_record : ℕ → ℕ → ℕ → List ℕ → List ℕ
print_record t n a bs = print_line t n a bs (checksum_of (byte_sum (record_bytes n a bs)))

module _ (c d count : ℕ) (before more : List ℕ) where
  pub at_field : 4 + 2 * length before ≡ 2 * length before + 2 + 2
  at_field = omega arith

  pub read_bytes_at :
      (n : ℕ)
      → read_bytes (c ∷ d ∷ hex_text (count ∷ before ++ more)) (4 + 2 * length before) n
        ≡ read_bytes (hex_text more) 0 n
  read_bytes_at n = rw at_field (
      read_bytes-shift c d (hex_text (count ∷ before ++ more)) (2 * length before + 2) n
      ∙ read_bytes-shift _ _ (hex_text (before ++ more)) (2 * length before) n
      ∙ read_bytes-skip before more n)

  pub hex_byte_at :
      hex_byte (c ∷ d ∷ hex_text (count ∷ before ++ more)) (4 + 2 * length before)
      ≡ hex_byte (hex_text more) 0
  hex_byte_at = rw at_field (
      hex_byte-shift c d (hex_text (count ∷ before ++ more)) (2 * length before + 2)
      ∙ hex_byte-shift _ _ (hex_text (before ++ more)) (2 * length before)
      ∙ hex_byte-skip before more)

pub byte_sum-append : (xs ys : List ℕ) → byte_sum (xs ++ ys) ≡ byte_sum xs + byte_sum ys
unfolding byte_sum
byte_sum-append [] ys = omega arith
byte_sum-append (x ∷ xs) ys = omega (arith, byte_sum-append xs ys)
