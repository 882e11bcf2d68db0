-- ===== src/Srec/Hex.antt =====
-- Bytes written as hexadecimal text, and what the loader's functions read there.
use pugputer6309_emulator.Base.{
  ℕ, zero, suc, ◌+◌, ◌-◌, ◌*◌, ◌/◌, ◌%◌, ◌<◌, ◌≡◌, refl, ap, ◌∙◌, true, false, some, List, [], ◌∷◌,
  ◌++◌, arith, leb, ltb, if◌then◌else◌, bit_or, length, All,
}
use pugputer6309_emulator.Base.Bits.{bit_or-fields}
use pugputer6309_emulator.Srec.Text.{hex_nibble, hex_byte, read_bytes, is_stripped, rstrip}

abbrev pub hex_digit : ℕ → ℕ
hex_digit n = if ltb n 10 then b'0' + n else b'A' + (n - 10)

-- Two digits for each byte.
abbrev pub hex_text : List ℕ → List ℕ
hex_text [] = []
hex_text (b ∷ bs) = hex_digit (b / 16) ∷ hex_digit (b % 16) ∷ hex_text bs

abbrev pub IsByte : ℕ → Type 0
IsByte b = b < 256

pub length-hex_text : (bs : List ℕ) → length (hex_text bs) ≡ 2 * length bs
length-hex_text [] = refl
length-hex_text (b ∷ bs) = omega (arith, length-hex_text bs)

hex_nibble-hex_digit : (n : ℕ) → n < 16 → hex_nibble (hex_digit n) ≡ some n
unfolding hex_nibble
hex_nibble-hex_digit n h = ground arith

pub hex_byte-hex_text : (b : ℕ) (bs : List ℕ) → b < 256 → hex_byte (hex_text (b ∷ bs)) 0 ≡ some b
unfolding hex_byte
hex_byte-hex_text b bs h =
    let whole : bit_or (b / 16 * 16) (b % 16) ≡ b / 16 * 16 + b % 16 =
      bit_or-fields 4 (b / 16) (b % 16) (omega arith) in
    let long : leb (suc (suc (length (hex_text bs)))) 1 ≡ false = ground arith in
    rw
      (
        long,
        hex_nibble-hex_digit (b / 16) (omega arith),
        hex_nibble-hex_digit (b % 16) (omega arith),
        whole,
      )
      (ap some (omega arith))

-- Two characters in front of the text move the position by 2.
pub hex_byte-shift :
    (c d : ℕ) (s : List ℕ) (pos : ℕ) → hex_byte (c ∷ d ∷ s) (pos + 2) ≡ hex_byte s pos
unfolding hex_byte
hex_byte-shift c d s pos =
    let at : pos + 2 ≡ suc (suc pos) = omega arith in
    let next : pos + 2 + 1 ≡ suc (suc (pos + 1)) = omega arith in
    let guard : leb (length (c ∷ d ∷ s)) (suc (suc (pos + 1))) ≡ leb (length s) (pos + 1) =
      ground arith in
    rw (next, at, guard)

pub read_bytes-shift :
    (c d : ℕ) (s : List ℕ) (pos n : ℕ) → read_bytes (c ∷ d ∷ s) (pos + 2) n ≡ read_bytes s pos n
unfolding read_bytes
read_bytes-shift c d s pos zero = refl
read_bytes-shift c d s pos (suc n) =
    rw (hex_byte-shift c d s pos, read_bytes-shift c d s (pos + 2) n)

pub hex_byte-skip :
    (bs more : List ℕ)
    → hex_byte (hex_text (bs ++ more)) (2 * length bs) ≡ hex_byte (hex_text more) 0
hex_byte-skip [] more = refl
hex_byte-skip (b ∷ bs) more =
    let two : 2 * suc (length bs) ≡ 2 * length bs + 2 = omega arith in
    rw two (hex_byte-shift _ _ (hex_text (bs ++ more)) (2 * length bs) ∙ hex_byte-skip bs more)

pub read_bytes-skip :
    (bs more : List ℕ) (n : ℕ)
    → read_bytes (hex_text (bs ++ more)) (2 * length bs) n ≡ read_bytes (hex_text more) 0 n
read_bytes-skip [] more n = refl
read_bytes-skip (b ∷ bs) more n =
    let two : 2 * suc (length bs) ≡ 2 * length bs + 2 = omega arith in
    rw two
      (read_bytes-shift _ _ (hex_text (bs ++ more)) (2 * length bs) n ∙ read_bytes-skip bs more n)

pub read_bytes-hex_text :
    (bs more : List ℕ) → All IsByte bs → read_bytes (hex_text (bs ++ more)) 0 (length bs) ≡ some bs
unfolding read_bytes
read_bytes-hex_text [] more h = refl
read_bytes-hex_text (b ∷ bs) more h = rw (
  hex_byte-hex_text b (bs ++ more) h.0,
  read_bytes-shift (hex_digit (b / 16)) (hex_digit (b % 16)) (hex_text (bs ++ more)) 0 (length bs),
  read_bytes-hex_text bs more h.1,
)

abbrev pub IsKept : ℕ → Type 0
IsKept c = is_stripped c ≡ false

pub hex_text-IsKept : (bs : List ℕ) → All IsByte bs → All IsKept (hex_text bs)
hex_text-IsKept [] h = tt
hex_text-IsKept (b ∷ bs) h = (ground arith, (ground arith, hex_text-IsKept bs h.1))

-- `rstrip` takes off what follows the last character that is kept.
pub rstrip-append :
    (s end : List ℕ) → All IsKept s → All (λ c. is_stripped c ≡ true) end → rstrip (s ++ end) ≡ s
unfolding rstrip
rstrip-append [] [] h k = refl
rstrip-append [] (c ∷ end) h k = rw (rstrip-append [] end tt k.1, k.0)
rstrip-append (c ∷ s) end h k = rw (rstrip-append s end h.1 k, h.0)
