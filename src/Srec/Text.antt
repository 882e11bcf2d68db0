-- ===== src/Srec/Text.antt =====
-- The characters and hexadecimal fields of srec_loader.cpp. A text is the list of its characters'
-- codes.
use pugputer6309_emulator.Base.{
  ℕ, zero, suc, ◌+◌, ◌-◌, ◌*◌, Bool, true, false, ◌&&◌, ◌||◌, Option, none, some, List, [], ◌∷◌,
  leb, ◌==◌, if◌then◌else◌, u8, bit_or, length, get_or,
}

unfoldable pub hex_nibble : ℕ → Option ℕ
hex_nibble c =
    if leb b'0' c && leb c b'9'
    then some (c - b'0')
    else (if leb b'A' c && leb c b'F'
        then some (c - b'A' + 10)
        else (if leb b'a' c && leb c b'f' then some (c - b'a' + 10) else none))

-- `s[i]`; one past the last character stands a 0.
abbrev pub char_at : List ℕ → ℕ → ℕ
char_at = get_or 0

abbrev pub join_nibbles : Option ℕ → Option ℕ → Option ℕ
join_nibbles (some hi) (some lo) = some (u8 (bit_or (hi * 16) lo))
join_nibbles (some hi) none = none
join_nibbles none lo = none

unfoldable pub hex_byte : List ℕ → ℕ → Option ℕ
hex_byte s pos =
    if leb (length s) (pos + 1)
    then none
    else join_nibbles (hex_nibble (char_at s pos)) (hex_nibble (char_at s (pos + 1)))

-- The characters that `rstrip` takes off: CR, LF, space and tab.
abbrev pub is_stripped : ℕ → Bool
is_stripped c = c == 13 || c == 10 || c == 32 || c == 9

abbrev pub is_empty : List ℕ → Bool
is_empty [] = true
is_empty (c ∷ s) = false

unfoldable pub rstrip : List ℕ → List ℕ
rstrip [] = []
rstrip (c ∷ s) = let rest = rstrip s in if is_stripped c && is_empty rest then [] else c ∷ rest

abbrev pub cons_byte : Option ℕ → Option (List ℕ) → Option (List ℕ)
cons_byte (some b) (some bs) = some (b ∷ bs)
cons_byte (some b) none = none
cons_byte none bs = none

-- A loop of `hex_byte(line, pos, b)` and `pos += 2`, with the bytes it reads.
unfoldable pub read_bytes : List ℕ → ℕ → ℕ → Option (List ℕ)
read_bytes s pos zero = some []
read_bytes s pos (suc n) = cons_byte (hex_byte s pos) (read_bytes s (pos + 2) n)
