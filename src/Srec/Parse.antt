-- ===== src/Srec/Parse.antt =====
-- One line of `load_srec_file` up to the check of its checksum.
use pugputer6309_emulator.Base.{
  ℕ, ◌+◌, ◌-◌, ◌*◌, ◌%◌, Bool, true, false, not, ◌||◌, Option, none, some, List, [], ◌∷◌, ltb, ◌==◌,
  if◌then◌else◌, u32, bit_or, length, Outcome, ok, ◌>>=◌, ◌>>◌, refuse_if, ok_or,
}
use pugputer6309_emulator.Srec.Text.{char_at, hex_byte, read_bytes}

-- The messages that name a line.
pub data LineError : Type 0 where
  expected_s : LineError
  record_too_short : LineError
  malformed_byte_count : LineError
  unknown_record_type : ℕ → LineError
  shorter_than_byte_count : LineError
  byte_count_too_small : LineError
  malformed_address : LineError
  malformed_data : LineError
  malformed_checksum : LineError
  checksum_mismatch : ℕ → ℕ → LineError
  extends_past_end : ℕ → LineError

pub record SrecRecord : Type 0 where
  pub is_data : Bool
  pub address : ℕ
  pub bytes : List ℕ

-- `switch (type)`: the length of the address and whether the record holds data.
unfoldable pub record_type : ℕ → Option (ℕ × Bool)
record_type c =
    if c == b'0'
    then some (2, false)
    else (if c == b'1'
        then some (2, true)
        else (if c == b'2'
            then some (3, true)
            else (if c == b'3'
                then some (4, true)
                else (if c == b'5'
                    then some (2, false)
                    else (if c == b'6'
                        then some (3, false)
                        else (if c == b'7'
                            then some (4, false)
                            else (if c == b'8'
                                then some (3, false)
                                else (if c == b'9' then some (2, false) else none))))))))

-- `address = (address << 8) | b` over the bytes of the address field.
unfoldable pub address_of : ℕ → List ℕ → ℕ
address_of address [] = address
address_of address (b ∷ bs) = address_of (bit_or (u32 (address * 256)) b) bs

-- The loader reads only the low 8 bits of its sum, so that the sum's width does not matter.
unfoldable pub byte_sum : List ℕ → ℕ
byte_sum [] = 0
byte_sum (b ∷ bs) = b + byte_sum bs

-- `~sum & 0xFF`
abbrev pub checksum_of : ℕ → ℕ
checksum_of sum = 255 - sum % 256

-- From the address field to the checksum, for a record of `count` bytes.
unfoldable pub parse_fields : List ℕ → ℕ → ℕ → Bool → Outcome LineError SrecRecord
parse_fields line count addr_bytes is_data = do
  addr ← ok_or (read_bytes line 4 addr_bytes) malformed_address
  bytes ← ok_or (read_bytes line (4 + 2 * addr_bytes) (count - addr_bytes - 1)) malformed_data
  sum ← ok_or (hex_byte line (4 + 2 * addr_bytes + 2 * (count - addr_bytes - 1))) malformed_checksum
  let expected = checksum_of (count + byte_sum addr + byte_sum bytes)
  refuse_if (not (sum == expected)) (checksum_mismatch sum expected)
  ok (record { is_data = is_data; address = address_of 0 addr; bytes = bytes })

abbrev pub starts_with_s : List ℕ → Bool
starts_with_s line = char_at line 0 == b'S' || char_at line 0 == b's'

-- A line that `rstrip` left some character of.
unfoldable pub parse_line : List ℕ → Outcome LineError SrecRecord
parse_line line = do
  refuse_if (not (starts_with_s line)) expected_s
  refuse_if (ltb (length line) 4) record_too_short
  count ← ok_or (hex_byte line 2) malformed_byte_count
  t ← ok_or (record_type (char_at line 1)) (unknown_record_type (char_at line 1))
  refuse_if (ltb (length line) (4 + count * 2)) shorter_than_byte_count
  refuse_if (ltb count (t.0 + 1)) byte_count_too_small
  parse_fields line count t.0 t.1
