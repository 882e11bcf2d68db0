-- ===== src/Srec/Roundtrip.antt =====
-- What the loader makes of a record written as a line.
use mathlib.Core.List.{append_assoc}
use pugputer6309_emulator.Base.{
  ◌≢◌, sym, err, ℕ, suc, ◌+◌, ◌-◌, ◌*◌, ◌^◌, ◌<◌, ◌≡◌, refl, ap, ◌∙◌, Bool, true, false, some, List,
  [], ◌∷◌, ◌++◌, arith, ltb, length, length-append, All, ok,
}
use pugputer6309_emulator.Srec.Text.{hex_byte, read_bytes, is_stripped, rstrip}
use pugputer6309_emulator.Srec.Parse.{
  LineError, checksum_mismatch, record_type, address_of, byte_sum, checksum_of, parse_fields,
  parse_line, SrecRecord,
}
use pugputer6309_emulator.Srec.Load.{Loaded, load_line, apply_record}
use pugputer6309_emulator.Srec.Hex.{
  hex_text, IsByte, IsKept, length-hex_text, hex_byte-hex_text, hex_byte-shift, read_bytes-hex_text,
  hex_text-IsKept, rstrip-append,
}
use pugputer6309_emulator.Srec.Printed.{
  address_bytes, length-address_bytes, All-IsByte-append, address_bytes-IsByte,
  address_of-address_bytes, record_bytes, print_line, print_record, read_bytes_at, hex_byte_at,
  byte_sum-append,
}

-- The fields of a line whose bytes are given, with their checksum.
module _ (c d count sum : ℕ) (addr bs : List ℕ) (is_data : Bool)
    (fits : count ≡ length addr + length bs + 1) (small : sum < 256) (addr_bytes : All IsByte addr)
    (bs_bytes : All IsByte bs) where
  abbrev line : List ℕ
  line = c ∷ d ∷ hex_text (count ∷ addr ++ (bs ++ sum ∷ []))

  data_length : count - length addr - 1 ≡ length bs
  data_length = omega arith

  addr_read : read_bytes line 4 (length addr) ≡ some addr
  addr_read =
      read_bytes_at c d count [] (addr ++ (bs ++ sum ∷ [])) (length addr)
      ∙ read_bytes-hex_text addr (bs ++ sum ∷ []) addr_bytes

  data_read : read_bytes line (4 + 2 * length addr) (length bs) ≡ some bs
  data_read =
      read_bytes_at c d count addr (bs ++ sum ∷ []) (length bs)
      ∙ read_bytes-hex_text bs (sum ∷ []) bs_bytes

  sum_read : hex_byte line (4 + 2 * length addr + 2 * length bs) ≡ some sum
  sum_read =
      let here : 4 + 2 * length addr + 2 * length bs ≡ 4 + 2 * length (addr ++ bs) =
        omega (arith, length-append addr bs) in
      rw (here, ← append_assoc addr bs (sum ∷ []))
        (hex_byte_at c d count (addr ++ bs) (sum ∷ []) ∙ hex_byte-hex_text sum [] small)

  abbrev right_sum : ℕ
  right_sum = checksum_of (count + byte_sum addr + byte_sum bs)

  parse_fields-line :
      sum ≡ right_sum
      → parse_fields line count (length addr) is_data
        ≡ ok (record { is_data = is_data; address = address_of 0 addr; bytes = bs })
  unfolding parse_fields
  parse_fields-line summed = rw (data_length, addr_read, data_read, sum_read) (ground arith)

  parse_fields-mismatch :
      sum ≢ right_sum
      → parse_fields line count (length addr) is_data ≡ err (checksum_mismatch sum right_sum)
  unfolding parse_fields
  parse_fields-mismatch other = rw (data_length, addr_read, data_read, sum_read) (ground arith)

record_type-IsKept : (t n : ℕ) (d : Bool) → record_type t ≡ some (n, d) → is_stripped t ≡ false
unfolding record_type
record_type-IsKept t n d h = ground arith

load_line-parsed :
    (mem_size : ℕ) (l : Loaded) (line : List ℕ) (c : ℕ) (s : List ℕ) (r : SrecRecord)
    → rstrip line ≡ c ∷ s
    → parse_line (c ∷ s) ≡ ok r
    → load_line mem_size l line ≡ apply_record mem_size l r
unfolding load_line
load_line-parsed mem_size l line c s r e parsed = rw (e, parsed)

load_line-refused :
    (mem_size : ℕ) (l : Loaded) (line : List ℕ) (c : ℕ) (s : List ℕ) (m : LineError)
    → rstrip line ≡ c ∷ s
    → parse_line (c ∷ s) ≡ err m
    → load_line mem_size l line ≡ err m
unfolding load_line
load_line-refused mem_size l line c s m e refused = rw (e, refused)

-- A line of a type that the loader knows, with bytes that its byte count can count and a last byte.
module _ (t n : ℕ) (is_data : Bool) (a : ℕ) (bs : List ℕ) (sum : ℕ)
    (known : record_type t ≡ some (n, is_data)) (counted : n + length bs + 1 < 256)
    (bytes : All IsByte bs) (small : sum < 256) where
  abbrev count : ℕ
  count = n + length bs + 1

  abbrev fields : List ℕ
  fields = count ∷ address_bytes n a ++ (bs ++ sum ∷ [])

  print_line-fields : print_line t n a bs sum ≡ b'S' ∷ t ∷ hex_text fields
  print_line-fields =
      ap (λ (r : List ℕ). b'S' ∷ t ∷ hex_text (count ∷ r))
        (append_assoc (address_bytes n a) bs (sum ∷ []))

  length-fields : length fields ≡ count + 1
  length-fields = omega (
    arith,
    length-append (address_bytes n a) (bs ++ sum ∷ []),
    length-append bs (sum ∷ []),
    length-address_bytes n a,
  )

  fields-IsByte : All IsByte fields
  fields-IsByte = (
    counted,
    All-IsByte-append (address_bytes n a) _ (address_bytes-IsByte n a)
        (All-IsByte-append bs _ bytes (small, tt)),
  )

  line-fields :
      parse_line (b'S' ∷ t ∷ hex_text fields)
      ≡ parse_fields (b'S' ∷ t ∷ hex_text fields) count n is_data
  unfolding parse_line
  line-fields =
      let count_read : hex_byte (b'S' ∷ t ∷ hex_text fields) 2 ≡ some count =
        hex_byte-shift b'S' t (hex_text fields) 0 ∙ hex_byte-hex_text count _ counted in
      let long : ltb (suc (suc (length (hex_text fields)))) 4 ≡ false =
        ground (arith, length-hex_text fields) in
      let whole : ltb (suc (suc (length (hex_text fields)))) (4 + count * 2) ≡ false =
        ground (arith, length-hex_text fields, length-fields) in
      let enough : ltb count (n + 1) ≡ false = ground arith in
      rw (long, count_read, known, whole, enough)

  line-IsKept : All IsKept (b'S' ∷ t ∷ hex_text fields)
  line-IsKept = (refl, (record_type-IsKept t n is_data known, hex_text-IsKept fields fields-IsByte))

  count_lem : count ≡ length (address_bytes n a) + length bs + 1
  count_lem = omega (arith, length-address_bytes n a)

  sum_lem :
      checksum_of (byte_sum (record_bytes n a bs))
      ≡ checksum_of (count + byte_sum (address_bytes n a) + byte_sum bs)
  unfolding byte_sum
  sum_lem = ap checksum_of (omega (arith, byte_sum-append (address_bytes n a) bs))

  -- Any ending of CR, LF, spaces and tabs.
  module _ (mem_size : ℕ) (l : Loaded) (end : List ℕ)
      (blank : All (λ c. is_stripped c ≡ true) end) where
    load_line-accepted :
        sum ≡ checksum_of (byte_sum (record_bytes n a bs))
        → a < 256 ^ n
        → a < 2 ^ 32
        → load_line mem_size l (print_line t n a bs sum ++ end)
          ≡ apply_record mem_size l (record { is_data = is_data; address = a; bytes = bs })
    load_line-accepted summed addressed word =
        let parsed =
          parse_fields-line b'S' t count sum (address_bytes n a) bs is_data count_lem small
            (address_bytes-IsByte n a) bytes (summed ∙ sum_lem) in
        ap (λ (s : List ℕ). load_line mem_size l (s ++ end)) print_line-fields
        ∙ load_line-parsed mem_size l _ b'S' _ _ (rstrip-append _ end line-IsKept blank) (
            line-fields
            ∙ rw (length-address_bytes n a, address_of-address_bytes n a addressed word) at parsed)

    pub load_line-mismatch :
        sum ≢ checksum_of (byte_sum (record_bytes n a bs))
        → load_line mem_size l (print_line t n a bs sum ++ end)
          ≡ err (checksum_mismatch sum (checksum_of (byte_sum (record_bytes n a bs))))
    load_line-mismatch other =
        let refused =
          parse_fields-mismatch b'S' t count sum (address_bytes n a) bs is_data count_lem small
            (address_bytes-IsByte n a) bytes (λ e. other (e ∙ sym sum_lem)) in
        ap (λ (s : List ℕ). load_line mem_size l (s ++ end)) print_line-fields
        ∙ load_line-refused mem_size l _ b'S' _ _ (rstrip-append _ end line-IsKept blank) (
            line-fields
            ∙ rw (length-address_bytes n a) at refused
            ∙ ap (λ (k : ℕ). err (checksum_mismatch sum k)) (sym sum_lem))

-- A record as a line, of a type that the loader knows and with bytes that its byte count can count.
module _ (t n : ℕ) (is_data : Bool) (a : ℕ) (bs : List ℕ)
    (known : record_type t ≡ some (n, is_data)) (counted : n + length bs + 1 < 256)
    (addressed : a < 256 ^ n) (word : a < 2 ^ 32) (bytes : All IsByte bs) where
  -- A record of any type the loader knows, written as a line and with any ending of CR, LF, spaces
  -- and tabs, has the effect of its data at its address; the data are bytes, the address fits the
  -- width of its type, and the byte count fits one byte.
  pub load_line-print_record :
      (mem_size : ℕ) (l : Loaded) (end : List ℕ)
      → All (λ c. is_stripped c ≡ true) end
      → load_line mem_size l (print_record t n a bs ++ end)
        ≡ apply_record mem_size l (record { is_data = is_data; address = a; bytes = bs })
  load_line-print_record mem_size l end blank =
      load_line-accepted t n is_data a bs _ known counted bytes (omega arith) mem_size l end blank
        refl addressed word
