-- ===== src/Srec/Checksum.antt =====
-- What a line holds that the loader accepts.
use mathlib.Core.Path.{subst}
use pugputer6309_emulator.Base.{
  ℕ, zero, suc, ◌+◌, ◌-◌, ◌*◌, ◌%◌, ◌≤◌, ◌≡◌, refl, sym, ap, ◌∙◌, Bool, false, not, Option, none,
  some, List, [], ◌∷◌, ◌++◌, arith, ltb, ◌==◌, length, Outcome, ok, ok_or, bind-eq-ok, ok_or-eq-ok,
  refuse_if-eq-ok,
}
use pugputer6309_emulator.Srec.Text.{hex_byte, char_at, cons_byte, read_bytes}
use pugputer6309_emulator.Srec.Parse
use pugputer6309_emulator.Srec.Printed.{byte_sum-append}

cons_byte-eq-some :
    (a : Option ℕ) (b : Option (List ℕ)) (bs : List ℕ)
    → cons_byte a b ≡ some bs
    → (x : ℕ) × (xs : List ℕ) × (a ≡ some x) × (b ≡ some xs) × (x ∷ xs ≡ bs)
cons_byte-eq-some (some x) (some xs) bs h = (x, xs, refl, refl, cc)
cons_byte-eq-some (some x) none bs h = cc
cons_byte-eq-some none b bs h = cc

read_bytes-append :
    (s : List ℕ) (pos n m : ℕ) (xs ys : List ℕ)
    → read_bytes s pos n ≡ some xs
    → read_bytes s (pos + 2 * n) m ≡ some ys
    → read_bytes s pos (n + m) ≡ some (xs ++ ys)
unfolding read_bytes
read_bytes-append s pos zero m [] ys h k =
    let none_read : 0 + m ≡ m = omega arith in
    let here : pos + 2 * 0 ≡ pos = omega arith in
    rw none_read (ap (λ p. read_bytes s p m) (sym here) ∙ k)
read_bytes-append s pos zero m (x ∷ xs) ys h k = absurd (cc)
read_bytes-append s pos (suc n) m xs ys h k =
    let found = cons_byte-eq-some _ _ xs h in
    let here : pos + 2 * suc n ≡ pos + 2 + 2 * n = omega arith in
    let next : suc n + m ≡ suc (n + m) = omega arith in
    let rest = read_bytes-append s (pos + 2) n m found.1 ys found.3 (rw here at k) in
    rw (next, found.2, rest, ← found.4)

length-read_bytes :
    (s : List ℕ) (pos n : ℕ) (xs : List ℕ) → read_bytes s pos n ≡ some xs → length xs ≡ n
unfolding read_bytes
length-read_bytes s pos zero xs h = ground arith
length-read_bytes s pos (suc n) xs h =
    let found = cons_byte-eq-some _ _ xs h in
    rw (← found.4) (omega (arith, length-read_bytes s (pos + 2) n found.1 found.3))

-- The bytes of a line from its byte count to its checksum, and what they have to do with the record.
pub record IsChecked (line : List ℕ) (r : Parse.SrecRecord) : Type 0 where
  pub count : ℕ
  pub addr : List ℕ
  pub checksum : ℕ
  pub known : Parse.record_type (char_at line 1) ≡ some (length addr, r.is_data)
  pub read : read_bytes line 2 (count + 1) ≡ some (count ∷ addr ++ (r.bytes ++ checksum ∷ []))
  pub addressed : r.address ≡ Parse.address_of 0 addr
  pub summed : Parse.byte_sum (count ∷ addr ++ (r.bytes ++ checksum ∷ [])) % 256 ≡ 255

read_bytes_one :
    (s : List ℕ) (pos b : ℕ) → hex_byte s pos ≡ some b → read_bytes s pos 1 ≡ some (b ∷ [])
unfolding read_bytes
read_bytes_one s pos b h = rw h

fields-IsChecked :
    (line : List ℕ) (count n sum : ℕ) (is_data : Bool) (addr bytes : List ℕ)
    → hex_byte line 2 ≡ some count
    → Parse.record_type (char_at line 1) ≡ some (n, is_data)
    → n + 1 ≤ count
    → read_bytes line 4 n ≡ some addr
    → read_bytes line (4 + 2 * n) (count - n - 1) ≡ some bytes
    → hex_byte line (4 + 2 * n + 2 * (count - n - 1)) ≡ some sum
    → not (sum == Parse.checksum_of (count + Parse.byte_sum addr + Parse.byte_sum bytes)) ≡ false
    → IsChecked line
        (record { is_data = is_data; address = Parse.address_of 0 addr; bytes = bytes })
unfolding Parse.byte_sum
fields-IsChecked line count n sum is_data addr bytes hc ht le ha hd hs same =
    let m = count - n - 1 in
    let size : count + 1 ≡ 1 + (n + (m + 1)) = omega arith in
    let tail =
      read_bytes-append line (4 + 2 * n) m 1 bytes (sum ∷ []) hd (read_bytes_one line _ sum hs) in
    let fields = read_bytes-append line 4 n (m + 1) addr _ ha tail in
    let all =
      read_bytes-append line 2 1 (n + (m + 1)) (count ∷ []) _ (read_bytes_one line 2 count hc)
        fields in
    let total : Parse.byte_sum (addr ++ (bytes ++ sum ∷ []))
        ≡ Parse.byte_sum addr + (Parse.byte_sum bytes + sum) =
      omega (arith, byte_sum-append addr (bytes ++ sum ∷ []), byte_sum-append bytes (sum ∷ [])) in
    record {
      count = count;
      addr = addr;
      checksum = sum;
      known = rw (length-read_bytes line 4 n addr ha) ht;
      read = rw size all;
      addressed = refl;
      summed = ground (arith, total);
    }

ok_injective :
    {a b : Parse.SrecRecord}
    → ◌≡◌ {A = Outcome Parse.LineError Parse.SrecRecord} (ok a) (ok b)
    → a ≡ b
ok_injective h = cc

parse_fields-IsChecked :
    (line : List ℕ) (count n : ℕ) (is_data : Bool) (r : Parse.SrecRecord)
    → hex_byte line 2 ≡ some count
    → Parse.record_type (char_at line 1) ≡ some (n, is_data)
    → n + 1 ≤ count
    → Parse.parse_fields line count n is_data ≡ ok r
    → IsChecked line r
unfolding Parse.parse_fields
parse_fields-IsChecked line count n is_data r hc ht le h =
    let step_a = bind-eq-ok (ok_or (read_bytes line 4 n) Parse.malformed_address) _ h in
    let addr = step_a.0 in
    let addr_read : read_bytes line 4 n ≡ some addr = ok_or-eq-ok _ _ step_a.2 in
    let step_d = bind-eq-ok _ _ step_a.1 in
    let bytes = step_d.0 in
    let data_read : read_bytes line (4 + 2 * n) (count - n - 1) ≡ some bytes =
      ok_or-eq-ok _ _ step_d.2 in
    let step_c = bind-eq-ok _ _ step_d.1 in
    let sum = step_c.0 in
    let sum_read : hex_byte line (4 + 2 * n + 2 * (count - n - 1)) ≡ some sum =
      ok_or-eq-ok _ _ step_c.2 in
    let step_e = refuse_if-eq-ok _ _ _ step_c.1 in
    subst (IsChecked line) (ok_injective step_e.1) (
      fields-IsChecked line count n sum is_data addr bytes hc ht le addr_read data_read sum_read
        step_e.0)

-- Every line that is accepted is of a known record type; from its third character on it holds, in
-- hexadecimal, a byte count, that many bytes (the address, the data and a checksum), and these and
-- the byte count add up to 255 modulo 256; the record is that address and that data.
pub parse_line-IsChecked :
    (line : List ℕ) (r : Parse.SrecRecord) → Parse.parse_line line ≡ ok r → IsChecked line r
unfolding Parse.parse_line
parse_line-IsChecked line r h =
    let started = refuse_if-eq-ok (not (Parse.starts_with_s line)) Parse.expected_s _ h in
    let long = refuse_if-eq-ok (ltb (length line) 4) Parse.record_too_short _ started.1 in
    let counted = bind-eq-ok _ _ long.1 in
    let count_read : hex_byte line 2 ≡ some counted.0 = ok_or-eq-ok _ _ counted.2 in
    let typed = bind-eq-ok _ _ counted.1 in
    let known : Parse.record_type (char_at line 1) ≡ some typed.0 = ok_or-eq-ok _ _ typed.2 in
    let whole = refuse_if-eq-ok _ _ _ typed.1 in
    let enough = refuse_if-eq-ok _ _ _ whole.1 in
    let le : ltb counted.0 (typed.0.0 + 1) ≡ false = enough.0 in
    parse_fields-IsChecked line counted.0 typed.0.0 typed.0.1 r count_read known (ground arith)
      enough.1
