-- ===== src/Srec/Tests.antt =====
-- A file of two records, "S1041000AB40" and "S9030000FC", loaded to 64 KB of memory.
use pugputer6309_emulator.Base.{
  ◌≢◌, none, ℕ, ◌+◌, ◌<◌, ◌^◌, ◌≡◌, refl, true, false, some, List, [], ◌∷◌, ◌++◌, arith, length, ok,
}
use pugputer6309_emulator.Bus.Types.{update}
use pugputer6309_emulator.Srec.Text
use pugputer6309_emulator.Srec.Parse
use pugputer6309_emulator.Srec.Parse.{SrecRecord}
use pugputer6309_emulator.Srec.Load
use pugputer6309_emulator.Srec.Load.{Loaded, nothing_loaded}
use pugputer6309_emulator.Srec.Bounds.{IsWithin, load_srec_file-IsWithin, apply_record-past_end}
use pugputer6309_emulator.Srec.Mismatch.{load_srec_file-mismatch}
use pugputer6309_emulator.Srec.Printed.{record_bytes, print_line, print_record}
use pugputer6309_emulator.Srec.Roundtrip.{load_line-print_record}
use pugputer6309_emulator.Srec.Checksum.{IsChecked, parse_line-IsChecked}

abbrev line_of_data : List ℕ
line_of_data = print_record b'1' 2 0x1000 (0xab ∷ [])

abbrev line_of_end : List ℕ
line_of_end = print_record b'9' 2 0 []

abbrev file : List (List ℕ)
file = line_of_data ∷ line_of_end ∷ []

abbrev zeros : ℕ → ℕ
zeros i = 0

abbrev data_record : SrecRecord
data_record = record { is_data = true; address = 0x1000; bytes = 0xab ∷ [] }

abbrev end_record : SrecRecord
end_record = record { is_data = false; address = 0; bytes = [] }

data_parsed : Parse.parse_line (Text.rstrip line_of_data) ≡ ok data_record
unfolding Parse.parse_line Parse.parse_fields Parse.byte_sum Parse.address_of Parse.record_type
    Text.rstrip Text.hex_byte Text.hex_nibble Text.read_bytes
data_parsed = refl

end_parsed : Parse.parse_line (Text.rstrip line_of_end) ≡ ok end_record
unfolding Parse.parse_line Parse.parse_fields Parse.byte_sum Parse.address_of Parse.record_type
    Text.rstrip Text.hex_byte Text.hex_nibble Text.read_bytes
end_parsed = refl

file_loads : (Load.load_srec_file (some file) zeros 65536).loaded.mem 0x1000 ≡ 0xab
unfolding Load.load_srec_file Load.load_lines Load.load_line Load.apply_record Load.widen
    Load.write_bytes Parse.parse_line Parse.parse_fields Parse.byte_sum Parse.address_of
    Parse.record_type Text.rstrip Text.hex_byte Text.hex_nibble Text.read_bytes update
file_loads = refl

data_fits :
    (r : SrecRecord)
    → Parse.parse_line (Text.rstrip line_of_data) ≡ ok r
    → r.address + length r.bytes < 2 ^ 32
data_fits r h = ground (arith, data_parsed)

end_fits :
    (r : SrecRecord)
    → Parse.parse_line (Text.rstrip line_of_end) ≡ ok r
    → r.address + length r.bytes < 2 ^ 32
end_fits r h = ground (arith, end_parsed)

load_srec_file-IsWithin_example :
    IsWithin 65536 zeros (Load.load_srec_file (some file) zeros 65536).loaded
load_srec_file-IsWithin_example =
    load_srec_file-IsWithin file zeros 65536 (data_fits, (end_fits, tt))

apply_record-past_end_example :
    (l' : Loaded) × (Load.apply_record 65536
        (nothing_loaded zeros)
        (record { is_data = true; address = 0xffffffff; bytes = 0xab ∷ 0xcd ∷ [] })
      ≡ ok l')
    × (l'.mem 0xffffffff ≡ 0xab)
apply_record-past_end_example =
    apply_record-past_end 65536 (nothing_loaded zeros) 0xffffffff 0xab (0xcd ∷ []) (omega arith)
      (omega arith) (omega arith) (omega arith) (omega arith)

type_one : Parse.record_type b'1' ≡ some (2, true)
unfolding Parse.record_type
type_one = refl

load_line-print_record_example :
    Load.load_line 65536 (nothing_loaded zeros) (print_record b'1' 2 0x1000 (0xab ∷ []) ++ 13 ∷ [])
    ≡ Load.apply_record 65536 (nothing_loaded zeros) data_record
load_line-print_record_example =
    load_line-print_record b'1' 2 true 0x1000 (0xab ∷ []) type_one (omega arith) (omega arith)
      (omega arith) (omega arith) 65536 (nothing_loaded zeros) (13 ∷ []) (refl, tt)

parse_line-IsChecked_example : IsChecked (Text.rstrip line_of_data) data_record
parse_line-IsChecked_example =
    parse_line-IsChecked (Text.rstrip line_of_data) data_record data_parsed

line_loads : (Load.load_srec_file (some (line_of_data ∷ [])) zeros 65536).error ≡ none
unfolding Load.load_srec_file Load.load_lines Load.load_line Load.apply_record Load.widen
    Load.write_bytes Parse.parse_line Parse.parse_fields Parse.byte_sum Parse.address_of
    Parse.record_type Text.rstrip Text.hex_byte Text.hex_nibble Text.read_bytes
line_loads = refl

checksum_other :
    ◌≢◌ {A = ℕ} 0x41 (Parse.checksum_of (Parse.byte_sum (record_bytes 2 0x1000 (0xab ∷ []))))
unfolding Parse.byte_sum
checksum_other = omega arith

load_srec_file-mismatch_example :
    Load.load_srec_file
      (some ((line_of_data ∷ []) ++ (print_line b'1' 2 0x1000 (0xab ∷ []) 0x41 ++ []) ∷ file))
      zeros
      65536
    ≡ record {
      error = some (
          Load.at_line 2 (
            Parse.checksum_mismatch 0x41
              (Parse.checksum_of (Parse.byte_sum (record_bytes 2 0x1000 (0xab ∷ []))))));
      loaded = (Load.load_srec_file (some (line_of_data ∷ [])) zeros 65536).loaded;
    }
load_srec_file-mismatch_example =
    load_srec_file-mismatch b'1' 2 true 0x1000 (0xab ∷ []) 0x41 (line_of_data ∷ []) file [] zeros
      65536 type_one (omega arith) (omega arith) (omega arith) checksum_other tt line_loads
