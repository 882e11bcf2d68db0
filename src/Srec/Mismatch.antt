-- ===== src/Srec/Mismatch.antt =====
-- A file with a line whose checksum is wrong.
use pugputer6309_emulator.Base.{
  ℕ, ◌+◌, ◌<◌, ◌≡◌, ◌≢◌, refl, ap, ◌∙◌, Bool, true, none, some, List, ◌∷◌, ◌++◌, arith, length, All,
  err,
}
use pugputer6309_emulator.Srec.Text.{is_stripped}
use pugputer6309_emulator.Srec.Parse.{
  LineError, checksum_mismatch, record_type, byte_sum, checksum_of,
}
use pugputer6309_emulator.Srec.Load.{
  SrecLoadResult, Loaded, at_line, nothing_loaded, load_line, load_lines, load_srec_file,
}
use pugputer6309_emulator.Srec.Hex.{IsByte}
use pugputer6309_emulator.Srec.Order.{resume, load_lines-append}
use pugputer6309_emulator.Srec.Printed.{record_bytes, print_line}
use pugputer6309_emulator.Srec.Roundtrip.{load_line-mismatch}

resume-none :
    (mem_size line_no : ℕ) (more : List (List ℕ)) (r : SrecLoadResult)
    → r.error ≡ none
    → resume mem_size line_no more r ≡ load_lines mem_size line_no r.loaded more
resume-none mem_size line_no more r e = rw e

first_error :
    (mem_size line_no : ℕ) (l : Loaded) (line : List ℕ) (more : List (List ℕ)) (m : LineError)
    → load_line mem_size l line ≡ err m
    → load_lines mem_size line_no l (line ∷ more)
      ≡ record { error = some (at_line (line_no + 1) m); loaded = l }
unfolding load_lines
first_error mem_size line_no l line more m e = rw (e, load_lines) refl

-- A file whose first lines load, then a line of any record type with as many bytes as its byte
-- count can count, a last byte that is not its checksum and any ending of CR, LF, spaces and
-- tabs, and then any lines: the load ends with the mismatch at exactly that line, counted from 1,
-- with the byte found and the one expected; what the lines before it loaded stays, and neither
-- the line nor any after it writes anything.
pub load_srec_file-mismatch :
    (t n : ℕ) (is_data : Bool) (a : ℕ) (bs : List ℕ) (sum : ℕ) (before after : List (List ℕ))
    (end : List ℕ) (mem : ℕ → ℕ) (mem_size : ℕ)
    → record_type t ≡ some (n, is_data)
    → n + length bs + 1 < 256
    → All IsByte bs
    → sum < 256
    → sum ≢ checksum_of (byte_sum (record_bytes n a bs))
    → All (λ c. is_stripped c ≡ true) end
    → (load_srec_file (some before) mem mem_size).error ≡ none
    → load_srec_file (some (before ++ (print_line t n a bs sum ++ end) ∷ after)) mem mem_size
      ≡ record {
        error = some (
            at_line
              (length before + 1)
              (checksum_mismatch sum (checksum_of (byte_sum (record_bytes n a bs)))));
        loaded = (load_srec_file (some before) mem mem_size).loaded;
      }
unfolding load_srec_file
load_srec_file-mismatch t n is_data a bs sum before after end mem mem_size known counted bytes small
      other blank good =
    let r = load_lines mem_size 0 (nothing_loaded mem) before in
    let line = print_line t n a bs sum ++ end in
    let refused =
      load_line-mismatch t n is_data a bs sum known counted bytes small mem_size r.loaded end blank
        other in
    load_lines-append mem_size 0 (nothing_loaded mem) before (line ∷ after)
    ∙ resume-none mem_size (0 + length before) (line ∷ after) r good
    ∙ first_error mem_size (0 + length before) r.loaded line after _ refused
    ∙ ap
        (λ (k : ℕ). record {
          error = some (
              at_line (k + 1)
                (checksum_mismatch sum (checksum_of (byte_sum (record_bytes n a bs)))));
          loaded = r.loaded;
        })
        (omega arith)
