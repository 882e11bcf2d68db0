-- ===== src/Srec/Load.antt =====
-- `load_srec_file`: the records of a file written to memory. A file that cannot be opened is `none`;
-- the lines of any other are those that `std::getline` gives.
use pugputer6309_emulator.Base.{
  ℕ, ◌+◌, Bool, true, false, ◌&&◌, Option, none, some, List, [], ◌∷◌, ltb, if◌then◌else◌, u32,
  length, Outcome, ok, err, ◌>>=◌,
}
use pugputer6309_emulator.Bus.Types.{update}
use pugputer6309_emulator.Srec.Text.{is_empty, rstrip}
use pugputer6309_emulator.Srec.Parse.{LineError, extends_past_end, SrecRecord, parse_line}

-- `could_not_open`, or the number of a line and its message.
pub data SrecError : Type 0 where
  could_not_open : SrecError
  at_line : ℕ → LineError → SrecError

-- `struct SrecLoadResult` without `ok` and `error`, and the memory that the loader writes.
pub record Loaded : Type 0 where
  pub mem : ℕ → ℕ
  pub any_data : Bool
  pub min_addr : ℕ
  pub max_addr : ℕ

pub record SrecLoadResult : Type 0 where
  pub error : Option SrecError
  pub loaded : Loaded

-- `for (...) mem[address + i] = data[i];`, where `address + i` has 32 bits.
unfoldable pub write_bytes : (ℕ → ℕ) → ℕ → List ℕ → ℕ → ℕ
write_bytes mem address [] = mem
write_bytes mem address (b ∷ bs) = write_bytes (update mem (u32 address) b) (address + 1) bs

-- `result.min_addr` and `result.max_addr` after a record from `address` to `end`.
unfoldable pub widen : ℕ → ℕ → Loaded → Loaded
widen address end l =
    if l.any_data
    then record l {
      min_addr = if ltb address l.min_addr then address else l.min_addr;
      max_addr = if ltb l.max_addr end then end else l.max_addr;
    }
    else record l { any_data = true; min_addr = address; max_addr = end }

unfoldable pub apply_record : ℕ → Loaded → SrecRecord → Outcome LineError Loaded
apply_record mem_size l r =
    if r.is_data && ltb 0 (length r.bytes)
    then (if ltb mem_size (u32 (r.address + length r.bytes))
        then err (extends_past_end r.address)
        else ok (
            widen r.address (u32 (r.address + length r.bytes + 0xffffffff))
              (record l { mem = write_bytes l.mem r.address r.bytes })))
    else ok l

-- One round of the loop: an empty line changes nothing.
unfoldable pub load_line : ℕ → Loaded → List ℕ → Outcome LineError Loaded
load_line mem_size l line =
    if is_empty (rstrip line) then ok l else (parse_line (rstrip line) >>= apply_record mem_size l)

-- The rest of the loop, after `line_no` lines.
unfoldable pub load_lines : ℕ → ℕ → Loaded → List (List ℕ) → SrecLoadResult
load_lines mem_size line_no l [] = record { error = none; loaded = l }
load_lines mem_size line_no l (line ∷ lines) = elim (load_line mem_size l line) [
  | err e ↦ record { error = some (at_line (line_no + 1) e); loaded = l }
  | ok l' ↦ load_lines mem_size (line_no + 1) l' lines
]

abbrev pub nothing_loaded : (ℕ → ℕ) → Loaded
nothing_loaded mem = record { mem = mem; any_data = false; min_addr = 0; max_addr = 0 }

-- `load_srec_file(path, mem, mem_size)`
unfoldable pub load_srec_file : Option (List (List ℕ)) → (ℕ → ℕ) → ℕ → SrecLoadResult
load_srec_file none mem mem_size = record {
  error = some could_not_open;
  loaded = nothing_loaded mem;
}
load_srec_file (some lines) mem mem_size = load_lines mem_size 0 (nothing_loaded mem) lines
