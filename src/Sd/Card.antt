-- ===== src/Sd/Card.antt =====
-- `class SdCardDevice`.
use pugputer6309_emulator.Base.{
  ℕ, ◌+◌, ◌-◌, ◌*◌, ◌/◌, ◌%◌, ◌^◌, Bool, true, false, not, ◌&&◌, ◌||◌, Option, none, some, List, [],
  ◌∷◌, ◌++◌, ltb, ◌==◌, if◌then◌else◌, bit_and, bit_or, u8, u16,
}
use pugputer6309_emulator.Bus.Device.{IDevice}
use pugputer6309_emulator.Bus.Types.{update}

-- The disk image, a `std::fstream`: a block of 512 bytes is read or written at a position in bytes.
-- A read fails with `none`; a write tells if it succeeded.
pub record ImageFile (F : Type 0) : Type 0 where
  pub is_open : F → Bool
  pub read_at : F → ℕ → Option (ℕ → ℕ)
  pub write_at : F → ℕ → (ℕ → ℕ) → Bool × F

abbrev pub block_size : ℕ
block_size = 512

-- `struct WriteRecord`
pub record WriteRecord : Type 0 where
  pub lba : ℕ
  pub block : ℕ → ℕ

-- A count of failures to come that is negative counts as 0, and a negative `fail_reads_after_` is
-- `none`. `write_log` is `none` where nothing is logged.
pub record SdCard (F : Type 0) : Type 0 where
  pub file : F
  pub lba : ℕ
  pub lba_hi : ℕ
  pub buffer : ℕ → ℕ
  pub cursor : ℕ
  pub last_error : Bool
  pub write_log : Option (List WriteRecord)
  pub card_present : Bool
  pub stuck_busy : Bool
  pub fail_reads : ℕ
  pub fail_writes : ℕ
  pub fail_reads_after : Option ℕ
  pub commands : ℕ

abbrev pub zeros : ℕ → ℕ
zeros i = 0

abbrev pub cmd_read : ℕ
cmd_read = 1

abbrev pub cmd_write : ℕ
cmd_write = 2

abbrev pub cmd_set_hi : ℕ
cmd_set_hi = 3

-- `(lba_hi_ << 16) | lba_`
unfoldable pub block_number : ℕ → ℕ → ℕ
block_number hi lo = bit_or (hi * 65536) lo

abbrev pub log_write : WriteRecord → Option (List WriteRecord) → Option (List WriteRecord)
log_write r none = none
log_write r (some log) = some (log ++ r ∷ [])

-- `static_cast<int64_t>(commands_) > fail_reads_after_`
abbrev pub is_dead : Option ℕ → ℕ → Bool
is_dead none commands = false
is_dead (some n) commands = ltb commands (2 ^ 63) && ltb n commands

abbrev pub status_bit : Bool → ℕ → ℕ → ℕ
status_bit true mask s = bit_or s mask
status_bit false mask s = s

unfoldable pub advance : ℕ → ℕ
advance cursor = if ltb (cursor + 1) block_size then cursor + 1 else cursor

module _ {F : Type 0} ⦃f : ImageFile F⦄ where
  unfoldable pub has_card : SdCard F → Bool
  has_card s = f.is_open s.file && s.card_present

  -- A command that failed.
  abbrev pub failed : SdCard F → SdCard F
  failed s = record s { last_error = true; cursor = 0 }

  abbrev pub fill_buffer : SdCard F → Option (ℕ → ℕ) → SdCard F
  fill_buffer s (some block) = record s { buffer = block; cursor = 0 }
  fill_buffer s none = record s { buffer = zeros; last_error = true; cursor = 0 }

  unfoldable pub read_command : SdCard F → SdCard F
  read_command s =
      if is_dead s.fail_reads_after s.commands
      then failed s
      else (if ltb 0 s.fail_reads
          then failed (record s { fail_reads = s.fail_reads - 1 })
          else fill_buffer s (f.read_at s.file (block_number s.lba_hi s.lba * block_size)))

  unfoldable pub write_command : SdCard F → SdCard F
  write_command s =
      if ltb 0 s.fail_writes
      then failed (record s { fail_writes = s.fail_writes - 1 })
      else (let written = f.write_at s.file (block_number s.lba_hi s.lba * block_size) s.buffer in
          record s {
            file = written.1;
            last_error = s.last_error || not written.0;
            cursor = 0;
            write_log =
                log_write (record { lba = block_number s.lba_hi s.lba; block = s.buffer })
                  s.write_log;
          })

  abbrev pub counted : SdCard F → SdCard F
  counted s = record s { commands = (s.commands + 1) % 2 ^ 64 }

  unfoldable pub do_command : SdCard F → ℕ → SdCard F
  do_command s cmd =
      let s' : SdCard F = record s { last_error = false } in
      if cmd == cmd_set_hi
      then record s' { lba_hi = s.lba; cursor = 0 }
      else (if not (has_card s')
          then failed s'
          else (if cmd == cmd_read
              then read_command (counted s')
              else (if cmd == cmd_write
                  then write_command (counted s')
                  else record s' { cursor = 0 })))

  unfoldable pub sd_status : SdCard F → ℕ
  sd_status s =
      status_bit s.last_error 0x04 (status_bit (has_card s) 0x02 (status_bit s.stuck_busy 0x01 0))

  unfoldable pub sd_read : SdCard F → ℕ → ℕ × SdCard F
  sd_read s offset =
      if offset == 0
      then (u8 (s.lba / 256), s)
      else (if offset == 1
          then (bit_and s.lba 0xff, s)
          else (if offset == 2
              then (u8 (s.buffer s.cursor), record s { cursor = advance s.cursor })
              else (if offset == 3 then (sd_status s, s) else (0xff, s))))

  unfoldable pub sd_write : SdCard F → ℕ → ℕ → SdCard F
  sd_write s offset value =
      if offset == 0
      then record s { lba = u16 (bit_or (bit_and s.lba 0x00ff) (value * 256)); cursor = 0 }
      else (if offset == 1
          then record s { lba = u16 (bit_or (bit_and s.lba 0xff00) value); cursor = 0 }
          else (if offset == 2
              then record s { buffer = update s.buffer s.cursor value; cursor = advance s.cursor }
              else (if offset == 3 then do_command s value else s)))

  unfoldable pub sd_reset : SdCard F → SdCard F
  sd_reset s = record s { lba = 0; lba_hi = 0; cursor = 0; buffer = zeros }

  abbrev pub sd_device : IDevice (SdCard F)
  sd_device = record {
    read = sd_read;
    write = sd_write;
    reset = sd_reset;
    tick = λ s n. s;
    irq_asserted = λ s. false;
  }
