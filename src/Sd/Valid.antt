-- ===== src/Sd/Valid.antt =====
-- The invariant of the SD card device, and what a failed command does.
use pugputer6309_emulator.Base.{ℕ, ◌*◌, ◌^◌, ◌<◌, ◌≡◌, refl, false, Option, none, some, arith}
use pugputer6309_emulator.Bus.Types.{update}
use pugputer6309_emulator.Sd.Card

-- The cursor stays in the buffer, which holds bytes, and the registers fit their words.
pub record IsValid {F : Type 0} (s : Card.SdCard F) : Type 0 where
  pub cursor_in : s.cursor < Card.block_size
  pub lba_fits : s.lba < 2 ^ 16
  pub lba_hi_fits : s.lba_hi < 2 ^ 16
  pub bytes : (i : ℕ) → s.buffer i < 256

-- The image file gives bytes.
abbrev pub GivesBytes : {F : Type 0} → Card.ImageFile F → Type 0
GivesBytes {F} f =
    (file : F) (pos : ℕ) (block : ℕ → ℕ) (i : ℕ) → f.read_at file pos ≡ some block → block i < 256

module _ {F : Type 0} ⦃f : Card.ImageFile F⦄ (gives : GivesBytes f) where
  fill_buffer-IsValid :
      (s : Card.SdCard F) (pos : ℕ) (r : Option (ℕ → ℕ))
      → f.read_at s.file pos ≡ r
      → IsValid s
      → IsValid (Card.fill_buffer s r)
  fill_buffer-IsValid s pos none e v = record {
    cursor_in = omega arith;
    lba_fits = v.lba_fits;
    lba_hi_fits = v.lba_hi_fits;
    bytes = λ i. omega arith;
  }
  fill_buffer-IsValid s pos (some block) e v = record {
    cursor_in = omega arith;
    lba_fits = v.lba_fits;
    lba_hi_fits = v.lba_hi_fits;
    bytes = λ i. gives s.file pos block i e;
  }

  -- A state with the cursor at the start and the buffer of a valid one.
  at_start :
      (t : Card.SdCard F)
      → t.cursor ≡ 0
      → t.lba < 2 ^ 16
      → t.lba_hi < 2 ^ 16
      → ((i : ℕ) → t.buffer i < 256)
      → IsValid t
  at_start t c l h b = record { cursor_in = omega arith; lba_fits = l; lba_hi_fits = h; bytes = b }

  read_command-IsValid : (s : Card.SdCard F) → IsValid s → IsValid (Card.read_command s)
  unfolding Card.read_command
  read_command-IsValid s v =
      let pos = Card.block_number s.lba_hi s.lba * Card.block_size in
      let filled = fill_buffer-IsValid s pos (f.read_at s.file pos) refl v in
      record {
        cursor_in = ground arith;
        lba_fits = ground arith;
        lba_hi_fits = ground arith;
        bytes = λ i. ground (arith, v.bytes i, filled.bytes i);
      }

  write_command-IsValid : (s : Card.SdCard F) → IsValid s → IsValid (Card.write_command s)
  unfolding Card.write_command
  write_command-IsValid s v = record {
    cursor_in = ground arith;
    lba_fits = ground arith;
    lba_hi_fits = ground arith;
    bytes = λ i. ground (arith, v.bytes i);
  }

  do_command-IsValid : (s : Card.SdCard F) (cmd : ℕ) → IsValid s → IsValid (Card.do_command s cmd)
  unfolding Card.do_command
  do_command-IsValid s cmd v =
      let t : Card.SdCard F = record (Card.counted s) { last_error = false } in
      let w : IsValid t = record {
        cursor_in = v.cursor_in;
        lba_fits = v.lba_fits;
        lba_hi_fits = v.lba_hi_fits;
        bytes = v.bytes;
      } in
      let r = read_command-IsValid t w in
      let o = write_command-IsValid t w in
      record {
        cursor_in = ground arith;
        lba_fits = ground arith;
        lba_hi_fits = ground arith;
        bytes = λ i. ground (arith, v.bytes i, r.bytes i, o.bytes i);
      }

  advance-lt : (c : ℕ) → c < Card.block_size → Card.advance c < Card.block_size
  unfolding Card.advance
  advance-lt c h = ground arith

  sd_write-IsValid :
      (s : Card.SdCard F) (offset value : ℕ)
      → value < 256
      → IsValid s
      → IsValid (Card.sd_write s offset value)
  unfolding Card.sd_write update
  sd_write-IsValid s offset value h v =
      let c = do_command-IsValid s value v in
      record {
        cursor_in = ground (arith, advance-lt s.cursor);
        lba_fits = ground arith;
        lba_hi_fits = ground arith;
        bytes = λ i. ground (arith, v.bytes i, c.bytes i);
      }

  sd_read-IsValid : (s : Card.SdCard F) (offset : ℕ) → IsValid s → IsValid (Card.sd_read s offset).1
  unfolding Card.sd_read
  sd_read-IsValid s offset v = record {
    cursor_in = ground (arith, advance-lt s.cursor);
    lba_fits = ground arith;
    lba_hi_fits = ground arith;
    bytes = λ i. ground (arith, v.bytes i);
  }

  -- A read, a write and a reset keep the cursor in the 512-byte buffer, the buffer's values bytes
  -- and the block number's halves 16 bits wide, whatever the image file answers, if it gives bytes.
  pub sd_device-IsValid :
      (s : Card.SdCard F) (offset value : ℕ)
      → value < 256
      → IsValid s
      → IsValid (Card.sd_read s offset).1
        × IsValid (Card.sd_write s offset value)
        × IsValid (Card.sd_reset s)
  unfolding Card.sd_reset
  sd_device-IsValid s offset value h v = (
    sd_read-IsValid s offset v,
    sd_write-IsValid s offset value h v,
    at_start _ refl (omega arith) (omega arith) (λ i. omega arith),
  )
