-- ===== src/Sd/Errors.antt =====
-- Commands that the SD card device refuses.
use pugputer6309_emulator.Base.{
  ℕ, ◌+◌, ◌%◌, ◌^◌, ◌≡◌, ◌≢◌, Bool, true, not, ◌&&◌, ◌||◌, ltb, ◌==◌, bit_test, arith,
}
use pugputer6309_emulator.Sd.Card

module _ {F : Type 0} ⦃f : Card.ImageFile F⦄ where
  -- No card, a read of a card that has died or fails for now, or a write of one that fails for now.
  abbrev pub is_refused : Card.SdCard F → ℕ → Bool
  is_refused s cmd =
      not (Card.has_card s)
      || cmd == 1
        && (Card.is_dead s.fail_reads_after ((s.commands + 1) % 2 ^ 64) || ltb 0 s.fail_reads)
      || cmd == 2 && ltb 0 s.fail_writes

  -- A command that is refused, of any code but that of SETHI, sets the error bit of the status and
  -- changes neither the image file, the buffer, the block number nor the log of writes; the stream
  -- starts again at the first byte.
  pub do_command_refused :
      (s : Card.SdCard F) (cmd : ℕ)
      → cmd ≢ 3
      → is_refused s cmd ≡ true
      → (bit_test (Card.sd_read (Card.do_command s cmd) 3).0 0x04 ≡ true)
        × ((Card.do_command s cmd).file ≡ s.file)
        × ((Card.do_command s cmd).buffer ≡ s.buffer)
        × ((Card.do_command s cmd).write_log ≡ s.write_log)
        × ((Card.do_command s cmd).lba ≡ s.lba)
        × ((Card.do_command s cmd).lba_hi ≡ s.lba_hi)
        × ((Card.do_command s cmd).cursor ≡ 0)
  unfolding Card.sd_read Card.sd_status Card.do_command Card.read_command Card.write_command
      Card.has_card
  do_command_refused s cmd h r = (
    ground arith,
    ground arith,
    ground arith,
    ground arith,
    ground arith,
    ground arith,
    ground arith,
  )
