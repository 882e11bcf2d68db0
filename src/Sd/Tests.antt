-- ===== src/Sd/Tests.antt =====
-- A card whose image file is a plain memory, on which every access succeeds.
use pugputer6309_emulator.Base.{
  ℕ, ◌+◌, ◌-◌, ◌<◌, ◌≡◌, ◌≢◌, refl, ap, Bool, true, false, not, ◌==◌, ◌||◌, ◌&&◌, Option, none,
  some, [], ◌∷◌, leb, ltb, if◌then◌else◌, arith, bit_test,
}
use pugputer6309_emulator.Sd.Card
use pugputer6309_emulator.Sd.Card.{SdCard, ImageFile}
use pugputer6309_emulator.Sd.Valid.{IsValid, GivesBytes, sd_device-IsValid}
use pugputer6309_emulator.Sd.Stream.{store_block, load_block}
use pugputer6309_emulator.Sd.Store.{
  IsDisk, IsReady, load_block-store_block, load_block-store_block_apart,
}
use pugputer6309_emulator.Sd.Errors.{do_command_refused}

-- A file that is a memory without an end.
instance abbrev image : ImageFile (ℕ → ℕ)
image = record {
  is_open = λ file. true;
  read_at = λ file pos. some (λ i. file (pos + i));
  write_at = λ file pos block.
      (true, λ at. if leb pos at && ltb at (pos + 512) then block (at - pos) else file at);
}

written_at :
    (file : ℕ → ℕ) (pos i : ℕ) (block : ℕ → ℕ)
    → i < 512
    → (if leb pos (pos + i) && ltb (pos + i) (pos + 512)
        then block (pos + i - pos)
        else file (pos + i))
      ≡ block i
written_at file pos i block h = let same : pos + i - pos ≡ i = omega arith in rw same (ground arith)

image-IsDisk : IsDisk image
image-IsDisk = record {
  read_back = λ file pos block h. (_, refl, λ i l. written_at file pos i block l);
  apart = λ file pos pos' block old h e far. (_, refl, λ i l. ground (arith, e));
  stays_open = λ file pos block. refl;
}

-- An image of zeros that cannot be written.
instance abbrev blank : ImageFile Bool
blank = record {
  is_open = λ file. file;
  read_at = λ file pos. some (λ i. 0);
  write_at = λ file pos block. (false, file);
}

blank-GivesBytes : GivesBytes blank
blank-GivesBytes file pos block i h = ground (arith, ap (λ (r : Option (ℕ → ℕ)). value_at r i) h)
  where
    value_at : Option (ℕ → ℕ) → ℕ → ℕ
    value_at none i = 0
    value_at (some g) i = g i

module _ {F : Type 0} (file : F) where
  abbrev card : SdCard F
  card = record {
    file = file;
    lba = 0;
    lba_hi = 0;
    buffer = Card.zeros;
    cursor = 0;
    last_error = false;
    write_log = none;
    card_present = true;
    stuck_busy = false;
    fail_reads = 0;
    fail_writes = 0;
    fail_reads_after = none;
    commands = 0;
  }

abbrev on_disk : SdCard (ℕ → ℕ)
on_disk = card Card.zeros

abbrev no_image : SdCard Bool
no_image = card false

no_image-IsValid : IsValid no_image
no_image-IsValid = record {
  cursor_in = omega arith;
  lba_fits = omega arith;
  lba_hi_fits = omega arith;
  bytes = λ i. omega arith;
}

sd_device-IsValid_example :
    IsValid (Card.sd_read no_image 2).1
    × IsValid (Card.sd_write no_image 2 0x41)
    × IsValid (Card.sd_reset no_image)
sd_device-IsValid_example =
    sd_device-IsValid blank-GivesBytes no_image 2 0x41 (omega arith) no_image-IsValid

read_refused :
    (not (Card.has_card no_image)
      || (1 == 1) && (Card.is_dead none 1 || ltb 0 0)
      || (1 == 2) && ltb 0 0)
    ≡ true
unfolding Card.has_card
read_refused = refl

do_command_refused_example :
    (bit_test (Card.sd_read (Card.do_command no_image 1) 3).0 0x04 ≡ true)
    × ((Card.do_command no_image 1).file ≡ no_image.file)
    × ((Card.do_command no_image 1).buffer ≡ no_image.buffer)
    × ((Card.do_command no_image 1).write_log ≡ no_image.write_log)
    × ((Card.do_command no_image 1).lba ≡ no_image.lba)
    × ((Card.do_command no_image 1).lba_hi ≡ no_image.lba_hi)
    × ((Card.do_command no_image 1).cursor ≡ 0)
do_command_refused_example = do_command_refused no_image 1 (omega arith) read_refused

on_disk-IsReady : IsReady image-IsDisk on_disk
on_disk-IsReady = record {
  opened = refl;
  present = refl;
  reads = refl;
  writes = refl;
  lives = refl;
}

stored_well : (store_block on_disk 0 7 (0x41 ∷ 0x42 ∷ [])).last_error ≡ false
unfolding Card.sd_write Card.do_command Card.write_command Card.has_card
stored_well = refl

load_block-store_block_example :
    load_block (store_block on_disk 0 7 (0x41 ∷ 0x42 ∷ [])) 0 7 2 ≡ 0x41 ∷ 0x42 ∷ []
load_block-store_block_example =
    load_block-store_block image-IsDisk on_disk 0 7 (0x41 ∷ 0x42 ∷ []) on_disk-IsReady (omega arith)
      (omega arith) (omega arith) (omega arith) stored_well

other_block : Card.block_number 0 7 ≢ Card.block_number 0 8
unfolding Card.block_number
other_block = omega arith

load_block-store_block_apart_example :
    load_block (store_block on_disk 0 7 (0x41 ∷ 0x42 ∷ [])) 0 8 2 ≡ load_block on_disk 0 8 2
load_block-store_block_apart_example =
    load_block-store_block_apart image-IsDisk on_disk 0 7 0 8 2 (0x41 ∷ 0x42 ∷ []) _ on_disk-IsReady
      (omega arith) (omega arith) (omega arith) (omega arith) (omega arith) other_block stored_well
      refl
