-- ===== src/Sd/Stream.antt =====
-- The ports of the SD card device as a driver uses them: the block number, and the 512 bytes of a
-- block through the data port.
use pugputer6309_emulator.Base.{
  ℕ, zero, suc, ◌+◌, ◌*◌, ◌/◌, ◌%◌, ◌≤◌, ◌<◌, ◌≡◌, refl, ap, ◌∙◌, List, [], ◌∷◌, bit_and, bit_or,
  u8, u16, arith, length, get_or, All,
}
use pugputer6309_emulator.Base.Bits.{bit_and-0xff, bit_and-0xff00, bit_or-fields, bit_or_comm}
use pugputer6309_emulator.Bus.Types.{update}
use pugputer6309_emulator.Sd.Card

abbrev pub IsByte : ℕ → Type 0
IsByte b = b < 256

lba_word :
    (old w : ℕ)
    → w < 65536
    → u16 (bit_or (bit_and (u16 (bit_or (bit_and old 0xff) (w / 256 * 256))) 0xff00) (w % 256)) ≡ w
lba_word old w h =
    let low : bit_and old 0xff ≡ old % 256 = bit_and-0xff old in
    let first : bit_or (w / 256 * 256) (old % 256) ≡ w / 256 * 256 + old % 256 =
      bit_or-fields 8 (w / 256) (old % 256) (omega arith) in
    let small : u16 (w / 256 * 256 + old % 256) ≡ w / 256 * 256 + old % 256 = omega arith in
    let kept : (w / 256 * 256 + old % 256) / 256 % 256 * 256 ≡ w / 256 * 256 = omega arith in
    let second : bit_or (w / 256 * 256) (w % 256) ≡ w / 256 * 256 + w % 256 =
      bit_or-fields 8 (w / 256) (w % 256) (omega arith) in
    rw
      (
        low,
        bit_or_comm (old % 256) (w / 256 * 256),
        first,
        small,
        bit_and-0xff00 (w / 256 * 256 + old % 256),
        kept,
        second,
      )
      (omega arith)

advance-below : (c : ℕ) → c + 1 < 512 → Card.advance c ≡ c + 1
unfolding Card.advance
advance-below c h = ground arith

advance-in : (c : ℕ) → c < 512 → Card.advance c < 512
unfolding Card.advance
advance-in c h = ground arith

module _ {F : Type 0} ⦃f : Card.ImageFile F⦄ where
  -- A 16-bit value written to SD_LBA, the high byte first.
  abbrev pub write_lba : Card.SdCard F → ℕ → Card.SdCard F
  write_lba s w = Card.sd_write (Card.sd_write s 0 (w / 256)) 1 (w % 256)

  -- The block number `hi * 65536 + lo`.
  abbrev pub select : Card.SdCard F → ℕ → ℕ → Card.SdCard F
  select s hi lo = write_lba (Card.sd_write (write_lba s hi) 3 3) lo

  abbrev pub write_data : Card.SdCard F → List ℕ → Card.SdCard F
  write_data s [] = s
  write_data s (b ∷ bs) = write_data (Card.sd_write s 2 b) bs

  abbrev pub read_data : Card.SdCard F → ℕ → List ℕ
  read_data s zero = []
  read_data s (suc n) = (Card.sd_read s 2).0 ∷ read_data (Card.sd_read s 2).1 n

  -- Write up to 512 bytes to a block, and read the first `n` bytes of one.
  abbrev pub store_block : Card.SdCard F → ℕ → ℕ → List ℕ → Card.SdCard F
  store_block s hi lo bs = Card.sd_write (write_data (select s hi lo) bs) 3 2

  abbrev pub load_command : Card.SdCard F → ℕ → ℕ → Card.SdCard F
  load_command s hi lo = Card.sd_write (select s hi lo) 3 1

  abbrev pub load_block : Card.SdCard F → ℕ → ℕ → ℕ → List ℕ
  load_block s hi lo n = read_data (load_command s hi lo) n

  -- `t` is `s` with the registers of the block number set and the stream at its start.
  pub record Selected (s : Card.SdCard F) (hi lo : ℕ) (t : Card.SdCard F) : Type 0 where
    pub lba : t.lba ≡ lo
    pub lba_hi : t.lba_hi ≡ hi
    pub cursor : t.cursor ≡ 0
    pub file : t.file ≡ s.file
    pub card_present : t.card_present ≡ s.card_present
    pub fail_reads : t.fail_reads ≡ s.fail_reads
    pub fail_writes : t.fail_writes ≡ s.fail_writes
    pub fail_reads_after : t.fail_reads_after ≡ s.fail_reads_after

  pub select-Selected :
      (s : Card.SdCard F) (hi lo : ℕ) → hi < 65536 → lo < 65536 → Selected s hi lo (select s hi lo)
  unfolding Card.sd_write Card.do_command
  select-Selected s hi lo h l = record {
    lba = lba_word _ lo l;
    lba_hi = lba_word s.lba hi h;
    cursor = refl;
    file = refl;
    card_present = refl;
    fail_reads = refl;
    fail_writes = refl;
    fail_reads_after = refl;
  }

  -- What the data port leaves alone.
  pub record Streamed (s t : Card.SdCard F) : Type 0 where
    pub lba : t.lba ≡ s.lba
    pub lba_hi : t.lba_hi ≡ s.lba_hi
    pub file : t.file ≡ s.file
    pub card_present : t.card_present ≡ s.card_present
    pub fail_reads : t.fail_reads ≡ s.fail_reads
    pub fail_writes : t.fail_writes ≡ s.fail_writes
    pub fail_reads_after : t.fail_reads_after ≡ s.fail_reads_after

  pub write_data-Streamed : (s : Card.SdCard F) (bs : List ℕ) → Streamed s (write_data s bs)
  unfolding Card.sd_write
  write_data-Streamed s [] = ground arith
  write_data-Streamed s (b ∷ bs) =
      let rest = write_data-Streamed (Card.sd_write s 2 b) bs in ground arith

  -- The state after one byte that is not the last of the buffer.
  next_byte :
      (s : Card.SdCard F) (b c : ℕ)
      → s.cursor ≡ c
      → c + 1 < 512
      → ((Card.sd_write s 2 b).cursor ≡ c + 1)
        × ((Card.sd_write s 2 b).buffer ≡ update s.buffer c b)
  unfolding Card.sd_write
  next_byte s b c e h = (ap Card.advance e ∙ advance-below c h, ap (λ k. update s.buffer k b) e)

  -- The bytes before the cursor.
  write_data-before :
      (s : Card.SdCard F) (bs : List ℕ) (c i : ℕ)
      → s.cursor ≡ c
      → c + length bs ≤ 512
      → i < c
      → (write_data s bs).buffer i ≡ s.buffer i
  unfolding Card.sd_write update
  write_data-before s [] c i e h l = refl
  write_data-before s (b ∷ []) c i e h l = ground arith
  write_data-before s (b ∷ b' ∷ bs) c i e h l =
      let next = next_byte s b c e (omega arith) in
      write_data-before (Card.sd_write s 2 b) (b' ∷ bs) (c + 1) i next.0 (omega arith) (omega arith)
      ∙ ground arith

  pub write_data-buffer :
      (s : Card.SdCard F) (bs : List ℕ) (c i : ℕ)
      → s.cursor ≡ c
      → c + length bs ≤ 512
      → i < length bs
      → (write_data s bs).buffer (c + i) ≡ get_or 0 bs i
  unfolding Card.sd_write update
  write_data-buffer s [] c i e h l = absurd (omega arith)
  write_data-buffer s (b ∷ []) c zero e h l = ground arith
  write_data-buffer s (b ∷ []) c (suc i) e h l = absurd (omega arith)
  write_data-buffer s (b ∷ b' ∷ bs) c zero e h l =
      let next = next_byte s b c e (omega arith) in
      let here : c + 0 ≡ c = omega arith in
      rw here (
        write_data-before (Card.sd_write s 2 b) (b' ∷ bs) (c + 1) c next.0 (omega arith)
          (omega arith)
        ∙ ground arith)
  write_data-buffer s (b ∷ b' ∷ bs) c (suc i) e h l =
      let next = next_byte s b c e (omega arith) in
      let there : c + suc i ≡ c + 1 + i = omega arith in
      rw there (
        write_data-buffer (Card.sd_write s 2 b) (b' ∷ bs) (c + 1) i next.0 (omega arith)
          (omega arith))

  first_byte :
      (s : Card.SdCard F) (b c : ℕ)
      → s.cursor ≡ c
      → b < 256
      → s.buffer (c + 0) ≡ b
      → u8 (s.buffer s.cursor) ≡ b
  first_byte s b c e l h =
      let there : s.cursor ≡ c + 0 = omega arith in
      ap (λ (x : ℕ). u8 (s.buffer x)) there ∙ ap u8 h ∙ omega arith

  -- The stream of a buffer that holds the bytes.
  pub read_data_lem :
      (s : Card.SdCard F) (bs : List ℕ) (c : ℕ)
      → s.cursor ≡ c
      → c + length bs ≤ 512
      → All IsByte bs
      → ((i : ℕ) → i < length bs → s.buffer (c + i) ≡ get_or 0 bs i)
      → read_data s (length bs) ≡ bs
  unfolding Card.sd_read
  read_data_lem s [] c e h k eq = refl
  read_data_lem s (b ∷ []) c e h k eq =
      ap (λ (x : ℕ). x ∷ []) (first_byte s b c e k.0 (eq 0 (omega arith)))
  read_data_lem s (b ∷ b' ∷ bs) c e h k eq =
      let t = (Card.sd_read s 2).1 in
      let shifted = λ (i : ℕ) (l : i < length (b' ∷ bs)).
        ap s.buffer (omega arith) ∙ eq (suc i) (omega arith) in
      ap (λ (x : ℕ). x ∷ read_data t (length (b' ∷ bs)))
        (first_byte s b c e k.0 (eq 0 (omega arith)))
      ∙ ap (λ (r : List ℕ). b ∷ r)
          (read_data_lem t (b' ∷ bs) (c + 1) (ap Card.advance e ∙ advance-below c (omega arith))
            (omega arith) k.1 shifted)

  -- Two devices whose buffers and cursors agree.
  pub read_data-same :
      (s t : Card.SdCard F) (n : ℕ)
      → s.cursor ≡ t.cursor
      → t.cursor < 512
      → ((i : ℕ) → i < 512 → s.buffer i ≡ t.buffer i)
      → read_data s n ≡ read_data t n
  unfolding Card.sd_read
  read_data-same s t zero c l eq = refl
  read_data-same s t (suc n) c l eq =
      let first : s.buffer s.cursor ≡ t.buffer t.cursor = ap s.buffer c ∙ eq t.cursor l in
      let rest =
        read_data-same (Card.sd_read s 2).1 (Card.sd_read t 2).1 n (ap Card.advance c)
          (advance-in t.cursor l) eq in
      ap (λ (x : ℕ). u8 x ∷ read_data (Card.sd_read s 2).1 n) first
      ∙ ap (λ (r : List ℕ). u8 (t.buffer t.cursor) ∷ r) rest
