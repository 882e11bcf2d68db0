-- ===== src/Sd/Store.antt =====
-- The SD card device as a store of blocks, on an image file that keeps what is written to it.
use pugputer6309_emulator.Base.{
  ℕ, ◌+◌, ◌*◌, ◌≤◌, ◌<◌, ◌≡◌, ◌≢◌, ◌⊎◌, refl, ap, ◌∙◌, sym, Bool, true, false, not, Option, none,
  some, List, arith, length, get_or, All,
}
use pugputer6309_emulator.Sd.Card
use pugputer6309_emulator.Sd.Card.{SdCard, ImageFile}
use pugputer6309_emulator.Sd.Stream.{
  IsByte, select, write_data, store_block, load_command, load_block, select-Selected,
  write_data-Streamed, write_data-buffer, read_data_lem, read_data-same,
}

-- A block that was read has the bytes of `block`.
abbrev pub ReadsAs : Option (ℕ → ℕ) → (ℕ → ℕ) → Type 0
ReadsAs r block = (read : ℕ → ℕ) × (r ≡ some read) × ((i : ℕ) → i < 512 → read i ≡ block i)

-- What a file promises: a block that was written without an error reads as it was written, other
-- blocks that could be read before read as they did, and the file stays open.
pub record IsDisk {F : Type 0} (f : ImageFile F) : Type 0 where
  pub read_back :
      (file : F) (pos : ℕ) (block : ℕ → ℕ)
      → (f.write_at file pos block).0 ≡ true
      → ReadsAs (f.read_at (f.write_at file pos block).1 pos) block
  pub apart :
      (file : F) (pos pos' : ℕ) (block old : ℕ → ℕ)
      → (f.write_at file pos block).0 ≡ true
      → f.read_at file pos' ≡ some old
      → (pos + 512 ≤ pos') ⊎ (pos' + 512 ≤ pos)
      → ReadsAs (f.read_at (f.write_at file pos block).1 pos') old
  pub stays_open :
      (file : F) (pos : ℕ) (block : ℕ → ℕ)
      → f.is_open (f.write_at file pos block).1 ≡ f.is_open file

module _ {F : Type 0} ⦃f : ImageFile F⦄ (disk : IsDisk f) where
  -- A card is in, and no failure has been asked for.
  pub record IsReady (s : SdCard F) : Type 0 where
    pub opened : f.is_open s.file ≡ true
    pub present : s.card_present ≡ true
    pub reads : s.fail_reads ≡ 0
    pub writes : s.fail_writes ≡ 0
    pub lives : s.fail_reads_after ≡ none

  -- The position of a block in the file.
  abbrev pub place : ℕ → ℕ → ℕ
  place hi lo = Card.block_number hi lo * 512

  -- What a write command does.
  record Stores (s t : SdCard F) (hi lo : ℕ) (bs : List ℕ) : Type 0 where
    block : ℕ → ℕ
    filled : (i : ℕ) → i < length bs → block i ≡ get_or 0 bs i
    file : t.file ≡ (f.write_at s.file (place hi lo) block).1
    written : t.last_error ≡ not (f.write_at s.file (place hi lo) block).0
    present : t.card_present ≡ s.card_present
    reads : t.fail_reads ≡ s.fail_reads
    lives : t.fail_reads_after ≡ s.fail_reads_after

  write_runs :
      (s t : SdCard F) (hi lo : ℕ) (bs : List ℕ)
      → IsReady s
      → t.lba ≡ lo
      → t.lba_hi ≡ hi
      → t.file ≡ s.file
      → t.card_present ≡ s.card_present
      → t.fail_reads ≡ s.fail_reads
      → t.fail_writes ≡ s.fail_writes
      → t.fail_reads_after ≡ s.fail_reads_after
      → ((i : ℕ) → i < length bs → t.buffer i ≡ get_or 0 bs i)
      → Stores s (Card.sd_write t 3 2) hi lo bs
  unfolding Card.sd_write Card.do_command Card.write_command Card.has_card
  write_runs s t hi lo bs r a b c d e g h eq = record {
    block = t.buffer;
    filled = eq;
    file = ground arith;
    written = ground arith;
    present = ground arith;
    reads = ground arith;
    lives = ground arith;
  }

  -- What a read command does.
  read_runs :
      (t : SdCard F) (read : ℕ → ℕ)
      → f.is_open t.file ≡ true
      → t.card_present ≡ true
      → t.fail_reads ≡ 0
      → t.fail_reads_after ≡ none
      → f.read_at t.file (place t.lba_hi t.lba) ≡ some read
      → ((Card.sd_write t 3 1).buffer ≡ read) × ((Card.sd_write t 3 1).cursor ≡ 0)
  unfolding Card.sd_write Card.do_command Card.read_command Card.has_card
  read_runs t read o p r l e = (ground arith, ground arith)

  store_block-Stores :
      (s : SdCard F) (hi lo : ℕ) (bs : List ℕ)
      → IsReady s
      → hi < 65536
      → lo < 65536
      → length bs ≤ 512
      → Stores s (store_block s hi lo bs) hi lo bs
  store_block-Stores s hi lo bs r h l n =
      let u = select-Selected s hi lo h l in
      let v = write_data-Streamed (select s hi lo) bs in
      write_runs s (write_data (select s hi lo) bs) hi lo bs r (v.lba ∙ u.lba) (v.lba_hi ∙ u.lba_hi)
        (v.file ∙ u.file) (v.card_present ∙ u.card_present) (v.fail_reads ∙ u.fail_reads)
        (v.fail_writes ∙ u.fail_writes) (v.fail_reads_after ∙ u.fail_reads_after)
        (λ i j.
          ap (write_data (select s hi lo) bs).buffer (omega arith)
          ∙ write_data-buffer (select s hi lo) bs 0 i u.cursor (omega arith) j)

  -- The buffer after a read command is the block of the file.
  load_command_lem :
      (s : SdCard F) (hi lo : ℕ) (read : ℕ → ℕ)
      → f.is_open s.file ≡ true
      → s.card_present ≡ true
      → s.fail_reads ≡ 0
      → s.fail_reads_after ≡ none
      → hi < 65536
      → lo < 65536
      → f.read_at s.file (place hi lo) ≡ some read
      → ((load_command s hi lo).buffer ≡ read) × ((load_command s hi lo).cursor ≡ 0)
  load_command_lem s hi lo read o p x y h l e =
      let u = select-Selected s hi lo h l in
      let t = select s hi lo in
      let found : f.read_at t.file (place t.lba_hi t.lba) ≡ some read =
        rw (u.file, u.lba_hi, u.lba) e in
      read_runs t read (ap f.is_open u.file ∙ o) (u.card_present ∙ p) (u.fail_reads ∙ x)
        (u.fail_reads_after ∙ y) found

  -- What is in the file after a store, for the reads that follow.
  stored_state :
      (s : SdCard F) (hi lo : ℕ) (bs : List ℕ)
      → IsReady s
      → hi < 65536
      → lo < 65536
      → length bs ≤ 512
      → (f.is_open (store_block s hi lo bs).file ≡ true)
        × ((store_block s hi lo bs).card_present ≡ true)
        × ((store_block s hi lo bs).fail_reads ≡ 0)
        × ((store_block s hi lo bs).fail_reads_after ≡ none)
  stored_state s hi lo bs r h l n =
      let w = store_block-Stores s hi lo bs r h l n in
      (
        ap f.is_open w.file ∙ disk.stays_open s.file (place hi lo) w.block ∙ r.opened,
        w.present ∙ r.present,
        w.reads ∙ r.reads,
        w.lives ∙ r.lives,
      )

  eq_of_not : (b c : Bool) → c ≡ not b → c ≡ false → b ≡ true
  eq_of_not true c h k = refl
  eq_of_not false c h k = cc

  -- On a device with a card and no failure asked for: up to 512 bytes that are written to a block
  -- without the error flag are what the same block reads as, on any image file that keeps the blocks
  -- that are written to it.
  pub load_block-store_block :
      (s : SdCard F) (hi lo : ℕ) (bs : List ℕ)
      → IsReady s
      → hi < 65536
      → lo < 65536
      → length bs ≤ 512
      → All IsByte bs
      → (store_block s hi lo bs).last_error ≡ false
      → load_block (store_block s hi lo bs) hi lo (length bs) ≡ bs
  load_block-store_block s hi lo bs r h l n bytes good =
      let w = store_block-Stores s hi lo bs r h l n in
      let t = store_block s hi lo bs in
      let st = stored_state s hi lo bs r h l n in
      let back = disk.read_back s.file (place hi lo) w.block (eq_of_not _ _ w.written good) in
      let found : f.read_at t.file (place hi lo) ≡ some back.0 =
        ap (λ (g : F). f.read_at g (place hi lo)) w.file ∙ back.1 in
      let ran = load_command_lem t hi lo back.0 st.0 st.1 st.2 st.3 h l found in
      read_data_lem (load_command t hi lo) bs 0 ran.1 (omega arith) bytes (λ i j.
        ap (λ (g : ℕ → ℕ). g (0 + i)) ran.0
        ∙ ap back.0 (omega arith)
        ∙ back.2 i (omega arith)
        ∙ w.filled i j)

  blocks_apart :
      (hi lo hi' lo' : ℕ)
      → Card.block_number hi lo ≢ Card.block_number hi' lo'
      → (place hi lo + 512 ≤ place hi' lo') ⊎ (place hi' lo' + 512 ≤ place hi lo)
  blocks_apart hi lo hi' lo' h = ground arith

  -- On a device with a card and no failure asked for: every block that could be read reads as before
  -- after another block is written without the error flag, on an image file that keeps its other
  -- blocks.
  pub load_block-store_block_apart :
      (s : SdCard F) (hi lo hi' lo' n : ℕ) (bs : List ℕ) (old : ℕ → ℕ)
      → IsReady s
      → hi < 65536
      → lo < 65536
      → hi' < 65536
      → lo' < 65536
      → length bs ≤ 512
      → Card.block_number hi lo ≢ Card.block_number hi' lo'
      → (store_block s hi lo bs).last_error ≡ false
      → f.read_at s.file (place hi' lo') ≡ some old
      → load_block (store_block s hi lo bs) hi' lo' n ≡ load_block s hi' lo' n
  load_block-store_block_apart s hi lo hi' lo' n bs old r h l h' l' k other good e =
      let w = store_block-Stores s hi lo bs r h l k in
      let t = store_block s hi lo bs in
      let st = stored_state s hi lo bs r h l k in
      let kept =
        disk.apart s.file (place hi lo) (place hi' lo') w.block old (eq_of_not _ _ w.written good) e
          (blocks_apart hi lo hi' lo' other) in
      let found : f.read_at t.file (place hi' lo') ≡ some kept.0 =
        ap (λ (g : F). f.read_at g (place hi' lo')) w.file ∙ kept.1 in
      let after = load_command_lem t hi' lo' kept.0 st.0 st.1 st.2 st.3 h' l' found in
      let before = load_command_lem s hi' lo' old r.opened r.present r.reads r.lives h' l' e in
      read_data-same (load_command t hi' lo') (load_command s hi' lo') n (after.1 ∙ sym before.1)
        (omega (arith, before.1))
        (λ i j.
          ap (λ (g : ℕ → ℕ). g i) after.0 ∙ kept.2 i j ∙ sym (ap (λ (g : ℕ → ℕ). g i) before.0))
