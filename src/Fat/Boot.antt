-- ===== src/Fat/Boot.antt =====
-- Fields of bytes, and the boot sector of `build_fat16_image`. A buffer is a function of the index.
use pugputer6309_emulator.Base.{ℕ, ◌+◌, ◌/◌, List, [], ◌∷◌, leb, ltb, if◌then◌else◌, u16, bit_and}
use pugputer6309_emulator.Bus.Types.{update}
use pugputer6309_emulator.Fat.Geometry.{Layout, sector_size, reserved_sectors, sectors_per_fat}

unfoldable pub put_le16 : (ℕ → ℕ) → ℕ → ℕ → ℕ → ℕ
put_le16 buf off v = update (update buf off (bit_and v 0xff)) (off + 1) (v / 256)

unfoldable pub put_le32 : (ℕ → ℕ) → ℕ → ℕ → ℕ → ℕ
put_le32 buf off v =
    update
      (update (update (update buf off (bit_and v 0xff)) (off + 1) (bit_and (v / 256) 0xff))
        (off + 2) (bit_and (v / 65536) 0xff))
      (off + 3) (bit_and (v / 16777216) 0xff)

-- `for (...) image[off + i] = text[i];`
abbrev pub put_text : (ℕ → ℕ) → ℕ → List ℕ → ℕ → ℕ
put_text buf off [] = buf
put_text buf off (c ∷ cs) = put_text (update buf off c) (off + 1) cs

-- "PUGPUTR ", "PUGPUTER   " and "FAT16   ".
abbrev pub oem : List ℕ
oem = 80 ∷ 85 ∷ 71 ∷ 80 ∷ 85 ∷ 84 ∷ 82 ∷ 32 ∷ []

abbrev pub label : List ℕ
label = 80 ∷ 85 ∷ 71 ∷ 80 ∷ 85 ∷ 84 ∷ 69 ∷ 82 ∷ 32 ∷ 32 ∷ 32 ∷ []

abbrev pub fstype : List ℕ
fstype = 70 ∷ 65 ∷ 84 ∷ 49 ∷ 54 ∷ 32 ∷ 32 ∷ 32 ∷ []

-- From the jump to the number of FATs.
unfoldable pub boot_start : Layout → (ℕ → ℕ) → ℕ → ℕ
boot_start v image =
    let jump = update (update (update image 0 0xeb) 1 0x3c) 2 0x90 in
    let sector = put_le16 (put_text jump 3 oem) 0x0b sector_size in
    let reserved = put_le16 (update sector 0x0d v.sectors_per_cluster) 0x0e (reserved_sectors v) in
    update reserved 0x10 v.num_fats

-- From the size of the root directory to the number of sectors in 32 bits.
unfoldable pub boot_sizes : Layout → (ℕ → ℕ) → ℕ → ℕ
boot_sizes v image =
    let root = put_le16 image 0x11 v.root_entry_count in
    let small =
      put_le16 root 0x13 (if leb v.total_sectors 0xffff then u16 v.total_sectors else 0) in
    let fat = put_le16 (update small 0x15 0xf8) 0x16 (u16 (sectors_per_fat v)) in
    let hidden = put_le32 (put_le16 (put_le16 fat 0x18 0) 0x1a 0) 0x1c 0 in
    put_le32 hidden 0x20 (if ltb 0xffff v.total_sectors then v.total_sectors else 0)

-- The rest, with the signature.
unfoldable pub boot_end : (ℕ → ℕ) → ℕ → ℕ
boot_end image =
    let drive = update (update (update image 0x24 0x80) 0x25 0) 0x26 0x29 in
    let names = put_text (put_text (put_le32 drive 0x27 0) 0x2b label) 0x36 fstype in
    update (update names 0x1fe 0x55) 0x1ff 0xaa

-- The boot sector, on an image of zeros.
unfoldable pub boot_sector : Layout → (ℕ → ℕ) → ℕ → ℕ
boot_sector v image = boot_end (boot_sizes v (boot_start v image))
