-- ===== src/Fat/Fields.antt =====
-- The fields of the boot sector, as a driver reads them.
use pugputer6309_emulator.Base.{
  ℕ, ◌+◌, ◌*◌, ◌/◌, ◌^◌, ◌<◌, ◌≡◌, refl, leb, ltb, if◌then◌else◌, u16, arith, bit_and,
}
use pugputer6309_emulator.Base.Bits.{bit_and-0xff}
use pugputer6309_emulator.Bus.Types.{update}
use pugputer6309_emulator.Fat.Geometry.{Layout, reserved_sectors, sectors_per_fat}
use pugputer6309_emulator.Fat.Boot.{
  put_le16, put_le32, boot_start, boot_sizes, boot_end, boot_sector,
}
use pugputer6309_emulator.Fat.Linked.{le16}

abbrev pub le32 : (ℕ → ℕ) → ℕ → ℕ
le32 buf off = le16 buf off + 65536 * le16 buf (off + 2)

-- The number of sectors is in the 16-bit field, or 0 stands there and it is in the 32-bit field.
abbrev pub sectors_of : (ℕ → ℕ) → ℕ
sectors_of boot = if ltb 0 (le16 boot 0x13) then le16 boot 0x13 else le32 boot 0x20

-- The boot sector says what the arguments and the layout say.
pub record Describes (v : Layout) (boot : ℕ → ℕ) : Type 0 where
  pub bytes_per_sector : le16 boot 0x0b ≡ 512
  pub cluster_size : boot 0x0d ≡ v.sectors_per_cluster
  pub reserved : le16 boot 0x0e ≡ reserved_sectors v
  pub fats : boot 0x10 ≡ v.num_fats
  pub root_entries : le16 boot 0x11 ≡ v.root_entry_count
  pub sectors : sectors_of boot ≡ v.total_sectors
  pub media : boot 0x15 ≡ 0xf8
  pub fat_size : le16 boot 0x16 ≡ u16 (sectors_per_fat v)
  pub signature : le16 boot 0x1fe ≡ 0xaa55

pub split16 : (w : ℕ) → bit_and w 0xff + 256 * (w / 256) ≡ w
split16 w = omega (arith, bit_and-0xff w)

pub split32 :
    (w : ℕ)
    → w < 2 ^ 32
    → bit_and w 0xff
        + 256 * bit_and (w / 256) 0xff
        + 65536 * (bit_and (w / 65536) 0xff + 256 * bit_and (w / 16777216) 0xff)
      ≡ w
split32 w h = omega (
  arith,
  bit_and-0xff w,
  bit_and-0xff (w / 256),
  bit_and-0xff (w / 65536),
  bit_and-0xff (w / 16777216),
)

-- The two fields of the number of sectors.
abbrev in_16 : ℕ → ℕ
in_16 t = if leb t 0xffff then u16 t else 0

abbrev in_32 : ℕ → ℕ
in_32 t = if ltb 0xffff t then t else 0

sectors_kept :
    (t : ℕ)
    → t < 2 ^ 32
    → (let low = bit_and (in_16 t) 0xff + 256 * (in_16 t / 256) in
        if ltb 0 low
        then low
        else bit_and (in_32 t) 0xff
          + 256 * bit_and (in_32 t / 256) 0xff
          + 65536 * (bit_and (in_32 t / 65536) 0xff + 256 * bit_and (in_32 t / 16777216) 0xff))
      ≡ t
sectors_kept t h = rw (split16 (in_16 t), split32 (in_32 t) (ground arith)) (ground arith)

-- The boot sector of any layout with less than 2 ^ 32 sectors, on any image, holds the arguments and
-- the sizes of the layout in the fields of a FAT16 parameter block, and the signature.
pub boot_sector-Describes :
    (v : Layout) (image : ℕ → ℕ) → v.total_sectors < 2 ^ 32 → Describes v (boot_sector v image)
unfolding boot_sector boot_start boot_sizes boot_end put_le16 put_le32 update
boot_sector-Describes v image h = record {
  bytes_per_sector = refl;
  cluster_size = refl;
  reserved = split16 (reserved_sectors v);
  fats = refl;
  root_entries = split16 v.root_entry_count;
  sectors = sectors_kept v.total_sectors h;
  media = refl;
  fat_size = split16 (u16 (sectors_per_fat v));
  signature = refl;
}
