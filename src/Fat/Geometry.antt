-- ===== src/Fat/Geometry.antt =====
-- `build_fat16_image` up to its check of the number of clusters. A division by 0, which the source
-- leaves undefined for 0 sectors in a cluster, gives 0 here.
use pugputer6309_emulator.Base.{ℕ, ◌+◌, ◌-◌, ◌*◌, ◌/◌, ◌%◌, ◌^◌, Bool, ◌||◌, ltb, u16, u32}

abbrev pub sector_size : ℕ
sector_size = 512

-- The arguments that the layout depends on; `payload` is the size of `dos_payload`.
pub record Layout : Type 0 where
  pub payload : ℕ
  pub total_sectors : ℕ
  pub sectors_per_cluster : ℕ
  pub root_entry_count : ℕ
  pub num_fats : ℕ

-- `uint32_t a - b`
unfoldable pub sub32 : ℕ → ℕ → ℕ
sub32 a b = (a + 2 ^ 32 - b) % 2 ^ 32

unfoldable pub reserved_sectors : Layout → ℕ
reserved_sectors v = u16 (1 + (v.payload + sector_size - 1) / sector_size)

unfoldable pub root_dir_sectors : Layout → ℕ
root_dir_sectors v = (v.root_entry_count * 32 + sector_size - 1) / sector_size

-- `tmp1` and `tmp2`.
unfoldable pub sectors_to_share : Layout → ℕ
sectors_to_share v = sub32 v.total_sectors (reserved_sectors v + root_dir_sectors v)

unfoldable pub sectors_per_fat_sector : Layout → ℕ
sectors_per_fat_sector v = 256 * v.sectors_per_cluster + v.num_fats

unfoldable pub sectors_per_fat : Layout → ℕ
sectors_per_fat v =
    u32 (sectors_to_share v + sectors_per_fat_sector v + 0xffffffff) / sectors_per_fat_sector v

abbrev pub fat_lba : Layout → ℕ
fat_lba v = reserved_sectors v

unfoldable pub root_lba : Layout → ℕ
root_lba v = u32 (fat_lba v + u32 (v.num_fats * sectors_per_fat v))

unfoldable pub data_lba : Layout → ℕ
data_lba v = u32 (root_lba v + root_dir_sectors v)

unfoldable pub total_clusters : Layout → ℕ
total_clusters v = sub32 v.total_sectors (data_lba v) / v.sectors_per_cluster

-- The volume is refused.
unfoldable pub is_refused : Layout → Bool
is_refused v = ltb (total_clusters v) 4085 || ltb 65524 (total_clusters v)
