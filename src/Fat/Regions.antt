-- ===== src/Fat/Regions.antt =====
-- The regions of a volume that is not refused, and the size of its FAT.
use native.Mathlib.Nat.{
  le-div_iff_mul-le, mul-div-le, lt-mul-div-succ, div-le_of_le-mul, mul-add-div, div-eq_of_lt,
  mul_comm,
}
use pugputer6309_emulator.Base.{
  ℕ, ◌+◌, ◌-◌, ◌*◌, ◌/◌, ◌%◌, ◌^◌, ◌≤◌, ◌<◌, ◌≡◌, ap, sym, ◌∙◌, false, u32, arith,
}
use pugputer6309_emulator.Fat.Geometry.{
  Layout, sub32, reserved_sectors, root_dir_sectors, sectors_to_share, sectors_per_fat_sector,
  sectors_per_fat, fat_lba, root_lba, data_lba, total_clusters, is_refused,
}

-- The arguments are in the ranges of their types, with at least one sector in a cluster and one FAT,
-- less than 2 ^ 31 sectors, and room for the reserved sectors and the root directory.
pub record IsSensible (v : Layout) : Type 0 where
  pub total : v.total_sectors < 2 ^ 31
  pub cluster_some : 0 < v.sectors_per_cluster
  pub cluster_byte : v.sectors_per_cluster < 256
  pub fats_some : 0 < v.num_fats
  pub fats_byte : v.num_fats < 256
  pub root_word : v.root_entry_count < 65536
  pub room : reserved_sectors v + root_dir_sectors v ≤ v.total_sectors

module _ (v : Layout) (s : IsSensible v) where
  share_lem : sectors_to_share v + (reserved_sectors v + root_dir_sectors v) ≡ v.total_sectors
  unfolding sectors_to_share sub32
  share_lem = omega (arith, s.room, s.total)

  -- `n * p` sectors for the FATs, and what they can hold.
  abbrev p : ℕ
  p = sectors_per_fat v

  per_fat_sector_some : 0 < sectors_per_fat_sector v
  unfolding sectors_per_fat_sector
  per_fat_sector_some = omega (arith, s.fats_some)

  rounded :
      u32 (sectors_to_share v + sectors_per_fat_sector v + 0xffffffff)
      ≡ sectors_to_share v + sectors_per_fat_sector v - 1
  unfolding sectors_per_fat_sector
  rounded = omega (arith, share_lem, s.total, s.cluster_byte, s.fats_byte, s.fats_some)

  fats_above : sectors_per_fat_sector v * p ≤ sectors_to_share v + sectors_per_fat_sector v - 1
  unfolding sectors_per_fat
  fats_above =
      rw rounded
        (mul-div-le (sectors_to_share v + sectors_per_fat_sector v - 1) (sectors_per_fat_sector v))

  shared : v.num_fats * p + v.sectors_per_cluster * (256 * p) ≡ sectors_per_fat_sector v * p
  unfolding sectors_per_fat_sector
  shared = grind arith

  fats_below : sectors_to_share v ≤ sectors_per_fat_sector v * p
  unfolding sectors_per_fat
  fats_below = rw rounded (
      omega (
        arith,
        lt-mul-div-succ (sectors_to_share v + sectors_per_fat_sector v - 1) per_fat_sector_some,
        per_fat_sector_some,
      ))

  fats_small : v.num_fats * p ≤ sectors_to_share v + 65534
  unfolding sectors_per_fat_sector
  fats_small = omega (arith, shared, fats_above, s.cluster_byte, s.fats_byte)

  reserved_word : reserved_sectors v < 65536
  unfolding reserved_sectors
  reserved_word = omega arith

  root_small : root_dir_sectors v ≤ 4096
  unfolding root_dir_sectors
  root_small = omega (arith, s.root_word)

  root_lba_lem : root_lba v ≡ fat_lba v + v.num_fats * p
  unfolding root_lba
  root_lba_lem = omega (arith, fats_small, share_lem, s.total, reserved_word)

  data_lba_lem : data_lba v ≡ root_lba v + root_dir_sectors v
  unfolding data_lba
  data_lba_lem =
      omega (arith, root_lba_lem, fats_small, share_lem, s.total, reserved_word, root_small)

  wraps : v.total_sectors < data_lba v → 65525 ≤ total_clusters v
  unfolding total_clusters sub32
  wraps h =
      let far : 65525 * v.sectors_per_cluster ≤ (v.total_sectors + 2 ^ 32 - data_lba v) % 2 ^ 32 =
        omega
          (arith, h, data_lba_lem, root_lba_lem, fats_small, share_lem, s.total, s.cluster_byte) in
      (le-div_iff_mul-le s.cluster_some).1 far

  exact_fats : (q : ℕ) → sectors_to_share v ≡ sectors_per_fat_sector v * q → p ≡ q
  unfolding sectors_per_fat
  exact_fats q h =
      let d = sectors_per_fat_sector v in
      let whole : u32 (sectors_to_share v + d + 0xffffffff) ≡ d * q + (d - 1) =
        omega (arith, rounded, h, per_fat_sector_some) in
      let none_left : (d - 1) / d ≡ 0 = div-eq_of_lt (omega (arith, per_fat_sector_some)) in
      rw whole (mul-add-div per_fat_sector_some q (d - 1) ∙ omega (arith, none_left))

  module _ (accepted : is_refused v ≡ false) where
    clusters_range : (4085 ≤ total_clusters v) × (total_clusters v ≤ 65524)
    unfolding is_refused
    clusters_range = ground arith

    -- The data area starts in the volume: otherwise the difference would wrap around to a number
    -- of clusters that is refused.
    data_starts : data_lba v ≤ v.total_sectors
    data_starts = ground (arith, clusters_range, wraps)

    clusters_lem : total_clusters v ≡ (v.total_sectors - data_lba v) / v.sectors_per_cluster
    unfolding total_clusters sub32
    clusters_lem = ap (λ (n : ℕ). n / v.sectors_per_cluster) (omega (arith, data_starts, s.total))

    -- The sectors of the data area, and what the FATs leave for it.
    data_left : v.total_sectors - data_lba v ≡ sectors_to_share v - v.num_fats * p
    data_left = omega (arith, data_lba_lem, root_lba_lem, share_lem, data_starts)

    clusters_counted : total_clusters v ≤ 256 * p
    clusters_counted =
        rw clusters_lem
          (div-le_of_le-mul v.sectors_per_cluster (omega (arith, data_left, fats_below, shared)))

    -- Of a volume that is not refused, with sensible arguments: the reserved sectors, the FATs, the
    -- root directory and the clusters follow one another without overlap and end in the volume, no
    -- 32-bit sum or difference on the way having wrapped around; the number of clusters is one of
    -- FAT16, and the FAT has room for as many entries as there are clusters.
    pub regions_follow :
        (root_lba v ≡ fat_lba v + v.num_fats * sectors_per_fat v)
        × (data_lba v ≡ root_lba v + root_dir_sectors v)
        × (data_lba v + v.sectors_per_cluster * total_clusters v ≤ v.total_sectors)
        × (4085 ≤ total_clusters v)
        × (total_clusters v ≤ 65524)
        × (total_clusters v ≤ 256 * sectors_per_fat v)
    regions_follow =
        let inside : v.sectors_per_cluster
              * ((v.total_sectors - data_lba v) / v.sectors_per_cluster)
            ≤ v.total_sectors - data_lba v =
          mul-div-le _ _ in
        (
          root_lba_lem,
          data_lba_lem,
          rw clusters_lem (omega (arith, inside, data_starts)),
          clusters_range.0,
          clusters_range.1,
          clusters_counted,
        )

    -- Where the sectors that are left to share are a multiple of the divisor of the formula for the
    -- size of a FAT, the FAT is too short: the entry of the last cluster, that of number
    -- `total_clusters + 1`, starts at or past the end of the FAT's `512 * sectors_per_fat` bytes; for a
    -- volume that is not refused, with sensible arguments.
    pub last_entry_outside :
        (q : ℕ)
        → sectors_to_share v ≡ sectors_per_fat_sector v * q
        → 512 * sectors_per_fat v ≤ (total_clusters v + 1) * 2
    last_entry_outside q h =
        let same : sectors_per_fat_sector v * p ≡ sectors_to_share v =
          ap (λ (n : ℕ). sectors_per_fat_sector v * n) (exact_fats q h) ∙ sym h in
        let full : 256 * p * v.sectors_per_cluster ≤ v.total_sectors - data_lba v =
          omega (arith, data_left, same, shared, mul_comm (256 * p) v.sectors_per_cluster) in
        let many : 256 * p ≤ (v.total_sectors - data_lba v) / v.sectors_per_cluster =
          (le-div_iff_mul-le s.cluster_some).1 full in
        omega (arith, clusters_lem, many)
