-- ===== src/Fat/Tests.antt =====
-- A volume of 8257 sectors with the default arguments and no payload, for which the FAT is too short.
use pugputer6309_emulator.Base.{
  ℕ, ◌+◌, ◌*◌, ◌≤◌, ◌<◌, ◌≡◌, refl, false, ◌&&◌, leb, ltb, if◌then◌else◌, arith, List, [], ◌∷◌,
  none, some, All, ok, err,
}
use pugputer6309_emulator.Fat.Geometry
use pugputer6309_emulator.Fat.Geometry.{Layout}
use pugputer6309_emulator.Fat.Boot.{boot_sector}
use pugputer6309_emulator.Fat.Chains.{Clusters, allocate, set_fat16_entry, past_end}
use pugputer6309_emulator.Fat.Chains.{clusters_for}
use pugputer6309_emulator.Fat.Entries.{Entries, add_entry}
use pugputer6309_emulator.Fat.Named.{Holds, add_entry-Holds}
use pugputer6309_emulator.Fat.NameField.{join_name}
use pugputer6309_emulator.Fat.Tree.{
  Tree, empty_tree, place_files, place_file, split_path, enter_all, entry_count,
}
use pugputer6309_emulator.Fat.Placed.{IsTree, place_files-IsTree}
use pugputer6309_emulator.Fat.Volume.{
  volume_error, requests, sum, dir_clusters, file_clusters, allocate_volume,
}
use pugputer6309_emulator.Fat.Sized.{EachHolds, all_sizes}
use mathlib.Core.List.{map}
use pugputer6309_emulator.Fat.TooShort.{allocate_volume-PastEnd}
use pugputer6309_emulator.Fat.Allocated.{IsChain, allocate_volume-IsChain}
use pugputer6309_emulator.Fat.Linked.{entry, entry-allocate}
use pugputer6309_emulator.Fat.Fields.{Describes, boot_sector-Describes}
use pugputer6309_emulator.Fat.Regions.{IsSensible, regions_follow, last_entry_outside}

abbrev volume : Layout
volume = record {
  payload = 0;
  total_sectors = 8257;
  sectors_per_cluster = 2;
  root_entry_count = 512;
  num_fats = 2;
}

volume-IsSensible : IsSensible volume
unfolding Geometry.reserved_sectors Geometry.root_dir_sectors
volume-IsSensible = record {
  total = omega arith;
  cluster_some = omega arith;
  cluster_byte = omega arith;
  fats_some = omega arith;
  fats_byte = omega arith;
  root_word = omega arith;
  room = omega arith;
}

volume_accepted : Geometry.is_refused volume ≡ false
unfolding Geometry.is_refused Geometry.total_clusters Geometry.data_lba Geometry.root_lba
    Geometry.sectors_per_fat Geometry.sectors_per_fat_sector Geometry.sectors_to_share
    Geometry.reserved_sectors Geometry.root_dir_sectors Geometry.sub32
volume_accepted = refl

volume_shares : Geometry.sectors_to_share volume ≡ Geometry.sectors_per_fat_sector volume * 16
unfolding Geometry.sectors_per_fat_sector Geometry.sectors_to_share Geometry.reserved_sectors
    Geometry.root_dir_sectors Geometry.sub32
volume_shares = refl

regions_follow_example :
    (Geometry.root_lba volume ≡ Geometry.fat_lba volume + 2 * Geometry.sectors_per_fat volume)
    × (Geometry.data_lba volume ≡ Geometry.root_lba volume + Geometry.root_dir_sectors volume)
    × (Geometry.data_lba volume + 2 * Geometry.total_clusters volume ≤ 8257)
    × (4085 ≤ Geometry.total_clusters volume)
    × (Geometry.total_clusters volume ≤ 65524)
    × (Geometry.total_clusters volume ≤ 256 * Geometry.sectors_per_fat volume)
regions_follow_example = regions_follow volume volume-IsSensible volume_accepted

last_entry_outside_example :
    512 * Geometry.sectors_per_fat volume ≤ (Geometry.total_clusters volume + 1) * 2
last_entry_outside_example =
    last_entry_outside volume volume-IsSensible volume_accepted 16 volume_shares

-- The FAT of 16 sectors, before its first two entries are set.
abbrev fresh : Clusters
fresh = record { fat = record { bytes = λ i. 0; size = 8192 }; next_cluster = 2 }

entry-allocate_example :
    (r : ℕ × Clusters) × (allocate 3 fresh ≡ ok r)
    × (r.0 ≡ 2)
    × (r.1.next_cluster ≡ 2 + 3)
    × (r.1.fat.size ≡ 8192)
    × ((k : ℕ)
        → entry r.1.fat k ≡ (
            if leb 2 k && ltb k (2 + 3)
            then (if ltb (k + 1) (2 + 3) then k + 1 else 0xffff)
            else entry fresh.fat k))
entry-allocate_example = entry-allocate 3 fresh (omega arith) (omega arith) (omega arith)

-- An entry past the end of a FAT of two sectors.
past_its_end :
    set_fat16_entry (record { bytes = λ i. 0; size = 1024 }) 512 0xffff ≡ err (past_end 512)
unfolding set_fat16_entry
past_its_end = refl

boot_sector-Describes_example : Describes volume (boot_sector volume (λ i. 0))
boot_sector-Describes_example = boot_sector-Describes volume (λ i. 0) (omega arith)

abbrev directory : Entries
directory = record { bytes = λ i. 0; size = 64 }

-- "basic"
abbrev basic : List ℕ
basic = 98 ∷ 97 ∷ 115 ∷ 105 ∷ 99 ∷ []

-- "com"
abbrev com_text : List ℕ
com_text = 99 ∷ 111 ∷ 109 ∷ []

add_entry-Holds_example :
    Holds directory
      (add_entry directory (join_name basic (some com_text)) 0x20 5 1000)
      basic
      com_text
      0x20
      5
      1000
add_entry-Holds_example =
    add_entry-Holds directory basic (some com_text) 0x20 5 1000 (omega arith)
      (refl, (refl, (refl, (refl, (refl, tt))))) (omega arith)

-- "CMD/A" and "B"
abbrev names : List (List ℕ)
names = (67 ∷ 77 ∷ 68 ∷ 47 ∷ 65 ∷ []) ∷ (66 ∷ []) ∷ []

place_files-IsTree_example : IsTree (place_files empty_tree names)
place_files-IsTree_example = place_files-IsTree names

abbrev small_tree : Tree
small_tree = record { dirs = [] ∷ []; placed = (0, 66 ∷ []) ∷ [] }

files_placed : place_files empty_tree ((66 ∷ []) ∷ []) ≡ small_tree
unfolding place_files place_file split_path enter_all
files_placed = refl

fits : volume_error volume small_tree (3000 ∷ []) ≡ none
unfolding volume_error requests sum dir_clusters file_clusters clusters_for entry_count
    Geometry.total_clusters Geometry.data_lba Geometry.root_lba Geometry.sectors_per_fat
    Geometry.sectors_per_fat_sector Geometry.sectors_to_share Geometry.reserved_sectors
    Geometry.root_dir_sectors Geometry.sub32
fits = refl

-- The requests of the tree and the file, and the sectors of the FAT.
long_enough :
    2 + sum (requests volume small_tree (3000 ∷ [])) ≤ 256 * Geometry.sectors_per_fat volume
unfolding requests sum dir_clusters file_clusters clusters_for Geometry.sectors_per_fat
    Geometry.sectors_per_fat_sector Geometry.sectors_to_share Geometry.reserved_sectors
    Geometry.root_dir_sectors Geometry.sub32
long_enough = omega arith

allocate_volume-IsChain_example :
    (r : List (ℕ × ℕ) × Clusters) × (allocate_volume volume small_tree (3000 ∷ []) ≡ ok r)
    × EachHolds 2 (all_sizes small_tree (3000 ∷ [])) (map (λ one. one.1) r.0)
    × All (IsChain r.1.fat) r.0
    × (entry r.1.fat 0 ≡ 0xfff8)
    × (entry r.1.fat 1 ≡ 0xffff)
allocate_volume-IsChain_example =
    allocate_volume-IsChain volume small_tree (3000 ∷ []) (omega arith) volume_accepted fits
      long_enough

-- A file that needs all 4096 clusters of the volume.
abbrev large : List ℕ
large = 4194304 ∷ []

large_fits : volume_error volume small_tree large ≡ none
unfolding volume_error requests sum dir_clusters file_clusters clusters_for entry_count
    Geometry.total_clusters Geometry.data_lba Geometry.root_lba Geometry.sectors_per_fat
    Geometry.sectors_per_fat_sector Geometry.sectors_to_share Geometry.reserved_sectors
    Geometry.root_dir_sectors Geometry.sub32
large_fits = refl

too_short : 256 * Geometry.sectors_per_fat volume < 2 + sum (requests volume small_tree large)
unfolding requests sum dir_clusters file_clusters clusters_for Geometry.sectors_per_fat
    Geometry.sectors_per_fat_sector Geometry.sectors_to_share Geometry.reserved_sectors
    Geometry.root_dir_sectors Geometry.sub32
too_short = omega arith

allocate_volume-PastEnd_example :
    allocate_volume volume small_tree large ≡ err (past_end (256 * Geometry.sectors_per_fat volume))
allocate_volume-PastEnd_example =
    allocate_volume-PastEnd volume small_tree large volume_accepted large_fits too_short
