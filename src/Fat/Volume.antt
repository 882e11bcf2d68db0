-- ===== src/Fat/Volume.antt =====
-- `build_fat16_image` from the counts of entries to the clusters of every directory and file.
use pugputer6309_emulator.Base.{
  ℕ, zero, suc, ◌+◌, ◌-◌, ◌*◌, Option, none, some, List, [], ◌∷◌, ◌++◌, ltb, if◌then◌else◌, length,
  Outcome, ok, ◌>>=◌,
}
use pugputer6309_emulator.Fat.Geometry.{Layout, total_clusters, sectors_per_fat}
use pugputer6309_emulator.Fat.Chains.{PastEnd, Clusters, empty_fat, clusters_for, allocate}
use pugputer6309_emulator.Fat.Tree.{Tree, entry_count}

-- The clusters of the directories from `d` on.
unfoldable pub dir_clusters : ℕ → Tree → ℕ → ℕ → List ℕ
dir_clusters sectors_per_cluster t d zero = []
dir_clusters sectors_per_cluster t d (suc left) =
    clusters_for sectors_per_cluster (entry_count t d * 32)
    ∷ dir_clusters sectors_per_cluster t (d + 1) left

unfoldable pub file_clusters : ℕ → List ℕ → List ℕ
file_clusters sectors_per_cluster [] = []
file_clusters sectors_per_cluster (size ∷ sizes) =
    clusters_for sectors_per_cluster size ∷ file_clusters sectors_per_cluster sizes

-- The directories but the root, and the files, given their sizes in bytes.
unfoldable pub requests : Layout → Tree → List ℕ → List ℕ
requests v t sizes =
    dir_clusters v.sectors_per_cluster t 1 (length t.dirs - 1)
    ++ file_clusters v.sectors_per_cluster sizes

unfoldable pub sum : List ℕ → ℕ
sum [] = 0
sum (n ∷ ns) = n + sum ns

pub data VolumeError : Type 0 where
  too_many_root_entries : ℕ → VolumeError
  files_do_not_fit : VolumeError

unfoldable pub volume_error : Layout → Tree → List ℕ → Option VolumeError
volume_error v t sizes =
    if ltb v.root_entry_count (entry_count t 0)
    then some (too_many_root_entries (entry_count t 0))
    else (if ltb (total_clusters v) (sum (requests v t sizes)) then some files_do_not_fit else none)

-- The calls of `allocate`, with the first cluster and the number of clusters of each.
unfoldable pub allocate_all : List ℕ → Clusters → Outcome PastEnd (List (ℕ × ℕ) × Clusters)
allocate_all [] s = ok ([], s)
allocate_all (n ∷ ns) s = do
  one ← allocate n s
  rest ← allocate_all ns one.1
  ok ((one.0, n) ∷ rest.0, rest.1)

-- All clusters of a volume, the directories' first.
unfoldable pub allocate_volume : Layout → Tree → List ℕ → Outcome PastEnd (List (ℕ × ℕ) × Clusters)
allocate_volume v t sizes = do
  fat ← empty_fat (sectors_per_fat v)
  allocate_all (requests v t sizes) (record { fat = fat; next_cluster = 2 })
