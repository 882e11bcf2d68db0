-- ===== src/Fat/Sized.antt =====
-- The numbers of clusters that the directories and files of a volume ask for.
use native.Mathlib.Nat.{mul-add, mul_comm, mul-div-le, lt-mul-div-succ}
use pugputer6309_emulator.Base.{
  ℕ, zero, suc, ◌+◌, ◌-◌, ◌*◌, ◌/◌, ◌≤◌, ◌<◌, ◌≡◌, List, [], ◌∷◌, ◌++◌, length, arith,
}
use pugputer6309_emulator.Fat.Geometry.{Layout}
use pugputer6309_emulator.Fat.Chains.{clusters_for}
use pugputer6309_emulator.Fat.Tree.{Tree, entry_count}
use pugputer6309_emulator.Fat.Volume.{dir_clusters, file_clusters, requests}

-- `n` clusters of this many sectors hold `bytes` bytes, and one cluster less does not.
abbrev pub JustHolds : ℕ → ℕ → ℕ → Type 0
JustHolds sectors bytes n =
    (bytes ≤ n * (sectors * 512)) × (n * (sectors * 512) < bytes + sectors * 512)

-- There is one number of clusters for each number of bytes, and it just holds them.
abbrev pub EachHolds : ℕ → List ℕ → List ℕ → Type 0
EachHolds sectors [] [] = Unit
EachHolds sectors [] (n ∷ ns) = ⊥
EachHolds sectors (bytes ∷ sizes) [] = ⊥
EachHolds sectors (bytes ∷ sizes) (n ∷ ns) = JustHolds sectors bytes n × EachHolds sectors sizes ns

-- The bytes of `left` directories from `d` on, 32 for each entry.
abbrev pub dir_sizes : Tree → ℕ → ℕ → List ℕ
dir_sizes t d zero = []
dir_sizes t d (suc left) = entry_count t d * 32 ∷ dir_sizes t (d + 1) left

-- The bytes of the directories but the root, and of the files.
abbrev pub all_sizes : Tree → List ℕ → List ℕ
all_sizes t sizes = dir_sizes t 1 (length t.dirs - 1) ++ sizes

clusters_for-JustHolds :
    (sectors bytes : ℕ) → 0 < sectors → JustHolds sectors bytes (clusters_for sectors bytes)
unfolding clusters_for
clusters_for-JustHolds sectors bytes h =
    let b = sectors * 512 in
    let some_bytes : 0 < b = omega arith in
    let over : bytes + b - 1 < b * ((bytes + b - 1) / b + 1) =
      lt-mul-div-succ (bytes + b - 1) some_bytes in
    let under : b * ((bytes + b - 1) / b) ≤ bytes + b - 1 = mul-div-le (bytes + b - 1) b in
    let swapped : (bytes + b - 1) / b * b ≡ b * ((bytes + b - 1) / b) =
      mul_comm ((bytes + b - 1) / b) b in
    (
      omega (arith, some_bytes, over, swapped, mul-add b ((bytes + b - 1) / b) 1),
      omega (arith, some_bytes, under, swapped),
    )

file_clusters-EachHolds :
    (sectors : ℕ) (sizes : List ℕ)
    → 0 < sectors
    → EachHolds sectors sizes (file_clusters sectors sizes)
unfolding file_clusters
file_clusters-EachHolds sectors [] h = tt
file_clusters-EachHolds sectors (bytes ∷ sizes) h =
    (clusters_for-JustHolds sectors bytes h, file_clusters-EachHolds sectors sizes h)

dir_clusters-EachHolds :
    (sectors : ℕ) (t : Tree) (d left : ℕ) (sizes ns : List ℕ)
    → 0 < sectors
    → EachHolds sectors sizes ns
    → EachHolds sectors (dir_sizes t d left ++ sizes) (dir_clusters sectors t d left ++ ns)
unfolding dir_clusters
dir_clusters-EachHolds sectors t d zero sizes ns h files = files
dir_clusters-EachHolds sectors t d (suc left) sizes ns h files = (
  clusters_for-JustHolds sectors (entry_count t d * 32) h,
  dir_clusters-EachHolds sectors t (d + 1) left sizes ns h files,
)

pub requests-EachHolds :
    (v : Layout) (t : Tree) (sizes : List ℕ)
    → 0 < v.sectors_per_cluster
    → EachHolds v.sectors_per_cluster (all_sizes t sizes) (requests v t sizes)
unfolding requests
requests-EachHolds v t sizes h =
    dir_clusters-EachHolds v.sectors_per_cluster t 1 (length t.dirs - 1) sizes
      (file_clusters v.sectors_per_cluster sizes) h
      (file_clusters-EachHolds v.sectors_per_cluster sizes h)
