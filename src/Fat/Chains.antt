-- ===== src/Fat/Chains.antt =====
-- The cluster chains of `build_fat16_image`.
use pugputer6309_emulator.Base.{
  ℕ, zero, suc, ◌+◌, ◌-◌, ◌*◌, ◌/◌, ltb, ◌==◌, if◌then◌else◌, u16, Outcome, ok, err, ◌>>=◌,
}
use pugputer6309_emulator.Fat.Geometry.{sector_size}
use pugputer6309_emulator.Fat.Boot.{put_le16}

-- The vector `fat`: its bytes, and their number.
pub record FatTable : Type 0 where
  pub bytes : ℕ → ℕ
  pub size : ℕ

-- The entry of this cluster does not lie in the vector; the source then writes past its end, which
-- is undefined, and the model stops.
pub data PastEnd : Type 0 where
  past_end : ℕ → PastEnd

unfoldable pub set_fat16_entry : FatTable → ℕ → ℕ → Outcome PastEnd FatTable
set_fat16_entry fat cluster value =
    if ltb (cluster * 2 + 1) fat.size
    then ok (record fat { bytes = put_le16 fat.bytes (cluster * 2) value })
    else err (past_end cluster)

-- The FAT before any cluster is handed out, of this many sectors.
unfoldable pub empty_fat : ℕ → Outcome PastEnd FatTable
empty_fat sectors_per_fat = do
  one ← set_fat16_entry (record { bytes = λ i. 0; size = sectors_per_fat * sector_size }) 0 0xfff8
  set_fat16_entry one 1 0xffff

-- `clusters_for(bytes)`
unfoldable pub clusters_for : ℕ → ℕ → ℕ
clusters_for sectors_per_cluster bytes =
    (bytes + sectors_per_cluster * sector_size - 1) / (sectors_per_cluster * sector_size)

pub record Clusters : Type 0 where
  pub fat : FatTable
  pub next_cluster : ℕ

-- The loop of `allocate` from round `c`, with `left` rounds to go.
unfoldable pub chain_clusters : ℕ → ℕ → ℕ → FatTable → Outcome PastEnd FatTable
chain_clusters first c zero fat = ok fat
chain_clusters first c (suc left) fat =
    let cluster = u16 (first + c) in
    set_fat16_entry fat cluster (if ltb 0 left then u16 (cluster + 1) else 0xffff)
    >>= chain_clusters first (c + 1) left

-- `allocate(n)`
unfoldable pub allocate : ℕ → Clusters → Outcome PastEnd (ℕ × Clusters)
allocate n s = if n == 0 then ok (0, s) else (do
  chained ← chain_clusters s.next_cluster 0 n s.fat
  ok (s.next_cluster, record s { fat = chained; next_cluster = u16 (s.next_cluster + n) }))
