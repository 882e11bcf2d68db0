-- ===== src/Fat/Linked.antt =====
-- The chain that `allocate` makes.
use pugputer6309_emulator.Base.{
  ℕ, zero, suc, ◌+◌, ◌*◌, ◌≤◌, ◌<◌, ◌≡◌, refl, ap, ◌&&◌, ltb, leb, ◌==◌, if◌then◌else◌, u16, ok,
  ◌>>=◌, arith, ◌∙◌, false,
}
use pugputer6309_emulator.Base.Bits.{bit_and-0xff}
use pugputer6309_emulator.Bus.Types.{update}
use pugputer6309_emulator.Fat.Boot.{put_le16}
use pugputer6309_emulator.Fat.Chains.{FatTable, set_fat16_entry, Clusters, chain_clusters, allocate}

-- The 16-bit value at an offset, the low byte first, and the entry of a cluster.
abbrev pub le16 : (ℕ → ℕ) → ℕ → ℕ
le16 buf off = buf off + 256 * buf (off + 1)

abbrev pub entry : FatTable → ℕ → ℕ
entry fat cluster = le16 fat.bytes (cluster * 2)

-- An entry that lies in the FAT is set, and all others stay.
pub record Sets (fat : FatTable) (c v : ℕ) (r : FatTable) : Type 0 where
  pub done : set_fat16_entry fat c v ≡ ok r
  pub same_size : r.size ≡ fat.size
  pub entries : (k : ℕ) → entry r k ≡ (if k == c then v else entry fat k)

pub set_fat16_entry-Sets :
    (fat : FatTable) (c v : ℕ) → v < 65536 → c * 2 + 1 < fat.size → (r : FatTable) × Sets fat c v r
unfolding set_fat16_entry put_le16 update
set_fat16_entry-Sets fat c v h inside = (
  record fat { bytes = put_le16 fat.bytes (c * 2) v },
  record {
    done = ground arith;
    same_size = refl;
    entries = λ k.
        let same : k ≡ c → entry fat k ≡ entry fat c = λ e. ap (entry fat) e in
        ground (arith, bit_and-0xff v, same);
  },
)

-- The rounds that are left are all in the FAT, and the entries after them.
record Chains (first c left : ℕ) (fat r : FatTable) : Type 0 where
  done : chain_clusters first c left fat ≡ ok r
  same_size : r.size ≡ fat.size
  entries :
      (k : ℕ)
      → entry r k ≡ (
          if leb (first + c) k && ltb k (first + c + left)
          then (if ltb (k + 1) (first + c + left) then k + 1 else 0xffff)
          else entry fat k)

chain_clusters-Chains :
    (first c left : ℕ) (fat : FatTable)
    → first + c + left ≤ 65536
    → (first + c + left) * 2 ≤ fat.size
    → (r : FatTable) × Chains first c left fat r
unfolding chain_clusters
chain_clusters-Chains first c zero fat h inside =
    (fat, record { done = refl; same_size = refl; entries = λ k. ground arith })
chain_clusters-Chains first c (suc left) fat h inside =
    let value = if ltb 0 left then u16 (u16 (first + c) + 1) else 0xffff in
    let small : value < 65536 = ground arith in
    let set = set_fat16_entry-Sets fat (u16 (first + c)) value small (omega arith) in
    let rest =
      chain_clusters-Chains first (c + 1) left set.0 (omega arith)
        (omega (arith, set.1.same_size)) in
    (
      rest.0,
      record {
        done = ap (λ o. o >>= chain_clusters first (c + 1) left) set.1.done ∙ rest.1.done;
        same_size = rest.1.same_size ∙ set.1.same_size;
        entries = λ k. ground (arith, rest.1.entries k, set.1.entries k);
      },
    )

-- An allocation of `n` clusters, all below 65536 and with their entries in the FAT, succeeds and
-- gives the next free cluster. From it on `n` entries of the FAT form a chain, each the number of the
-- next cluster and the last one $FFFF, all other entries and the size of the FAT are as they were,
-- and the clusters after the chain are the next ones free.
pub entry-allocate :
    (n : ℕ) (s : Clusters)
    → 0 < n
    → s.next_cluster + n < 65536
    → (s.next_cluster + n) * 2 ≤ s.fat.size
    → (r : ℕ × Clusters) × (allocate n s ≡ ok r)
      × (r.0 ≡ s.next_cluster)
      × (r.1.next_cluster ≡ s.next_cluster + n)
      × (r.1.fat.size ≡ s.fat.size)
      × ((k : ℕ)
          → entry r.1.fat k ≡ (
              if leb s.next_cluster k && ltb k (s.next_cluster + n)
              then (if ltb (k + 1) (s.next_cluster + n) then k + 1 else 0xffff)
              else entry s.fat k))
unfolding allocate
entry-allocate n s h l inside =
    let chained = chain_clusters-Chains s.next_cluster 0 n s.fat (omega arith) (omega arith) in
    let some_asked : n == 0 ≡ false = ground arith in
    let no_wrap : u16 (s.next_cluster + n) ≡ s.next_cluster + n = omega arith in
    (
      (s.next_cluster, record s { fat = chained.0; next_cluster = s.next_cluster + n }),
      rw some_asked (rw chained.1.done (rw no_wrap refl)),
      refl,
      refl,
      chained.1.same_size,
      λ k. ground (arith, chained.1.entries k),
    )
