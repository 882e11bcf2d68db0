-- ===== src/Fat/TooShort.antt =====
-- What becomes of a FAT that is too short for the clusters of its volume.
use pugputer6309_emulator.Base.{
  ℕ, zero, suc, ◌+◌, ◌*◌, ◌≤◌, ◌<◌, ◌≡◌, refl, ap, ◌∙◌, false, none, List, [], ◌∷◌, ltb, leb, ◌==◌,
  if◌then◌else◌, u16, arith, inl, inr, err, ◌>>=◌, Bool-cases,
}
use pugputer6309_emulator.Fat.Geometry.{Layout, is_refused, sectors_per_fat}
use pugputer6309_emulator.Fat.Chains.{
  FatTable, past_end, Clusters, allocate, empty_fat, set_fat16_entry, chain_clusters,
}
use pugputer6309_emulator.Fat.Linked.{set_fat16_entry-Sets}
use pugputer6309_emulator.Fat.Allocated.{allocate-Allocates, empty_fat-Starts}
use pugputer6309_emulator.Fat.Tree.{Tree}
use pugputer6309_emulator.Fat.Volume.{requests, sum, volume_error, allocate_all, allocate_volume}

outside-PastEnd :
    (fat : FatTable) (c v : ℕ) → fat.size ≤ c * 2 → set_fat16_entry fat c v ≡ err (past_end c)
unfolding set_fat16_entry
outside-PastEnd fat c v h = ground arith

chain_clusters-PastEnd :
    (first c left m : ℕ) (fat : FatTable)
    → fat.size ≡ m * 2
    → first + c ≤ m
    → m < first + c + left
    → first + c + left ≤ 65536
    → chain_clusters first c left fat ≡ err (past_end m)
unfolding chain_clusters
chain_clusters-PastEnd first c zero m fat size start over small = absurd (omega arith)
chain_clusters-PastEnd first c (suc left) m fat size start over small =
    let cluster = u16 (first + c) in
    let value = if ltb 0 left then u16 (cluster + 1) else 0xffff in
    let no_wrap : cluster ≡ first + c = omega arith in
    let word : value < 65536 = ground arith in
    elim (Bool-cases (ltb (first + c) m)) [
      | inl t ↦
          let set = set_fat16_entry-Sets fat cluster value word (ground arith) in
          ap (λ o. o >>= chain_clusters first (c + 1) left) set.1.done
          ∙ chain_clusters-PastEnd first (c + 1) left m set.0 (set.1.same_size ∙ size)
              (ground arith) (omega arith) (omega arith)
      | inr t ↦
          let here : first + c ≡ m = ground arith in
          ap (λ o. o >>= chain_clusters first (c + 1) left)
            (outside-PastEnd fat cluster value (omega (arith, no_wrap, here, size)))
          ∙ ap (λ k. err (past_end k)) (no_wrap ∙ here)
    ]

allocate-PastEnd :
    (n m : ℕ) (s : Clusters)
    → s.fat.size ≡ m * 2
    → s.next_cluster ≤ m
    → m < s.next_cluster + n
    → s.next_cluster + n < 65536
    → allocate n s ≡ err (past_end m)
unfolding allocate
allocate-PastEnd n m s size start over small =
    let some_asked : n == 0 ≡ false = ground arith in
    let fails =
      chain_clusters-PastEnd s.next_cluster 0 n m s.fat size (omega arith) (omega arith)
        (omega arith) in
    rw some_asked (rw fails refl)

allocate_all-PastEnd :
    (ns : List ℕ) (m : ℕ) (s : Clusters)
    → s.fat.size ≡ m * 2
    → s.next_cluster ≤ m
    → m < s.next_cluster + sum ns
    → s.next_cluster + sum ns < 65536
    → allocate_all ns s ≡ err (past_end m)
unfolding allocate_all sum
allocate_all-PastEnd [] m s size start over small = absurd (omega arith)
allocate_all-PastEnd (n ∷ ns) m s size start over small =
    elim (Bool-cases (leb (s.next_cluster + n) m)) [
      | inl t ↦
          let (first, one) = allocate-Allocates n s (omega arith) (ground (arith, size)) in
          let fails =
            allocate_all-PastEnd ns m first.1 (one.same_size ∙ size) (ground (arith, one.next))
              (omega (arith, one.next)) (omega (arith, one.next)) in
          rw one.done (rw fails refl)
      | inr t ↦
          let fails = allocate-PastEnd n m s size start (ground arith) (omega arith) in
          rw fails refl
    ]

no_sectors : empty_fat 0 ≡ err (past_end 0)
unfolding empty_fat set_fat16_entry
no_sectors = refl

-- Of a volume whose layout is not refused and whose directories and files are found to fit, but with
-- a FAT that is too short for the entries of the clusters they ask for: the allocation goes on to
-- write the first entry past the end of the FAT, that of cluster 256 * sectors_per_fat.
pub allocate_volume-PastEnd :
    (v : Layout) (t : Tree) (sizes : List ℕ)
    → is_refused v ≡ false
    → volume_error v t sizes ≡ none
    → 256 * sectors_per_fat v < 2 + sum (requests v t sizes)
    → allocate_volume v t sizes ≡ err (past_end (256 * sectors_per_fat v))
unfolding is_refused volume_error allocate_volume
allocate_volume-PastEnd v t sizes accepted fit short =
    let small : 2 + sum (requests v t sizes) < 65536 = ground arith in
    elim (Bool-cases (sectors_per_fat v == 0)) [
      | inl z ↦
          let none_there : sectors_per_fat v ≡ 0 = ground arith in
          rw none_there (rw no_sectors refl)
      | inr z ↦
          let (fat, begun) = empty_fat-Starts (sectors_per_fat v) (ground arith) in
          let start : Clusters = record { fat = fat; next_cluster = 2 } in
          let fails =
            allocate_all-PastEnd (requests v t sizes) (256 * sectors_per_fat v) start
              (omega (arith, begun.size)) (ground arith) short small in
          rw begun.done fails
    ]
