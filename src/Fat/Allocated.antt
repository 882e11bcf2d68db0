-- ===== src/Fat/Allocated.antt =====
-- The chains of all directories and files of a volume.
use pugputer6309_emulator.Base.{
  ℕ, zero, suc, ◌+◌, ◌*◌, ◌≤◌, ◌<◌, ◌≡◌, refl, ap, ◌∙◌, ◌⊎◌, false, true, none, List, [], ◌∷◌, ltb,
  if◌then◌else◌, All, arith, inl, inr, ok,
}
use mathlib.Core.List.{map}
use pugputer6309_emulator.Fat.Geometry.{Layout, is_refused, sector_size, sectors_per_fat}
use pugputer6309_emulator.Fat.Chains.{FatTable, Clusters, allocate, empty_fat, set_fat16_entry}
use pugputer6309_emulator.Fat.Boot.{put_le16}
use pugputer6309_emulator.Bus.Types.{update}
use pugputer6309_emulator.Fat.Linked.{entry, entry-allocate}
use pugputer6309_emulator.Fat.Tree.{Tree}
use pugputer6309_emulator.Fat.Sized.{EachHolds, all_sizes, requests-EachHolds}
use pugputer6309_emulator.Fat.Volume.{requests, sum, volume_error, allocate_all, allocate_volume}

-- From the first cluster on, `n` entries each lead to the next, and the last one is $FFFF.
abbrev pub IsChain : FatTable → ℕ × ℕ → Type 0
IsChain fat (first, n) =
    (i : ℕ) → i < n → entry fat (first + i) ≡ (if ltb (i + 1) n then first + i + 1 else 0xffff)

-- What one allocation of any number of clusters does.
pub record Allocates (s : Clusters) (n : ℕ) (r : ℕ × Clusters) : Type 0 where
  pub done : allocate n s ≡ ok r
  pub next : r.1.next_cluster ≡ s.next_cluster + n
  pub same_size : r.1.fat.size ≡ s.fat.size
  pub chain : IsChain r.1.fat (r.0, n)
  pub below : (k : ℕ) → k < s.next_cluster → entry r.1.fat k ≡ entry s.fat k
  pub ends : (n ≡ 0) ⊎ (r.0 ≡ s.next_cluster)

none_allocated : (s : Clusters) → Allocates s 0 (0, s)
unfolding allocate
none_allocated s = record {
  done = refl;
  next = omega arith;
  same_size = refl;
  chain = λ i l. absurd (omega arith);
  below = λ k l. refl;
  ends = inl refl;
}

pub allocate-Allocates :
    (n : ℕ) (s : Clusters)
    → s.next_cluster + n < 65536
    → (s.next_cluster + n) * 2 ≤ s.fat.size
    → (r : ℕ × Clusters) × Allocates s n r
allocate-Allocates zero s l inside = ((0, s), none_allocated s)
allocate-Allocates (suc n) s l inside =
    let some_left : 0 < suc n = omega arith in
    let (r, done, first, next, same_size, entries) = entry-allocate (suc n) s some_left l inside in
    (
      r,
      record {
        done = done;
        next = next;
        same_size = same_size;
        chain = λ i j. rw first (entries (s.next_cluster + i) ∙ ground arith);
        below = λ k j. entries k ∙ ground arith;
        ends = inr first;
      },
    )

-- What all allocations together do.
record AllocatesAll (s : Clusters) (ns : List ℕ) (r : List (ℕ × ℕ) × Clusters) : Type 0 where
  done : allocate_all ns s ≡ ok r
  asked : map (λ one. one.1) r.0 ≡ ns
  chains : All (IsChain r.1.fat) r.0
  below : (k : ℕ) → k < s.next_cluster → entry r.1.fat k ≡ entry s.fat k

-- A chain below the next free cluster stays through later allocations.
kept-IsChain :
    (n : ℕ) (s : Clusters) (one : ℕ × Clusters) (fat : FatTable)
    → Allocates s n one
    → ((k : ℕ) → k < one.1.next_cluster → entry fat k ≡ entry one.1.fat k)
    → IsChain fat (one.0, n)
kept-IsChain n s one fat a same i l =
    same (one.0 + i) (ground (arith, a.next, a.ends)) ∙ a.chain i l

allocate_all-AllocatesAll :
    (ns : List ℕ) (s : Clusters)
    → s.next_cluster + sum ns < 65536
    → (s.next_cluster + sum ns) * 2 ≤ s.fat.size
    → (r : List (ℕ × ℕ) × Clusters) × AllocatesAll s ns r
unfolding allocate_all sum
allocate_all-AllocatesAll [] s l inside =
    (([], s), record { done = refl; asked = refl; chains = tt; below = λ k j. refl })
allocate_all-AllocatesAll (n ∷ ns) s l inside =
    let (first, one) = allocate-Allocates n s (omega arith) (omega arith) in
    let (others, rest) =
      allocate_all-AllocatesAll ns first.1 (omega (arith, one.next))
        (omega (arith, one.next, one.same_size)) in
    (
      ((first.0, n) ∷ others.0, others.1),
      record {
        done = rw one.done (rw rest.done refl);
        asked = ap (λ (ms : List ℕ). n ∷ ms) rest.asked;
        chains = (kept-IsChain n s first others.1.fat one rest.below, rest.chains);
        below = λ k j. rest.below k (omega (arith, one.next)) ∙ one.below k j;
      },
    )

-- What a FAT of at least one sector has before any cluster is handed out.
pub record Starts (sectors : ℕ) (fat : FatTable) : Type 0 where
  pub done : empty_fat sectors ≡ ok fat
  pub size : fat.size ≡ sectors * 512
  pub first : entry fat 0 ≡ 0xfff8
  pub second : entry fat 1 ≡ 0xffff

pub empty_fat-Starts : (sectors : ℕ) → 4 ≤ sectors * 512 → (fat : FatTable) × Starts sectors fat
unfolding empty_fat set_fat16_entry put_le16 update
empty_fat-Starts sectors h =
    let one_fits : ltb (0 * 2 + 1) (sectors * sector_size) ≡ true = ground arith in
    let two_fits : ltb (1 * 2 + 1) (sectors * sector_size) ≡ true = ground arith in
    (
      record {
        bytes = put_le16 (put_le16 (λ i. 0) 0 0xfff8) 2 0xffff;
        size = sectors * sector_size;
      },
      record { done = rw one_fits (rw two_fits refl); size = refl; first = refl; second = refl },
    )

-- Of a volume with at least one sector in a cluster, whose layout is not refused and whose
-- directories and files are found to fit, with a FAT that is long enough for the entries of the
-- clusters they ask for: every directory but the root, and then every file, gets a chain of
-- clusters, just as many as hold its bytes. In the FAT as it is in the end each of these clusters
-- leads to the next and the last one is $FFFF, and the first two entries are $FFF8 and $FFFF.
pub allocate_volume-IsChain :
    (v : Layout) (t : Tree) (sizes : List ℕ)
    → 0 < v.sectors_per_cluster
    → is_refused v ≡ false
    → volume_error v t sizes ≡ none
    → 2 + sum (requests v t sizes) ≤ 256 * sectors_per_fat v
    → (r : List (ℕ × ℕ) × Clusters) × (allocate_volume v t sizes ≡ ok r)
      × EachHolds v.sectors_per_cluster (all_sizes t sizes) (map (λ one. one.1) r.0)
      × All (IsChain r.1.fat) r.0
      × (entry r.1.fat 0 ≡ 0xfff8)
      × (entry r.1.fat 1 ≡ 0xffff)
unfolding is_refused volume_error allocate_volume
allocate_volume-IsChain v t sizes some_sectors accepted fit long =
    let (fat, begun) = empty_fat-Starts (sectors_per_fat v) (omega arith) in
    let start : Clusters = record { fat = fat; next_cluster = 2 } in
    let small : 2 + sum (requests v t sizes) < 65536 = ground arith in
    let (r, all) =
      allocate_all-AllocatesAll (requests v t sizes) start small (omega (arith, begun.size)) in
    (
      r,
      rw begun.done all.done,
      rw all.asked (requests-EachHolds v t sizes some_sectors),
      all.chains,
      all.below 0 (omega arith) ∙ begun.first,
      all.below 1 (omega arith) ∙ begun.second,
    )
