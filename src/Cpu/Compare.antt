-- ===== src/Cpu/Compare.antt =====
-- What the branches see behind a comparison: CMP and the conditions of `test_condition`.
use pugputer6309_emulator.Base.{
  ℕ, ◌+◌, ◌-◌, ◌^◌, ◌*◌, ◌≤◌, ◌<◌, ◌≡◌, refl, arith, Bool, true, false, not, xor, ◌&&◌, ◌||◌, ltb,
  leb, ◌==◌, if◌then◌else◌, ℤ, pos, negsuc, sub_ℕ, u8_ℤ, u16_ℤ, u8_ℤ-lt, u16_ℤ-lt, i8, i16,
  bit_test,
}
use Prim.Native.Nat.{min, differ, bit_and, bit_xor}
use pugputer6309_emulator.Base.Bits.{bit, is_one, bit-bit_and, bit-bit_xor, bit_test-pow}
use pugputer6309_emulator.Cpu.Types.{Cpu, cc_c, cc_v, cc_z, cc_n}
use pugputer6309_emulator.Cpu.Monad.{◌>>=◌}
use pugputer6309_emulator.Cpu.Flags.{put_flag, has_flag, set_flag, set_nz8, set_nz16, condition}
use pugputer6309_emulator.Cpu.Alu.{sub_overflow, sub8, sub16, cmp8, cmp16}
use pugputer6309_emulator.Cpu.FlagBits.{has_flag-put_flag}

-- The order of the integers.
abbrev pub less : ℤ → ℤ → Bool
less (pos m) (pos n) = ltb m n
less (pos m) (negsuc n) = false
less (negsuc m) (pos n) = true
less (negsuc m) (negsuc n) = ltb n m

-- The conditions of BHI to BEQ are the order of the numbers, those of BGE to BLE that of `s` and
-- `t`, the numbers taken as signed.
pub record Decides (a b : ℕ) (s t : ℤ) (cc : ℕ) : Type 0 where
  pub higher : condition 0x2 cc ≡ ltb b a
  pub lower_or_same : condition 0x3 cc ≡ leb a b
  pub higher_or_same : condition 0x4 cc ≡ leb b a
  pub lower : condition 0x5 cc ≡ ltb a b
  pub not_equal : condition 0x6 cc ≡ not (a == b)
  pub equal : condition 0x7 cc ≡ (a == b)
  pub greater_or_equal : condition 0xc cc ≡ not (less s t)
  pub less_than : condition 0xd cc ≡ less s t
  pub greater : condition 0xe cc ≡ less t s
  pub less_or_equal : condition 0xf cc ≡ not (less t s)

-- The condition codes behind a subtraction.
abbrev after_flags : Bool → Bool → Bool → Bool → ℕ → ℕ
after_flags c v n z cc = put_flag cc_z z (put_flag cc_n n (put_flag cc_v v (put_flag cc_c c cc)))

has_c : (c v n z : Bool) (cc : ℕ) → has_flag cc_c (after_flags c v n z cc) ≡ c
has_c c v n z cc =
    rw (has_flag-put_flag, has_flag-put_flag, has_flag-put_flag, has_flag-put_flag) refl

has_v : (c v n z : Bool) (cc : ℕ) → has_flag cc_v (after_flags c v n z cc) ≡ v
has_v c v n z cc = rw (has_flag-put_flag, has_flag-put_flag, has_flag-put_flag) refl

has_n : (c v n z : Bool) (cc : ℕ) → has_flag cc_n (after_flags c v n z cc) ≡ n
has_n c v n z cc = rw (has_flag-put_flag, has_flag-put_flag) refl

has_z : (c v n z : Bool) (cc : ℕ) → has_flag cc_z (after_flags c v n z cc) ≡ z
has_z c v n z cc = rw has_flag-put_flag refl

de_morgan : (p q : Bool) → (p || q) ≡ not (not p && not q)
de_morgan true q = refl
de_morgan false true = refl
de_morgan false false = refl

flags-Decides :
    (a b : ℕ) (s t : ℤ) (c v n z : Bool) (cc : ℕ)
    → c ≡ ltb a b
    → z ≡ (a == b)
    → xor n v ≡ less s t
    → less t s ≡ (not (a == b) && not (less s t))
    → Decides a b s t (after_flags c v n z cc)
unfolding condition
flags-Decides a b s t c v n z cc e f g h =
    let hc = has_c c v n z cc in
    let hv = has_v c v n z cc in
    let hn = has_n c v n z cc in
    let hz = has_z c v n z cc in
    record {
      higher = rw (condition, hc, hz, e, f) (ground arith);
      lower_or_same = rw (condition, hc, hz, e, f) (ground arith);
      higher_or_same = rw (condition, hc, e) (ground arith);
      lower = rw (condition, hc) e;
      not_equal = rw (condition, hz, f) refl;
      equal = rw (condition, hz) f;
      greater_or_equal = rw (condition, hn, hv, g) refl;
      less_than = rw (condition, hn, hv) g;
      greater = rw (condition, hz, hn, hv, f, g, h) refl;
      less_or_equal = rw (condition, hz, hn, hv, f, g, h) (de_morgan (a == b) (less s t));
    }

-- The facts about a difference of bytes and of 16-bit words.
top8 : (n : ℕ) → n < 256 → bit 7 n ≡ (if ltb n 128 then 0 else 1)
top8 n h = ground arith

top16 : (n : ℕ) → n < 65536 → bit 15 n ≡ (if ltb n 32768 then 0 else 1)
top16 n h = ground arith

overflow_bits :
    (k a b r : ℕ)
    → sub_overflow (2 ^ k) a b r
      ≡ is_one (min (differ (bit k a) (bit k b)) (differ (bit k a) (bit k r)))
overflow_bits k a b r =
    rw
      (
        bit_test-pow k (bit_and (bit_xor a b) (bit_xor a r)),
        bit-bit_and k (bit_xor a b) (bit_xor a r),
        bit-bit_xor k a b,
        bit-bit_xor k a r,
      )
      refl

-- The sign bit of a difference that wraps, corrected by the overflow, is the signed order. A word
-- is below twice `half`.
module _ (half a b r : ℕ) (h : a < half * 2) (k : b < half * 2) (l : r < half * 2)
    (above : b ≤ a → r ≡ a - b) (below : a < b → r ≡ half * 2 + a - b) where
  value : ℕ → ℤ
  value n = if ltb n half then pos n else negsuc (half * 2 - 1 - n)

  top : Bool → ℕ
  top small = if small then 0 else 1

  by_signs :
      (p q s : Bool)
      → ltb a half ≡ p
      → ltb b half ≡ q
      → ltb r half ≡ s
      → xor (is_one (top s)) (is_one (min (differ (top p) (top q)) (differ (top p) (top s))))
        ≡ less (value a) (value b)
  unfolding value top xor
  by_signs true true true e f g = rw (e, f) (ground arith)
  by_signs true true false e f g = rw (e, f) (ground arith)
  by_signs true false true e f g = rw (e, f) refl
  by_signs true false false e f g = rw (e, f) refl
  by_signs false true true e f g = rw (e, f) refl
  by_signs false true false e f g = rw (e, f) refl
  by_signs false false true e f g = rw (e, f) (ground arith)
  by_signs false false false e f g =
      let smaller : true ≡ ltb (half * 2 - 1 - b) (half * 2 - 1 - a) = ground arith in
      rw (e, f) smaller

  -- Of two words, one is less as a signed number, or they are the same.
  trichotomy :
      (p q : Bool)
      → ltb a half ≡ p
      → ltb b half ≡ q
      → less (value b) (value a) ≡ (not (a == b) && not (less (value a) (value b)))
  unfolding value
  trichotomy true true e f = rw (e, f) (ground arith)
  trichotomy true false e f = rw (e, f) (ground arith)
  trichotomy false true e f = rw (e, f) (ground arith)
  trichotomy false false e f = rw (e, f) (ground arith)

signed8 :
    (a b r : ℕ)
    → a < 256
    → b < 256
    → r ≡ u8_ℤ (sub_ℕ a (b + 0))
    → xor (bit_test r 0x80) (sub_overflow 0x80 a b r) ≡ less (i8 a) (i8 b)
unfolding value top
signed8 a b r h k e =
    let l : r < 256 = rw e (u8_ℤ-lt (sub_ℕ a (b + 0))) in
    rw (bit_test-pow 7 r, overflow_bits 7 a b r, top8 a h, top8 b k, top8 r l)
      (by_signs 128 a b r h k l (ground arith) (ground arith) (ltb a 128) (ltb b 128) (ltb r 128)
        refl refl refl)

signed16 :
    (a b r : ℕ)
    → a < 65536
    → b < 65536
    → r ≡ u16_ℤ (sub_ℕ a (b + 0))
    → xor (bit_test r 0x8000) (sub_overflow 0x8000 a b r) ≡ less (i16 a) (i16 b)
unfolding value top
signed16 a b r h k e =
    let l : r < 65536 = rw e (u16_ℤ-lt (sub_ℕ a (b + 0))) in
    rw (bit_test-pow 15 r, overflow_bits 15 a b r, top16 a h, top16 b k, top16 r l)
      (by_signs 32768 a b r h k l (ground arith) (ground arith) (ltb a 32768) (ltb b 32768)
        (ltb r 32768) refl refl refl)

-- After CMP of two bytes, each conditional branch decides the order it is named for: BHI, BLS, BHS,
-- BLO, BNE and BEQ that of the bytes, BGE, BLT, BGT and BLE that of the bytes as signed numbers.
pub cmp8-Decides :
    {S : Type 0} (c : Cpu S) (a b : ℕ)
    → a < 256
    → b < 256
    → Decides a b (i8 a) (i8 b) (cmp8 a b c).1.cc
unfolding cmp8 sub8 set_flag set_nz8 ◌>>=◌ value
cmp8-Decides c a b h k =
    let r = u8_ℤ (sub_ℕ a (b + 0)) in
    let l : r < 256 = u8_ℤ-lt (sub_ℕ a (b + 0)) in
    flags-Decides a b (i8 a) (i8 b) _ _ _ _ c.cc (ground arith) (ground arith)
      (signed8 a b r h k refl)
      (trichotomy 128 a b r h k l (ground arith) (ground arith) (ltb a 128) (ltb b 128) refl refl)

-- The same after CMP of two 16-bit words: each conditional branch decides the order it is named
-- for.
pub cmp16-Decides :
    {S : Type 0} (c : Cpu S) (a b : ℕ)
    → a < 65536
    → b < 65536
    → Decides a b (i16 a) (i16 b) (cmp16 a b c).1.cc
unfolding cmp16 sub16 set_flag set_nz16 ◌>>=◌ value
cmp16-Decides c a b h k =
    let r = u16_ℤ (sub_ℕ a (b + 0)) in
    let l : r < 65536 = u16_ℤ-lt (sub_ℕ a (b + 0)) in
    flags-Decides a b (i16 a) (i16 b) _ _ _ _ c.cc (ground arith) (ground arith)
      (signed16 a b r h k refl)
      (trichotomy 32768 a b r h k l (ground arith) (ground arith) (ltb a 32768) (ltb b 32768) refl
        refl)
