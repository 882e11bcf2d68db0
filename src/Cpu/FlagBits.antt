-- ===== src/Cpu/FlagBits.antt =====
-- The condition codes are eight independent bits.
use Prim.Native.Nat.{min, max}
use pugputer6309_emulator.Base.{
  ℕ, ◌-◌, ◌^◌, ◌<◌, ◌≡◌, refl, arith, Bool, true, false, bit_and, bit_or, ◌==◌, if◌then◌else◌,
}
use pugputer6309_emulator.Base.Bits.{bit, is_one, bit-lt, bit-bit_and, bit-bit_or, bit_test-pow}
use pugputer6309_emulator.Cpu.Types.{CcBit, cc_c, cc_v, cc_z, cc_n, cc_i, cc_h, cc_f, cc_e, mask}
use pugputer6309_emulator.Cpu.Flags.{put_flag, has_flag, flag_index}

abbrev pub same_flag : CcBit → CcBit → Bool
same_flag j k = flag_index j == flag_index k

mask_pow : (k : CcBit) → mask k ≡ 2 ^ flag_index k
mask_pow cc_c = refl
mask_pow k = refl

bit-mask : (j k : CcBit) → bit (flag_index k) (mask j) ≡ (if same_flag j k then 1 else 0)
bit-mask cc_c cc_c = refl
bit-mask cc_v cc_c = refl
bit-mask cc_z cc_c = refl
bit-mask cc_n cc_c = refl
bit-mask cc_i cc_c = refl
bit-mask cc_h cc_c = refl
bit-mask cc_f cc_c = refl
bit-mask cc_e cc_c = refl
bit-mask j k = refl

bit-rest : (j k : CcBit) → bit (flag_index k) (255 - mask j) ≡ (if same_flag j k then 0 else 1)
bit-rest cc_c cc_c = refl
bit-rest cc_v cc_c = refl
bit-rest cc_z cc_c = refl
bit-rest cc_n cc_c = refl
bit-rest cc_i cc_c = refl
bit-rest cc_h cc_c = refl
bit-rest cc_f cc_c = refl
bit-rest cc_e cc_c = refl
bit-rest j k = refl

pub has_flag-bit : (k : CcBit) (cc : ℕ) → has_flag k cc ≡ is_one (bit (flag_index k) cc)
unfolding has_flag
has_flag-bit k cc = rw (mask_pow k) (bit_test-pow (flag_index k) cc)

-- Setting or clearing a flag changes that flag, and no other.
pub has_flag-put_flag :
    (j k : CcBit) (on : Bool) (cc : ℕ)
    → has_flag k (put_flag j on cc) ≡ (if same_flag j k then on else has_flag k cc)
unfolding put_flag
has_flag-put_flag j k true cc =
    rw
      (
        has_flag-bit k (bit_or cc (mask j)),
        has_flag-bit k cc,
        bit-bit_or (flag_index k) cc (mask j),
        bit-mask j k,
      )
      (join (same_flag j k) (bit (flag_index k) cc) (bit-lt (flag_index k) cc))
  where
    join :
        (same : Bool) (b : ℕ)
        → b < 2
        → is_one (max b (if same then 1 else 0)) ≡ (if same then true else is_one b)
    join true b l = ground arith
    join false b l = ground arith
has_flag-put_flag j k false cc =
    rw
      (
        has_flag-bit k (bit_and cc (255 - mask j)),
        has_flag-bit k cc,
        bit-bit_and (flag_index k) cc (255 - mask j),
        bit-rest j k,
      )
      (meet (same_flag j k) (bit (flag_index k) cc) (bit-lt (flag_index k) cc))
  where
    meet :
        (same : Bool) (b : ℕ)
        → b < 2
        → is_one (min b (if same then 0 else 1)) ≡ (if same then false else is_one b)
    meet true b l = ground arith
    meet false b l = ground arith
