-- ===== src/Cpu/Flags.antt =====
-- The condition codes: `set_flag`, `get_flag`, `set_nz8`, `set_nz16` and `test_condition`.
use pugputer6309_emulator.Base.{
  ℕ, ◌-◌, Bool, true, false, not, xor, ◌&&◌, ◌||◌, bit_and, bit_or, bit_test, ◌==◌, if◌then◌else◌,
}
use pugputer6309_emulator.Cpu.Types.{
  CcBit, cc_c, cc_v, cc_z, cc_n, cc_i, cc_h, cc_f, cc_e, mask, md_native,
}
use pugputer6309_emulator.Cpu.Monad.{M, gets, modify_regs, ◌>>◌}

-- `cc |= bit` or `cc &= ~bit`, on an eight-bit `cc`.
unfoldable pub put_flag : CcBit → Bool → ℕ → ℕ
put_flag k v cc = if v then bit_or cc (mask k) else bit_and cc (255 - mask k)

unfoldable pub has_flag : CcBit → ℕ → Bool
has_flag k cc = bit_test cc (mask k)

-- The bit number of a flag: `mask k` is `2 ^ flag_index k`.
abbrev pub flag_index : CcBit → ℕ
flag_index cc_c = 0
flag_index cc_v = 1
flag_index cc_z = 2
flag_index cc_n = 3
flag_index cc_i = 4
flag_index cc_h = 5
flag_index cc_f = 6
flag_index cc_e = 7

module _ {S : Type 0} where
  unfoldable pub set_flag : CcBit → Bool → M S (Unit {0})
  set_flag k v = modify_regs (λ r. record r { cc = put_flag k v r.cc })

  unfoldable pub get_flag : CcBit → M S Bool
  get_flag k = gets (λ c. has_flag k c.cc)

  unfoldable pub native : M S Bool
  native = gets (λ c. bit_test c.md md_native)

  unfoldable pub set_nz8 : ℕ → M S (Unit {0})
  unfolding set_flag
  set_nz8 v = do set_flag cc_n (bit_test v 0x80); set_flag cc_z (v == 0)

  unfoldable pub set_nz16 : ℕ → M S (Unit {0})
  unfolding set_flag
  set_nz16 v = do set_flag cc_n (bit_test v 0x8000); set_flag cc_z (v == 0)

-- `switch (cond4 & 0xF)` on the flags of `cc`; `default` is BLE.
unfoldable pub condition : ℕ → ℕ → Bool
condition cond4 cc =
    let c = has_flag cc_c cc in
    let z = has_flag cc_z cc in
    let v = has_flag cc_v cc in
    let n = has_flag cc_n cc in
    let k = bit_and cond4 0xf in
    if k == 0x0
    then true
    else (if k == 0x1
        then false
        else (if k == 0x2
            then not c && not z
            else (if k == 0x3
                then c || z
                else (if k == 0x4
                    then not c
                    else (if k == 0x5
                        then c
                        else (if k == 0x6
                            then not z
                            else (if k == 0x7
                                then z
                                else (if k == 0x8
                                    then not v
                                    else (if k == 0x9
                                        then v
                                        else (if k == 0xa
                                            then not n
                                            else (if k == 0xb
                                                then n
                                                else (if k == 0xc
                                                    then not (xor n v)
                                                    else (if k == 0xd
                                                        then xor n v
                                                        else (if k == 0xe
                                                            then not z && not (xor n v)
                                                            else z || xor n v))))))))))))))

unfoldable pub test_condition : {S : Type 0} → ℕ → M S Bool
test_condition cond4 = gets (λ c. condition cond4 c.cc)
