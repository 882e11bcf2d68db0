-- ===== src/Cpu/Transfer.antt =====
-- `do_tfr_exg`, `do_tfm`, `do_bitbit`, `do_divd`, `do_divq` and `do_muld` of hd6309_core.cpp.
use pugputer6309_emulator.Base.{
  ℕ, zero, suc, ◌-◌, ◌/◌, ◌^◌, Bool, true, false, not, xor, ◌&&◌, ◌||◌, bit_and, bit_or, bit_test,
  ltb, ◌==◌, if◌then◌else◌, switch, ◌∷◌, [], ℤ, pos, negsuc, is_neg, magnitude, u8_ℤ, u16_ℤ, u32_ℤ,
  u8, i8, i16, i32, add_u16, quotient, remainder, product,
}
use pugputer6309_emulator.Cpu.Types.{
  Cpu, Callbacks, Regs, get_d, set_d, get_w, set_w, get_q, set_q, cc_c, cc_v, cc_z, cc_n, cc_f,
  cc_i,
}
use pugputer6309_emulator.Cpu.Monad.{M, ◌>>=◌, ◌>>◌, pure, gets, modify_regs, when, add_cycles}
use pugputer6309_emulator.Cpu.Flags.{set_flag, set_nz8, set_nz16, has_flag}
use pugputer6309_emulator.Cpu.Memory.{read8, write8, fetch8, ea_direct}
use pugputer6309_emulator.Cpu.Registers.{get_reg_by_code, set_reg_by_code}
use pugputer6309_emulator.Cpu.Interrupts.{add_cycles_by_mode, division_by_zero_trap, set_pc}

module _ {S : Type 0} where
  unfoldable pub do_tfr_exg : ℕ → Bool → M S (Unit {0})
  do_tfr_exg postbyte is_exg = do
    let src = bit_and (postbyte / 16) 0xf
    let dst = bit_and postbyte 0xf
    sv ← get_reg_by_code src
    if is_exg
        then (do dv ← get_reg_by_code dst; set_reg_by_code dst sv; set_reg_by_code src dv)
        else set_reg_by_code dst sv

  -- The test of `do_tfm` for an interrupt that is not masked.
  unfoldable pub unmasked : Cpu S → Bool
  unmasked c =
      c.nmi_pending
      || (c.firq_line && not (has_flag cc_f c.cc))
      || (c.irq_line && not (has_flag cc_i c.cc))

-- `src_step` and `dst_step`, by the full opcode.
unfoldable pub tfm_src_step : ℕ → ℤ
unfolding switch
tfm_src_step opcode =
    switch opcode ((0x1138, pos 1) ∷ (0x1139, negsuc 0) ∷ (0x113a, pos 1) ∷ (0x113b, pos 0) ∷ [])
      (pos 0)

unfoldable pub tfm_dst_step : ℕ → ℤ
unfolding switch
tfm_dst_step opcode =
    switch opcode ((0x1138, pos 1) ∷ (0x1139, negsuc 0) ∷ (0x113a, pos 0) ∷ (0x113b, pos 1) ∷ [])
      (pos 0)

module _ {S : Type 0} ⦃io : Callbacks S⦄ where
  -- One round of the loop: `left` is `count` after its decrement.
  unfoldable pub tfm_round : ℕ → ℕ → ℕ → ℕ → ℕ → M S (Unit {0})
  tfm_round src dst sp dp left = do
    add_cycles 3
    set_reg_by_code src sp
    set_reg_by_code dst dp
    modify_regs (set_w left)

  -- `while (count != 0)`; the result is `interrupted`.
  unfoldable pub tfm_loop : ℕ → ℕ → ℤ → ℤ → ℕ → ℕ → ℕ → M S Bool
  tfm_loop src dst src_step dst_step zero sp dp = pure false
  tfm_loop src dst src_step dst_step (suc left) sp dp = do
    v ← read8 sp
    write8 dp v
    let sp' = add_u16 sp src_step
    let dp' = add_u16 dp dst_step
    tfm_round src dst sp' dp' left
    stop ← gets unmasked
    let rest = tfm_loop src dst src_step dst_step left sp' dp'
    if not (left == 0) && stop then pure true else rest

  unfoldable pub do_tfm : ℕ → M S (Unit {0})
  do_tfm opcode = do
    pb ← fetch8
    let src = bit_and (pb / 16) 0xf
    let dst = bit_and pb 0xf
    sp ← get_reg_by_code src
    dp ← get_reg_by_code dst
    count ← gets (λ c. get_w c.regs)
    add_cycles 6
    interrupted ← tfm_loop src dst (tfm_src_step opcode) (tfm_dst_step opcode) count sp dp
    start ← gets (λ c. c.insn_pc)
    when interrupted (set_pc start)

-- The register of `do_bitbit`: CC, or A or B by the selector 1 or 2.
unfoldable pub bit_reg : ℕ → Regs → ℕ
bit_reg sel r = if sel == 1 then r.a else (if sel == 2 then r.b else r.cc)

unfoldable pub set_bit_reg : ℕ → ℕ → Regs → Regs
set_bit_reg sel n r =
    if sel == 1
    then record r { a = n }
    else (if sel == 2 then record r { b = n } else record r { cc = n })

-- `(word & ~(1u << at)) | (value ? (1u << at) : 0)` on a byte.
unfoldable pub put_bit : ℕ → Bool → ℕ → ℕ
put_bit at value word = u8 (bit_or (bit_and word (255 - 2 ^ at)) (if value then 2 ^ at else 0))

-- The new register bit, by the full opcode: BAND, BIAND, BOR, BIOR, BEOR, BIEOR and LDBT.
unfoldable pub bit_op : ℕ → Bool → Bool → Bool
unfolding switch
bit_op opcode rbit mbit =
    switch opcode
      ((0x1130, rbit && mbit)
        ∷ (0x1131, rbit && not mbit)
        ∷ (0x1132, rbit || mbit)
        ∷ (0x1133, rbit || not mbit)
        ∷ (0x1134, xor rbit mbit)
        ∷ (0x1135, xor rbit (not mbit))
        ∷ (0x1136, mbit)
        ∷ [])
      rbit

-- `q < -limit || q > limit - 1`
unfoldable pub exceeds : ℤ → ℕ → Bool
exceeds (pos n) limit = ltb (limit - 1) n
exceeds (negsuc n) limit = ltb limit (suc n)

module _ {S : Type 0} ⦃io : Callbacks S⦄ where
  unfoldable pub do_bitbit : ℕ → M S (Unit {0})
  do_bitbit opcode = do
    pb ← fetch8
    let reg_sel = bit_and (pb / 64) 0x3
    let membit = bit_and (pb / 8) 0x7
    let regbit = bit_and pb 0x7
    addr ← ea_direct
    mem ← read8 addr
    word ← gets (λ c. bit_reg reg_sel c.regs)
    let mbit = bit_test (mem / 2 ^ membit) 1
    let rbit = bit_test (word / 2 ^ regbit) 1
    if opcode == 0x1137
        then (do write8 addr (put_bit membit rbit mem); add_cycles_by_mode 8 7)
        else (do
          modify_regs (set_bit_reg reg_sel (put_bit regbit (bit_op opcode rbit mbit) word))
          add_cycles_by_mode 7 6)

  unfoldable pub do_divd : ℕ → M S (Unit {0})
  do_divd divisor = if divisor == 0 then division_by_zero_trap else (do
    dividend ← gets (λ c. i16 (get_d c.regs))
    let q = quotient dividend (i8 divisor)
    let rest = remainder dividend (i8 divisor)
    modify_regs (λ r. record r { a = u8_ℤ rest; b = u8_ℤ q })
    set_flag cc_v (exceeds q 128)
    set_flag cc_c false
    set_nz8 (u8_ℤ q))

  unfoldable pub do_divq : ℕ → M S (Unit {0})
  do_divq divisor = if divisor == 0 then division_by_zero_trap else (do
    dividend ← gets (λ c. i32 (get_q c.regs))
    let q = quotient dividend (i16 divisor)
    let rest = remainder dividend (i16 divisor)
    modify_regs (λ r. set_w (u16_ℤ rest) (set_d (u16_ℤ q) r))
    set_flag cc_v (exceeds q 32768)
    set_flag cc_c false
    d ← gets (λ c. get_d c.regs)
    set_nz16 d)

  unfoldable pub do_muld : ℕ → M S (Unit {0})
  do_muld multiplier = do
    a ← gets (λ c. i16 (get_d c.regs))
    let result = product a (i16 multiplier)
    modify_regs (set_q (u32_ℤ result))
    set_flag cc_n (is_neg result)
    set_flag cc_z (magnitude result == 0)
    set_flag cc_v false
    set_flag cc_c false
