-- ===== src/Cpu/Opcodes/Low.antt =====
-- `execute`: the cases $00 to $7F, a list for each high digit.
use pugputer6309_emulator.Base.{ℕ, List, ◌∷◌, [], true, false}
use pugputer6309_emulator.Cpu.Types.{
  Callbacks, neg, complement, lsr, ror, asr, asl, rol, dec, inc, tst, clr,
}
use pugputer6309_emulator.Cpu.Monad.{M, ◌>>=◌}
use pugputer6309_emulator.Cpu.Memory.{fetch8, ea_direct, ea_extended, stack_s, stack_u}
use pugputer6309_emulator.Cpu.Registers.{acc_a, acc_b, reg_x, reg_y, reg_u, reg_s}
use pugputer6309_emulator.Cpu.Indexed.{ea_indexed}
use pugputer6309_emulator.Cpu.Handlers.{
  bits_or, bits_and, bits_eor, rmw8_inh, rmw8_dir, rmw8_idx, rmw8_ext, logicmem_dir, logicmem_idx,
  logicmem_ext, tst_at, psh, pul, lbra, lbsr, jmp, rts, rti, cwai, swi, nop, sync, sexw, sex, daa,
  abx, mul, orcc, andcc, exg, tfr, short_branch, lea,
}
use pugputer6309_emulator.Cpu.Opcodes.Page10.{execute_page10}
use pugputer6309_emulator.Cpu.Opcodes.Page11.{execute_page11}

module _ {S : Type 0} ⦃io : Callbacks S⦄ where
  unfoldable pub page0_0x : List (ℕ × M S (Unit {0}))
  page0_0x =
      (0x00, rmw8_dir neg)
      ∷ (0x01, logicmem_dir bits_or true)
      ∷ (0x02, logicmem_dir bits_and true)
      ∷ (0x03, rmw8_dir complement)
      ∷ (0x04, rmw8_dir lsr)
      ∷ (0x05, logicmem_dir bits_eor true)
      ∷ (0x06, rmw8_dir ror)
      ∷ (0x07, rmw8_dir asr)
      ∷ (0x08, rmw8_dir asl)
      ∷ (0x09, rmw8_dir rol)
      ∷ (0x0a, rmw8_dir dec)
      ∷ (0x0b, logicmem_dir bits_and false)
      ∷ (0x0c, rmw8_dir inc)
      ∷ (0x0d, tst_at ea_direct 6 4)
      ∷ (0x0e, jmp ea_direct 3 2)
      ∷ (0x0f, rmw8_dir clr)
      ∷ []

  unfoldable pub page0_1x : List (ℕ × M S (Unit {0}))
  page0_1x =
      (0x10, (do opcode ← fetch8; execute_page10 opcode))
      ∷ (0x11, (do opcode ← fetch8; execute_page11 opcode))
      ∷ (0x12, nop)
      ∷ (0x13, sync)
      ∷ (0x14, sexw)
      ∷ (0x16, lbra)
      ∷ (0x17, lbsr)
      ∷ (0x19, daa)
      ∷ (0x1a, orcc)
      ∷ (0x1c, andcc)
      ∷ (0x1d, sex)
      ∷ (0x1e, exg)
      ∷ (0x1f, tfr)
      ∷ []

  unfoldable pub page0_2x : List (ℕ × M S (Unit {0}))
  page0_2x =
      (0x20, short_branch 0x20)
      ∷ (0x21, short_branch 0x21)
      ∷ (0x22, short_branch 0x22)
      ∷ (0x23, short_branch 0x23)
      ∷ (0x24, short_branch 0x24)
      ∷ (0x25, short_branch 0x25)
      ∷ (0x26, short_branch 0x26)
      ∷ (0x27, short_branch 0x27)
      ∷ (0x28, short_branch 0x28)
      ∷ (0x29, short_branch 0x29)
      ∷ (0x2a, short_branch 0x2a)
      ∷ (0x2b, short_branch 0x2b)
      ∷ (0x2c, short_branch 0x2c)
      ∷ (0x2d, short_branch 0x2d)
      ∷ (0x2e, short_branch 0x2e)
      ∷ (0x2f, short_branch 0x2f)
      ∷ []

  unfoldable pub page0_3x : List (ℕ × M S (Unit {0}))
  page0_3x =
      (0x30, lea reg_x true)
      ∷ (0x31, lea reg_y true)
      ∷ (0x32, lea reg_s false)
      ∷ (0x33, lea reg_u false)
      ∷ (0x34, psh stack_s)
      ∷ (0x35, pul stack_s)
      ∷ (0x36, psh stack_u)
      ∷ (0x37, pul stack_u)
      ∷ (0x39, rts)
      ∷ (0x3a, abx)
      ∷ (0x3b, rti)
      ∷ (0x3c, cwai)
      ∷ (0x3d, mul)
      ∷ (0x3f, swi)
      ∷ []

  unfoldable pub page0_4x : List (ℕ × M S (Unit {0}))
  page0_4x =
      (0x40, rmw8_inh neg acc_a 2 1)
      ∷ (0x43, rmw8_inh complement acc_a 2 1)
      ∷ (0x44, rmw8_inh lsr acc_a 2 1)
      ∷ (0x46, rmw8_inh ror acc_a 2 1)
      ∷ (0x47, rmw8_inh asr acc_a 2 1)
      ∷ (0x48, rmw8_inh asl acc_a 2 1)
      ∷ (0x49, rmw8_inh rol acc_a 2 1)
      ∷ (0x4a, rmw8_inh dec acc_a 2 1)
      ∷ (0x4c, rmw8_inh inc acc_a 2 1)
      ∷ (0x4d, rmw8_inh tst acc_a 2 1)
      ∷ (0x4f, rmw8_inh clr acc_a 2 1)
      ∷ []

  unfoldable pub page0_5x : List (ℕ × M S (Unit {0}))
  page0_5x =
      (0x50, rmw8_inh neg acc_b 2 1)
      ∷ (0x53, rmw8_inh complement acc_b 2 1)
      ∷ (0x54, rmw8_inh lsr acc_b 2 1)
      ∷ (0x56, rmw8_inh ror acc_b 2 1)
      ∷ (0x57, rmw8_inh asr acc_b 2 1)
      ∷ (0x58, rmw8_inh asl acc_b 2 1)
      ∷ (0x59, rmw8_inh rol acc_b 2 1)
      ∷ (0x5a, rmw8_inh dec acc_b 2 1)
      ∷ (0x5c, rmw8_inh inc acc_b 2 1)
      ∷ (0x5d, rmw8_inh tst acc_b 2 1)
      ∷ (0x5f, rmw8_inh clr acc_b 2 1)
      ∷ []

  unfoldable pub page0_6x : List (ℕ × M S (Unit {0}))
  page0_6x =
      (0x60, rmw8_idx neg)
      ∷ (0x61, logicmem_idx bits_or true)
      ∷ (0x62, logicmem_idx bits_and true)
      ∷ (0x63, rmw8_idx complement)
      ∷ (0x64, rmw8_idx lsr)
      ∷ (0x65, logicmem_idx bits_eor true)
      ∷ (0x66, rmw8_idx ror)
      ∷ (0x67, rmw8_idx asr)
      ∷ (0x68, rmw8_idx asl)
      ∷ (0x69, rmw8_idx rol)
      ∷ (0x6a, rmw8_idx dec)
      ∷ (0x6b, logicmem_idx bits_and false)
      ∷ (0x6c, rmw8_idx inc)
      ∷ (0x6d, tst_at ea_indexed 5 5)
      ∷ (0x6e, jmp ea_indexed 3 3)
      ∷ (0x6f, rmw8_idx clr)
      ∷ []

  unfoldable pub page0_7x : List (ℕ × M S (Unit {0}))
  page0_7x =
      (0x70, rmw8_ext neg)
      ∷ (0x71, logicmem_ext bits_or true)
      ∷ (0x72, logicmem_ext bits_and true)
      ∷ (0x73, rmw8_ext complement)
      ∷ (0x74, rmw8_ext lsr)
      ∷ (0x75, logicmem_ext bits_eor true)
      ∷ (0x76, rmw8_ext ror)
      ∷ (0x77, rmw8_ext asr)
      ∷ (0x78, rmw8_ext asl)
      ∷ (0x79, rmw8_ext rol)
      ∷ (0x7a, rmw8_ext dec)
      ∷ (0x7b, logicmem_ext bits_and false)
      ∷ (0x7c, rmw8_ext inc)
      ∷ (0x7d, tst_at ea_extended 7 5)
      ∷ (0x7e, jmp ea_extended 4 3)
      ∷ (0x7f, rmw8_ext clr)
      ∷ []
