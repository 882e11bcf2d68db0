-- ===== src/Cpu/Opcodes/Page10.antt =====
-- `execute_page10`: the opcodes behind the prefix $10, a list for each high digit.
use pugputer6309_emulator.Base.{ℕ, List, ◌∷◌, [], ◌++◌, switch}
use pugputer6309_emulator.Cpu.Types.{
  Callbacks, sub, cmp, sbc, and, bit, eor, adc, or, add, neg, complement, lsr, ror, asr, asl, rol,
  dec, inc, tst, clr,
}
use pugputer6309_emulator.Cpu.Monad.{M}
use pugputer6309_emulator.Cpu.Memory.{ea_direct, ea_extended, stack_s, stack_u}
use pugputer6309_emulator.Cpu.Registers.{reg_y, reg_s, reg_d, reg_w}
use pugputer6309_emulator.Cpu.Indexed.{ea_indexed}
use pugputer6309_emulator.Cpu.Interrupts.{illegal_opcode_trap}
use pugputer6309_emulator.Cpu.Handlers.{
  rmw16_inh, alu16_imm, ld16_imm, cmp16_imm, alu16_dir, alu16_idx, alu16_ext, ld16_dir, ld16_idx,
  ld16_ext, st16_dir, st16_idx, st16_ext, cmp16_dir, cmp16_idx, cmp16_ext, psh_w, pul_w, swi_at,
  long_branch, ldq_at, stq_at, reg_reg,
}

module _ {S : Type 0} ⦃io : Callbacks S⦄ where
  unfoldable pub page10_2x : List (ℕ × M S (Unit {0}))
  page10_2x =
      (0x21, long_branch 0x21)
      ∷ (0x22, long_branch 0x22)
      ∷ (0x23, long_branch 0x23)
      ∷ (0x24, long_branch 0x24)
      ∷ (0x25, long_branch 0x25)
      ∷ (0x26, long_branch 0x26)
      ∷ (0x27, long_branch 0x27)
      ∷ (0x28, long_branch 0x28)
      ∷ (0x29, long_branch 0x29)
      ∷ (0x2a, long_branch 0x2a)
      ∷ (0x2b, long_branch 0x2b)
      ∷ (0x2c, long_branch 0x2c)
      ∷ (0x2d, long_branch 0x2d)
      ∷ (0x2e, long_branch 0x2e)
      ∷ (0x2f, long_branch 0x2f)
      ∷ []

  unfoldable pub page10_3x : List (ℕ × M S (Unit {0}))
  page10_3x =
      (0x30, reg_reg 0x30)
      ∷ (0x31, reg_reg 0x31)
      ∷ (0x32, reg_reg 0x32)
      ∷ (0x33, reg_reg 0x33)
      ∷ (0x34, reg_reg 0x34)
      ∷ (0x35, reg_reg 0x35)
      ∷ (0x36, reg_reg 0x36)
      ∷ (0x37, reg_reg 0x37)
      ∷ (0x38, psh_w stack_s)
      ∷ (0x39, pul_w stack_s)
      ∷ (0x3a, psh_w stack_u)
      ∷ (0x3b, pul_w stack_u)
      ∷ (0x3f, swi_at 0xfff4)
      ∷ []

  unfoldable pub page10_4x : List (ℕ × M S (Unit {0}))
  page10_4x =
      (0x40, rmw16_inh neg reg_d)
      ∷ (0x43, rmw16_inh complement reg_d)
      ∷ (0x44, rmw16_inh lsr reg_d)
      ∷ (0x46, rmw16_inh ror reg_d)
      ∷ (0x47, rmw16_inh asr reg_d)
      ∷ (0x48, rmw16_inh asl reg_d)
      ∷ (0x49, rmw16_inh rol reg_d)
      ∷ (0x4a, rmw16_inh dec reg_d)
      ∷ (0x4c, rmw16_inh inc reg_d)
      ∷ (0x4d, rmw16_inh tst reg_d)
      ∷ (0x4f, rmw16_inh clr reg_d)
      ∷ []

  unfoldable pub page10_5x : List (ℕ × M S (Unit {0}))
  page10_5x =
      (0x53, rmw16_inh complement reg_w)
      ∷ (0x54, rmw16_inh lsr reg_w)
      ∷ (0x56, rmw16_inh ror reg_w)
      ∷ (0x59, rmw16_inh rol reg_w)
      ∷ (0x5a, rmw16_inh dec reg_w)
      ∷ (0x5c, rmw16_inh inc reg_w)
      ∷ (0x5d, rmw16_inh tst reg_w)
      ∷ (0x5f, rmw16_inh clr reg_w)
      ∷ []

  unfoldable pub page10_8x : List (ℕ × M S (Unit {0}))
  page10_8x =
      (0x80, alu16_imm reg_w sub 5 4)
      ∷ (0x81, alu16_imm reg_w cmp 5 4)
      ∷ (0x82, alu16_imm reg_d sbc 5 4)
      ∷ (0x83, alu16_imm reg_d cmp 5 4)
      ∷ (0x84, alu16_imm reg_d and 5 4)
      ∷ (0x85, alu16_imm reg_d bit 5 4)
      ∷ (0x86, ld16_imm reg_w 4)
      ∷ (0x88, alu16_imm reg_d eor 5 4)
      ∷ (0x89, alu16_imm reg_d adc 5 4)
      ∷ (0x8a, alu16_imm reg_d or 5 4)
      ∷ (0x8b, alu16_imm reg_w add 5 4)
      ∷ (0x8c, cmp16_imm reg_y 5 4)
      ∷ (0x8e, ld16_imm reg_y 4)
      ∷ []

  unfoldable pub page10_9x : List (ℕ × M S (Unit {0}))
  page10_9x =
      (0x90, alu16_dir reg_w sub 7 5)
      ∷ (0x91, alu16_dir reg_w cmp 7 5)
      ∷ (0x92, alu16_dir reg_d sbc 7 5)
      ∷ (0x93, alu16_dir reg_d cmp 7 5)
      ∷ (0x94, alu16_dir reg_d and 7 5)
      ∷ (0x95, alu16_dir reg_d bit 7 5)
      ∷ (0x96, ld16_dir reg_w 6 5)
      ∷ (0x97, st16_dir reg_w 6 5)
      ∷ (0x98, alu16_dir reg_d eor 7 5)
      ∷ (0x99, alu16_dir reg_d adc 7 5)
      ∷ (0x9a, alu16_dir reg_d or 7 5)
      ∷ (0x9b, alu16_dir reg_w add 7 5)
      ∷ (0x9c, cmp16_dir reg_y 7 5)
      ∷ (0x9e, ld16_dir reg_y 6 5)
      ∷ (0x9f, st16_dir reg_y 6 5)
      ∷ []

  unfoldable pub page10_ax : List (ℕ × M S (Unit {0}))
  page10_ax =
      (0xa0, alu16_idx reg_w sub 7)
      ∷ (0xa1, alu16_idx reg_w cmp 7)
      ∷ (0xa2, alu16_idx reg_d sbc 7)
      ∷ (0xa3, alu16_idx reg_d cmp 7)
      ∷ (0xa4, alu16_idx reg_d and 7)
      ∷ (0xa5, alu16_idx reg_d bit 7)
      ∷ (0xa6, ld16_idx reg_w 6)
      ∷ (0xa7, st16_idx reg_w 6)
      ∷ (0xa8, alu16_idx reg_d eor 7)
      ∷ (0xa9, alu16_idx reg_d adc 7)
      ∷ (0xaa, alu16_idx reg_d or 7)
      ∷ (0xab, alu16_idx reg_w add 7)
      ∷ (0xac, cmp16_idx reg_y 7)
      ∷ (0xae, ld16_idx reg_y 6)
      ∷ (0xaf, st16_idx reg_y 6)
      ∷ []

  unfoldable pub page10_bx : List (ℕ × M S (Unit {0}))
  page10_bx =
      (0xb0, alu16_ext reg_w sub 8 6)
      ∷ (0xb1, alu16_ext reg_w cmp 8 6)
      ∷ (0xb2, alu16_ext reg_d sbc 8 6)
      ∷ (0xb3, alu16_ext reg_d cmp 8 6)
      ∷ (0xb4, alu16_ext reg_d and 8 6)
      ∷ (0xb5, alu16_ext reg_d bit 8 6)
      ∷ (0xb6, ld16_ext reg_w 7 6)
      ∷ (0xb7, st16_ext reg_w 7 6)
      ∷ (0xb8, alu16_ext reg_d eor 8 6)
      ∷ (0xb9, alu16_ext reg_d adc 8 6)
      ∷ (0xba, alu16_ext reg_d or 8 6)
      ∷ (0xbb, alu16_ext reg_w add 8 6)
      ∷ (0xbc, cmp16_ext reg_y 8 6)
      ∷ (0xbe, ld16_ext reg_y 7 6)
      ∷ (0xbf, st16_ext reg_y 7 6)
      ∷ []

  unfoldable pub page10_cx : List (ℕ × M S (Unit {0}))
  page10_cx = (0xce, ld16_imm reg_s 4) ∷ []

  unfoldable pub page10_dx : List (ℕ × M S (Unit {0}))
  page10_dx =
      (0xdc, ldq_at ea_direct 8 7)
      ∷ (0xdd, stq_at ea_direct 8 7)
      ∷ (0xde, ld16_dir reg_s 6 5)
      ∷ (0xdf, st16_dir reg_s 6 5)
      ∷ []

  unfoldable pub page10_ex : List (ℕ × M S (Unit {0}))
  page10_ex =
      (0xec, ldq_at ea_indexed 8 8)
      ∷ (0xed, stq_at ea_indexed 8 8)
      ∷ (0xee, ld16_idx reg_s 6)
      ∷ (0xef, st16_idx reg_s 6)
      ∷ []

  unfoldable pub page10_fx : List (ℕ × M S (Unit {0}))
  page10_fx =
      (0xfc, ldq_at ea_extended 9 8)
      ∷ (0xfd, stq_at ea_extended 9 8)
      ∷ (0xfe, ld16_ext reg_s 7 6)
      ∷ (0xff, st16_ext reg_s 7 6)
      ∷ []

  -- The `switch`; its `default` is the trap.
  unfoldable pub execute_page10_table : List (ℕ × M S (Unit {0}))
  execute_page10_table =
      page10_2x ++ page10_3x ++ page10_4x ++ page10_5x ++ page10_8x ++ page10_9x ++ page10_ax
      ++ page10_bx ++ page10_cx ++ page10_dx ++ page10_ex ++ page10_fx

  unfoldable pub execute_page10 : ℕ → M S (Unit {0})
  unfolding switch
  execute_page10 opcode = switch opcode execute_page10_table illegal_opcode_trap
