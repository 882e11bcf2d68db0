-- ===== src/Cpu/Opcodes/Page11.antt =====
-- `execute_page11`: the opcodes behind the prefix $11, a list for each high digit.
use pugputer6309_emulator.Base.{ℕ, List, ◌∷◌, [], ◌++◌, switch}
use pugputer6309_emulator.Cpu.Types.{Callbacks, sub, cmp, ld, add, complement, dec, inc, tst, clr}
use pugputer6309_emulator.Cpu.Monad.{M}
use pugputer6309_emulator.Cpu.Memory.{ea_direct, ea_extended}
use pugputer6309_emulator.Cpu.Registers.{acc_e, acc_f, reg_u, reg_s}
use pugputer6309_emulator.Cpu.Indexed.{ea_indexed}
use pugputer6309_emulator.Cpu.Transfer.{do_bitbit, do_tfm}
use pugputer6309_emulator.Cpu.Interrupts.{illegal_opcode_trap}
use pugputer6309_emulator.Cpu.Handlers.{
  rmw8_inh, alu8_imm, cmp16_imm, alu8_dir, alu8_idx, alu8_ext, st8_dir, st8_idx, st8_ext, cmp16_dir,
  cmp16_idx, cmp16_ext, swi_at, bitmd, ldmd, divd_imm, divq_imm, muld_imm, divd_at, divq_at,
  muld_at,
}

module _ {S : Type 0} ⦃io : Callbacks S⦄ where
  unfoldable pub page11_3x : List (ℕ × M S (Unit {0}))
  page11_3x =
      (0x30, do_bitbit 0x1130)
      ∷ (0x31, do_bitbit 0x1131)
      ∷ (0x32, do_bitbit 0x1132)
      ∷ (0x33, do_bitbit 0x1133)
      ∷ (0x34, do_bitbit 0x1134)
      ∷ (0x35, do_bitbit 0x1135)
      ∷ (0x36, do_bitbit 0x1136)
      ∷ (0x37, do_bitbit 0x1137)
      ∷ (0x38, do_tfm 0x1138)
      ∷ (0x39, do_tfm 0x1139)
      ∷ (0x3a, do_tfm 0x113a)
      ∷ (0x3b, do_tfm 0x113b)
      ∷ (0x3c, bitmd)
      ∷ (0x3d, ldmd)
      ∷ (0x3f, swi_at 0xfff2)
      ∷ []

  unfoldable pub page11_4x : List (ℕ × M S (Unit {0}))
  page11_4x =
      (0x43, rmw8_inh complement acc_e 3 2)
      ∷ (0x4a, rmw8_inh dec acc_e 3 2)
      ∷ (0x4c, rmw8_inh inc acc_e 3 2)
      ∷ (0x4d, rmw8_inh tst acc_e 3 2)
      ∷ (0x4f, rmw8_inh clr acc_e 3 2)
      ∷ []

  unfoldable pub page11_5x : List (ℕ × M S (Unit {0}))
  page11_5x =
      (0x53, rmw8_inh complement acc_f 3 2)
      ∷ (0x5a, rmw8_inh dec acc_f 3 2)
      ∷ (0x5c, rmw8_inh inc acc_f 3 2)
      ∷ (0x5d, rmw8_inh tst acc_f 3 2)
      ∷ (0x5f, rmw8_inh clr acc_f 3 2)
      ∷ []

  unfoldable pub page11_8x : List (ℕ × M S (Unit {0}))
  page11_8x =
      (0x80, alu8_imm acc_e sub 3)
      ∷ (0x81, alu8_imm acc_e cmp 3)
      ∷ (0x83, cmp16_imm reg_u 5 4)
      ∷ (0x86, alu8_imm acc_e ld 3)
      ∷ (0x8b, alu8_imm acc_e add 3)
      ∷ (0x8c, cmp16_imm reg_s 5 4)
      ∷ (0x8d, divd_imm)
      ∷ (0x8e, divq_imm)
      ∷ (0x8f, muld_imm)
      ∷ []

  unfoldable pub page11_9x : List (ℕ × M S (Unit {0}))
  page11_9x =
      (0x90, alu8_dir acc_e sub 5 4)
      ∷ (0x91, alu8_dir acc_e cmp 5 4)
      ∷ (0x93, cmp16_dir reg_u 7 5)
      ∷ (0x96, alu8_dir acc_e ld 5 4)
      ∷ (0x97, st8_dir acc_e 5 4)
      ∷ (0x9b, alu8_dir acc_e add 5 4)
      ∷ (0x9c, cmp16_dir reg_s 7 5)
      ∷ (0x9d, divd_at ea_direct 27 26)
      ∷ (0x9e, divq_at ea_direct 36 35)
      ∷ (0x9f, muld_at ea_direct 30 29)
      ∷ []

  unfoldable pub page11_ax : List (ℕ × M S (Unit {0}))
  page11_ax =
      (0xa0, alu8_idx acc_e sub 5)
      ∷ (0xa1, alu8_idx acc_e cmp 5)
      ∷ (0xa3, cmp16_idx reg_u 7)
      ∷ (0xa6, alu8_idx acc_e ld 5)
      ∷ (0xa7, st8_idx acc_e 5)
      ∷ (0xab, alu8_idx acc_e add 5)
      ∷ (0xac, cmp16_idx reg_s 7)
      ∷ (0xad, divd_at ea_indexed 27 27)
      ∷ (0xae, divq_at ea_indexed 36 36)
      ∷ (0xaf, muld_at ea_indexed 30 30)
      ∷ []

  unfoldable pub page11_bx : List (ℕ × M S (Unit {0}))
  page11_bx =
      (0xb0, alu8_ext acc_e sub 6 5)
      ∷ (0xb1, alu8_ext acc_e cmp 6 5)
      ∷ (0xb3, cmp16_ext reg_u 8 6)
      ∷ (0xb6, alu8_ext acc_e ld 6 5)
      ∷ (0xb7, st8_ext acc_e 6 5)
      ∷ (0xbb, alu8_ext acc_e add 6 5)
      ∷ (0xbc, cmp16_ext reg_s 8 6)
      ∷ (0xbd, divd_at ea_extended 28 27)
      ∷ (0xbe, divq_at ea_extended 37 36)
      ∷ (0xbf, muld_at ea_extended 31 30)
      ∷ []

  unfoldable pub page11_cx : List (ℕ × M S (Unit {0}))
  page11_cx =
      (0xc0, alu8_imm acc_f sub 3)
      ∷ (0xc1, alu8_imm acc_f cmp 3)
      ∷ (0xc6, alu8_imm acc_f ld 3)
      ∷ (0xcb, alu8_imm acc_f add 3)
      ∷ []

  unfoldable pub page11_dx : List (ℕ × M S (Unit {0}))
  page11_dx =
      (0xd0, alu8_dir acc_f sub 5 4)
      ∷ (0xd1, alu8_dir acc_f cmp 5 4)
      ∷ (0xd6, alu8_dir acc_f ld 5 4)
      ∷ (0xd7, st8_dir acc_f 5 4)
      ∷ (0xdb, alu8_dir acc_f add 5 4)
      ∷ []

  unfoldable pub page11_ex : List (ℕ × M S (Unit {0}))
  page11_ex =
      (0xe0, alu8_idx acc_f sub 5)
      ∷ (0xe1, alu8_idx acc_f cmp 5)
      ∷ (0xe6, alu8_idx acc_f ld 5)
      ∷ (0xe7, st8_idx acc_f 5)
      ∷ (0xeb, alu8_idx acc_f add 5)
      ∷ []

  unfoldable pub page11_fx : List (ℕ × M S (Unit {0}))
  page11_fx =
      (0xf0, alu8_ext acc_f sub 6 5)
      ∷ (0xf1, alu8_ext acc_f cmp 6 5)
      ∷ (0xf6, alu8_ext acc_f ld 6 5)
      ∷ (0xf7, st8_ext acc_f 6 5)
      ∷ (0xfb, alu8_ext acc_f add 6 5)
      ∷ []

  -- The `switch`; its `default` is the trap.
  unfoldable pub execute_page11_table : List (ℕ × M S (Unit {0}))
  execute_page11_table =
      page11_3x ++ page11_4x ++ page11_5x ++ page11_8x ++ page11_9x ++ page11_ax ++ page11_bx
      ++ page11_cx ++ page11_dx ++ page11_ex ++ page11_fx

  unfoldable pub execute_page11 : ℕ → M S (Unit {0})
  unfolding switch
  execute_page11 opcode = switch opcode execute_page11_table illegal_opcode_trap
