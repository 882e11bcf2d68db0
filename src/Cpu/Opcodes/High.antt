-- ===== src/Cpu/Opcodes/High.antt =====
-- `execute`: the cases $80 to $FF, a list for each high digit.
use pugputer6309_emulator.Base.{ℕ, List, ◌∷◌, []}
use pugputer6309_emulator.Cpu.Types.{Callbacks, sub, cmp, sbc, and, bit, ld, eor, adc, or, add}
use pugputer6309_emulator.Cpu.Monad.{M}
use pugputer6309_emulator.Cpu.Memory.{ea_direct, ea_extended}
use pugputer6309_emulator.Cpu.Registers.{acc_a, acc_b, reg_x, reg_u, reg_d}
use pugputer6309_emulator.Cpu.Indexed.{ea_indexed}
use pugputer6309_emulator.Cpu.Handlers.{
  alu8_imm, alu16_imm, ld16_imm, cmp16_imm, alu8_dir, alu8_idx, alu8_ext, st8_dir, st8_idx, st8_ext,
  alu16_dir, alu16_idx, alu16_ext, ld16_dir, ld16_idx, ld16_ext, st16_dir, st16_idx, st16_ext,
  cmp16_dir, cmp16_idx, cmp16_ext, bsr, jsr, ldq_imm,
}

module _ {S : Type 0} ⦃io : Callbacks S⦄ where
  unfoldable pub page0_8x : List (ℕ × M S (Unit {0}))
  page0_8x =
      (0x80, alu8_imm acc_a sub 2)
      ∷ (0x81, alu8_imm acc_a cmp 2)
      ∷ (0x82, alu8_imm acc_a sbc 2)
      ∷ (0x83, alu16_imm reg_d sub 4 3)
      ∷ (0x84, alu8_imm acc_a and 2)
      ∷ (0x85, alu8_imm acc_a bit 2)
      ∷ (0x86, alu8_imm acc_a ld 2)
      ∷ (0x8c, cmp16_imm reg_x 4 3)
      ∷ (0x8d, bsr)
      ∷ (0x8e, ld16_imm reg_x 3)
      ∷ (0x88, alu8_imm acc_a eor 2)
      ∷ (0x89, alu8_imm acc_a adc 2)
      ∷ (0x8a, alu8_imm acc_a or 2)
      ∷ (0x8b, alu8_imm acc_a add 2)
      ∷ []

  unfoldable pub page0_9x : List (ℕ × M S (Unit {0}))
  page0_9x =
      (0x90, alu8_dir acc_a sub 4 3)
      ∷ (0x91, alu8_dir acc_a cmp 4 3)
      ∷ (0x92, alu8_dir acc_a sbc 4 3)
      ∷ (0x93, alu16_dir reg_d sub 6 4)
      ∷ (0x94, alu8_dir acc_a and 4 3)
      ∷ (0x95, alu8_dir acc_a bit 4 3)
      ∷ (0x96, alu8_dir acc_a ld 4 3)
      ∷ (0x97, st8_dir acc_a 4 3)
      ∷ (0x98, alu8_dir acc_a eor 4 3)
      ∷ (0x99, alu8_dir acc_a adc 4 3)
      ∷ (0x9a, alu8_dir acc_a or 4 3)
      ∷ (0x9b, alu8_dir acc_a add 4 3)
      ∷ (0x9c, cmp16_dir reg_x 6 4)
      ∷ (0x9d, jsr ea_direct 7 6)
      ∷ (0x9e, ld16_dir reg_x 5 4)
      ∷ (0x9f, st16_dir reg_x 5 4)
      ∷ []

  unfoldable pub page0_ax : List (ℕ × M S (Unit {0}))
  page0_ax =
      (0xa0, alu8_idx acc_a sub 4)
      ∷ (0xa1, alu8_idx acc_a cmp 4)
      ∷ (0xa2, alu8_idx acc_a sbc 4)
      ∷ (0xa3, alu16_idx reg_d sub 6)
      ∷ (0xa4, alu8_idx acc_a and 4)
      ∷ (0xa5, alu8_idx acc_a bit 4)
      ∷ (0xa6, alu8_idx acc_a ld 4)
      ∷ (0xa7, st8_idx acc_a 4)
      ∷ (0xa8, alu8_idx acc_a eor 4)
      ∷ (0xa9, alu8_idx acc_a adc 4)
      ∷ (0xaa, alu8_idx acc_a or 4)
      ∷ (0xab, alu8_idx acc_a add 4)
      ∷ (0xac, cmp16_idx reg_x 6)
      ∷ (0xad, jsr ea_indexed 7 6)
      ∷ (0xae, ld16_idx reg_x 5)
      ∷ (0xaf, st16_idx reg_x 5)
      ∷ []

  unfoldable pub page0_bx : List (ℕ × M S (Unit {0}))
  page0_bx =
      (0xb0, alu8_ext acc_a sub 5 4)
      ∷ (0xb1, alu8_ext acc_a cmp 5 4)
      ∷ (0xb2, alu8_ext acc_a sbc 5 4)
      ∷ (0xb3, alu16_ext reg_d sub 7 5)
      ∷ (0xb4, alu8_ext acc_a and 5 4)
      ∷ (0xb5, alu8_ext acc_a bit 5 4)
      ∷ (0xb6, alu8_ext acc_a ld 5 4)
      ∷ (0xb7, st8_ext acc_a 5 4)
      ∷ (0xb8, alu8_ext acc_a eor 5 4)
      ∷ (0xb9, alu8_ext acc_a adc 5 4)
      ∷ (0xba, alu8_ext acc_a or 5 4)
      ∷ (0xbb, alu8_ext acc_a add 5 4)
      ∷ (0xbc, cmp16_ext reg_x 7 5)
      ∷ (0xbd, jsr ea_extended 8 7)
      ∷ (0xbe, ld16_ext reg_x 6 5)
      ∷ (0xbf, st16_ext reg_x 6 5)
      ∷ []

  unfoldable pub page0_cx : List (ℕ × M S (Unit {0}))
  page0_cx =
      (0xc0, alu8_imm acc_b sub 2)
      ∷ (0xc1, alu8_imm acc_b cmp 2)
      ∷ (0xc2, alu8_imm acc_b sbc 2)
      ∷ (0xc3, alu16_imm reg_d add 4 3)
      ∷ (0xc4, alu8_imm acc_b and 2)
      ∷ (0xc5, alu8_imm acc_b bit 2)
      ∷ (0xc6, alu8_imm acc_b ld 2)
      ∷ (0xc8, alu8_imm acc_b eor 2)
      ∷ (0xc9, alu8_imm acc_b adc 2)
      ∷ (0xca, alu8_imm acc_b or 2)
      ∷ (0xcb, alu8_imm acc_b add 2)
      ∷ (0xcc, ld16_imm reg_d 3)
      ∷ (0xcd, ldq_imm)
      ∷ (0xce, ld16_imm reg_u 3)
      ∷ []

  unfoldable pub page0_dx : List (ℕ × M S (Unit {0}))
  page0_dx =
      (0xd0, alu8_dir acc_b sub 4 3)
      ∷ (0xd1, alu8_dir acc_b cmp 4 3)
      ∷ (0xd2, alu8_dir acc_b sbc 4 3)
      ∷ (0xd3, alu16_dir reg_d add 6 4)
      ∷ (0xd4, alu8_dir acc_b and 4 3)
      ∷ (0xd5, alu8_dir acc_b bit 4 3)
      ∷ (0xd6, alu8_dir acc_b ld 4 3)
      ∷ (0xd7, st8_dir acc_b 4 3)
      ∷ (0xd8, alu8_dir acc_b eor 4 3)
      ∷ (0xd9, alu8_dir acc_b adc 4 3)
      ∷ (0xda, alu8_dir acc_b or 4 3)
      ∷ (0xdb, alu8_dir acc_b add 4 3)
      ∷ (0xdc, ld16_dir reg_d 5 4)
      ∷ (0xdd, st16_dir reg_d 5 4)
      ∷ (0xde, ld16_dir reg_u 5 4)
      ∷ (0xdf, st16_dir reg_u 5 4)
      ∷ []

  unfoldable pub page0_ex : List (ℕ × M S (Unit {0}))
  page0_ex =
      (0xe0, alu8_idx acc_b sub 4)
      ∷ (0xe1, alu8_idx acc_b cmp 4)
      ∷ (0xe2, alu8_idx acc_b sbc 4)
      ∷ (0xe3, alu16_idx reg_d add 6)
      ∷ (0xe4, alu8_idx acc_b and 4)
      ∷ (0xe5, alu8_idx acc_b bit 4)
      ∷ (0xe6, alu8_idx acc_b ld 4)
      ∷ (0xe7, st8_idx acc_b 4)
      ∷ (0xe8, alu8_idx acc_b eor 4)
      ∷ (0xe9, alu8_idx acc_b adc 4)
      ∷ (0xea, alu8_idx acc_b or 4)
      ∷ (0xeb, alu8_idx acc_b add 4)
      ∷ (0xec, ld16_idx reg_d 5)
      ∷ (0xed, st16_idx reg_d 5)
      ∷ (0xee, ld16_idx reg_u 5)
      ∷ (0xef, st16_idx reg_u 5)
      ∷ []

  unfoldable pub page0_fx : List (ℕ × M S (Unit {0}))
  page0_fx =
      (0xf0, alu8_ext acc_b sub 5 4)
      ∷ (0xf1, alu8_ext acc_b cmp 5 4)
      ∷ (0xf2, alu8_ext acc_b sbc 5 4)
      ∷ (0xf3, alu16_ext reg_d add 7 5)
      ∷ (0xf4, alu8_ext acc_b and 5 4)
      ∷ (0xf5, alu8_ext acc_b bit 5 4)
      ∷ (0xf6, alu8_ext acc_b ld 5 4)
      ∷ (0xf7, st8_ext acc_b 5 4)
      ∷ (0xf8, alu8_ext acc_b eor 5 4)
      ∷ (0xf9, alu8_ext acc_b adc 5 4)
      ∷ (0xfa, alu8_ext acc_b or 5 4)
      ∷ (0xfb, alu8_ext acc_b add 5 4)
      ∷ (0xfc, ld16_ext reg_d 6 5)
      ∷ (0xfd, st16_ext reg_d 6 5)
      ∷ (0xfe, ld16_ext reg_u 6 5)
      ∷ (0xff, st16_ext reg_u 6 5)
      ∷ []
