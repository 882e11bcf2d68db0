-- ===== src/Cpu/Valid/Opcodes/High.antt =====
-- The handlers of the cases $80 to $FF.
use pugputer6309_emulator.Base.{nil, AllCases, arith}
use pugputer6309_emulator.Cpu.Types.{
  Callbacks, ReadsBytes, adc, add, and, bit, cmp, eor, ld, or, sbc, sub,
}
use pugputer6309_emulator.Cpu.Registers.{acc_a, acc_b, reg_d, reg_u, reg_x}
use pugputer6309_emulator.Cpu.Opcodes.High.{
  page0_8x, page0_9x, page0_ax, page0_bx, page0_cx, page0_dx, page0_ex, page0_fx,
}
use pugputer6309_emulator.Cpu.Valid.Opcodes.Cases.{◌⊳◌}
use pugputer6309_emulator.Cpu.Valid.Modes.{
  alu16_dir-Runs, alu16_ext-Runs, alu16_idx-Runs, alu8_dir-Runs, alu8_ext-Runs, alu8_idx-Runs,
  cmp16_dir-Runs, cmp16_ext-Runs, cmp16_idx-Runs, ld16_dir-Runs, ld16_ext-Runs, ld16_idx-Runs,
  st16_dir-Runs, st16_ext-Runs, st16_idx-Runs, st8_dir-Runs, st8_ext-Runs, st8_idx-Runs,
}
use pugputer6309_emulator.Cpu.Valid.Operands.{
  Executes, alu16_imm-Runs, alu8_imm-Runs, cmp16_imm-Runs, direct, extended, indexed, ld16_imm-Runs,
}
use pugputer6309_emulator.Cpu.Valid.Special.{ldq_imm-Runs}
use pugputer6309_emulator.Cpu.Valid.Stacking.{bsr-Runs, jsr-Runs}

module _ {S : Type 0} ⦃io : Callbacks S⦄ (bytes : ReadsBytes io) where
  pub page0_8x-Executes : AllCases (Executes {S = S}) page0_8x
  unfolding page0_8x
  page0_8x-Executes =
      alu8_imm-Runs bytes acc_a sub 2 (omega arith) (omega arith)
      ⊳ alu8_imm-Runs bytes acc_a cmp 2 (omega arith) (omega arith)
      ⊳ alu8_imm-Runs bytes acc_a sbc 2 (omega arith) (omega arith)
      ⊳ alu16_imm-Runs bytes reg_d sub 4 3 (omega arith)
      ⊳ alu8_imm-Runs bytes acc_a and 2 (omega arith) (omega arith)
      ⊳ alu8_imm-Runs bytes acc_a bit 2 (omega arith) (omega arith)
      ⊳ alu8_imm-Runs bytes acc_a ld 2 (omega arith) (omega arith)
      ⊳ cmp16_imm-Runs bytes reg_x 4 3 (omega arith)
      ⊳ bsr-Runs bytes
      ⊳ ld16_imm-Runs bytes reg_x 3 (omega arith) (omega arith)
      ⊳ alu8_imm-Runs bytes acc_a eor 2 (omega arith) (omega arith)
      ⊳ alu8_imm-Runs bytes acc_a adc 2 (omega arith) (omega arith)
      ⊳ alu8_imm-Runs bytes acc_a or 2 (omega arith) (omega arith)
      ⊳ alu8_imm-Runs bytes acc_a add 2 (omega arith) (omega arith)
      ⊳ nil

  pub page0_9x-Executes : AllCases (Executes {S = S}) page0_9x
  unfolding page0_9x
  page0_9x-Executes =
      alu8_dir-Runs bytes acc_a sub 4 3 (omega arith)
      ⊳ alu8_dir-Runs bytes acc_a cmp 4 3 (omega arith)
      ⊳ alu8_dir-Runs bytes acc_a sbc 4 3 (omega arith)
      ⊳ alu16_dir-Runs bytes reg_d sub 6 4 (omega arith)
      ⊳ alu8_dir-Runs bytes acc_a and 4 3 (omega arith)
      ⊳ alu8_dir-Runs bytes acc_a bit 4 3 (omega arith)
      ⊳ alu8_dir-Runs bytes acc_a ld 4 3 (omega arith)
      ⊳ st8_dir-Runs bytes acc_a 4 3 (omega arith)
      ⊳ alu8_dir-Runs bytes acc_a eor 4 3 (omega arith)
      ⊳ alu8_dir-Runs bytes acc_a adc 4 3 (omega arith)
      ⊳ alu8_dir-Runs bytes acc_a or 4 3 (omega arith)
      ⊳ alu8_dir-Runs bytes acc_a add 4 3 (omega arith)
      ⊳ cmp16_dir-Runs bytes reg_x 6 4 (omega arith)
      ⊳ jsr-Runs bytes 7 6 (direct bytes) (omega arith)
      ⊳ ld16_dir-Runs bytes reg_x 5 4 (omega arith)
      ⊳ st16_dir-Runs bytes reg_x 5 4 (omega arith)
      ⊳ nil

  pub page0_ax-Executes : AllCases (Executes {S = S}) page0_ax
  unfolding page0_ax
  page0_ax-Executes =
      alu8_idx-Runs bytes acc_a sub 4 (omega arith)
      ⊳ alu8_idx-Runs bytes acc_a cmp 4 (omega arith)
      ⊳ alu8_idx-Runs bytes acc_a sbc 4 (omega arith)
      ⊳ alu16_idx-Runs bytes reg_d sub 6 (omega arith)
      ⊳ alu8_idx-Runs bytes acc_a and 4 (omega arith)
      ⊳ alu8_idx-Runs bytes acc_a bit 4 (omega arith)
      ⊳ alu8_idx-Runs bytes acc_a ld 4 (omega arith)
      ⊳ st8_idx-Runs bytes acc_a 4 (omega arith)
      ⊳ alu8_idx-Runs bytes acc_a eor 4 (omega arith)
      ⊳ alu8_idx-Runs bytes acc_a adc 4 (omega arith)
      ⊳ alu8_idx-Runs bytes acc_a or 4 (omega arith)
      ⊳ alu8_idx-Runs bytes acc_a add 4 (omega arith)
      ⊳ cmp16_idx-Runs bytes reg_x 6 (omega arith)
      ⊳ jsr-Runs bytes 7 6 (indexed bytes) (omega arith)
      ⊳ ld16_idx-Runs bytes reg_x 5 (omega arith)
      ⊳ st16_idx-Runs bytes reg_x 5 (omega arith)
      ⊳ nil

  pub page0_bx-Executes : AllCases (Executes {S = S}) page0_bx
  unfolding page0_bx
  page0_bx-Executes =
      alu8_ext-Runs bytes acc_a sub 5 4 (omega arith)
      ⊳ alu8_ext-Runs bytes acc_a cmp 5 4 (omega arith)
      ⊳ alu8_ext-Runs bytes acc_a sbc 5 4 (omega arith)
      ⊳ alu16_ext-Runs bytes reg_d sub 7 5 (omega arith)
      ⊳ alu8_ext-Runs bytes acc_a and 5 4 (omega arith)
      ⊳ alu8_ext-Runs bytes acc_a bit 5 4 (omega arith)
      ⊳ alu8_ext-Runs bytes acc_a ld 5 4 (omega arith)
      ⊳ st8_ext-Runs bytes acc_a 5 4 (omega arith)
      ⊳ alu8_ext-Runs bytes acc_a eor 5 4 (omega arith)
      ⊳ alu8_ext-Runs bytes acc_a adc 5 4 (omega arith)
      ⊳ alu8_ext-Runs bytes acc_a or 5 4 (omega arith)
      ⊳ alu8_ext-Runs bytes acc_a add 5 4 (omega arith)
      ⊳ cmp16_ext-Runs bytes reg_x 7 5 (omega arith)
      ⊳ jsr-Runs bytes 8 7 (extended bytes) (omega arith)
      ⊳ ld16_ext-Runs bytes reg_x 6 5 (omega arith)
      ⊳ st16_ext-Runs bytes reg_x 6 5 (omega arith)
      ⊳ nil

  pub page0_cx-Executes : AllCases (Executes {S = S}) page0_cx
  unfolding page0_cx
  page0_cx-Executes =
      alu8_imm-Runs bytes acc_b sub 2 (omega arith) (omega arith)
      ⊳ alu8_imm-Runs bytes acc_b cmp 2 (omega arith) (omega arith)
      ⊳ alu8_imm-Runs bytes acc_b sbc 2 (omega arith) (omega arith)
      ⊳ alu16_imm-Runs bytes reg_d add 4 3 (omega arith)
      ⊳ alu8_imm-Runs bytes acc_b and 2 (omega arith) (omega arith)
      ⊳ alu8_imm-Runs bytes acc_b bit 2 (omega arith) (omega arith)
      ⊳ alu8_imm-Runs bytes acc_b ld 2 (omega arith) (omega arith)
      ⊳ alu8_imm-Runs bytes acc_b eor 2 (omega arith) (omega arith)
      ⊳ alu8_imm-Runs bytes acc_b adc 2 (omega arith) (omega arith)
      ⊳ alu8_imm-Runs bytes acc_b or 2 (omega arith) (omega arith)
      ⊳ alu8_imm-Runs bytes acc_b add 2 (omega arith) (omega arith)
      ⊳ ld16_imm-Runs bytes reg_d 3 (omega arith) (omega arith)
      ⊳ ldq_imm-Runs bytes
      ⊳ ld16_imm-Runs bytes reg_u 3 (omega arith) (omega arith)
      ⊳ nil

  pub page0_dx-Executes : AllCases (Executes {S = S}) page0_dx
  unfolding page0_dx
  page0_dx-Executes =
      alu8_dir-Runs bytes acc_b sub 4 3 (omega arith)
      ⊳ alu8_dir-Runs bytes acc_b cmp 4 3 (omega arith)
      ⊳ alu8_dir-Runs bytes acc_b sbc 4 3 (omega arith)
      ⊳ alu16_dir-Runs bytes reg_d add 6 4 (omega arith)
      ⊳ alu8_dir-Runs bytes acc_b and 4 3 (omega arith)
      ⊳ alu8_dir-Runs bytes acc_b bit 4 3 (omega arith)
      ⊳ alu8_dir-Runs bytes acc_b ld 4 3 (omega arith)
      ⊳ st8_dir-Runs bytes acc_b 4 3 (omega arith)
      ⊳ alu8_dir-Runs bytes acc_b eor 4 3 (omega arith)
      ⊳ alu8_dir-Runs bytes acc_b adc 4 3 (omega arith)
      ⊳ alu8_dir-Runs bytes acc_b or 4 3 (omega arith)
      ⊳ alu8_dir-Runs bytes acc_b add 4 3 (omega arith)
      ⊳ ld16_dir-Runs bytes reg_d 5 4 (omega arith)
      ⊳ st16_dir-Runs bytes reg_d 5 4 (omega arith)
      ⊳ ld16_dir-Runs bytes reg_u 5 4 (omega arith)
      ⊳ st16_dir-Runs bytes reg_u 5 4 (omega arith)
      ⊳ nil

  pub page0_ex-Executes : AllCases (Executes {S = S}) page0_ex
  unfolding page0_ex
  page0_ex-Executes =
      alu8_idx-Runs bytes acc_b sub 4 (omega arith)
      ⊳ alu8_idx-Runs bytes acc_b cmp 4 (omega arith)
      ⊳ alu8_idx-Runs bytes acc_b sbc 4 (omega arith)
      ⊳ alu16_idx-Runs bytes reg_d add 6 (omega arith)
      ⊳ alu8_idx-Runs bytes acc_b and 4 (omega arith)
      ⊳ alu8_idx-Runs bytes acc_b bit 4 (omega arith)
      ⊳ alu8_idx-Runs bytes acc_b ld 4 (omega arith)
      ⊳ st8_idx-Runs bytes acc_b 4 (omega arith)
      ⊳ alu8_idx-Runs bytes acc_b eor 4 (omega arith)
      ⊳ alu8_idx-Runs bytes acc_b adc 4 (omega arith)
      ⊳ alu8_idx-Runs bytes acc_b or 4 (omega arith)
      ⊳ alu8_idx-Runs bytes acc_b add 4 (omega arith)
      ⊳ ld16_idx-Runs bytes reg_d 5 (omega arith)
      ⊳ st16_idx-Runs bytes reg_d 5 (omega arith)
      ⊳ ld16_idx-Runs bytes reg_u 5 (omega arith)
      ⊳ st16_idx-Runs bytes reg_u 5 (omega arith)
      ⊳ nil

  pub page0_fx-Executes : AllCases (Executes {S = S}) page0_fx
  unfolding page0_fx
  page0_fx-Executes =
      alu8_ext-Runs bytes acc_b sub 5 4 (omega arith)
      ⊳ alu8_ext-Runs bytes acc_b cmp 5 4 (omega arith)
      ⊳ alu8_ext-Runs bytes acc_b sbc 5 4 (omega arith)
      ⊳ alu16_ext-Runs bytes reg_d add 7 5 (omega arith)
      ⊳ alu8_ext-Runs bytes acc_b and 5 4 (omega arith)
      ⊳ alu8_ext-Runs bytes acc_b bit 5 4 (omega arith)
      ⊳ alu8_ext-Runs bytes acc_b ld 5 4 (omega arith)
      ⊳ st8_ext-Runs bytes acc_b 5 4 (omega arith)
      ⊳ alu8_ext-Runs bytes acc_b eor 5 4 (omega arith)
      ⊳ alu8_ext-Runs bytes acc_b adc 5 4 (omega arith)
      ⊳ alu8_ext-Runs bytes acc_b or 5 4 (omega arith)
      ⊳ alu8_ext-Runs bytes acc_b add 5 4 (omega arith)
      ⊳ ld16_ext-Runs bytes reg_d 6 5 (omega arith)
      ⊳ st16_ext-Runs bytes reg_d 6 5 (omega arith)
      ⊳ ld16_ext-Runs bytes reg_u 6 5 (omega arith)
      ⊳ st16_ext-Runs bytes reg_u 6 5 (omega arith)
      ⊳ nil
