-- ===== src/Cpu/Valid/Opcodes/Page10.antt =====
-- The handlers behind the prefix $10.
use pugputer6309_emulator.Base.{nil, AllCases, AllCases-append, AllCases-switch, ℕ, arith}
use pugputer6309_emulator.Cpu.Types.{
  Callbacks, ReadsBytes, adc, add, and, asl, asr, bit, clr, cmp, complement, dec, eor, inc, lsr,
  neg, or, rol, ror, sbc, sub, tst,
}
use pugputer6309_emulator.Cpu.Memory.{stack_s, stack_u}
use pugputer6309_emulator.Cpu.Registers.{reg_d, reg_s, reg_w, reg_y}
use pugputer6309_emulator.Cpu.Opcodes.Page10.{
  page10_2x, page10_3x, page10_4x, page10_5x, page10_8x, page10_9x, page10_ax, page10_bx, page10_cx,
  page10_dx, page10_ex, page10_fx, execute_page10, execute_page10_table,
}
use pugputer6309_emulator.Cpu.Valid.Opcodes.Cases.{default, ◌⊳◌}
use pugputer6309_emulator.Cpu.Valid.Modes.{
  alu16_dir-Runs, alu16_ext-Runs, alu16_idx-Runs, cmp16_dir-Runs, cmp16_ext-Runs, cmp16_idx-Runs,
  ld16_dir-Runs, ld16_ext-Runs, ld16_idx-Runs, st16_dir-Runs, st16_ext-Runs, st16_idx-Runs,
}
use pugputer6309_emulator.Cpu.Valid.Operands.{
  Executes, alu16_imm-Runs, cmp16_imm-Runs, direct, extended, indexed, ld16_imm-Runs,
  rmw16_inh-Runs,
}
use pugputer6309_emulator.Cpu.Valid.Special.{
  ldq_at-Runs, long_branch-Runs, reg_reg-Runs, stq_at-Runs,
}
use pugputer6309_emulator.Cpu.Valid.Stacking.{psh_w-Runs, pul_w-Runs, swi_at-Runs}

module _ {S : Type 0} ⦃io : Callbacks S⦄ (bytes : ReadsBytes io) where
  pub page10_2x-Executes : AllCases (Executes {S = S}) page10_2x
  unfolding page10_2x
  page10_2x-Executes =
      long_branch-Runs bytes 0x21
      ⊳ long_branch-Runs bytes 0x22
      ⊳ long_branch-Runs bytes 0x23
      ⊳ long_branch-Runs bytes 0x24
      ⊳ long_branch-Runs bytes 0x25
      ⊳ long_branch-Runs bytes 0x26
      ⊳ long_branch-Runs bytes 0x27
      ⊳ long_branch-Runs bytes 0x28
      ⊳ long_branch-Runs bytes 0x29
      ⊳ long_branch-Runs bytes 0x2a
      ⊳ long_branch-Runs bytes 0x2b
      ⊳ long_branch-Runs bytes 0x2c
      ⊳ long_branch-Runs bytes 0x2d
      ⊳ long_branch-Runs bytes 0x2e
      ⊳ long_branch-Runs bytes 0x2f
      ⊳ nil

  pub page10_3x-Executes : AllCases (Executes {S = S}) page10_3x
  unfolding page10_3x
  page10_3x-Executes =
      reg_reg-Runs bytes 0x30
      ⊳ reg_reg-Runs bytes 0x31
      ⊳ reg_reg-Runs bytes 0x32
      ⊳ reg_reg-Runs bytes 0x33
      ⊳ reg_reg-Runs bytes 0x34
      ⊳ reg_reg-Runs bytes 0x35
      ⊳ reg_reg-Runs bytes 0x36
      ⊳ reg_reg-Runs bytes 0x37
      ⊳ psh_w-Runs stack_s
      ⊳ pul_w-Runs bytes stack_s
      ⊳ psh_w-Runs stack_u
      ⊳ pul_w-Runs bytes stack_u
      ⊳ swi_at-Runs bytes 0xfff4
      ⊳ nil

  pub page10_4x-Executes : AllCases (Executes {S = S}) page10_4x
  unfolding page10_4x
  page10_4x-Executes =
      rmw16_inh-Runs neg reg_d
      ⊳ rmw16_inh-Runs complement reg_d
      ⊳ rmw16_inh-Runs lsr reg_d
      ⊳ rmw16_inh-Runs ror reg_d
      ⊳ rmw16_inh-Runs asr reg_d
      ⊳ rmw16_inh-Runs asl reg_d
      ⊳ rmw16_inh-Runs rol reg_d
      ⊳ rmw16_inh-Runs dec reg_d
      ⊳ rmw16_inh-Runs inc reg_d
      ⊳ rmw16_inh-Runs tst reg_d
      ⊳ rmw16_inh-Runs clr reg_d
      ⊳ nil

  pub page10_5x-Executes : AllCases (Executes {S = S}) page10_5x
  unfolding page10_5x
  page10_5x-Executes =
      rmw16_inh-Runs complement reg_w
      ⊳ rmw16_inh-Runs lsr reg_w
      ⊳ rmw16_inh-Runs ror reg_w
      ⊳ rmw16_inh-Runs rol reg_w
      ⊳ rmw16_inh-Runs dec reg_w
      ⊳ rmw16_inh-Runs inc reg_w
      ⊳ rmw16_inh-Runs tst reg_w
      ⊳ rmw16_inh-Runs clr reg_w
      ⊳ nil

  pub page10_8x-Executes : AllCases (Executes {S = S}) page10_8x
  unfolding page10_8x
  page10_8x-Executes =
      alu16_imm-Runs bytes reg_w sub 5 4 (omega arith)
      ⊳ alu16_imm-Runs bytes reg_w cmp 5 4 (omega arith)
      ⊳ alu16_imm-Runs bytes reg_d sbc 5 4 (omega arith)
      ⊳ alu16_imm-Runs bytes reg_d cmp 5 4 (omega arith)
      ⊳ alu16_imm-Runs bytes reg_d and 5 4 (omega arith)
      ⊳ alu16_imm-Runs bytes reg_d bit 5 4 (omega arith)
      ⊳ ld16_imm-Runs bytes reg_w 4 (omega arith) (omega arith)
      ⊳ alu16_imm-Runs bytes reg_d eor 5 4 (omega arith)
      ⊳ alu16_imm-Runs bytes reg_d adc 5 4 (omega arith)
      ⊳ alu16_imm-Runs bytes reg_d or 5 4 (omega arith)
      ⊳ alu16_imm-Runs bytes reg_w add 5 4 (omega arith)
      ⊳ cmp16_imm-Runs bytes reg_y 5 4 (omega arith)
      ⊳ ld16_imm-Runs bytes reg_y 4 (omega arith) (omega arith)
      ⊳ nil

  pub page10_9x-Executes : AllCases (Executes {S = S}) page10_9x
  unfolding page10_9x
  page10_9x-Executes =
      alu16_dir-Runs bytes reg_w sub 7 5 (omega arith)
      ⊳ alu16_dir-Runs bytes reg_w cmp 7 5 (omega arith)
      ⊳ alu16_dir-Runs bytes reg_d sbc 7 5 (omega arith)
      ⊳ alu16_dir-Runs bytes reg_d cmp 7 5 (omega arith)
      ⊳ alu16_dir-Runs bytes reg_d and 7 5 (omega arith)
      ⊳ alu16_dir-Runs bytes reg_d bit 7 5 (omega arith)
      ⊳ ld16_dir-Runs bytes reg_w 6 5 (omega arith)
      ⊳ st16_dir-Runs bytes reg_w 6 5 (omega arith)
      ⊳ alu16_dir-Runs bytes reg_d eor 7 5 (omega arith)
      ⊳ alu16_dir-Runs bytes reg_d adc 7 5 (omega arith)
      ⊳ alu16_dir-Runs bytes reg_d or 7 5 (omega arith)
      ⊳ alu16_dir-Runs bytes reg_w add 7 5 (omega arith)
      ⊳ cmp16_dir-Runs bytes reg_y 7 5 (omega arith)
      ⊳ ld16_dir-Runs bytes reg_y 6 5 (omega arith)
      ⊳ st16_dir-Runs bytes reg_y 6 5 (omega arith)
      ⊳ nil

  pub page10_ax-Executes : AllCases (Executes {S = S}) page10_ax
  unfolding page10_ax
  page10_ax-Executes =
      alu16_idx-Runs bytes reg_w sub 7 (omega arith)
      ⊳ alu16_idx-Runs bytes reg_w cmp 7 (omega arith)
      ⊳ alu16_idx-Runs bytes reg_d sbc 7 (omega arith)
      ⊳ alu16_idx-Runs bytes reg_d cmp 7 (omega arith)
      ⊳ alu16_idx-Runs bytes reg_d and 7 (omega arith)
      ⊳ alu16_idx-Runs bytes reg_d bit 7 (omega arith)
      ⊳ ld16_idx-Runs bytes reg_w 6 (omega arith)
      ⊳ st16_idx-Runs bytes reg_w 6 (omega arith)
      ⊳ alu16_idx-Runs bytes reg_d eor 7 (omega arith)
      ⊳ alu16_idx-Runs bytes reg_d adc 7 (omega arith)
      ⊳ alu16_idx-Runs bytes reg_d or 7 (omega arith)
      ⊳ alu16_idx-Runs bytes reg_w add 7 (omega arith)
      ⊳ cmp16_idx-Runs bytes reg_y 7 (omega arith)
      ⊳ ld16_idx-Runs bytes reg_y 6 (omega arith)
      ⊳ st16_idx-Runs bytes reg_y 6 (omega arith)
      ⊳ nil

  pub page10_bx-Executes : AllCases (Executes {S = S}) page10_bx
  unfolding page10_bx
  page10_bx-Executes =
      alu16_ext-Runs bytes reg_w sub 8 6 (omega arith)
      ⊳ alu16_ext-Runs bytes reg_w cmp 8 6 (omega arith)
      ⊳ alu16_ext-Runs bytes reg_d sbc 8 6 (omega arith)
      ⊳ alu16_ext-Runs bytes reg_d cmp 8 6 (omega arith)
      ⊳ alu16_ext-Runs bytes reg_d and 8 6 (omega arith)
      ⊳ alu16_ext-Runs bytes reg_d bit 8 6 (omega arith)
      ⊳ ld16_ext-Runs bytes reg_w 7 6 (omega arith)
      ⊳ st16_ext-Runs bytes reg_w 7 6 (omega arith)
      ⊳ alu16_ext-Runs bytes reg_d eor 8 6 (omega arith)
      ⊳ alu16_ext-Runs bytes reg_d adc 8 6 (omega arith)
      ⊳ alu16_ext-Runs bytes reg_d or 8 6 (omega arith)
      ⊳ alu16_ext-Runs bytes reg_w add 8 6 (omega arith)
      ⊳ cmp16_ext-Runs bytes reg_y 8 6 (omega arith)
      ⊳ ld16_ext-Runs bytes reg_y 7 6 (omega arith)
      ⊳ st16_ext-Runs bytes reg_y 7 6 (omega arith)
      ⊳ nil

  pub page10_cx-Executes : AllCases (Executes {S = S}) page10_cx
  unfolding page10_cx
  page10_cx-Executes = ld16_imm-Runs bytes reg_s 4 (omega arith) (omega arith) ⊳ nil

  pub page10_dx-Executes : AllCases (Executes {S = S}) page10_dx
  unfolding page10_dx
  page10_dx-Executes =
      ldq_at-Runs bytes (direct bytes) 8 7 (omega arith)
      ⊳ stq_at-Runs bytes (direct bytes) 8 7 (omega arith)
      ⊳ ld16_dir-Runs bytes reg_s 6 5 (omega arith)
      ⊳ st16_dir-Runs bytes reg_s 6 5 (omega arith)
      ⊳ nil

  pub page10_ex-Executes : AllCases (Executes {S = S}) page10_ex
  unfolding page10_ex
  page10_ex-Executes =
      ldq_at-Runs bytes (indexed bytes) 8 8 (omega arith)
      ⊳ stq_at-Runs bytes (indexed bytes) 8 8 (omega arith)
      ⊳ ld16_idx-Runs bytes reg_s 6 (omega arith)
      ⊳ st16_idx-Runs bytes reg_s 6 (omega arith)
      ⊳ nil

  pub page10_fx-Executes : AllCases (Executes {S = S}) page10_fx
  unfolding page10_fx
  page10_fx-Executes =
      ldq_at-Runs bytes (extended bytes) 9 8 (omega arith)
      ⊳ stq_at-Runs bytes (extended bytes) 9 8 (omega arith)
      ⊳ ld16_ext-Runs bytes reg_s 7 6 (omega arith)
      ⊳ st16_ext-Runs bytes reg_s 7 6 (omega arith)
      ⊳ nil

  execute_page10_table-Executes : AllCases (Executes {S = S}) execute_page10_table
  unfolding execute_page10_table page10_2x page10_3x page10_4x page10_5x page10_8x page10_9x
      page10_ax page10_bx page10_cx page10_dx page10_ex page10_fx
  execute_page10_table-Executes = AllCases-append page10_2x-Executes (
      AllCases-append page10_3x-Executes (
        AllCases-append page10_4x-Executes (
          AllCases-append page10_5x-Executes (
            AllCases-append page10_8x-Executes (
              AllCases-append page10_9x-Executes (
                AllCases-append page10_ax-Executes (
                  AllCases-append page10_bx-Executes (
                    AllCases-append page10_cx-Executes (
                      AllCases-append page10_dx-Executes
                        (AllCases-append page10_ex-Executes page10_fx-Executes))))))))))

  pub execute_page10-Runs : (opcode : ℕ) → Executes {S = S} (execute_page10 opcode)
  unfolding execute_page10
  execute_page10-Runs opcode = AllCases-switch opcode execute_page10_table-Executes (default bytes)
