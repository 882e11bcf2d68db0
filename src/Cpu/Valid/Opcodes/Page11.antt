-- ===== src/Cpu/Valid/Opcodes/Page11.antt =====
-- The handlers behind the prefix $11.
use pugputer6309_emulator.Base.{nil, AllCases, AllCases-append, AllCases-switch, ℕ, arith}
use pugputer6309_emulator.Cpu.Types.{
  Callbacks, ReadsBytes, add, clr, cmp, complement, dec, inc, ld, sub, tst,
}
use pugputer6309_emulator.Cpu.Registers.{acc_e, acc_f, reg_s, reg_u}
use pugputer6309_emulator.Cpu.Opcodes.Page11.{
  page11_3x, page11_4x, page11_5x, page11_8x, page11_9x, page11_ax, page11_bx, page11_cx, page11_dx,
  page11_ex, page11_fx, execute_page11, execute_page11_table,
}
use pugputer6309_emulator.Cpu.Valid.Opcodes.Cases.{default, ◌⊳◌}
use pugputer6309_emulator.Cpu.Valid.Modes.{
  alu8_dir-Runs, alu8_ext-Runs, alu8_idx-Runs, cmp16_dir-Runs, cmp16_ext-Runs, cmp16_idx-Runs,
  st8_dir-Runs, st8_ext-Runs, st8_idx-Runs,
}
use pugputer6309_emulator.Cpu.Valid.Operands.{
  Executes, alu8_imm-Runs, cmp16_imm-Runs, direct, extended, indexed, rmw8_inh-Runs,
}
use pugputer6309_emulator.Cpu.Valid.Special.{
  bitmd-Runs, divd_at-Runs, divd_imm-Runs, divq_at-Runs, divq_imm-Runs, ldmd-Runs, muld_at-Runs,
  muld_imm-Runs,
}
use pugputer6309_emulator.Cpu.Valid.Stacking.{swi_at-Runs}
use pugputer6309_emulator.Cpu.Valid.Transfer.{do_bitbit-Runs, do_tfm-Runs}

module _ {S : Type 0} ⦃io : Callbacks S⦄ (bytes : ReadsBytes io) where
  pub page11_3x-Executes : AllCases (Executes {S = S}) page11_3x
  unfolding page11_3x
  page11_3x-Executes =
      do_bitbit-Runs bytes 0x1130
      ⊳ do_bitbit-Runs bytes 0x1131
      ⊳ do_bitbit-Runs bytes 0x1132
      ⊳ do_bitbit-Runs bytes 0x1133
      ⊳ do_bitbit-Runs bytes 0x1134
      ⊳ do_bitbit-Runs bytes 0x1135
      ⊳ do_bitbit-Runs bytes 0x1136
      ⊳ do_bitbit-Runs bytes 0x1137
      ⊳ do_tfm-Runs bytes 0x1138
      ⊳ do_tfm-Runs bytes 0x1139
      ⊳ do_tfm-Runs bytes 0x113a
      ⊳ do_tfm-Runs bytes 0x113b
      ⊳ bitmd-Runs bytes
      ⊳ ldmd-Runs bytes
      ⊳ swi_at-Runs bytes 0xfff2
      ⊳ nil

  pub page11_4x-Executes : AllCases (Executes {S = S}) page11_4x
  unfolding page11_4x
  page11_4x-Executes =
      rmw8_inh-Runs complement acc_e 3 2 (omega arith)
      ⊳ rmw8_inh-Runs dec acc_e 3 2 (omega arith)
      ⊳ rmw8_inh-Runs inc acc_e 3 2 (omega arith)
      ⊳ rmw8_inh-Runs tst acc_e 3 2 (omega arith)
      ⊳ rmw8_inh-Runs clr acc_e 3 2 (omega arith)
      ⊳ nil

  pub page11_5x-Executes : AllCases (Executes {S = S}) page11_5x
  unfolding page11_5x
  page11_5x-Executes =
      rmw8_inh-Runs complement acc_f 3 2 (omega arith)
      ⊳ rmw8_inh-Runs dec acc_f 3 2 (omega arith)
      ⊳ rmw8_inh-Runs inc acc_f 3 2 (omega arith)
      ⊳ rmw8_inh-Runs tst acc_f 3 2 (omega arith)
      ⊳ rmw8_inh-Runs clr acc_f 3 2 (omega arith)
      ⊳ nil

  pub page11_8x-Executes : AllCases (Executes {S = S}) page11_8x
  unfolding page11_8x
  page11_8x-Executes =
      alu8_imm-Runs bytes acc_e sub 3 (omega arith) (omega arith)
      ⊳ alu8_imm-Runs bytes acc_e cmp 3 (omega arith) (omega arith)
      ⊳ cmp16_imm-Runs bytes reg_u 5 4 (omega arith)
      ⊳ alu8_imm-Runs bytes acc_e ld 3 (omega arith) (omega arith)
      ⊳ alu8_imm-Runs bytes acc_e add 3 (omega arith) (omega arith)
      ⊳ cmp16_imm-Runs bytes reg_s 5 4 (omega arith)
      ⊳ divd_imm-Runs bytes
      ⊳ divq_imm-Runs bytes
      ⊳ muld_imm-Runs bytes
      ⊳ nil

  pub page11_9x-Executes : AllCases (Executes {S = S}) page11_9x
  unfolding page11_9x
  page11_9x-Executes =
      alu8_dir-Runs bytes acc_e sub 5 4 (omega arith)
      ⊳ alu8_dir-Runs bytes acc_e cmp 5 4 (omega arith)
      ⊳ cmp16_dir-Runs bytes reg_u 7 5 (omega arith)
      ⊳ alu8_dir-Runs bytes acc_e ld 5 4 (omega arith)
      ⊳ st8_dir-Runs bytes acc_e 5 4 (omega arith)
      ⊳ alu8_dir-Runs bytes acc_e add 5 4 (omega arith)
      ⊳ cmp16_dir-Runs bytes reg_s 7 5 (omega arith)
      ⊳ divd_at-Runs bytes (direct bytes) 27 26 (omega arith)
      ⊳ divq_at-Runs bytes (direct bytes) 36 35 (omega arith)
      ⊳ muld_at-Runs bytes (direct bytes) 30 29 (omega arith)
      ⊳ nil

  pub page11_ax-Executes : AllCases (Executes {S = S}) page11_ax
  unfolding page11_ax
  page11_ax-Executes =
      alu8_idx-Runs bytes acc_e sub 5 (omega arith)
      ⊳ alu8_idx-Runs bytes acc_e cmp 5 (omega arith)
      ⊳ cmp16_idx-Runs bytes reg_u 7 (omega arith)
      ⊳ alu8_idx-Runs bytes acc_e ld 5 (omega arith)
      ⊳ st8_idx-Runs bytes acc_e 5 (omega arith)
      ⊳ alu8_idx-Runs bytes acc_e add 5 (omega arith)
      ⊳ cmp16_idx-Runs bytes reg_s 7 (omega arith)
      ⊳ divd_at-Runs bytes (indexed bytes) 27 27 (omega arith)
      ⊳ divq_at-Runs bytes (indexed bytes) 36 36 (omega arith)
      ⊳ muld_at-Runs bytes (indexed bytes) 30 30 (omega arith)
      ⊳ nil

  pub page11_bx-Executes : AllCases (Executes {S = S}) page11_bx
  unfolding page11_bx
  page11_bx-Executes =
      alu8_ext-Runs bytes acc_e sub 6 5 (omega arith)
      ⊳ alu8_ext-Runs bytes acc_e cmp 6 5 (omega arith)
      ⊳ cmp16_ext-Runs bytes reg_u 8 6 (omega arith)
      ⊳ alu8_ext-Runs bytes acc_e ld 6 5 (omega arith)
      ⊳ st8_ext-Runs bytes acc_e 6 5 (omega arith)
      ⊳ alu8_ext-Runs bytes acc_e add 6 5 (omega arith)
      ⊳ cmp16_ext-Runs bytes reg_s 8 6 (omega arith)
      ⊳ divd_at-Runs bytes (extended bytes) 28 27 (omega arith)
      ⊳ divq_at-Runs bytes (extended bytes) 37 36 (omega arith)
      ⊳ muld_at-Runs bytes (extended bytes) 31 30 (omega arith)
      ⊳ nil

  pub page11_cx-Executes : AllCases (Executes {S = S}) page11_cx
  unfolding page11_cx
  page11_cx-Executes =
      alu8_imm-Runs bytes acc_f sub 3 (omega arith) (omega arith)
      ⊳ alu8_imm-Runs bytes acc_f cmp 3 (omega arith) (omega arith)
      ⊳ alu8_imm-Runs bytes acc_f ld 3 (omega arith) (omega arith)
      ⊳ alu8_imm-Runs bytes acc_f add 3 (omega arith) (omega arith)
      ⊳ nil

  pub page11_dx-Executes : AllCases (Executes {S = S}) page11_dx
  unfolding page11_dx
  page11_dx-Executes =
      alu8_dir-Runs bytes acc_f sub 5 4 (omega arith)
      ⊳ alu8_dir-Runs bytes acc_f cmp 5 4 (omega arith)
      ⊳ alu8_dir-Runs bytes acc_f ld 5 4 (omega arith)
      ⊳ st8_dir-Runs bytes acc_f 5 4 (omega arith)
      ⊳ alu8_dir-Runs bytes acc_f add 5 4 (omega arith)
      ⊳ nil

  pub page11_ex-Executes : AllCases (Executes {S = S}) page11_ex
  unfolding page11_ex
  page11_ex-Executes =
      alu8_idx-Runs bytes acc_f sub 5 (omega arith)
      ⊳ alu8_idx-Runs bytes acc_f cmp 5 (omega arith)
      ⊳ alu8_idx-Runs bytes acc_f ld 5 (omega arith)
      ⊳ st8_idx-Runs bytes acc_f 5 (omega arith)
      ⊳ alu8_idx-Runs bytes acc_f add 5 (omega arith)
      ⊳ nil

  pub page11_fx-Executes : AllCases (Executes {S = S}) page11_fx
  unfolding page11_fx
  page11_fx-Executes =
      alu8_ext-Runs bytes acc_f sub 6 5 (omega arith)
      ⊳ alu8_ext-Runs bytes acc_f cmp 6 5 (omega arith)
      ⊳ alu8_ext-Runs bytes acc_f ld 6 5 (omega arith)
      ⊳ st8_ext-Runs bytes acc_f 6 5 (omega arith)
      ⊳ alu8_ext-Runs bytes acc_f add 6 5 (omega arith)
      ⊳ nil

  execute_page11_table-Executes : AllCases (Executes {S = S}) execute_page11_table
  unfolding execute_page11_table page11_3x page11_4x page11_5x page11_8x page11_9x page11_ax
      page11_bx page11_cx page11_dx page11_ex page11_fx
  execute_page11_table-Executes = AllCases-append page11_3x-Executes (
      AllCases-append page11_4x-Executes (
        AllCases-append page11_5x-Executes (
          AllCases-append page11_8x-Executes (
            AllCases-append page11_9x-Executes (
              AllCases-append page11_ax-Executes (
                AllCases-append page11_bx-Executes (
                  AllCases-append page11_cx-Executes (
                    AllCases-append page11_dx-Executes
                      (AllCases-append page11_ex-Executes page11_fx-Executes)))))))))

  pub execute_page11-Runs : (opcode : ℕ) → Executes {S = S} (execute_page11 opcode)
  unfolding execute_page11
  execute_page11-Runs opcode = AllCases-switch opcode execute_page11_table-Executes (default bytes)
