-- ===== src/Cpu/Valid/Opcodes/Execute.antt =====
-- Every opcode, defined or not, is executed in a bounded number of cycles.
use pugputer6309_emulator.Base.{ℕ, AllCases, AllCases-append, AllCases-switch}
use pugputer6309_emulator.Cpu.Types.{Callbacks, ReadsBytes}
use pugputer6309_emulator.Cpu.Opcodes.Execute.{execute, execute_table}
use pugputer6309_emulator.Cpu.Opcodes.Low.{
  page0_0x, page0_1x, page0_2x, page0_3x, page0_4x, page0_5x, page0_6x, page0_7x,
}
use pugputer6309_emulator.Cpu.Opcodes.High.{
  page0_8x, page0_9x, page0_ax, page0_bx, page0_cx, page0_dx, page0_ex, page0_fx,
}
use pugputer6309_emulator.Cpu.Valid.Operands.{Executes}
use pugputer6309_emulator.Cpu.Valid.Opcodes.Cases.{default}
use pugputer6309_emulator.Cpu.Valid.Opcodes.Low.{
  page0_0x-Executes, page0_1x-Executes, page0_2x-Executes, page0_3x-Executes, page0_4x-Executes,
  page0_5x-Executes, page0_6x-Executes, page0_7x-Executes,
}
use pugputer6309_emulator.Cpu.Valid.Opcodes.High.{
  page0_8x-Executes, page0_9x-Executes, page0_ax-Executes, page0_bx-Executes, page0_cx-Executes,
  page0_dx-Executes, page0_ex-Executes, page0_fx-Executes,
}

module _ {S : Type 0} ⦃io : Callbacks S⦄ (bytes : ReadsBytes io) where
  execute_table-Executes : AllCases (Executes {S = S}) execute_table
  unfolding execute_table page0_0x page0_1x page0_2x page0_3x page0_4x page0_5x page0_6x page0_7x
      page0_8x page0_9x page0_ax page0_bx page0_cx page0_dx page0_ex page0_fx
  execute_table-Executes = AllCases-append (page0_0x-Executes bytes) (
      AllCases-append (page0_1x-Executes bytes) (
        AllCases-append (page0_2x-Executes bytes) (
          AllCases-append (page0_3x-Executes bytes) (
            AllCases-append (page0_4x-Executes bytes) (
              AllCases-append (page0_5x-Executes bytes) (
                AllCases-append (page0_6x-Executes bytes) (
                  AllCases-append (page0_7x-Executes bytes) (
                    AllCases-append (page0_8x-Executes bytes) (
                      AllCases-append (page0_9x-Executes bytes) (
                        AllCases-append (page0_ax-Executes bytes) (
                          AllCases-append (page0_bx-Executes bytes) (
                            AllCases-append (page0_cx-Executes bytes) (
                              AllCases-append (page0_dx-Executes bytes) (
                                AllCases-append (page0_ex-Executes bytes)
                                  (page0_fx-Executes bytes)))))))))))))))

  pub execute-Runs : (opcode : ℕ) → Executes {S = S} (execute opcode)
  unfolding execute
  execute-Runs opcode = AllCases-switch opcode execute_table-Executes (default bytes)
