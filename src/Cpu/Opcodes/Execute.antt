-- ===== src/Cpu/Opcodes/Execute.antt =====
-- `execute`: the `switch` over the unprefixed opcodes.
use pugputer6309_emulator.Base.{ℕ, List, ◌++◌, switch}
use pugputer6309_emulator.Cpu.Types.{Callbacks}
use pugputer6309_emulator.Cpu.Monad.{M}
use pugputer6309_emulator.Cpu.Interrupts.{illegal_opcode_trap}
use pugputer6309_emulator.Cpu.Opcodes.Low.{
  page0_0x, page0_1x, page0_2x, page0_3x, page0_4x, page0_5x, page0_6x, page0_7x,
}
use pugputer6309_emulator.Cpu.Opcodes.High.{
  page0_8x, page0_9x, page0_ax, page0_bx, page0_cx, page0_dx, page0_ex, page0_fx,
}

module _ {S : Type 0} ⦃io : Callbacks S⦄ where
  -- The `switch`; its `default` is the trap.
  unfoldable pub execute_table : List (ℕ × M S (Unit {0}))
  execute_table =
      page0_0x ++ page0_1x ++ page0_2x ++ page0_3x ++ page0_4x ++ page0_5x ++ page0_6x ++ page0_7x
      ++ page0_8x ++ page0_9x ++ page0_ax ++ page0_bx ++ page0_cx ++ page0_dx ++ page0_ex
      ++ page0_fx

  unfoldable pub execute : ℕ → M S (Unit {0})
  unfolding switch
  execute opcode = switch opcode execute_table illegal_opcode_trap
