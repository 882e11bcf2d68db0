-- ===== src/Cpu/Valid/Opcodes/Low.antt =====
-- The handlers of the cases $00 to $7F.
use pugputer6309_emulator.Base.{nil, AllCases, arith, true, false}
use pugputer6309_emulator.Cpu.Types.{
  Callbacks, ReadsBytes, asl, asr, clr, complement, dec, inc, lsr, neg, rol, ror, tst,
}
use pugputer6309_emulator.Cpu.Memory.{stack_s, stack_u}
use pugputer6309_emulator.Cpu.Registers.{acc_a, acc_b, reg_s, reg_u, reg_x, reg_y}
use pugputer6309_emulator.Cpu.Handlers.{bits_and, bits_eor, bits_or}
use pugputer6309_emulator.Cpu.Opcodes.Low.{
  page0_0x, page0_1x, page0_2x, page0_3x, page0_4x, page0_5x, page0_6x, page0_7x,
}
use pugputer6309_emulator.Cpu.Valid.Opcodes.Cases.{fetched, ◌⊳◌}
use pugputer6309_emulator.Cpu.Valid.Memory.{fetch8-Runs}
use pugputer6309_emulator.Cpu.Valid.Modes.{
  logicmem_dir-Runs, logicmem_ext-Runs, logicmem_idx-Runs, rmw8_dir-Runs, rmw8_ext-Runs,
  rmw8_idx-Runs,
}
use pugputer6309_emulator.Cpu.Valid.Operands.{
  Executes, direct, extended, indexed, rmw8_inh-Runs, tst_at-Runs,
}
use pugputer6309_emulator.Cpu.Valid.Special.{
  abx-Runs, andcc-Runs, daa-Runs, exg-Runs, lea-Runs, mul-Runs, nop-Runs, orcc-Runs, sex-Runs,
  sexw-Runs, short_branch-Runs, sync-Runs, tfr-Runs,
}
use pugputer6309_emulator.Cpu.Valid.Stacking.{
  cwai-Runs, jmp-Runs, lbra-Runs, lbsr-Runs, psh-Runs, pul-Runs, rti-Runs, rts-Runs, swi-Runs,
}
use pugputer6309_emulator.Cpu.Valid.Opcodes.Page10.{execute_page10-Runs}
use pugputer6309_emulator.Cpu.Valid.Opcodes.Page11.{execute_page11-Runs}

module _ {S : Type 0} ⦃io : Callbacks S⦄ (bytes : ReadsBytes io) where
  pub page0_0x-Executes : AllCases (Executes {S = S}) page0_0x
  unfolding page0_0x
  page0_0x-Executes =
      rmw8_dir-Runs bytes neg
      ⊳ logicmem_dir-Runs bytes bits_or true
      ⊳ logicmem_dir-Runs bytes bits_and true
      ⊳ rmw8_dir-Runs bytes complement
      ⊳ rmw8_dir-Runs bytes lsr
      ⊳ logicmem_dir-Runs bytes bits_eor true
      ⊳ rmw8_dir-Runs bytes ror
      ⊳ rmw8_dir-Runs bytes asr
      ⊳ rmw8_dir-Runs bytes asl
      ⊳ rmw8_dir-Runs bytes rol
      ⊳ rmw8_dir-Runs bytes dec
      ⊳ logicmem_dir-Runs bytes bits_and false
      ⊳ rmw8_dir-Runs bytes inc
      ⊳ tst_at-Runs bytes (direct bytes) 6 4 (omega arith)
      ⊳ jmp-Runs bytes 3 2 (direct bytes) (omega arith)
      ⊳ rmw8_dir-Runs bytes clr
      ⊳ nil

  pub page0_1x-Executes : AllCases (Executes {S = S}) page0_1x
  unfolding page0_1x
  page0_1x-Executes =
      fetched (fetch8-Runs bytes) (execute_page10-Runs bytes)
      ⊳ fetched (fetch8-Runs bytes) (execute_page11-Runs bytes)
      ⊳ nop-Runs
      ⊳ sync-Runs
      ⊳ sexw-Runs
      ⊳ lbra-Runs bytes
      ⊳ lbsr-Runs bytes
      ⊳ daa-Runs
      ⊳ orcc-Runs bytes
      ⊳ andcc-Runs bytes
      ⊳ sex-Runs
      ⊳ exg-Runs bytes
      ⊳ tfr-Runs bytes
      ⊳ nil

  pub page0_2x-Executes : AllCases (Executes {S = S}) page0_2x
  unfolding page0_2x
  page0_2x-Executes =
      short_branch-Runs bytes 0x20
      ⊳ short_branch-Runs bytes 0x21
      ⊳ short_branch-Runs bytes 0x22
      ⊳ short_branch-Runs bytes 0x23
      ⊳ short_branch-Runs bytes 0x24
      ⊳ short_branch-Runs bytes 0x25
      ⊳ short_branch-Runs bytes 0x26
      ⊳ short_branch-Runs bytes 0x27
      ⊳ short_branch-Runs bytes 0x28
      ⊳ short_branch-Runs bytes 0x29
      ⊳ short_branch-Runs bytes 0x2a
      ⊳ short_branch-Runs bytes 0x2b
      ⊳ short_branch-Runs bytes 0x2c
      ⊳ short_branch-Runs bytes 0x2d
      ⊳ short_branch-Runs bytes 0x2e
      ⊳ short_branch-Runs bytes 0x2f
      ⊳ nil

  pub page0_3x-Executes : AllCases (Executes {S = S}) page0_3x
  unfolding page0_3x
  page0_3x-Executes =
      lea-Runs bytes reg_x true
      ⊳ lea-Runs bytes reg_y true
      ⊳ lea-Runs bytes reg_s false
      ⊳ lea-Runs bytes reg_u false
      ⊳ psh-Runs bytes stack_s
      ⊳ pul-Runs bytes stack_s
      ⊳ psh-Runs bytes stack_u
      ⊳ pul-Runs bytes stack_u
      ⊳ rts-Runs bytes
      ⊳ abx-Runs
      ⊳ rti-Runs bytes
      ⊳ cwai-Runs bytes
      ⊳ mul-Runs
      ⊳ swi-Runs bytes
      ⊳ nil

  pub page0_4x-Executes : AllCases (Executes {S = S}) page0_4x
  unfolding page0_4x
  page0_4x-Executes =
      rmw8_inh-Runs neg acc_a 2 1 (omega arith)
      ⊳ rmw8_inh-Runs complement acc_a 2 1 (omega arith)
      ⊳ rmw8_inh-Runs lsr acc_a 2 1 (omega arith)
      ⊳ rmw8_inh-Runs ror acc_a 2 1 (omega arith)
      ⊳ rmw8_inh-Runs asr acc_a 2 1 (omega arith)
      ⊳ rmw8_inh-Runs asl acc_a 2 1 (omega arith)
      ⊳ rmw8_inh-Runs rol acc_a 2 1 (omega arith)
      ⊳ rmw8_inh-Runs dec acc_a 2 1 (omega arith)
      ⊳ rmw8_inh-Runs inc acc_a 2 1 (omega arith)
      ⊳ rmw8_inh-Runs tst acc_a 2 1 (omega arith)
      ⊳ rmw8_inh-Runs clr acc_a 2 1 (omega arith)
      ⊳ nil

  pub page0_5x-Executes : AllCases (Executes {S = S}) page0_5x
  unfolding page0_5x
  page0_5x-Executes =
      rmw8_inh-Runs neg acc_b 2 1 (omega arith)
      ⊳ rmw8_inh-Runs complement acc_b 2 1 (omega arith)
      ⊳ rmw8_inh-Runs lsr acc_b 2 1 (omega arith)
      ⊳ rmw8_inh-Runs ror acc_b 2 1 (omega arith)
      ⊳ rmw8_inh-Runs asr acc_b 2 1 (omega arith)
      ⊳ rmw8_inh-Runs asl acc_b 2 1 (omega arith)
      ⊳ rmw8_inh-Runs rol acc_b 2 1 (omega arith)
      ⊳ rmw8_inh-Runs dec acc_b 2 1 (omega arith)
      ⊳ rmw8_inh-Runs inc acc_b 2 1 (omega arith)
      ⊳ rmw8_inh-Runs tst acc_b 2 1 (omega arith)
      ⊳ rmw8_inh-Runs clr acc_b 2 1 (omega arith)
      ⊳ nil

  pub page0_6x-Executes : AllCases (Executes {S = S}) page0_6x
  unfolding page0_6x
  page0_6x-Executes =
      rmw8_idx-Runs bytes neg
      ⊳ logicmem_idx-Runs bytes bits_or true
      ⊳ logicmem_idx-Runs bytes bits_and true
      ⊳ rmw8_idx-Runs bytes complement
      ⊳ rmw8_idx-Runs bytes lsr
      ⊳ logicmem_idx-Runs bytes bits_eor true
      ⊳ rmw8_idx-Runs bytes ror
      ⊳ rmw8_idx-Runs bytes asr
      ⊳ rmw8_idx-Runs bytes asl
      ⊳ rmw8_idx-Runs bytes rol
      ⊳ rmw8_idx-Runs bytes dec
      ⊳ logicmem_idx-Runs bytes bits_and false
      ⊳ rmw8_idx-Runs bytes inc
      ⊳ tst_at-Runs bytes (indexed bytes) 5 5 (omega arith)
      ⊳ jmp-Runs bytes 3 3 (indexed bytes) (omega arith)
      ⊳ rmw8_idx-Runs bytes clr
      ⊳ nil

  pub page0_7x-Executes : AllCases (Executes {S = S}) page0_7x
  unfolding page0_7x
  page0_7x-Executes =
      rmw8_ext-Runs bytes neg
      ⊳ logicmem_ext-Runs bytes bits_or true
      ⊳ logicmem_ext-Runs bytes bits_and true
      ⊳ rmw8_ext-Runs bytes complement
      ⊳ rmw8_ext-Runs bytes lsr
      ⊳ logicmem_ext-Runs bytes bits_eor true
      ⊳ rmw8_ext-Runs bytes ror
      ⊳ rmw8_ext-Runs bytes asr
      ⊳ rmw8_ext-Runs bytes asl
      ⊳ rmw8_ext-Runs bytes rol
      ⊳ rmw8_ext-Runs bytes dec
      ⊳ logicmem_ext-Runs bytes bits_and false
      ⊳ rmw8_ext-Runs bytes inc
      ⊳ tst_at-Runs bytes (extended bytes) 7 5 (omega arith)
      ⊳ jmp-Runs bytes 4 3 (extended bytes) (omega arith)
      ⊳ rmw8_ext-Runs bytes clr
      ⊳ nil
