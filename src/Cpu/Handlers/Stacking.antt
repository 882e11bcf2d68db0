-- ===== src/Cpu/Handlers/Stacking.antt =====
-- The stack instructions of hd6309_opcodes.cpp: PSHS, PULS, PSHU, PULU, RTS, RTI, the calls, and
-- the software interrupts.
use pugputer6309_emulator.Base.{ℕ, ◌+◌, ℤ, true, bit_and, bit_test, if◌then◌else◌, add_u16}
use pugputer6309_emulator.Cpu.Types.{Callbacks, Regs, get_w, set_w, cc_e}
use pugputer6309_emulator.Cpu.Monad.{M, ◌>>=◌, ◌>>◌, modify, modify_regs, when, add_cycles}
use pugputer6309_emulator.Cpu.Flags.{native, has_flag}
use pugputer6309_emulator.Cpu.Memory.{
  StackPointer, stack_s, stack_u, get_sp, set_sp, fetch8, read16, pull8, pull16, rel8, rel16,
}
use pugputer6309_emulator.Cpu.Indexed.{rlist_extra_cycles}
use pugputer6309_emulator.Cpu.Interrupts.{
  add_cycles_by_mode, set_pc, or_cc, push8_reg, push16_reg, push_full_set, mask_both,
}

-- The stack pointer that is pushed and pulled: U on the S stack, S on the U stack.
abbrev pub other : StackPointer → StackPointer
other stack_s = stack_u
other stack_u = stack_s

module _ {S : Type 0} ⦃io : Callbacks S⦄ where
  -- `r = pull8(sp)` and `r = pull16(sp)`
  unfoldable pub pull8_into : StackPointer → (ℕ → Regs → Regs) → M S (Unit {0})
  pull8_into sp assign = do v ← pull8 sp; modify_regs (assign v)

  unfoldable pub pull16_into : StackPointer → (ℕ → Regs → Regs) → M S (Unit {0})
  pull16_into sp assign = do v ← pull16 sp; modify_regs (assign v)

  unfoldable pub push_list : StackPointer → ℕ → M S (Unit {0})
  push_list sp pb = do
    when (bit_test pb 0x80) (push16_reg sp (λ c. c.pc))
    when (bit_test pb 0x40) (push16_reg sp (λ c. get_sp (other sp) c.regs))
    when (bit_test pb 0x20) (push16_reg sp (λ c. c.y))
    when (bit_test pb 0x10) (push16_reg sp (λ c. c.x))
    when (bit_test pb 0x08) (push8_reg sp (λ c. c.dp))
    when (bit_test pb 0x04) (push8_reg sp (λ c. c.b))
    when (bit_test pb 0x02) (push8_reg sp (λ c. c.a))
    when (bit_test pb 0x01) (push8_reg sp (λ c. c.cc))

  unfoldable pub pull_list : StackPointer → ℕ → M S (Unit {0})
  pull_list sp pb = do
    when (bit_test pb 0x01) (pull8_into sp (λ n r. record r { cc = n }))
    when (bit_test pb 0x02) (pull8_into sp (λ n r. record r { a = n }))
    when (bit_test pb 0x04) (pull8_into sp (λ n r. record r { b = n }))
    when (bit_test pb 0x08) (pull8_into sp (λ n r. record r { dp = n }))
    when (bit_test pb 0x10) (pull16_into sp (λ n r. record r { x = n }))
    when (bit_test pb 0x20) (pull16_into sp (λ n r. record r { y = n }))
    when (bit_test pb 0x40) (pull16_into sp (λ n r. set_sp (other sp) n r))
    when (bit_test pb 0x80) (pull16_into sp (λ n r. record r { pc = n }))

  -- `cycles_ += (native() ? 4 : 5) + rlist_extra_cycles(pb)`
  unfoldable pub add_list_cycles : ℕ → M S (Unit {0})
  add_list_cycles pb = do n ← native; add_cycles ((if n then 4 else 5) + rlist_extra_cycles pb)

  -- PSHS and PSHU; PULS and PULU.
  unfoldable pub psh : StackPointer → M S (Unit {0})
  psh sp = do pb ← fetch8; push_list sp pb; add_list_cycles pb

  unfoldable pub pul : StackPointer → M S (Unit {0})
  pul sp = do pb ← fetch8; pull_list sp pb; add_list_cycles pb

  -- PSHSW and PSHUW; PULSW and PULUW.
  unfoldable pub psh_w : StackPointer → M S (Unit {0})
  psh_w sp = do push16_reg sp (λ c. get_w c.regs); add_cycles 6

  unfoldable pub pul_w : StackPointer → M S (Unit {0})
  pul_w sp = do pull16_into sp set_w; add_cycles 6

  -- LBRA, LBSR, BSR and JSR.
  unfoldable pub jump_by : ℤ → M S (Unit {0})
  jump_by off = modify_regs (λ r. record r { pc = add_u16 r.pc off })

  unfoldable pub lbra : M S (Unit {0})
  lbra = do off ← rel16; jump_by off; add_cycles_by_mode 5 4

  unfoldable pub lbsr : M S (Unit {0})
  lbsr = do off ← rel16; push16_reg stack_s (λ c. c.pc); jump_by off; add_cycles_by_mode 9 7

  unfoldable pub bsr : M S (Unit {0})
  bsr = do off ← rel8; push16_reg stack_s (λ c. c.pc); jump_by off; add_cycles_by_mode 7 6

  unfoldable pub jsr : M S ℕ → ℕ → ℕ → M S (Unit {0})
  jsr ea em nm = do at ← ea; push16_reg stack_s (λ c. c.pc); set_pc at; add_cycles_by_mode em nm

  unfoldable pub jmp : M S ℕ → ℕ → ℕ → M S (Unit {0})
  jmp ea em nm = do at ← ea; set_pc at; add_cycles_by_mode em nm

  unfoldable pub rts : M S (Unit {0})
  rts = do pull16_into stack_s (λ n r. record r { pc = n }); add_cycles_by_mode 5 4

  -- The registers that RTI pulls when the E flag of the pulled CC is set.
  unfoldable pub pull_ef : M S (Unit {0})
  pull_ef = do
    n ← native
    when n (do
      pull8_into stack_s (λ n r. record r { e = n })
      pull8_into stack_s (λ n r. record r { f = n }))

  unfoldable pub pull_full_set : M S (Unit {0})
  pull_full_set = do
    pull8_into stack_s (λ n r. record r { a = n })
    pull8_into stack_s (λ n r. record r { b = n })
    pull_ef
    pull8_into stack_s (λ n r. record r { dp = n })
    pull16_into stack_s (λ n r. record r { x = n })
    pull16_into stack_s (λ n r. record r { y = n })
    pull16_into stack_s (λ n r. record r { u = n })
    pull16_into stack_s (λ n r. record r { pc = n })

  unfoldable pub rti : M S (Unit {0})
  rti = do
    cc ← pull8 stack_s
    modify_regs (λ r. record r { cc = cc })
    if has_flag cc_e cc
        then (do pull_full_set; add_cycles_by_mode 15 17)
        else (do pull16_into stack_s (λ n r. record r { pc = n }); add_cycles 6)

  unfoldable pub cwai : M S (Unit {0})
  cwai = do
    bits ← fetch8
    modify_regs (λ r. record r { cc = bit_and r.cc bits })
    push_full_set
    modify (λ c. record c { cwai_pushed_pending = true; wait_sync = true })
    add_cycles_by_mode 22 20

  -- SWI, which also masks both interrupts, SWI2 and SWI3.
  unfoldable pub swi : M S (Unit {0})
  swi = do push_full_set; or_cc mask_both; at ← read16 0xfffa; set_pc at; add_cycles_by_mode 19 21

  unfoldable pub swi_at : ℕ → M S (Unit {0})
  swi_at vector = do push_full_set; at ← read16 vector; set_pc at; add_cycles_by_mode 20 22
