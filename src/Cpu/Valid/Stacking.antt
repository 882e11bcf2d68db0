-- ===== src/Cpu/Valid/Stacking.antt =====
-- The stack instructions, calls and software interrupts.
use pugputer6309_emulator.Base.{
  ℕ, ◌+◌, ◌≤◌, ◌<◌, arith, refl, Bool, true, false, ℤ, bit_test, add_u16-lt, if◌then◌else◌,
}
use pugputer6309_emulator.Base.Bits.{bit_and-lt}
use pugputer6309_emulator.Cpu.Types.{Regs, Callbacks, ReadsBytes, cc_e}
use pugputer6309_emulator.Cpu.Monad.{M, add_cycles}
use pugputer6309_emulator.Cpu.Flags.{has_flag}
use pugputer6309_emulator.Cpu.Memory.{StackPointer, stack_s}
use pugputer6309_emulator.Cpu.Indexed.{rlist_extra_cycles}
use pugputer6309_emulator.Cpu.Interrupts.{mask_both}
use pugputer6309_emulator.Cpu.Handlers
use pugputer6309_emulator.Cpu.Handlers.{other}
use pugputer6309_emulator.Cpu.Valid.Spec.{
  IsValidRegs, Runs, Any, after, ◌▸◌, modify-Runs, modify_regs-Runs, if-Runs, when-Runs,
}
use pugputer6309_emulator.Cpu.Valid.Flags.{native-Runs}
use pugputer6309_emulator.Cpu.Valid.Memory.{
  set_w-valid, set_sp-valid, read16-Runs, fetch8-Runs, rel8-Runs, rel16-Runs, pull8-Runs,
  pull16-Runs,
}
use pugputer6309_emulator.Cpu.Valid.Interrupts.{
  set_pc-Runs, or_cc-Runs, push8_reg-Runs, push16_reg-Runs, push_full_set-Runs,
}
use pugputer6309_emulator.Cpu.Valid.Operands.{
  Executes, Addresses, Small, by_mode, spend, short, at_ea,
}

-- A register list costs at most 12 cycles.
bits_le : (b : Bool) (n k : ℕ) → n ≤ k → (if b then n else 0) ≤ k
bits_le true n k h = h
bits_le false n k h = omega arith

rlist_extra_cycles-le : (pb : ℕ) → rlist_extra_cycles pb ≤ 12
unfolding rlist_extra_cycles
rlist_extra_cycles-le pb = omega (
  arith,
  bits_le (bit_test pb 1) 1 1,
  bits_le (bit_test pb 2) 1 1,
  bits_le (bit_test pb 4) 1 1,
  bits_le (bit_test pb 8) 1 1,
  bits_le (bit_test pb 16) 2 2,
  bits_le (bit_test pb 32) 2 2,
  bits_le (bit_test pb 64) 2 2,
  bits_le (bit_test pb 128) 2 2,
)

module _ {S : Type 0} where
  pub jump_by-Runs : ⦃io : Callbacks S⦄ (off : ℤ) → Runs {S = S} 0 0 Any (Handlers.jump_by off)
  unfolding Handlers.jump_by
  jump_by-Runs off = modify_regs-Runs _ (λ r h. omega (arith, add_u16-lt r.pc off))

module _ {S : Type 0} ⦃io : Callbacks S⦄ where
  push_list-Runs : (sp : StackPointer) (pb : ℕ) → Runs {S = S} 0 0 Any (Handlers.push_list sp pb)
  unfolding Handlers.push_list
  push_list-Runs sp pb =
      when-Runs (bit_test pb 0x80) (push16_reg-Runs sp _)
      ▸ when-Runs (bit_test pb 0x40) (push16_reg-Runs sp _)
      ▸ when-Runs (bit_test pb 0x20) (push16_reg-Runs sp _)
      ▸ when-Runs (bit_test pb 0x10) (push16_reg-Runs sp _)
      ▸ when-Runs (bit_test pb 0x08) (push8_reg-Runs sp _)
      ▸ when-Runs (bit_test pb 0x04) (push8_reg-Runs sp _)
      ▸ when-Runs (bit_test pb 0x02) (push8_reg-Runs sp _)
      ▸ when-Runs (bit_test pb 0x01) (push8_reg-Runs sp _)

  add_list_cycles-Runs : (pb : ℕ) → Runs {S = S} 1 100 Any (Handlers.add_list_cycles pb)
  unfolding Handlers.add_list_cycles
  add_list_cycles-Runs pb = after native-Runs λ n _. cost n
    where
      cost :
          (n : Bool)
          → Runs {S = S} 1 100 Any (add_cycles ((if n then 4 else 5) + rlist_extra_cycles pb))
      cost true = spend _ (omega arith) (omega (arith, rlist_extra_cycles-le pb))
      cost false = spend _ (omega arith) (omega (arith, rlist_extra_cycles-le pb))

  pub psh_w-Runs : (sp : StackPointer) → Executes {S = S} (Handlers.psh_w sp)
  unfolding Handlers.psh_w
  psh_w-Runs sp = short (push16_reg-Runs sp _ ▸ spend 6 (omega arith) (omega arith))

module _ {S : Type 0} ⦃io : Callbacks S⦄ (bytes : ReadsBytes io) where
  pull8_into-Runs :
      (sp : StackPointer) (assign : ℕ → Regs → Regs)
      → ((n : ℕ) (r : Regs) → n < 256 → IsValidRegs r → IsValidRegs (assign n r))
      → Runs {S = S} 0 0 Any (Handlers.pull8_into sp assign)
  unfolding Handlers.pull8_into
  pull8_into-Runs sp assign ok =
      after (pull8-Runs bytes sp) λ n k. modify_regs-Runs _ (λ r h. ok n r k h)

  pull16_into-Runs :
      (sp : StackPointer) (assign : ℕ → Regs → Regs)
      → ((n : ℕ) (r : Regs) → n < 65536 → IsValidRegs r → IsValidRegs (assign n r))
      → Runs {S = S} 0 0 Any (Handlers.pull16_into sp assign)
  unfolding Handlers.pull16_into
  pull16_into-Runs sp assign ok =
      after (pull16-Runs bytes sp) λ n k. modify_regs-Runs _ (λ r h. ok n r k h)

  pull_pc :
      (sp : StackPointer)
      → Runs {S = S} 0 0 Any (Handlers.pull16_into sp (λ n r. record r { pc = n }))
  pull_pc sp = pull16_into-Runs sp _ (λ n r k h. omega arith)

  pull_list-Runs : (sp : StackPointer) (pb : ℕ) → Runs {S = S} 0 0 Any (Handlers.pull_list sp pb)
  unfolding Handlers.pull_list
  pull_list-Runs sp pb =
      when-Runs (bit_test pb 0x01) (pull8_into-Runs sp _ (λ n r k h. omega arith))
      ▸ when-Runs (bit_test pb 0x02) (pull8_into-Runs sp _ (λ n r k h. omega arith))
      ▸ when-Runs (bit_test pb 0x04) (pull8_into-Runs sp _ (λ n r k h. omega arith))
      ▸ when-Runs (bit_test pb 0x08) (pull8_into-Runs sp _ (λ n r k h. omega arith))
      ▸ when-Runs (bit_test pb 0x10) (pull16_into-Runs sp _ (λ n r k h. omega arith))
      ▸ when-Runs (bit_test pb 0x20) (pull16_into-Runs sp _ (λ n r k h. omega arith))
      ▸ when-Runs (bit_test pb 0x40)
          (pull16_into-Runs sp _ (λ n r k h. set_sp-valid (other sp) n r k h))
      ▸ when-Runs (bit_test pb 0x80) (pull_pc sp)

  pub psh-Runs : (sp : StackPointer) → Executes {S = S} (Handlers.psh sp)
  unfolding Handlers.psh
  psh-Runs sp =
      short (after (fetch8-Runs bytes) λ pb _. push_list-Runs sp pb ▸ add_list_cycles-Runs pb)

  pub pul-Runs : (sp : StackPointer) → Executes {S = S} (Handlers.pul sp)
  unfolding Handlers.pul
  pul-Runs sp =
      short (after (fetch8-Runs bytes) λ pb _. pull_list-Runs sp pb ▸ add_list_cycles-Runs pb)

  pub pul_w-Runs : (sp : StackPointer) → Executes {S = S} (Handlers.pul_w sp)
  unfolding Handlers.pul_w
  pul_w-Runs sp =
      short
        (pull16_into-Runs sp _ (λ n r k h. set_w-valid n r h) ▸ spend 6 (omega arith) (omega arith))

  pub lbra-Runs : Executes {S = S} Handlers.lbra
  unfolding Handlers.lbra
  lbra-Runs = short (after (rel16-Runs bytes) λ off _. jump_by-Runs off ▸ by_mode 5 4 (omega arith))

  pub lbsr-Runs : Executes {S = S} Handlers.lbsr
  unfolding Handlers.lbsr
  lbsr-Runs = short (
      after (rel16-Runs bytes)
        λ off _. push16_reg-Runs stack_s _ ▸ jump_by-Runs off ▸ by_mode 9 7 (omega arith))

  pub bsr-Runs : Executes {S = S} Handlers.bsr
  unfolding Handlers.bsr
  bsr-Runs = short (
      after (rel8-Runs bytes)
        λ off _. push16_reg-Runs stack_s _ ▸ jump_by-Runs off ▸ by_mode 7 6 (omega arith))

  pub jsr-Runs :
      {ea : M S ℕ} (em nm : ℕ) → Addresses ea → Small em nm → Executes (Handlers.jsr ea em nm)
  unfolding Handlers.jsr
  jsr-Runs em nm e h =
      at_ea e λ at k. push16_reg-Runs stack_s _ ▸ set_pc-Runs at k ▸ by_mode em nm h

  pub jmp-Runs :
      {ea : M S ℕ} (em nm : ℕ) → Addresses ea → Small em nm → Executes (Handlers.jmp ea em nm)
  unfolding Handlers.jmp
  jmp-Runs em nm e h = at_ea e λ at k. set_pc-Runs at k ▸ by_mode em nm h

  pub rts-Runs : Executes {S = S} Handlers.rts
  unfolding Handlers.rts
  rts-Runs = short (pull_pc stack_s ▸ by_mode 5 4 (omega arith))

  pull_ef-Runs : Runs {S = S} 0 0 Any Handlers.pull_ef
  unfolding Handlers.pull_ef
  pull_ef-Runs = after native-Runs λ n _. when-Runs n (
      pull8_into-Runs stack_s _ (λ n r k h. omega arith)
      ▸ pull8_into-Runs stack_s _ (λ n r k h. omega arith))

  pull_full_set-Runs : Runs {S = S} 0 0 Any Handlers.pull_full_set
  unfolding Handlers.pull_full_set
  pull_full_set-Runs =
      pull8_into-Runs stack_s _ (λ n r k h. omega arith)
      ▸ pull8_into-Runs stack_s _ (λ n r k h. omega arith)
      ▸ pull_ef-Runs
      ▸ pull8_into-Runs stack_s _ (λ n r k h. omega arith)
      ▸ pull16_into-Runs stack_s _ (λ n r k h. omega arith)
      ▸ pull16_into-Runs stack_s _ (λ n r k h. omega arith)
      ▸ pull16_into-Runs stack_s _ (λ n r k h. omega arith)
      ▸ pull_pc stack_s

  pub rti-Runs : Executes {S = S} Handlers.rti
  unfolding Handlers.rti
  rti-Runs = short (
      after (pull8-Runs bytes stack_s) λ cc k.
        modify_regs-Runs _ (λ r h. omega arith)
        ▸ if-Runs (has_flag cc_e cc) (pull_full_set-Runs ▸ by_mode 15 17 (omega arith))
            (pull_pc stack_s ▸ spend 6 (omega arith) (omega arith)))

  pub cwai-Runs : Executes {S = S} Handlers.cwai
  unfolding Handlers.cwai
  cwai-Runs = short (
      after (fetch8-Runs bytes) λ bits _.
        modify_regs-Runs _ (λ r h. omega (arith, bit_and-lt 8 r.cc bits h.cc_fits))
        ▸ push_full_set-Runs
        ▸ modify-Runs (λ c. record c { cwai_pushed_pending = true; wait_sync = true })
            (λ c h. record { regs_fit = h.regs_fit; insn_pc_fits = h.insn_pc_fits })
            (λ c. ground arith) (λ c. refl)
        ▸ by_mode 22 20 (omega arith))

  pub swi-Runs : Executes {S = S} Handlers.swi
  unfolding Handlers.swi
  swi-Runs = short (
      push_full_set-Runs
      ▸ or_cc-Runs mask_both (omega arith)
      ▸ after (read16-Runs bytes 0xfffa) λ at k. set_pc-Runs at k ▸ by_mode 19 21 (omega arith))

  pub swi_at-Runs : (vector : ℕ) → Executes {S = S} (Handlers.swi_at vector)
  unfolding Handlers.swi_at
  swi_at-Runs vector = short (
      push_full_set-Runs
      ▸ after (read16-Runs bytes vector) λ at k. set_pc-Runs at k ▸ by_mode 20 22 (omega arith))
