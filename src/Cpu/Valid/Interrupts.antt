-- ===== src/Cpu/Valid/Interrupts.antt =====
-- Interrupt entry and the traps: what they cost, and that the registers stay valid.
use pugputer6309_emulator.Base.{
  ℕ, ◌≡◌, ◌⊎◌, inl, inr, ◌≤◌, ◌<◌, arith, refl, Bool, true, false, not, if◌then◌else◌,
}
use pugputer6309_emulator.Base.Bits.{bit_or-lt}
use pugputer6309_emulator.Cpu.Types.{
  Cpu, Callbacks, ReadsBytes, StopReason, cc_e, md_illegal, md_divzero,
}
use pugputer6309_emulator.Cpu.Monad.{◌>>=◌, add_cycles}
use pugputer6309_emulator.Cpu.Memory.{StackPointer, stack_s}
use pugputer6309_emulator.Cpu.Interrupts.{
  add_cycles_by_mode, set_pc, or_cc, or_md, push8_reg, push16_reg, push_ef, push_full_set,
  push_partial_set, enter_interrupt, trap, illegal_opcode_trap, division_by_zero_trap, serve_nmi,
  serve_firq, serve_irq, Served, nmi, firq, irq, nothing, serve, mask_both, mask_irq,
}
use pugputer6309_emulator.Cpu.Valid.Spec.{
  IsValid, Ran, Runs, Any, bind, after, ◌▸◌, weaken, pure-Runs, gets-Runs, modify-Runs,
  modify_regs-Runs, add_cycles-Runs, if-Runs, when-Runs,
}
use pugputer6309_emulator.Cpu.Valid.Flags.{set_flag-Runs, native-Runs}
use pugputer6309_emulator.Cpu.Valid.Memory.{read16-Runs, push8-Runs, push16-Runs}

-- Both costs lie between `lo` and `hi`.
abbrev pub Costs : ℕ → ℕ → ℕ → ℕ → Type 0
Costs lo hi em nm = (lo ≤ em) × (em ≤ hi) × (lo ≤ nm) × (nm ≤ hi)

module _ {S : Type 0} where
  pub add_cycles_by_mode-Runs :
      {lo hi : ℕ} (em nm : ℕ)
      → Costs lo hi em nm
      → Runs {S = S} lo hi Any (add_cycles_by_mode em nm)
  unfolding add_cycles_by_mode
  add_cycles_by_mode-Runs {lo} {hi} em nm h = after native-Runs λ n _. spend n
    where
      spend : (n : Bool) → Runs {S = S} lo hi Any (add_cycles (if n then nm else em))
      spend true = weaken h.2 h.3 (add_cycles-Runs nm)
      spend false = weaken h.0 h.1 (add_cycles-Runs em)

  pub set_pc-Runs : (n : ℕ) → n < 65536 → Runs {S = S} 0 0 Any (set_pc n)
  unfolding set_pc
  set_pc-Runs n k = modify_regs-Runs _ (λ r h. omega arith)

  pub or_cc-Runs : (bits : ℕ) → bits < 256 → Runs {S = S} 0 0 Any (or_cc bits)
  unfolding or_cc
  or_cc-Runs bits k = modify_regs-Runs _ (λ r h. omega (arith, bit_or-lt 8 r.cc bits h.cc_fits k))

  or_md-Runs : (bits : ℕ) → bits < 256 → Runs {S = S} 0 0 Any (or_md bits)
  unfolding or_md
  or_md-Runs bits k = modify_regs-Runs _ (λ r h. omega (arith, bit_or-lt 8 r.md bits h.md_fits k))

module _ {S : Type 0} ⦃io : Callbacks S⦄ where
  pub push8_reg-Runs :
      (sp : StackPointer) (reg : Cpu S → ℕ) → Runs {S = S} 0 0 Any (push8_reg sp reg)
  unfolding push8_reg
  push8_reg-Runs sp reg = after {P = Any} (gets-Runs _ (λ c h. tt)) λ v _. push8-Runs sp v

  pub push16_reg-Runs :
      (sp : StackPointer) (reg : Cpu S → ℕ) → Runs {S = S} 0 0 Any (push16_reg sp reg)
  unfolding push16_reg
  push16_reg-Runs sp reg = after {P = Any} (gets-Runs _ (λ c h. tt)) λ v _. push16-Runs sp v

  push_ef-Runs : Runs {S = S} 0 0 Any push_ef
  unfolding push_ef
  push_ef-Runs =
      after native-Runs λ n _. when-Runs n (push8_reg-Runs stack_s _ ▸ push8_reg-Runs stack_s _)

  pub push_full_set-Runs : Runs {S = S} 0 0 Any push_full_set
  unfolding push_full_set
  push_full_set-Runs =
      set_flag-Runs cc_e true
      ▸ push16_reg-Runs stack_s _
      ▸ push16_reg-Runs stack_s _
      ▸ push16_reg-Runs stack_s _
      ▸ push16_reg-Runs stack_s _
      ▸ push8_reg-Runs stack_s _
      ▸ push_ef-Runs
      ▸ push8_reg-Runs stack_s _
      ▸ push8_reg-Runs stack_s _
      ▸ push8_reg-Runs stack_s _

  push_partial_set-Runs : Runs {S = S} 0 0 Any push_partial_set
  unfolding push_partial_set
  push_partial_set-Runs =
      set_flag-Runs cc_e false ▸ push16_reg-Runs stack_s _ ▸ push8_reg-Runs stack_s _

module _ {S : Type 0} ⦃io : Callbacks S⦄ (bytes : ReadsBytes io) where
  enter_interrupt-Runs :
      (vector bits : ℕ) (full : Bool)
      → bits < 256
      → Runs {S = S} 0 0 Any (enter_interrupt vector bits full)
  unfolding enter_interrupt
  enter_interrupt-Runs vector bits full k = after {P = Any} (gets-Runs _ (λ c h. tt)) λ skip _.
      modify-Runs (λ c. record c { cwai_pushed_pending = false })
        (λ c h. record { regs_fit = h.regs_fit; insn_pc_fits = h.insn_pc_fits }) (λ c. ground arith)
        (λ c. refl)
      ▸ when-Runs (not skip) (if-Runs full push_full_set-Runs push_partial_set-Runs)
      ▸ or_cc-Runs bits k
      ▸ after (read16-Runs bytes vector) λ at l. set_pc-Runs at l

  trap-Runs : (cause : ℕ) → cause < 256 → Runs {S = S} 19 21 Any (trap cause)
  unfolding trap
  trap-Runs cause k =
      or_md-Runs cause k
      ▸ enter_interrupt-Runs _ mask_both true (omega arith)
      ▸ modify-Runs (λ c. record c { stop_reason = StopReason.illegal_opcode_trap })
          (λ c h. record { regs_fit = h.regs_fit; insn_pc_fits = h.insn_pc_fits })
          (λ c. ground arith) (λ c. refl)
      ▸ add_cycles_by_mode-Runs 19 21 (omega arith)

  pub illegal_opcode_trap-Runs : Runs {S = S} 19 21 Any illegal_opcode_trap
  unfolding illegal_opcode_trap
  illegal_opcode_trap-Runs = trap-Runs md_illegal (omega arith)

  pub division_by_zero_trap-Runs : Runs {S = S} 19 21 Any division_by_zero_trap
  unfolding division_by_zero_trap
  division_by_zero_trap-Runs = trap-Runs md_divzero (omega arith)

  serve_nmi-Runs : Runs {S = S} 19 21 Any serve_nmi
  unfolding serve_nmi
  serve_nmi-Runs =
      modify-Runs (λ c. record c { nmi_pending = false; wait_sync = false })
        (λ c h. record { regs_fit = h.regs_fit; insn_pc_fits = h.insn_pc_fits }) (λ c. ground arith)
        (λ c. refl)
      ▸ enter_interrupt-Runs _ mask_both true (omega arith)
      ▸ add_cycles_by_mode-Runs 19 21 (omega arith)

  serve_firq-Runs : Runs {S = S} 8 21 Any serve_firq
  unfolding serve_firq
  serve_firq-Runs =
      modify-Runs (λ c. record c { wait_sync = false })
        (λ c h. record { regs_fit = h.regs_fit; insn_pc_fits = h.insn_pc_fits }) (λ c. ground arith)
        (λ c. refl)
      ▸ after {P = Any} (gets-Runs _ (λ c h. tt)) λ full _.
        enter_interrupt-Runs _ mask_both full (omega arith)
        ▸ if-Runs full (add_cycles_by_mode-Runs 19 21 (omega arith))
            (add_cycles_by_mode-Runs 10 8 (omega arith))

  serve_irq-Runs : Runs {S = S} 19 21 Any serve_irq
  unfolding serve_irq
  serve_irq-Runs =
      modify-Runs (λ c. record c { wait_sync = false })
        (λ c h. record { regs_fit = h.regs_fit; insn_pc_fits = h.insn_pc_fits }) (λ c. ground arith)
        (λ c. refl)
      ▸ enter_interrupt-Runs _ mask_irq true (omega arith)
      ▸ add_cycles_by_mode-Runs 19 21 (omega arith)

  -- Serving an interrupt costs at least eight cycles; with nothing pending, nothing happens.
  pub serve-cases :
      (which : Served) (c : Cpu S)
      → IsValid c
      → Ran 8 21 (λ b. b ≡ true) c (serve which c)
        ⊎ ((serve which c).0 ≡ false) × ((serve which c).1 ≡ c)
  unfolding serve ◌>>=◌
  serve-cases nmi c v = inl (
      (weaken (omega arith) (omega arith)
          (bind serve_nmi-Runs λ _ _. pure-Runs {P = λ b. b ≡ true} true refl)).run
        c v)
  serve-cases firq c v = inl (
      (weaken (omega arith) (omega arith)
          (bind serve_firq-Runs λ _ _. pure-Runs {P = λ b. b ≡ true} true refl)).run
        c v)
  serve-cases irq c v = inl (
      (weaken (omega arith) (omega arith)
          (bind serve_irq-Runs λ _ _. pure-Runs {P = λ b. b ≡ true} true refl)).run
        c v)
  serve-cases nothing c v = inr (refl, refl)
