-- ===== src/Cpu/Valid/Special.antt =====
-- The other handlers.
use pugputer6309_emulator.Base.{ℕ, arith, refl, Bool, true, false, if◌then◌else◌}
use pugputer6309_emulator.Base.Bits.{bit_or-lt, bit_and-lt}
use pugputer6309_emulator.Cpu.Types.{Callbacks, ReadsBytes, cc_v, cc_z, cc_n, cc_c}
use pugputer6309_emulator.Cpu.Monad.{M, ◌>>=◌, add_cycles}
use pugputer6309_emulator.Cpu.Registers.{Reg16, reg_code_is_16bit}
use pugputer6309_emulator.Cpu.Handlers
use pugputer6309_emulator.Cpu.Valid.Spec.{
  Runs, Any, bind, after, ◌▸◌, weaken, gets-Runs, modify-Runs, modify_regs-Runs, if-Runs, when-Runs,
}
use pugputer6309_emulator.Cpu.Valid.Flags.{
  set_flag-Runs, set_nz16-Runs, native-Runs, test_condition-Runs, apply_alu8-Runs, apply_alu16-Runs,
  do_daa-Runs,
}
use pugputer6309_emulator.Cpu.Valid.Memory.{
  set_d-valid, set_q-valid, read8-Runs, read16-Runs, write16-Runs, fetch8-Runs, fetch16-Runs,
  rel8-Runs, rel16-Runs,
}
use pugputer6309_emulator.Cpu.Valid.Indexed.{
  get_w-Runs, set16-Runs, get_reg_by_code-Runs, get_reg_raw8-Runs, set_reg_by_code-Runs,
}
use pugputer6309_emulator.Cpu.Valid.Transfer.{
  do_tfr_exg-Runs, do_divd-Runs, do_divq-Runs, do_muld-Runs,
}
use pugputer6309_emulator.Cpu.Valid.Operands.{
  Executes, Addresses, Small, by_mode, spend, short, at_ea, indexed,
}
use pugputer6309_emulator.Cpu.Valid.Stacking.{jump_by-Runs}

module _ {S : Type 0} where
  pub nop-Runs : Executes {S = S} Handlers.nop
  unfolding Handlers.nop
  nop-Runs = short (by_mode 2 1 (omega arith))

  pub sync-Runs : Executes {S = S} Handlers.sync
  unfolding Handlers.sync
  sync-Runs = short (
      modify-Runs (λ c. record c { wait_sync = true })
        (λ c h. record { regs_fit = h.regs_fit; insn_pc_fits = h.insn_pc_fits }) (λ c. ground arith)
        (λ c. refl)
      ▸ by_mode 2 1 (omega arith))

  pub sexw-Runs : Executes {S = S} Handlers.sexw
  unfolding Handlers.sexw
  sexw-Runs = short (
      after get_w-Runs λ w _.
        modify_regs-Runs _ (set_d-valid _)
        ▸ set_nz16-Runs _
        ▸ set_flag-Runs cc_v false
        ▸ spend 4 (omega arith) (omega arith))

  pub sex-Runs : Executes {S = S} Handlers.sex
  unfolding Handlers.sex
  sex-Runs = short (
      modify_regs-Runs _ (λ r h. set_d-valid _ r h)
      ▸ after {P = Any} (gets-Runs _ (λ c h. tt))
          λ d _. set_nz16-Runs d ▸ set_flag-Runs cc_v false ▸ by_mode 2 1 (omega arith))

  pub daa-Runs : Executes {S = S} Handlers.daa
  unfolding Handlers.daa
  daa-Runs = short (do_daa-Runs ▸ by_mode 2 1 (omega arith))

  pub abx-Runs : Executes {S = S} Handlers.abx
  unfolding Handlers.abx
  abx-Runs = short (modify_regs-Runs _ (λ r h. omega arith) ▸ by_mode 3 1 (omega arith))

  pub mul-Runs : Executes {S = S} Handlers.mul
  unfolding Handlers.mul
  mul-Runs = short (
      after {P = Any} (gets-Runs _ (λ c h. tt)) λ result _.
        modify_regs-Runs _ (set_d-valid _)
        ▸ set_flag-Runs cc_z _
        ▸ set_flag-Runs cc_c _
        ▸ by_mode 11 10 (omega arith))

  flags32-Runs : (v : ℕ) → Runs {S = S} 0 0 Any (Handlers.flags32 v)
  unfolding Handlers.flags32
  flags32-Runs v = set_flag-Runs cc_v false ▸ set_flag-Runs cc_z _ ▸ set_flag-Runs cc_n _

module _ {S : Type 0} ⦃io : Callbacks S⦄ (bytes : ReadsBytes io) where
  pub orcc-Runs : Executes {S = S} Handlers.orcc
  unfolding Handlers.orcc
  orcc-Runs = short (
      after (fetch8-Runs bytes) λ m k.
        modify_regs-Runs _ (λ r h. omega (arith, bit_or-lt 8 r.cc m h.cc_fits k))
        ▸ by_mode 3 2 (omega arith))

  pub andcc-Runs : Executes {S = S} Handlers.andcc
  unfolding Handlers.andcc
  andcc-Runs = short (
      after (fetch8-Runs bytes) λ m _.
        modify_regs-Runs _ (λ r h. omega (arith, bit_and-lt 8 r.cc m h.cc_fits))
        ▸ by_mode 3 2 (omega arith))

  pub exg-Runs : Executes {S = S} Handlers.exg
  unfolding Handlers.exg
  exg-Runs =
      short (after (fetch8-Runs bytes) λ pb _. do_tfr_exg-Runs pb true ▸ by_mode 8 5 (omega arith))

  pub tfr-Runs : Executes {S = S} Handlers.tfr
  unfolding Handlers.tfr
  tfr-Runs =
      short (after (fetch8-Runs bytes) λ pb _. do_tfr_exg-Runs pb false ▸ by_mode 6 4 (omega arith))

  pub short_branch-Runs : (opcode : ℕ) → Executes {S = S} (Handlers.short_branch opcode)
  unfolding Handlers.short_branch
  short_branch-Runs opcode = short (
      after (rel8-Runs bytes) λ off _.
        after (test_condition-Runs opcode)
          λ taken _. when-Runs taken (jump_by-Runs off) ▸ spend 3 (omega arith) (omega arith))

  pub long_branch-Runs : (opcode : ℕ) → Executes {S = S} (Handlers.long_branch opcode)
  unfolding Handlers.long_branch
  long_branch-Runs opcode = short (
      after (rel16-Runs bytes) λ off _.
        after (test_condition-Runs opcode)
          λ taken _. when-Runs taken (jump_by-Runs off) ▸ after native-Runs λ n _. cost n taken)
    where
      cost :
          (n taken : Bool)
          → Runs {S = S} 1 100 Any (add_cycles (if n then 5 else (if taken then 6 else 5)))
      cost true taken = spend 5 (omega arith) (omega arith)
      cost false true = spend 6 (omega arith) (omega arith)
      cost false false = spend 5 (omega arith) (omega arith)

  pub lea-Runs : (reg : Reg16) (sets_z : Bool) → Executes {S = S} (Handlers.lea reg sets_z)
  unfolding Handlers.lea
  lea-Runs reg sets_z = at_ea (indexed bytes) λ at k.
      set16-Runs reg at k
      ▸ when-Runs sets_z (set_flag-Runs cc_z _)
      ▸ spend 4 (omega arith) (omega arith)

  pub ldq_imm-Runs : Executes {S = S} Handlers.ldq_imm
  unfolding Handlers.ldq_imm
  ldq_imm-Runs = short (
      after (fetch16-Runs bytes) λ hi _. after (fetch16-Runs bytes) λ lo _.
        flags32-Runs _ ▸ modify_regs-Runs _ (set_q-valid _) ▸ spend 5 (omega arith) (omega arith))

  module _ {ea : M S ℕ} (e : Addresses ea) (em nm : ℕ) (h : Small em nm) where
    pub ldq_at-Runs : Executes (Handlers.ldq_at ea em nm)
    unfolding Handlers.ldq_at
    ldq_at-Runs = at_ea e λ at _. after (read16-Runs bytes at) λ hi _.
        after (read16-Runs bytes _)
          λ lo _. flags32-Runs _ ▸ modify_regs-Runs _ (set_q-valid _) ▸ by_mode em nm h

    pub stq_at-Runs : Executes (Handlers.stq_at ea em nm)
    unfolding Handlers.stq_at
    stq_at-Runs = at_ea e λ at _.
        after {P = Any} (gets-Runs _ (λ c h. tt))
          λ v _. write16-Runs at _ ▸ write16-Runs _ _ ▸ flags32-Runs v ▸ by_mode em nm h

  pub reg_reg-Runs : (opcode : ℕ) → Executes {S = S} (Handlers.reg_reg opcode)
  unfolding Handlers.reg_reg
  reg_reg-Runs opcode = short (
      after (fetch8-Runs bytes) λ pb _.
        if-Runs (reg_code_is_16bit _)
          (after (get_reg_by_code-Runs _) λ left k. after (get_reg_by_code-Runs _) λ right l.
            after (apply_alu16-Runs _ left right k l) λ result m. set_reg_by_code-Runs _ result m)
          (after (get_reg_raw8-Runs _) λ left k. after (get_reg_raw8-Runs _) λ right l.
            after (apply_alu8-Runs _ left right k l)
              λ result m. set_reg_by_code-Runs _ result (omega arith))
        ▸ spend 4 (omega arith) (omega arith))

  pub bitmd-Runs : Executes {S = S} Handlers.bitmd
  unfolding Handlers.bitmd
  bitmd-Runs = short (
      after (fetch8-Runs bytes) λ imm _. after {P = Any} (gets-Runs _ (λ c h. tt)) λ test _.
        set_flag-Runs cc_z _
        ▸ modify_regs-Runs _ (λ r h. omega (arith, bit_and-lt 8 r.md _ h.md_fits))
        ▸ spend 4 (omega arith) (omega arith))

  pub ldmd-Runs : Executes {S = S} Handlers.ldmd
  unfolding Handlers.ldmd
  ldmd-Runs = short (
      after (fetch8-Runs bytes)
        λ v k. modify_regs-Runs _ (λ r h. omega arith) ▸ spend 5 (omega arith) (omega arith))

  -- A division may trap before its own cost is added.
  divides :
      {m n : M S (Unit {0})} → Runs 0 21 Any m → Runs 1 100 Any n → Runs 1 121 Any (m >>= λ _. n)
  divides h g = bind h (λ _ _. g)

  pub divd_imm-Runs : Executes {S = S} Handlers.divd_imm
  unfolding Handlers.divd_imm
  divd_imm-Runs = weaken (omega arith) (omega arith) (
      after (fetch8-Runs bytes)
        λ v _. divides (do_divd-Runs bytes v) (spend 25 (omega arith) (omega arith)))

  pub divq_imm-Runs : Executes {S = S} Handlers.divq_imm
  unfolding Handlers.divq_imm
  divq_imm-Runs = weaken (omega arith) (omega arith) (
      after (fetch16-Runs bytes)
        λ v _. divides (do_divq-Runs bytes v) (spend 34 (omega arith) (omega arith)))

  pub muld_imm-Runs : Executes {S = S} Handlers.muld_imm
  unfolding Handlers.muld_imm
  muld_imm-Runs = short (
      after (fetch16-Runs bytes) λ v _. do_muld-Runs bytes v ▸ spend 28 (omega arith) (omega arith))

  module _ {ea : M S ℕ} (e : Addresses ea) (em nm : ℕ) (h : Small em nm) where
    pub divd_at-Runs : Executes (Handlers.divd_at ea em nm)
    unfolding Handlers.divd_at
    divd_at-Runs = weaken (omega arith) (omega arith) (
        bind e λ at _.
          after (read8-Runs bytes at) λ v _. divides (do_divd-Runs bytes v) (by_mode em nm h))

    pub divq_at-Runs : Executes (Handlers.divq_at ea em nm)
    unfolding Handlers.divq_at
    divq_at-Runs = weaken (omega arith) (omega arith) (
        bind e λ at _.
          after (read16-Runs bytes at) λ v _. divides (do_divq-Runs bytes v) (by_mode em nm h))

    pub muld_at-Runs : Executes (Handlers.muld_at ea em nm)
    unfolding Handlers.muld_at
    muld_at-Runs =
        at_ea e λ at _. after (read16-Runs bytes at) λ v _. do_muld-Runs bytes v ▸ by_mode em nm h
