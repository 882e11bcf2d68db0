-- ===== src/Cpu/Valid/Transfer.antt =====
-- TFR, EXG, TFM, the bit instructions and the divisions.
use pugputer6309_emulator.Base.{
  ℕ, zero, suc, ◌+◌, ◌*◌, ◌<◌, arith, Bool, true, false, not, ◌&&◌, ◌==◌, ℤ, add_u16, add_u16-lt,
  u8_ℤ-lt, if_both,
}
use pugputer6309_emulator.Cpu.Types.{Regs, Callbacks, ReadsBytes, cc_c, cc_v, cc_z, cc_n}
use pugputer6309_emulator.Cpu.Transfer.{
  do_tfr_exg, unmasked, tfm_round, tfm_loop, do_tfm, set_bit_reg, put_bit, do_bitbit, do_divd,
  do_divq, do_muld,
}
use pugputer6309_emulator.Cpu.Valid.Spec.{
  IsValidRegs, Runs, Lt, Any, bind, after, ◌▸◌, weaken, pure-Runs, gets-Runs, modify_regs-Runs,
  add_cycles-Runs, if-Runs, when-Runs,
}
use pugputer6309_emulator.Cpu.Valid.Flags.{set_flag-Runs, set_nz8-Runs, set_nz16-Runs}
use pugputer6309_emulator.Cpu.Valid.Memory.{
  set_d-valid, set_w-valid, set_q-valid, read8-Runs, write8-Runs, fetch8-Runs, ea_direct-Runs,
}
use pugputer6309_emulator.Cpu.Valid.Indexed.{get_reg_by_code-Runs, set_reg_by_code-Runs, get_w-Runs}
use pugputer6309_emulator.Cpu.Valid.Interrupts.{
  add_cycles_by_mode-Runs, set_pc-Runs, division_by_zero_trap-Runs,
}

module _ {S : Type 0} where
  pub do_tfr_exg-Runs : (pb : ℕ) (is_exg : Bool) → Runs {S = S} 0 0 Any (do_tfr_exg pb is_exg)
  unfolding do_tfr_exg
  do_tfr_exg-Runs pb is_exg = after (get_reg_by_code-Runs _) λ sv k.
      if-Runs is_exg
        (after (get_reg_by_code-Runs _)
          λ dv l. set_reg_by_code-Runs _ sv k ▸ set_reg_by_code-Runs _ dv l)
        (set_reg_by_code-Runs _ sv k)

module _ {S : Type 0} ⦃io : Callbacks S⦄ where
  tfm_round-Runs :
      (src dst sp dp left : ℕ)
      → sp < 65536
      → dp < 65536
      → Runs {S = S} 0 3 Any (tfm_round src dst sp dp left)
  unfolding tfm_round
  tfm_round-Runs src dst sp dp left h k = weaken (omega arith) (omega arith) (
      bind (add_cycles-Runs 3) λ _ _.
        set_reg_by_code-Runs src sp h
        ▸ set_reg_by_code-Runs dst dp k
        ▸ modify_regs-Runs _ (set_w-valid left))

module _ {S : Type 0} ⦃io : Callbacks S⦄ (bytes : ReadsBytes io) where
  -- A transfer costs at most three cycles for each byte that is left.
  tfm_loop-Runs :
      (src dst : ℕ) (d e : ℤ) (count sp dp : ℕ)
      → Runs {S = S} 0 (count * 3) Any (tfm_loop src dst d e count sp dp)
  unfolding tfm_loop
  tfm_loop-Runs src dst d e zero sp dp = pure-Runs false tt
  tfm_loop-Runs src dst d e (suc left) sp dp = after (read8-Runs bytes sp) λ v _.
      write8-Runs dp v
      ▸ weaken (omega arith) (omega arith) (
          bind
            (tfm_round-Runs src dst (add_u16 sp d) (add_u16 dp e) left (add_u16-lt sp d)
              (add_u16-lt dp e))
            λ _ _. after {P = Any} (gets-Runs unmasked (λ c h. tt)) λ stop _.
              if-Runs (not (left == 0) && stop)
                (weaken (omega arith) (omega arith) (pure-Runs true tt))
                (tfm_loop-Runs src dst d e left (add_u16 sp d) (add_u16 dp e)))

  pub do_tfm-Runs : (opcode : ℕ) → Runs {S = S} 1 200000 Any (do_tfm opcode)
  unfolding do_tfm
  do_tfm-Runs opcode = after (fetch8-Runs bytes) λ pb _. after (get_reg_by_code-Runs _) λ sp _.
      after (get_reg_by_code-Runs _) λ dp _. after get_w-Runs λ count k.
        weaken {lo = 6} {hi = 6 + (count * 3 + 0)} (omega arith) (omega arith) (
          bind (add_cycles-Runs 6) λ _ _. bind (tfm_loop-Runs _ _ _ _ count sp dp) λ stop _.
            after {P = Lt 65536} (gets-Runs _ (λ c h. h.insn_pc_fits))
              λ at l. when-Runs stop (set_pc-Runs at l))

  put_bit-lt : (at : ℕ) (v : Bool) (word : ℕ) → put_bit at v word < 256
  unfolding put_bit
  put_bit-lt at v word = omega arith

  set_bit_reg-valid :
      (sel n : ℕ) (r : Regs) → n < 256 → IsValidRegs r → IsValidRegs (set_bit_reg sel n r)
  unfolding set_bit_reg
  set_bit_reg-valid sel n r k h =
      if_both IsValidRegs (sel == 1) (omega arith)
        (if_both IsValidRegs (sel == 2) (omega arith) (omega arith))

  pub do_bitbit-Runs : (opcode : ℕ) → Runs {S = S} 1 200000 Any (do_bitbit opcode)
  unfolding do_bitbit
  do_bitbit-Runs opcode = after (fetch8-Runs bytes) λ pb _. after (ea_direct-Runs bytes) λ addr _.
      after (read8-Runs bytes addr) λ mem _. after {P = Any} (gets-Runs _ (λ c h. tt)) λ word _.
        if-Runs (opcode == 0x1137) (write8-Runs addr _ ▸ add_cycles_by_mode-Runs 8 7 (omega arith))
          (modify_regs-Runs _ (λ r h. set_bit_reg-valid _ _ r (put_bit-lt _ _ _) h)
            ▸ add_cycles_by_mode-Runs 7 6 (omega arith))

  pub do_divd-Runs : (n : ℕ) → Runs {S = S} 0 21 Any (do_divd n)
  unfolding do_divd
  do_divd-Runs n =
      if-Runs (n == 0) (weaken (omega arith) (omega arith) (division_by_zero_trap-Runs bytes)) (
        weaken (omega arith) (omega arith) (
          after {P = Any} (gets-Runs _ (λ c h. tt)) λ dividend _.
            modify_regs-Runs _ (λ r h. omega (arith, u8_ℤ-lt))
            ▸ set_flag-Runs cc_v _
            ▸ set_flag-Runs cc_c false
            ▸ set_nz8-Runs _))

  pub do_divq-Runs : (n : ℕ) → Runs {S = S} 0 21 Any (do_divq n)
  unfolding do_divq
  do_divq-Runs n =
      if-Runs (n == 0) (weaken (omega arith) (omega arith) (division_by_zero_trap-Runs bytes)) (
        weaken (omega arith) (omega arith) (
          after {P = Any} (gets-Runs _ (λ c h. tt)) λ dividend _.
            modify_regs-Runs _ (λ r h. set_w-valid _ _ (set_d-valid _ r h))
            ▸ set_flag-Runs cc_v _
            ▸ set_flag-Runs cc_c false
            ▸ after {P = Any} (gets-Runs _ (λ c h. tt)) λ d _. set_nz16-Runs d))

  pub do_muld-Runs : (n : ℕ) → Runs {S = S} 0 0 Any (do_muld n)
  unfolding do_muld
  do_muld-Runs n = after {P = Any} (gets-Runs _ (λ c h. tt)) λ a _.
      modify_regs-Runs _ (set_q-valid _)
      ▸ set_flag-Runs cc_n _
      ▸ set_flag-Runs cc_z _
      ▸ set_flag-Runs cc_v false
      ▸ set_flag-Runs cc_c false
